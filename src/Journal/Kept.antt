-- ===== src/Journal/Kept.antt =====
-- The variables of kernel/journal.c across its writes to the device.
use aurora_os_live.Base.{
  ℕ, ◌+◌, ◌*◌, ◌%◌, ◌^◌, ◌≡◌, inl, inr, refl, ◌∙◌, Bool, true, false, Option, List, [], ◌∷◌, length,
  Bool-cases, Option-cases, IfReturns, IfReturns_some,
}
use aurora_os_live.Block.{block_dev_write}
use aurora_os_live.Journal.{
  Driver, Journal, Machine, add_u64, to_int, sectors_per_block, journal_sector, journal_write_block,
  write_sectors, called, jsb_block, write_jsb, log_data,
}
use aurora_os_live.Journal.Layout.{desc_block, commit_block}
use aurora_os_live.Journal.Commit.{checkpoint, log_commit, log_transaction}

module _ {D : Type 0} (dev : Driver D) where
  abbrev KeepsJournal : Machine D → Option (Machine D) → Type 0
  KeepsJournal m o = IfReturns o (λ m'. m'.journal ≡ m.journal)

  write_sectors-KeepsJournal :
      (m : Machine D) (buf : List ℕ) (sector : ℕ) → KeepsJournal m (write_sectors dev m buf sector)
  unfolding write_sectors
  write_sectors-KeepsJournal m buf sector =
      elim (Option-cases (
        block_dev_write dev.bdev (dev.write m.disk) buf sector
          (to_int (sectors_per_block dev m.journal)))) [
            | inl e ↦ rw (write_sectors, e) tt
            | inr (d, e) ↦ rw (write_sectors, e) refl
          ]

  journal_write_block-KeepsJournal :
      (at : ℕ) (buf : List ℕ) (m : Machine D) → KeepsJournal m (journal_write_block dev at buf m)
  unfolding journal_write_block
  journal_write_block-KeepsJournal at buf m =
      write_sectors-KeepsJournal m buf (journal_sector dev m.journal at)

  pub write_jsb_kept :
      (kmalloc : ℕ → Bool) (m : Machine D) → (write_jsb dev kmalloc m).0.journal ≡ m.journal
  unfolding write_jsb
  write_jsb_kept kmalloc m = elim (Bool-cases (kmalloc m.calls)) [
    | inl k ↦ elim (Option-cases (journal_write_block dev 0 (jsb_block m.journal) (called m))) [
      | inl e ↦ rw (k, write_jsb, e) refl
      | inr (m', e) ↦
          rw (k, write_jsb, e)
            (IfReturns_some (journal_write_block dev 0 (jsb_block m.journal) (called m))
              (λ x. x.journal ≡ m.journal) m'
              (journal_write_block-KeepsJournal 0 (jsb_block m.journal) (called m)) e)
    ]
    | inr k ↦ rw k refl
  ]

  pub log_data_kept :
      (at : ℕ) (txn : List (ℕ × List ℕ)) (m : Machine D)
      → (log_data dev at txn m).0.journal ≡ m.journal
  unfolding log_data
  log_data_kept at [] m = refl
  log_data_kept at ((b, buf) ∷ txn) m = elim (Option-cases (journal_write_block dev at buf m)) [
    | inl e ↦ rw (log_data, e) refl
    | inr (m', e) ↦
        rw (log_data, e)
          (log_data_kept (add_u64 at 1) txn m'
            ∙ IfReturns_some (journal_write_block dev at buf m) (λ x. x.journal ≡ m.journal) m'
                (journal_write_block-KeepsJournal at buf m) e)
  ]

  pub checkpoint_kept :
      (txn : List (ℕ × List ℕ)) (m : Machine D) → (checkpoint dev txn m).0.journal ≡ m.journal
  unfolding checkpoint
  checkpoint_kept [] m = refl
  checkpoint_kept ((b, buf) ∷ txn) m =
      let sector = b * sectors_per_block dev m.journal % 2 ^ 32 in
      elim (Option-cases (write_sectors dev m buf sector)) [
        | inl e ↦ rw (checkpoint, e) refl
        | inr (m', e) ↦
            rw (checkpoint, e)
              (checkpoint_kept txn m'
                ∙ IfReturns_some (write_sectors dev m buf sector) (λ x. x.journal ≡ m.journal) m'
                    (write_sectors-KeepsJournal m buf sector) e)
      ]

  pub log_commit_kept :
      (stack : ℕ → ℕ) (seq : ℕ) (j : Journal) (r : Machine D × Bool)
      → (log_commit dev stack seq j r).0.journal ≡ r.0.journal
  unfolding log_commit
  log_commit_kept stack seq j (m, false) = refl
  log_commit_kept stack seq j (m, true) =
      let w =
        journal_write_block dev (add_u64 j.head (1 + length j.txn))
          (commit_block stack j.block_size seq) m in
      elim (Option-cases w) [
        | inl e ↦ rw (log_commit, e) refl
        | inr (m', e) ↦
            rw (log_commit, e)
              (IfReturns_some w (λ x. x.journal ≡ m.journal) m'
                (journal_write_block-KeepsJournal (add_u64 j.head (1 + length j.txn))
                  (commit_block stack j.block_size seq) m)
                e)
      ]

  pub log_transaction_kept :
      (stack : ℕ → ℕ) (seq : ℕ) (m : Machine D)
      → (log_transaction dev stack seq m).0.journal ≡ m.journal
  unfolding log_transaction
  log_transaction_kept stack seq m =
      let j = m.journal in
      let w = journal_write_block dev j.head (desc_block j.block_size seq j.txn) m in
      elim (Option-cases w) [
        | inl e ↦ rw (log_transaction, e) refl
        | inr (m', e) ↦
            rw (log_transaction, e)
              (log_commit_kept stack seq j (log_data dev (add_u64 j.head 1) j.txn m')
                ∙ log_data_kept (add_u64 j.head 1) j.txn m'
                ∙ IfReturns_some w (λ x. x.journal ≡ j) m'
                    (journal_write_block-KeepsJournal j.head (desc_block j.block_size seq j.txn) m)
                    e)
      ]
