-- ===== src/Journal/Logged.antt =====
-- The phases of journal_commit (kernel/journal.c) that write to the journal, on a device that works.
use aurora_os_live.Base.{
  ℕ, ◌+◌, ◌-◌, ◌*◌, ◌^◌, ◌≤◌, ◌<◌, ◌≡◌, ◌≢◌, ◌⊎◌, inl, inr, refl, ap, ◌∙◌, true, false, some, List,
  [], ◌∷◌, ◌++◌, length, length-append, length-tabulate, tabulate, arith,
}
use aurora_os_live.Journal.{Driver, Journal, Machine, add_u64, journal_write_block, log_data}
use aurora_os_live.Journal.Layout.{
  desc_header, data_blocks, desc_block, commit_record, commit_block,
}
use aurora_os_live.Journal.Commit.{log_commit, log_transaction}
use aurora_os_live.Journal.Store.{BlockStore, IsPlaced, Wrote, Wrote-then, AreBlocks, Misses}
use aurora_os_live.Journal.Effects.{
  placed_from, length-in_block, journal_write_block_lem, add_offset, log_data_lem,
}

-- A block of the device that is not in the journal's area.
abbrev pub Outside : Journal → ℕ → Type 0
Outside j b = (b < j.journal_start) ⊎ (j.journal_start + j.journal_blocks ≤ b)

-- A transaction of `count` blocks fits between the head and the end of the area.
pub record HasRoom (j : Journal) : Type 0 where
  pub started : 1 ≤ j.tail
  pub ordered : j.tail ≤ j.head
  pub room : j.head + length j.txn + 2 < j.journal_blocks

-- A transaction in progress, with whole blocks for file system blocks below `n`.
pub record IsOpen {D : Type 0} (dev : Driver D) (spb n : ℕ) (j : Journal) : Type 0 where
  pub place : IsPlaced dev spb j
  pub initialized : j.initialized ≡ true
  pub active : j.in_transaction ≡ true
  pub on_device : n * spb ≤ dev.bdev.total_sectors
  pub small : n * spb ≤ 2 ^ 32
  pub record_fits : 32 ≤ j.block_size
  pub blocks : AreBlocks j.block_size n j.txn

-- What phases 1 to 3 write.
abbrev pub logged : (ℕ → ℕ) → ℕ → Journal → List (ℕ × List ℕ)
logged stack seq j =
    (j.journal_start + j.head, desc_block j.block_size seq j.txn)
    ∷ (placed_from (j.journal_start + (j.head + 1)) j.txn
        ++ (j.journal_start + (j.head + (1 + length j.txn)), commit_block stack j.block_size seq)
          ∷ [])

-- The journal after a commit.
abbrev pub committed : Journal → Journal
committed j = record j {
  head = j.head + length j.txn + 2;
  sequence = add_u64 j.sequence 1;
  in_transaction = false;
  txn_capacity = 0;
  txn = [];
  dirty = false;
}

pub length-desc_block :
    (size seq : ℕ) (txn : List (ℕ × List ℕ)) → length (desc_block size seq txn) ≡ size
unfolding desc_block
length-desc_block size seq txn =
    length-in_block size (desc_header seq (length txn) ++ data_blocks txn)

pub length-commit_record : (seq : ℕ) → length (commit_record seq) ≡ 32
unfolding commit_record
length-commit_record seq = refl

pub length-commit_block :
    (stack : ℕ → ℕ) (size seq : ℕ) → 32 ≤ size → length (commit_block stack size seq) ≡ size
unfolding commit_block
length-commit_block stack size seq h =
    length-append (commit_record seq) (tabulate stack (size - length (commit_record seq)))
    ∙ omega
        (arith, length-tabulate stack (size - length (commit_record seq)), length-commit_record seq)

pub Misses-append :
    (b : ℕ) (ws us : List (ℕ × List ℕ)) → Misses b ws → Misses b us → Misses b (ws ++ us)
Misses-append b [] us h k = k
Misses-append b ((c, buf) ∷ ws) us h k = (h.0, Misses-append b ws us h.1 k)

pub Misses-placed_from :
    (b at : ℕ) (txn : List (ℕ × List ℕ))
    → (b < at) ⊎ (at + length txn ≤ b)
    → Misses b (placed_from at txn)
Misses-placed_from b at [] h = tt
Misses-placed_from b at ((c, buf) ∷ txn) (inl h) =
    (λ e. omega arith, Misses-placed_from b (at + 1) txn (inl (omega arith)))
Misses-placed_from b at ((c, buf) ∷ txn) (inr h) =
    (λ e. omega arith, Misses-placed_from b (at + 1) txn (inr (omega arith)))

pub off_area :
    (j : Journal) (b at : ℕ) → at < j.journal_blocks → Outside j b → j.journal_start + at ≢ b
off_area j b at h (inl o) e = omega arith
off_area j b at h (inr o) e = omega arith

beside :
    (j : Journal) (b at n : ℕ)
    → at + n ≤ j.journal_blocks
    → Outside j b
    → (b < j.journal_start + at) ⊎ (j.journal_start + at + n ≤ b)
beside j b at n h (inl o) = inl (omega arith)
beside j b at n h (inr o) = inr (omega arith)

pub Misses-logged :
    (stack : ℕ → ℕ) (seq : ℕ) (j : Journal) (b : ℕ)
    → HasRoom j
    → Outside j b
    → Misses b (logged stack seq j)
Misses-logged stack seq j b r o = (
  off_area j b j.head (omega (arith, r.room)) o,
  Misses-append b (placed_from (j.journal_start + (j.head + 1)) j.txn) _
      (Misses-placed_from b (j.journal_start + (j.head + 1)) j.txn
        (beside j b (j.head + 1) (length j.txn) (omega (arith, r.room)) o))
      (off_area j b (j.head + (1 + length j.txn)) (omega (arith, r.room)) o, tt),
)

module _ {D : Type 0} (dev : Driver D) (spb : ℕ) (st : BlockStore dev spb) where
  log_transaction-some :
      (stack : ℕ → ℕ) (seq : ℕ) (m m' : Machine D)
      → journal_write_block dev m.journal.head (desc_block m.journal.block_size seq m.journal.txn) m
        ≡ some m'
      → log_transaction dev stack seq m
        ≡ log_commit dev stack seq m.journal
            (log_data dev (add_u64 m.journal.head 1) m.journal.txn m')
  unfolding log_transaction
  log_transaction-some stack seq m m' e = rw (log_transaction, e) refl

  log_commit-some :
      (stack : ℕ → ℕ) (seq : ℕ) (j : Journal) (m m' : Machine D)
      → journal_write_block dev
          (add_u64 j.head (1 + length j.txn))
          (commit_block stack j.block_size seq)
          m
        ≡ some m'
      → log_commit dev stack seq j (m, true) ≡ (m', true)
  unfolding log_commit
  log_commit-some stack seq j m m' e = rw (log_commit, e) refl

  -- Phases 1 to 3 succeed, and write what `logged` lists.
  pub log_transaction_lem :
      (stack : ℕ → ℕ) (n seq : ℕ) (m : Machine D)
      → IsOpen dev spb n m.journal
      → st.Good m.disk
      → HasRoom m.journal
      → (d : D) × (log_transaction dev stack seq m ≡ (record m { disk = d }, true))
        × Wrote dev spb st (logged stack seq m.journal) m.disk d
  log_transaction_lem stack n seq m o g r =
      let j = m.journal in
      let desc =
        journal_write_block_lem dev spb st m j.head (desc_block j.block_size seq j.txn) o.place g
          (omega (arith, r.room)) (length-desc_block j.block_size seq j.txn) in
      let m1 : Machine D = record m { disk = desc.0 } in
      let one = add_offset dev spb st j j.head 1 o.place (omega (arith, r.room)) in
      let body =
        log_data_lem dev spb st n (j.head + 1) j.txn m1 o.place desc.2.good (omega (arith, r.room))
          o.blocks in
      let m2 : Machine D = record m { disk = body.0 } in
      let last : add_u64 j.head (1 + length j.txn) ≡ j.head + (1 + length j.txn) =
        add_offset dev spb st j j.head (1 + length j.txn) o.place (omega (arith, r.room)) in
      let end =
        journal_write_block_lem dev spb st m2 (j.head + (1 + length j.txn))
          (commit_block stack j.block_size seq) o.place body.2.good (omega (arith, r.room))
          (length-commit_block stack j.block_size seq o.record_fits) in
      let eq : log_transaction dev stack seq m ≡ (record m { disk = end.0 }, true) =
        log_transaction-some stack seq m m1 desc.1
        ∙ ap (log_commit dev stack seq j) (ap (λ k. log_data dev k j.txn m1) one ∙ body.1)
        ∙ log_commit-some stack seq j m2 _ (
            ap (λ k. journal_write_block dev k (commit_block stack j.block_size seq) m2) last
            ∙ end.1) in
      (
        end.0,
        eq,
        Wrote-then dev spb st (_ ∷ []) _ desc.2 (Wrote-then dev spb st _ (_ ∷ []) body.2 end.2),
      )
