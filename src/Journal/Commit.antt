-- ===== src/Journal/Commit.antt =====
-- journal_commit and journal_rollback of kernel/journal.c.
use aurora_os_live.Base.{
  ℕ, ◌+◌, ◌*◌, ◌%◌, ◌^◌, Bool, true, false, not, ◌||◌, Option, none, some, List, [], ◌∷◌, ◌==◌,
  if◌then◌else◌, length,
}
use aurora_os_live.Base.Int.{ℤ, pos, minus_one}
use aurora_os_live.Journal.{
  Driver, Journal, Machine, add_u64, free_transaction, sectors_per_block, write_sectors,
  journal_write_block, called, write_jsb, advance_head, log_data,
}
use aurora_os_live.Journal.Layout.{desc_block, commit_block}

module _ {D : Type 0} where
  abbrev pub dropped : Machine D → Machine D
  dropped m = record m { journal = free_transaction m.journal }

  abbrev pub or_fail :
      Machine D × Bool → (Machine D → Option (Machine D × ℤ)) → Option (Machine D × ℤ)
  or_fail (m, true) f = f m
  or_fail (m, false) f = some (dropped m, minus_one)

  unfoldable pub journal_rollback : Machine D → Machine D × ℤ
  journal_rollback m =
      if not m.journal.initialized || not m.journal.in_transaction
      then (m, minus_one)
      else (dropped m, pos 0)

module _ {D : Type 0} (dev : Driver D) where
  -- Phase 4: the data to their places in the file system. The sector is a product of 32-bit words.
  unfoldable pub checkpoint : List (ℕ × List ℕ) → Machine D → Machine D × Bool
  checkpoint [] m = (m, true)
  checkpoint ((fs_block, content) ∷ txn) m =
      elim (write_sectors dev m content (fs_block * sectors_per_block dev m.journal % 2 ^ 32)) [
        | none ↦ (m, false)
        | some m' ↦ checkpoint txn m'
      ]

module _ {D : Type 0} (dev : Driver D) (stack : ℕ → ℕ) where
  -- Phase 3, where phases 1 and 2 have not failed.
  unfoldable pub log_commit : ℕ → Journal → Machine D × Bool → Machine D × Bool
  log_commit seq j (m, false) = (m, false)
  log_commit seq j (m, true) =
      elim (journal_write_block dev (add_u64 j.head (1 + length j.txn))
        (commit_block stack j.block_size seq) m) [ none ↦ (m, false) | some m' ↦ (m', true) ]

  -- Phases 1 to 3: the descriptor, the data and the commit record, from the head on.
  unfoldable pub log_transaction : ℕ → Machine D → Machine D × Bool
  log_transaction seq m =
      let j = m.journal in
      elim (journal_write_block dev j.head (desc_block j.block_size seq j.txn) m) [
        | none ↦ (m, false)
        | some m' ↦ log_commit seq j (log_data dev (add_u64 j.head 1) j.txn m')
      ]

module _ {D : Type 0} (dev : Driver D) (kmalloc : ℕ → Bool) where
  -- Phase 5.
  unfoldable pub finish_commit : Machine D → Option (Machine D × ℤ)
  finish_commit m = elim (advance_head dev kmalloc (2 + length m.journal.txn) m) [
    | none ↦ none
    | some m' ↦ some (
      dropped
          (write_jsb dev kmalloc (record m' { journal = record m'.journal { dirty = false } })).0,
      pos 0,
    )
  ]

  abbrev pub marked_dirty : Machine D → Machine D
  marked_dirty m =
      (write_jsb dev kmalloc (record (called m) {
        journal = record m.journal { sequence = add_u64 m.journal.sequence 1; dirty = true };
      })).0

module _ {D : Type 0} (dev : Driver D) (kmalloc : ℕ → Bool) (stack : ℕ → ℕ) where
  unfoldable pub journal_commit : Machine D → Option (Machine D × ℤ)
  journal_commit m =
      if not m.journal.initialized || not m.journal.in_transaction
      then some (m, minus_one)
      else if length m.journal.txn == 0
      then some (dropped m, pos 0)
      else if kmalloc m.calls
      then or_fail (log_transaction dev stack m.journal.sequence (marked_dirty dev kmalloc m))
          (λ m1. or_fail (checkpoint dev m1.journal.txn m1) (finish_commit dev kmalloc))
      else some (
        dropped (record (called m) {
          journal = record m.journal { sequence = add_u64 m.journal.sequence 1 };
        }),
        minus_one,
      )
