-- ===== src/Journal/Ends.antt =====
-- The loop of advance_head and the stages of journal_commit (kernel/journal.c), on any device.
use aurora_os_live.Base.{
  ℕ, zero, suc, ◌+◌, ◌-◌, ◌^◌, ◌≤◌, ◌<◌, ◌≡◌, inl, inr, refl, sym, ◌∙◌, Bool, true, false, Option,
  none, some, List, [], leb, ◌==◌, ==_iff, ◌≢◌, length, Ensures, Bool-cases, Option-cases, arith,
}
use mathlib.Core.Path.{subst}
use aurora_os_live.Base.Int.{ℤ}
use aurora_os_live.Journal.{
  Driver, Journal, Machine, add_u64, free_transaction, journal_read_block, called, with_tail,
  evicted, evict, advance_head,
}
use aurora_os_live.Journal.Layout.{word_at, journal_magic_desc}
use aurora_os_live.Journal.Commit.{
  or_fail, checkpoint, log_transaction, finish_commit, marked_dirty, journal_commit,
}
use aurora_os_live.Journal.Durable.{commit_open}
use aurora_os_live.Journal.Kept.{write_jsb_kept, checkpoint_kept, log_transaction_kept}

-- No block that the journal can read now is a descriptor that claims 2 ^ 32 - 2 blocks: with the descriptor and
-- the commit record, that is 0 in 32 bits.
abbrev pub SaneCounts : {D : Type 0} → Driver D → Machine D → Type 0
SaneCounts dev m =
    (at : ℕ) (buf : List ℕ)
    → journal_read_block dev at m ≡ some buf
    → word_at 0 4 buf ≡ journal_magic_desc
    → word_at 12 4 buf ≢ 2 ^ 32 - 2

evicted_bounds :
    (o : Option (List ℕ))
    → ((buf : List ℕ)
        → o ≡ some buf
        → word_at 0 4 buf ≡ journal_magic_desc
        → word_at 12 4 buf ≢ 2 ^ 32 - 2)
    → (1 ≤ evicted o) × (evicted o < 2 ^ 32)
evicted_bounds none h = omega arith
evicted_bounds (some buf) h = elim (Bool-cases (word_at 0 4 buf == journal_magic_desc)) [
  | inl desc ↦
      let other : word_at 12 4 buf ≢ 2 ^ 32 - 2 = h buf refl ((==_iff _ _).0 desc) in
      rw desc (omega (arith, other))
  | inr other ↦ rw other (omega arith)
]

module _ {D : Type 0} (dev : Driver D) where
  SaneCounts-called :
      (m : Machine D) (n : ℕ) → SaneCounts dev m → SaneCounts dev (with_tail (called m) n)
  unfolding journal_read_block
  SaneCounts-called m n s = s

  SaneCounts-head :
      (m : Machine D) (n : ℕ)
      → SaneCounts dev m
      → SaneCounts dev (record m { journal = record m.journal { head = n } })
  unfolding journal_read_block
  SaneCounts-head m n s = s

  evict_room :
      (kmalloc : ℕ → Bool) (fuel : ℕ) (m : Machine D)
      → leb (add_u64 m.journal.tail (add_u64 m.journal.journal_blocks (2 ^ 64 - 1))) m.journal.head
        ≡ false
      → Ensures (evict dev kmalloc (suc fuel) m) (λ m'. Unit {0})
  unfolding evict
  evict_room kmalloc fuel m room = rw room tt

  evict_rest :
      (kmalloc : ℕ → Bool) (fuel : ℕ) (m : Machine D)
      → leb (add_u64 m.journal.tail (add_u64 m.journal.journal_blocks (2 ^ 64 - 1))) m.journal.head
        ≡ true
      → Ensures
          (evict dev kmalloc fuel (
            with_tail (called m) (
              add_u64 m.journal.tail (evicted (journal_read_block dev m.journal.tail (called m))))))
          (λ m'. Unit {0})
      → Ensures (evict dev kmalloc (suc fuel) m) (λ m'. Unit {0})
  unfolding evict
  evict_rest kmalloc fuel m full h = elim (Bool-cases (kmalloc m.calls)) [
    | inl k ↦ rw (full, k) h
    | inr k ↦ rw (full, k) tt
  ]

  evict_total :
      (kmalloc : ℕ → Bool) (fuel : ℕ) (m : Machine D)
      → SaneCounts dev m
      → m.journal.head < fuel + m.journal.tail
      → 0 < fuel
      → m.journal.head < 2 ^ 62
      → m.journal.tail < 2 ^ 63
      → 1 < m.journal.journal_blocks
      → m.journal.journal_blocks < 2 ^ 62
      → Ensures (evict dev kmalloc fuel m) (λ m'. Unit {0})
  evict_total kmalloc zero m v h z a b c w = absurd (omega arith)
  evict_total kmalloc (suc fuel) m v h z a b c w =
      let j = m.journal in
      let usable : add_u64 j.journal_blocks (2 ^ 64 - 1) ≡ j.journal_blocks - 1 = omega arith in
      let o = journal_read_block dev j.tail (called m) in
      let skip = evicted o in
      let s = evicted_bounds o (SaneCounts-called m j.tail v j.tail) in
      elim (Bool-cases (leb (add_u64 j.tail (add_u64 j.journal_blocks (2 ^ 64 - 1))) j.head)) [
        | inl full ↦
            let low : j.tail < j.head = ground (arith, full, usable) in
            let next : add_u64 j.tail skip ≡ j.tail + skip = omega (arith, s) in
            evict_rest kmalloc fuel m full (
              evict_total kmalloc fuel (with_tail (called m) (add_u64 j.tail skip))
                (SaneCounts-called m (add_u64 j.tail skip) v) (omega (arith, s)) (omega arith) a
                (omega (arith, s)) c w)
        | inr room ↦ evict_room kmalloc fuel m room
      ]

  advance_head_total :
      (kmalloc : ℕ → Bool) (n : ℕ) (m : Machine D)
      → SaneCounts dev m
      → m.journal.head + n < 2 ^ 62
      → m.journal.tail < 2 ^ 63
      → 1 < m.journal.journal_blocks
      → m.journal.journal_blocks < 2 ^ 62
      → Ensures (advance_head dev kmalloc n m) (λ m'. Unit {0})
  unfolding advance_head
  advance_head_total kmalloc n m v h t c w =
      let at = add_u64 m.journal.head n in
      let m1 : Machine D = record m { journal = record m.journal { head = at } } in
      let plain : at ≡ m.journal.head + n = omega arith in
      let e =
        evict_total kmalloc (suc at) m1 (SaneCounts-head m at v) (omega arith) (omega arith)
          (omega arith) t c w in
      elim (Option-cases (evict dev kmalloc (suc at) m1)) [
        | inl none_left ↦ absurd (rw none_left at e)
        | inr (m', left) ↦ rw (advance_head, left) tt
      ]

abbrev Ended : {D : Type 0} → Machine D × ℤ → Type 0
Ended r = (r.0.journal.in_transaction ≡ false) × (r.0.journal.txn ≡ [])

-- The variables that bound the loop of advance_head.
pub record IsBounded (j : Journal) : Type 0 where
  pub head_low : j.head + length j.txn + 2 < 2 ^ 62
  pub tail_low : j.tail < 2 ^ 63
  pub some_blocks : 1 < j.journal_blocks
  pub blocks_low : j.journal_blocks < 2 ^ 62

module _ {D : Type 0} (dev : Driver D) (kmalloc : ℕ → Bool) where
  or_fail_ends :
      (r : Machine D × Bool) (f : Machine D → Option (Machine D × ℤ))
      → Ensures (f r.0) Ended
      → Ensures (or_fail r f) Ended
  unfolding free_transaction
  or_fail_ends (m, true) f h = h
  or_fail_ends (m, false) f h = (refl, refl)

  finish_ends :
      (m : Machine D)
      → SaneCounts dev m
      → IsBounded m.journal
      → Ensures (finish_commit dev kmalloc m) Ended
  unfolding finish_commit free_transaction
  finish_ends m v b =
      let n = 2 + length m.journal.txn in
      let e =
        advance_head_total dev kmalloc n m v (omega (arith, b.head_low)) b.tail_low b.some_blocks
          b.blocks_low in
      elim (Option-cases (advance_head dev kmalloc n m)) [
        | inl stuck ↦ absurd (rw stuck at e)
        | inr (m', done) ↦ rw (finish_commit, done) (refl, refl)
      ]

  -- journal_commit with a transaction in progress returns, and leaves none in progress, whichever calls of
  -- kmalloc and of the device fail, where after the checkpoint no block that the journal can read is a
  -- descriptor that claims 2 ^ 32 - 2 data blocks. The head, with the transaction, and the area are below
  -- 2 ^ 62, the area has more than one block, and the tail is below 2 ^ 63.
  pub journal_commit_ends :
      (stack : ℕ → ℕ) (m : Machine D)
      → m.journal.initialized ≡ true
      → m.journal.in_transaction ≡ true
      → IsBounded m.journal
      → let logs = log_transaction dev stack m.journal.sequence (marked_dirty dev kmalloc m) in
        SaneCounts dev (checkpoint dev logs.0.journal.txn logs.0).0
        → Ensures
            (journal_commit dev kmalloc stack m)
            (λ r. (r.0.journal.in_transaction ≡ false) × (r.0.journal.txn ≡ []))
  unfolding journal_commit free_transaction
  journal_commit_ends stack m i a b v =
      let m1 = marked_dirty dev kmalloc m in
      let logs = log_transaction dev stack m.journal.sequence m1 in
      let kept1 =
        log_transaction_kept dev stack m.journal.sequence m1 ∙ write_jsb_kept dev kmalloc _ in
      let m2 = logs.0 in
      let kept2 = checkpoint_kept dev m2.journal.txn m2 ∙ kept1 in
      let whole : IsBounded (checkpoint dev m2.journal.txn m2).0.journal =
        subst IsBounded (sym kept2) (record {
          head_low = b.head_low;
          tail_low = b.tail_low;
          some_blocks = b.some_blocks;
          blocks_low = b.blocks_low;
        }) in
      let ended =
        or_fail_ends logs
          (λ x. or_fail (checkpoint dev x.journal.txn x) (finish_commit dev kmalloc))
          (or_fail_ends (checkpoint dev m2.journal.txn m2) (finish_commit dev kmalloc)
            (finish_ends (checkpoint dev m2.journal.txn m2).0 v whole)) in
      elim (Bool-cases (length m.journal.txn == 0)) [
        | inl empty ↦ rw (i, a, empty) (refl, refl)
        | inr more ↦ elim (Bool-cases (kmalloc m.calls)) [
          | inl k ↦
              subst (λ o. Ensures o Ended)
                (sym (commit_open dev kmalloc stack m i a (ground arith) k)) ended
          | inr k ↦ rw (i, a, more, k) (refl, refl)
        ]
      ]
