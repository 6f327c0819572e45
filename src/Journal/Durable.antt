-- ===== src/Journal/Durable.antt =====
-- journal_commit of kernel/journal.c on a device that works: what it leaves on it.
use aurora_os_live.Base.{
  ℕ, ◌+◌, ◌-◌, ◌^◌, ◌≤◌, ◌<◌, ◌≡◌, refl, ap, ◌∙◌, Bool, true, false, some, List, [], ◌∷◌, ◌++◌, leb,
  ◌==◌, length, arith,
}
use aurora_os_live.Base.Int.{pos}
use aurora_os_live.Journal.{
  Driver, Journal, Machine, add_u64, called, free_transaction, write_jsb, jsb_block, evict,
  advance_head,
}
use aurora_os_live.Journal.Commit.{
  dropped, or_fail, checkpoint, log_transaction, finish_commit, marked_dirty, journal_commit,
}
use aurora_os_live.Journal.Store.{BlockStore, IsPlaced-again, Wrote, Wrote-then}
use aurora_os_live.Journal.Effects.{le_mul, checkpoint_lem, write_jsb_lem}
use aurora_os_live.Journal.Logged.{HasRoom, IsOpen, logged, committed, log_transaction_lem}

module _ {D : Type 0} (dev : Driver D) (kmalloc : ℕ → Bool) where
  -- `advance_head` where it neither evicts nor wraps.
  advance_head_lem :
      (m : Machine D) (n : ℕ)
      → m.journal.head + n < m.journal.journal_blocks
      → 1 ≤ m.journal.tail
      → m.journal.tail + m.journal.journal_blocks < 2 ^ 64
      → advance_head dev kmalloc n m
        ≡ some
            (write_jsb dev kmalloc
              (record m { journal = record m.journal { head = m.journal.head + n } })).0
  unfolding advance_head evict
  advance_head_lem m n h t w =
      let j = m.journal in
      let at : add_u64 j.head n ≡ j.head + n = omega arith in
      let stay : leb (add_u64 j.tail (add_u64 j.journal_blocks (2 ^ 64 - 1))) (j.head + n) ≡ false =
        ground arith in
      let keep : leb j.journal_blocks (j.head + n) ≡ false = ground arith in
      rw (at, advance_head, evict, stay, keep) refl

  -- The last phase, with the writes of the superblock named.
  finish_lem :
      (m m1 : Machine D)
      → advance_head dev kmalloc (2 + length m.journal.txn) m ≡ some m1
      → finish_commit dev kmalloc m
        ≡ some (
          dropped
              (write_jsb dev kmalloc
                (record m1 { journal = record m1.journal { dirty = false } })).0,
          pos 0,
        )
  unfolding finish_commit
  finish_lem m m1 e = rw (finish_commit, e) refl

  pub commit_open :
      (stack : ℕ → ℕ) (m : Machine D)
      → m.journal.initialized ≡ true
      → m.journal.in_transaction ≡ true
      → 0 < length m.journal.txn
      → kmalloc m.calls ≡ true
      → journal_commit dev kmalloc stack m
        ≡ or_fail
            (log_transaction dev stack m.journal.sequence (marked_dirty dev kmalloc m))
            (λ m1. or_fail (checkpoint dev m1.journal.txn m1) (finish_commit dev kmalloc))
  unfolding journal_commit
  commit_open stack m i a z k =
      let some_blocks : (length m.journal.txn == 0) ≡ false = ground arith in
      rw (i, a, some_blocks, k) refl

module _ {D : Type 0} (dev : Driver D) (spb : ℕ) (st : BlockStore dev spb)
    (kmalloc : ℕ → Bool) where
  -- The writes of a commit in their order.
  abbrev pub commit_writes : (ℕ → ℕ) → Journal → List (ℕ × List ℕ)
  commit_writes stack j =
      let j1 = record j { sequence = add_u64 j.sequence 1; dirty = true } in
      let j2 = record j1 { head = j.head + (2 + length j.txn) } in
      let sb = j.journal_start + 0 in
      (sb, jsb_block j1)
      ∷ (logged stack j.sequence j
          ++ (j.txn ++ (sb, jsb_block j2) ∷ (sb, jsb_block (record j2 { dirty = false })) ∷ []))

  pub commit_lem :
      (stack : ℕ → ℕ) (n : ℕ) (m : Machine D)
      → IsOpen dev spb n m.journal
      → st.Good m.disk
      → HasRoom m.journal
      → 0 < length m.journal.txn
      → ((i : ℕ) → kmalloc i ≡ true)
      → (m' : Machine D) × (journal_commit dev kmalloc stack m ≡ some (m', pos 0))
        × Wrote dev spb st (commit_writes stack m.journal) m.disk m'.disk
        × (m'.journal ≡ committed m.journal)
  unfolding free_transaction
  commit_lem stack n m o g r z k =
      let j = m.journal in
      let j1 : Journal = record j { sequence = add_u64 j.sequence 1; dirty = true } in
      let p1 = IsPlaced-again dev spb j j1 o.place refl refl refl in
      let o1 : IsOpen dev spb n j1 = record {
        place = p1;
        initialized = o.initialized;
        active = o.active;
        on_device = o.on_device;
        small = o.small;
        record_fits = o.record_fits;
        blocks = o.blocks;
      } in
      let r1 : HasRoom j1 = record { started = r.started; ordered = r.ordered; room = r.room } in
      let m0 : Machine D = record (called m) { journal = j1 } in
      let w1 = write_jsb_lem dev spb st kmalloc m0 p1 g (omega (arith, r.room)) k in
      let m1 : Machine D = record (called m0) { disk = w1.0 } in
      let w2 = log_transaction_lem dev spb st stack n j.sequence m1 o1 w1.2.good r1 in
      let m2 : Machine D = record m1 { disk = w2.0 } in
      let w3 = checkpoint_lem dev spb st n j.txn m2 p1 w2.2.good o.on_device o.small o.blocks in
      let m3 : Machine D = record m2 { disk = w3.0 } in
      let all : j.journal_start + j.journal_blocks ≤ dev.bdev.total_sectors =
        le_mul (j.journal_start + j.journal_blocks) spb dev.bdev.total_sectors o.place.some_sectors
          o.place.area in
      let wrap : j.tail + j.journal_blocks < 2 ^ 64 =
        omega (arith, r.room, r.ordered, o.place.words) in
      let adv =
        advance_head_lem dev kmalloc m3 (2 + length j.txn) (omega (arith, r.room)) r.started wrap in
      let j4 : Journal = record j1 { head = j.head + (2 + length j.txn) } in
      let p4 = IsPlaced-again dev spb j j4 o.place refl refl refl in
      let m4 : Machine D = record m3 { journal = j4 } in
      let w4 = write_jsb_lem dev spb st kmalloc m4 p4 w3.2.good (omega (arith, r.room)) k in
      let j5 : Journal = record j4 { dirty = false } in
      let p5 = IsPlaced-again dev spb j j5 o.place refl refl refl in
      let m5 : Machine D = record (called m4) { journal = j5; disk = w4.0 } in
      let w5 = write_jsb_lem dev spb st kmalloc m5 p5 w4.2.good (omega (arith, r.room)) k in
      let m6 : Machine D = record (called m5) { disk = w5.0 } in
      let log : log_transaction dev stack j.sequence (marked_dirty dev kmalloc m) ≡ (m2, true) =
        ap (λ q. log_transaction dev stack j.sequence q.0) w1.1 ∙ w2.1 in
      let fin : finish_commit dev kmalloc m3 ≡ some (dropped m6, pos 0) =
        finish_lem dev kmalloc m3 _ (adv ∙ ap (λ q. some q.0) w4.1)
        ∙ ap (λ q. some (dropped q.0, pos 0)) w5.1 in
      let eq : journal_commit dev kmalloc stack m ≡ some (dropped m6, pos 0) =
        commit_open dev kmalloc stack m o.initialized o.active z (k m.calls)
        ∙ ap
            (λ q.
              or_fail q (λ x. or_fail (checkpoint dev x.journal.txn x) (finish_commit dev kmalloc)))
            log
        ∙ ap (λ q. or_fail q (finish_commit dev kmalloc)) w3.1
        ∙ fin in
      let sum : j.head + (2 + length j.txn) ≡ j.head + length j.txn + 2 = omega arith in
      (
        dropped m6,
        eq,
        Wrote-then dev spb st (_ ∷ []) _ w1.2 (
            Wrote-then dev spb st _ _ w2.2
              (Wrote-then dev spb st _ _ w3.2 (Wrote-then dev spb st (_ ∷ []) _ w4.2 w5.2))),
        ap (λ h. record (free_transaction j5) { head = h }) sum,
      )
