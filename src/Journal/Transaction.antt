-- ===== src/Journal/Transaction.antt =====
-- A whole transaction of a client of kernel/journal.c: journal_begin, a journal_write for each block, and
-- journal_commit or journal_rollback.
use aurora_os_live.Base.{
  ℕ, ◌+◌, ◌%◌, ◌^◌, ◌≤◌, ◌<◌, ◌≡◌, ◌≢◌, refl, ap, ap₂, sym, ◌∙◌, Bool, true, false, Option, some,
  List, [], ◌∷◌, ◌++◌, leb, length, length-append, take, take_all, Ensures, arith,
}
use mathlib.Core.List.{append-nil, append_assoc}
use aurora_os_live.Base.Int.{ℤ, pos, negsuc, minus_one}
use aurora_os_live.Journal.{
  Driver, Journal, Machine, called, capacity, journal_begin, journal_write,
}
use aurora_os_live.Journal.Commit.{journal_commit, journal_rollback}
use aurora_os_live.Journal.Store.{BlockStore, AreBlocks, stored, stored_between, block_at}
use aurora_os_live.Journal.Effects.{le_mul}
use aurora_os_live.Journal.Logged.{
  Outside, HasRoom, IsOpen, logged, committed, Misses-logged, off_area,
}
use aurora_os_live.Journal.Durable.{commit_lem}

-- Go on where a call returned 0, and return what it left where it failed.
abbrev pub then_call {ℓ} :
    {D : Type 0} {R : Type ℓ} → Machine D × ℤ → (Machine D → R) → (Machine D → R) → R
then_call (m, pos k) go fail = go m
then_call (m, negsuc e) go fail = fail m

-- The calls of journal_write of a client that stops at the first failure.
pub write_all : {D : Type 0} → (ℕ → Bool) → List (ℕ × List ℕ) → Machine D → Machine D × ℤ
write_all kmalloc [] m = (m, pos 0)
write_all kmalloc ((b, buf) ∷ ws) m =
    then_call (journal_write kmalloc b buf m) (λ m1. write_all kmalloc ws m1)
      (λ m1. (m1, minus_one))

-- A client that writes the blocks `ws` in one transaction, and rolls back where a write fails.
pub transaction :
    {D : Type 0}
    → Driver D
    → (ℕ → Bool)
    → (ℕ → ℕ)
    → ℕ
    → List (ℕ × List ℕ)
    → Machine D
    → Option (Machine D × ℤ)
transaction dev kmalloc stack max_blocks ws m =
    then_call (journal_begin kmalloc max_blocks m)
      (λ m1.
        then_call (write_all kmalloc ws m1) (journal_commit dev kmalloc stack)
          (λ m2. some (journal_rollback m2)))
      (λ m1. some (m1, minus_one))

-- The journal once the blocks are written to the transaction.
abbrev pub with_writes : ℕ → List (ℕ × List ℕ) → Journal → Journal
with_writes max_blocks ws j = record j {
  in_transaction = true;
  txn_capacity = capacity j max_blocks;
  txn = ws;
}

module _ {D : Type 0} (kmalloc : ℕ → Bool) (all : (i : ℕ) → kmalloc i ≡ true) where
  journal_begin_lem :
      (max_blocks : ℕ) (m : Machine D)
      → m.journal.initialized ≡ true
      → m.journal.in_transaction ≡ false
      → journal_begin kmalloc max_blocks m
        ≡ (record m { journal = with_writes max_blocks [] m.journal; calls = m.calls + 2 }, pos 0)
  unfolding journal_begin
  journal_begin_lem max_blocks m i a = rw (i, a, all m.calls, all (m.calls + 1)) refl

  journal_write_lem :
      (b : ℕ) (buf : List ℕ) (m : Machine D)
      → m.journal.initialized ≡ true
      → m.journal.in_transaction ≡ true
      → length m.journal.txn < m.journal.txn_capacity
      → b < 2 ^ 32
      → length buf ≡ m.journal.block_size
      → journal_write kmalloc b buf m ≡ (
        record (called m) { journal = record m.journal { txn = m.journal.txn ++ (b, buf) ∷ [] } },
        pos 0,
      )
  unfolding journal_write
  journal_write_lem b buf m i a c w l =
      let space : leb m.journal.txn_capacity (length m.journal.txn) ≡ false = ground arith in
      let low : b % 2 ^ 32 ≡ b = omega arith in
      let whole : take m.journal.block_size buf ≡ buf =
        take_all m.journal.block_size buf (omega arith) in
      rw (i, a, space, all m.calls, low, whole) refl

  abbrev wrote_all : Machine D → List (ℕ × List ℕ) → ℕ → Machine D × ℤ
  wrote_all m txn calls =
      (record m { journal = record m.journal { txn = txn }; calls = calls }, pos 0)

  write_all_lem :
      (size n : ℕ) (ws : List (ℕ × List ℕ)) (m : Machine D)
      → m.journal.initialized ≡ true
      → m.journal.in_transaction ≡ true
      → m.journal.block_size ≡ size
      → length m.journal.txn + length ws ≤ m.journal.txn_capacity
      → n ≤ 2 ^ 32
      → AreBlocks size n ws
      → write_all kmalloc ws m ≡ wrote_all m (m.journal.txn ++ ws) (m.calls + length ws)
  unfolding write_all
  write_all_lem size n [] m i a s c f h =
      let same : m.calls ≡ m.calls + 0 = omega arith in
      ap₂ (wrote_all m) (sym (append-nil m.journal.txn)) same
  write_all_lem size n ((b, buf) ∷ ws) m i a s c f h =
      let txn = m.journal.txn ++ (b, buf) ∷ [] in
      let w = journal_write_lem b buf m i a (omega arith) (omega (arith, h.0)) (h.1 ∙ sym s) in
      let more : length txn + length ws ≤ m.journal.txn_capacity =
        omega (arith, length-append m.journal.txn ((b, buf) ∷ [])) in
      let sum : m.calls + 1 + length ws ≡ m.calls + length ((b, buf) ∷ ws) = omega arith in
      ap (λ q. then_call q (λ m1. write_all kmalloc ws m1) (λ m1. (m1, minus_one))) w
      ∙ write_all_lem size n ws (record (called m) { journal = record m.journal { txn = txn } }) i a
          s more f h.2
      ∙ ap₂ (wrote_all m) (append_assoc m.journal.txn ((b, buf) ∷ []) ws) sum

module _ {D : Type 0} (dev : Driver D) (spb : ℕ) (st : BlockStore dev spb) (kmalloc : ℕ → Bool)
    (all : (i : ℕ) → kmalloc i ≡ true) where
  transaction_lem :
      (stack : ℕ → ℕ) (max_blocks : ℕ) (ws : List (ℕ × List ℕ)) (m m1 m2 : Machine D)
      → journal_begin kmalloc max_blocks m ≡ (m1, pos 0)
      → write_all kmalloc ws m1 ≡ (m2, pos 0)
      → transaction dev kmalloc stack max_blocks ws m ≡ journal_commit dev kmalloc stack m2
  unfolding transaction
  transaction_lem stack max_blocks ws m m1 m2 b w =
      let commit = journal_commit dev kmalloc stack in
      let fail : Machine D → Option (Machine D × ℤ) = λ x. some (journal_rollback x) in
      let refused : Machine D → Option (Machine D × ℤ) = λ x. some (x, minus_one) in
      ap (λ q. then_call q (λ x. then_call (write_all kmalloc ws x) commit fail) refused) b
      ∙ ap (λ q. then_call q commit fail) w

  -- What a client writes in a transaction that it commits is on the device afterwards, each block with the
  -- last contents written to it, and no other block outside the journal's area has changed; the call
  -- returns 0, the head has moved over the transaction, and the journal is clean and has no transaction in
  -- progress. The device works, every call of kmalloc returns a block, no transaction is in progress
  -- before, the blocks are whole and their sectors have 32-bit numbers, and they fit the transaction's
  -- capacity and the room between the head and the end of the journal's area.
  pub transaction_durable :
      (stack : ℕ → ℕ) (n max_blocks : ℕ) (ws : List (ℕ × List ℕ)) (m : Machine D)
      → st.Good m.disk
      → m.journal.in_transaction ≡ false
      → IsOpen dev spb n (with_writes max_blocks ws m.journal)
      → HasRoom (with_writes max_blocks ws m.journal)
      → 0 < length ws
      → length ws ≤ capacity m.journal max_blocks
      → Ensures (transaction dev kmalloc stack max_blocks ws m) (λ r.
        (r.1 ≡ pos 0)
        × (r.0.journal ≡ committed (with_writes max_blocks ws m.journal))
        × st.Good r.0.disk
        × ((b : ℕ)
            → Outside m.journal b
            → block_at dev spb r.0.disk b ≡ stored ws (block_at dev spb m.disk) b))
  transaction_durable stack n max_blocks ws m g a o r z c =
      let j = with_writes max_blocks ws m.journal in
      let m1 : Machine D = record m {
        journal = with_writes max_blocks [] m.journal;
        calls = m.calls + 2;
      } in
      let m2 : Machine D = record m { journal = j; calls = m.calls + 2 + length ws } in
      let fits : 0 + length ws ≤ capacity m.journal max_blocks = omega arith in
      let w =
        write_all_lem kmalloc all m.journal.block_size n ws m1 o.initialized refl refl fits
          (le_mul n spb (2 ^ 32) o.place.some_sectors o.small) o.blocks in
      let e = commit_lem dev spb st kmalloc stack n m2 o g r z all in
      let eq : transaction dev kmalloc stack max_blocks ws m ≡ some (e.0, pos 0) =
        transaction_lem stack max_blocks ws m m1 m2
          (journal_begin_lem kmalloc all max_blocks m o.initialized a) w
        ∙ e.1 in
      let first : (b : ℕ) → Outside m.journal b → j.journal_start + 0 ≢ b =
        λ b out. off_area j b 0 (omega (arith, r.room)) out in
      rw eq (
        refl,
        e.3,
        e.2.good,
        λ b out.
            ap (λ f. f b) e.2.now
            ∙ stored_between (_ ∷ logged stack j.sequence j) ws _ (block_at dev spb m.disk) b
                (first b out, Misses-logged stack j.sequence j b r out)
                (first b out, (first b out, tt)),
      )
