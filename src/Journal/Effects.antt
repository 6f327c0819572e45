-- ===== src/Journal/Effects.antt =====
-- What the parts of kernel/journal.c write to the device.
use aurora_os_live.Base.{
  ℕ, ◌+◌, ◌*◌, ◌%◌, ◌^◌, ◌≤◌, ◌<◌, ◌≡◌, refl, ap, ◌∙◌, Bool, true, some, List, [], ◌∷◌, length,
  length-memcpy, length-replicate, replicate, arith,
}
use mathlib.Core.Path.{subst}
use aurora_os_live.Base.Int.{pos}
use aurora_os_live.Journal.{
  Driver, Journal, Machine, add_u64, jsb_bytes, jsb_block, sectors_per_block, write_sectors,
  journal_write_block, called, write_jsb, log_data,
}
use aurora_os_live.Journal.Layout.{in_block}
use aurora_os_live.Journal.Commit.{checkpoint}
use aurora_os_live.Journal.Store.{
  BlockStore, IsPlaced, Wrote, Wrote-then, AreBlocks, block_below, write_sectors_lem, sector_of,
}

-- The blocks of a transaction in order, from a device block on.
abbrev pub placed_from : ℕ → List (ℕ × List ℕ) → List (ℕ × List ℕ)
placed_from at [] = []
placed_from at ((b, buf) ∷ txn) = (at, buf) ∷ placed_from (at + 1) txn

pub le_mul : (x k n : ℕ) → 0 < k → x * k ≤ n → x ≤ n
le_mul x k n z h = grind arith

pub length-in_block : (size : ℕ) (structure : List ℕ) → length (in_block size structure) ≡ size
length-in_block size structure =
    length-memcpy structure (replicate size 0) 0 ∙ length-replicate size 0

pub jsb_size : (j : Journal) → length (jsb_block j) ≡ j.block_size
jsb_size j = length-in_block j.block_size (jsb_bytes j)

module _ {D : Type 0} (dev : Driver D) (spb : ℕ) (st : BlockStore dev spb) where
  pub journal_write_block_lem :
      (m : Machine D) (at : ℕ) (buf : List ℕ)
      → IsPlaced dev spb m.journal
      → st.Good m.disk
      → at < m.journal.journal_blocks
      → length buf ≡ m.journal.block_size
      → (d : D) × (journal_write_block dev at buf m ≡ some (record m { disk = d }))
        × Wrote dev spb st ((m.journal.journal_start + at, buf) ∷ []) m.disk d
  unfolding journal_write_block
  journal_write_block_lem m at buf p g h l =
      let s = sector_of dev spb st m.journal at p h in
      write_sectors_lem dev spb st m (m.journal.journal_start + at) _ buf p g s.1 l s.0

  pub add_offset :
      (j : Journal) (at k : ℕ)
      → IsPlaced dev spb j
      → at + k ≤ j.journal_blocks
      → add_u64 at k ≡ at + k
  add_offset j at k p h =
      let all : j.journal_start + j.journal_blocks ≤ dev.bdev.total_sectors =
        le_mul (j.journal_start + j.journal_blocks) spb dev.bdev.total_sectors p.some_sectors
          p.area in
      omega (arith, p.words)

  log_data-cons :
      (at b : ℕ) (buf : List ℕ) (txn : List (ℕ × List ℕ)) (m m' : Machine D)
      → journal_write_block dev at buf m ≡ some m'
      → log_data dev at ((b, buf) ∷ txn) m ≡ log_data dev (add_u64 at 1) txn m'
  unfolding log_data
  log_data-cons at b buf txn m m' e = rw (log_data, e) refl

  checkpoint-cons :
      (b : ℕ) (buf : List ℕ) (txn : List (ℕ × List ℕ)) (m m' : Machine D)
      → write_sectors dev m buf (b * sectors_per_block dev m.journal % 2 ^ 32) ≡ some m'
      → checkpoint dev ((b, buf) ∷ txn) m ≡ checkpoint dev txn m'
  unfolding checkpoint
  checkpoint-cons b buf txn m m' e = rw (checkpoint, e) refl

  pub log_data_lem :
      (n at : ℕ) (txn : List (ℕ × List ℕ)) (m : Machine D)
      → IsPlaced dev spb m.journal
      → st.Good m.disk
      → at + length txn ≤ m.journal.journal_blocks
      → AreBlocks m.journal.block_size n txn
      → (d : D) × (log_data dev at txn m ≡ (record m { disk = d }, true))
        × Wrote dev spb st (placed_from (m.journal.journal_start + at) txn) m.disk d
  unfolding log_data
  log_data_lem n at [] m p g h a = (m.disk, refl, record { good = g; now = refl })
  log_data_lem n at ((b, buf) ∷ txn) m p g h a =
      let w = journal_write_block_lem m at buf p g (omega arith) a.1 in
      let one = add_offset m.journal at 1 p (omega arith) in
      let r = log_data_lem n (at + 1) txn (record m { disk = w.0 }) p w.2.good (omega arith) a.2 in
      let next : m.journal.journal_start + (at + 1) ≡ m.journal.journal_start + at + 1 =
        omega arith in
      (
        r.0,
        log_data-cons at b buf txn m _ w.1
            ∙ ap (λ k. log_data dev k txn (record m { disk = w.0 })) one
            ∙ r.1,
        Wrote-then dev spb st _ _ w.2
            (subst (λ k. Wrote dev spb st (placed_from k txn) w.0 r.0) next r.2),
      )

  pub checkpoint_lem :
      (n : ℕ) (txn : List (ℕ × List ℕ)) (m : Machine D)
      → IsPlaced dev spb m.journal
      → st.Good m.disk
      → n * spb ≤ dev.bdev.total_sectors
      → n * spb ≤ 2 ^ 32
      → AreBlocks m.journal.block_size n txn
      → (d : D) × (checkpoint dev txn m ≡ (record m { disk = d }, true))
        × Wrote dev spb st txn m.disk d
  unfolding checkpoint
  checkpoint_lem n [] m p g t f a = (m.disk, refl, record { good = g; now = refl })
  checkpoint_lem n ((b, buf) ∷ txn) m p g t f a =
      let low : b * sectors_per_block dev m.journal % 2 ^ 32 ≡ b * spb =
        ap (λ k. b * k % 2 ^ 32) p.sectors
        ∙ omega (arith, block_below b n spb (2 ^ 32) f a.0, p.some_sectors) in
      let w =
        write_sectors_lem dev spb st m b _ buf p g
          (block_below b n spb dev.bdev.total_sectors t a.0) a.1 low in
      let r = checkpoint_lem n txn (record m { disk = w.0 }) p w.2.good t f a.2 in
      (r.0, checkpoint-cons b buf txn m _ w.1 ∙ r.1, Wrote-then dev spb st _ _ w.2 r.2)

  write_jsb-some :
      (kmalloc : ℕ → Bool) (m m' : Machine D)
      → kmalloc m.calls ≡ true
      → journal_write_block dev 0 (jsb_block m.journal) (called m) ≡ some m'
      → write_jsb dev kmalloc m ≡ (m', pos 0)
  unfolding write_jsb
  write_jsb-some kmalloc m m' k e = rw (write_jsb, k, e) refl

  pub write_jsb_lem :
      (kmalloc : ℕ → Bool) (m : Machine D)
      → IsPlaced dev spb m.journal
      → st.Good m.disk
      → 0 < m.journal.journal_blocks
      → ((n : ℕ) → kmalloc n ≡ true)
      → (d : D) × (write_jsb dev kmalloc m ≡ (record (called m) { disk = d }, pos 0))
        × Wrote dev spb st ((m.journal.journal_start + 0, jsb_block m.journal) ∷ []) m.disk d
  write_jsb_lem kmalloc m p g h k =
      let j = m.journal in
      let w = journal_write_block_lem (called m) 0 (jsb_block j) p g h (jsb_size j) in
      (w.0, write_jsb-some kmalloc m _ (k m.calls) w.1, w.2)
