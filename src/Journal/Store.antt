-- ===== src/Journal/Store.antt =====
-- What kernel/journal.c relies on of a device: its blocks behave like an array.
use aurora_os_live.Base.{
  ℕ, ◌+◌, ◌*◌, ◌/◌, ◌%◌, ◌^◌, ◌≤◌, ◌<◌, ◌≡◌, ◌≢◌, inl, inr, refl, ap, ap₂, sym, ◌∙◌, Option, some,
  List, [], ◌∷◌, ◌++◌, ◌==◌, ==_iff, length, Bool-cases, arith,
}
use native.Mathlib.Nat.{mul-le-mul_right}
use mathlib.Core.Path.{fun_ext, subst}
use aurora_os_live.Base.Int.{pos}
use aurora_os_live.Vfs.{set_at}
use aurora_os_live.Block.{in_device, block_dev_read, block_dev_write}
use aurora_os_live.Block.RoundTrip.{in_device_bounds, in_device_range}
use aurora_os_live.Journal.{
  Driver, Journal, Machine, add_u64, to_int, sectors_per_block, write_sectors, journal_sector,
}

-- In blocks of `spb` sectors: a block on the device can be written, is read back, and the other blocks
-- stay. `Good` is what the driver keeps true of its state.
pub record BlockStore {D : Type 0} (dev : Driver D) (spb : ℕ) : Type 1 where
  pub Good : D → Type 0
  pub put :
      (d : D) (b : ℕ) (buf : List ℕ)
      → Good d
      → b * spb + spb ≤ dev.bdev.total_sectors
      → length buf ≡ spb * dev.bdev.block_size
      → (d' : D) × (dev.write d buf (b * spb) (pos spb) ≡ some d')
        × Good d'
        × (dev.read d' (b * spb) (pos spb) ≡ some buf)
        × ((c : ℕ)
            → c ≢ b
            → c * spb + spb ≤ dev.bdev.total_sectors
            → dev.read d' (c * spb) (pos spb) ≡ dev.read d (c * spb) (pos spb))

-- The contents of the blocks after writes in order.
abbrev pub stored : List (ℕ × List ℕ) → (ℕ → Option (List ℕ)) → ℕ → Option (List ℕ)
stored [] v = v
stored ((b, buf) ∷ ws) v = stored ws (set_at v b (some buf))

pub stored-append :
    (ws us : List (ℕ × List ℕ)) (v : ℕ → Option (List ℕ))
    → stored (ws ++ us) v ≡ stored us (stored ws v)
stored-append [] us v = refl
stored-append ((b, buf) ∷ ws) us v = stored-append ws us (set_at v b (some buf))

-- What a block holds depends on what it held, not on the other blocks.
pub stored_cong :
    (ws : List (ℕ × List ℕ)) (v w : ℕ → Option (List ℕ)) (b : ℕ)
    → v b ≡ w b
    → stored ws v b ≡ stored ws w b
stored_cong [] v w b e = e
stored_cong ((c, buf) ∷ ws) v w b e =
    stored_cong ws (set_at v c (some buf)) (set_at w c (some buf)) b (ground (arith, e))

-- No write is to block `b`.
abbrev pub Misses : ℕ → List (ℕ × List ℕ) → Type 0
Misses b [] = Unit {0}
Misses b ((c, buf) ∷ ws) = (c ≢ b) × Misses b ws

pub stored_missed :
    (ws : List (ℕ × List ℕ)) (v : ℕ → Option (List ℕ)) (b : ℕ) → Misses b ws → stored ws v b ≡ v b
stored_missed [] v b h = refl
stored_missed ((c, buf) ∷ ws) v b h =
    stored_missed ws (set_at v c (some buf)) b h.1 ∙ ground (arith, h.0)

-- Around the writes `txn` only other blocks are written.
pub stored_between :
    (ws txn us : List (ℕ × List ℕ)) (v : ℕ → Option (List ℕ)) (b : ℕ)
    → Misses b ws
    → Misses b us
    → stored (ws ++ (txn ++ us)) v b ≡ stored txn v b
stored_between ws txn us v b h k =
    ap (λ f. f b) (stored-append ws (txn ++ us) v)
    ∙ ap (λ f. f b) (stored-append txn us (stored ws v))
    ∙ stored_missed us (stored txn (stored ws v)) b k
    ∙ stored_cong txn (stored ws v) v b (stored_missed ws v b h)

pub block_below : (x y k n : ℕ) → y * k ≤ n → x < y → x * k + k ≤ n
block_below x y k n h l = omega (arith, mul-le-mul_right k (succ_le x y l))
  where
    succ_le : (a b : ℕ) → a < b → a + 1 ≤ b
    succ_le a b p = omega arith

pub le_sectors : (x k n : ℕ) → 0 < k → x * k + k ≤ n → x ≤ n
le_sectors x k n z h = grind arith

-- All blocks are whole, and lie below `n`.
abbrev pub AreBlocks : ℕ → ℕ → List (ℕ × List ℕ) → Type 0
AreBlocks size n [] = Unit {0}
AreBlocks size n ((b, buf) ∷ ws) = (b < n) × (length buf ≡ size) × AreBlocks size n ws

module _ {D : Type 0} (dev : Driver D) (spb : ℕ) where
  -- What a block of the device holds, as block_dev_read returns it.
  abbrev pub block_at : D → ℕ → Option (List ℕ)
  block_at d b = block_dev_read dev.bdev (dev.read d) (b * spb) (pos spb)

  -- The journal's area lies on the device, and its block size is that of `spb` sectors.
  pub record IsPlaced (j : Journal) : Type 0 where
    pub sectors : sectors_per_block dev j ≡ spb
    pub size : j.block_size ≡ spb * dev.bdev.block_size
    pub some_sectors : 0 < spb
    pub int_sectors : spb < 2 ^ 31
    pub area : (j.journal_start + j.journal_blocks) * spb ≤ dev.bdev.total_sectors
    pub words : dev.bdev.total_sectors < 2 ^ 63

  -- The place does not depend on where the journal stands in its area.
  pub IsPlaced-again :
      (j k : Journal)
      → IsPlaced j
      → j.block_size ≡ k.block_size
      → j.journal_start ≡ k.journal_start
      → j.journal_blocks ≡ k.journal_blocks
      → IsPlaced k
  IsPlaced-again j k p size start blocks = record {
    sectors = ap (λ n. n / dev.bdev.block_size) (sym size) ∙ p.sectors;
    size = sym size ∙ p.size;
    some_sectors = p.some_sectors;
    int_sectors = p.int_sectors;
    area = subst (λ n. n * spb ≤ dev.bdev.total_sectors) (ap₂ ◌+◌ start blocks) p.area;
    words = p.words;
  }

  module _ (st : BlockStore dev spb) where
    -- What writes have done to the device.
    pub record Wrote (ws : List (ℕ × List ℕ)) (d d' : D) : Type 0 where
      pub good : st.Good d'
      pub now : block_at d' ≡ stored ws (block_at d)

    pub Wrote-then :
        (ws us : List (ℕ × List ℕ)) {d d1 d2 : D}
        → Wrote ws d d1
        → Wrote us d1 d2
        → Wrote (ws ++ us) d d2
    Wrote-then ws us {d = d} w u = record {
      good = u.good;
      now = u.now ∙ ap (stored us) w.now ∙ sym (stored-append ws us (block_at d));
    }

    pub put_block :
        (d : D) (b : ℕ) (buf : List ℕ)
        → st.Good d
        → 0 < spb
        → b * spb + spb ≤ dev.bdev.total_sectors
        → length buf ≡ spb * dev.bdev.block_size
        → (d' : D) × (block_dev_write dev.bdev (dev.write d) buf (b * spb) (pos spb) ≡ some d')
          × Wrote ((b, buf) ∷ []) d d'
    unfolding block_dev_write block_dev_read
    put_block d b buf g z h l =
        let r = st.put d b buf g h l in
        let ok = in_device_bounds dev.bdev (b * spb) spb z h in
        let here : block_at r.0 b ≡ some buf = rw ok r.3 in
        let other : (c : ℕ) → c ≢ b → block_at r.0 c ≡ block_at d c = λ c ne.
          elim (Bool-cases (in_device dev.bdev (c * spb) (pos spb))) [
            | inl on ↦ rw on (r.4 c ne (in_device_range dev.bdev (c * spb) spb on))
            | inr off ↦ rw off refl
          ] in
        (
          r.0,
          rw ok r.1,
          record {
            good = r.2;
            now = fun_ext (λ c. elim (Bool-cases (b == c)) [
              | inl same ↦ ap (block_at r.0) (sym ((==_iff b c).0 same)) ∙ here ∙ rw same refl
              | inr off_area ↦ other c (λ e. ground (arith, e)) ∙ rw off_area refl
            ]);
          },
        )

    write_sectors-some :
        (m : Machine D) (buf : List ℕ) (sector : ℕ) (d : D)
        → block_dev_write dev.bdev
            (dev.write m.disk)
            buf
            sector
            (to_int (sectors_per_block dev m.journal))
          ≡ some d
        → write_sectors dev m buf sector ≡ some (record m { disk = d })
    unfolding write_sectors
    write_sectors-some m buf sector d e = rw (write_sectors, e) refl

    -- A sector number that does not wrap.
    pub write_sectors_lem :
        (m : Machine D) (b sector : ℕ) (buf : List ℕ)
        → IsPlaced m.journal
        → st.Good m.disk
        → b * spb + spb ≤ dev.bdev.total_sectors
        → length buf ≡ m.journal.block_size
        → sector ≡ b * spb
        → (d : D) × (write_sectors dev m buf sector ≡ some (record m { disk = d }))
          × Wrote ((b, buf) ∷ []) m.disk d
    write_sectors_lem m b sector buf p g h l e =
        let r = put_block m.disk b buf g p.some_sectors h (l ∙ p.size) in
        let count : to_int (sectors_per_block dev m.journal) ≡ pos spb =
          ap to_int p.sectors ∙ ground (arith, p.int_sectors) in
        let done : block_dev_write dev.bdev (dev.write m.disk) buf sector
              (to_int (sectors_per_block dev m.journal))
            ≡ some r.0 =
          ap₂ (block_dev_write dev.bdev (dev.write m.disk) buf) e count ∙ r.1 in
        (r.0, write_sectors-some m buf sector r.0 done, r.2)

    pub sector_of :
        (j : Journal) (at : ℕ)
        → IsPlaced j
        → at < j.journal_blocks
        → (journal_sector dev j at ≡ (j.journal_start + at) * spb)
          × ((j.journal_start + at) * spb + spb ≤ dev.bdev.total_sectors)
    sector_of j at p h =
        let b = j.journal_start + at in
        let on : b * spb + spb ≤ dev.bdev.total_sectors =
          block_below b (j.journal_start + j.journal_blocks) spb dev.bdev.total_sectors p.area
            (omega arith) in
        let small : b < 2 ^ 64 =
          omega (arith, le_sectors b spb dev.bdev.total_sectors p.some_sectors on, p.words) in
        let plain : add_u64 j.journal_start at ≡ b = omega arith in
        (ap₂ (λ x n. x * n % 2 ^ 64) plain p.sectors ∙ omega (arith, p.words), on)
