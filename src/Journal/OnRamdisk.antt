-- ===== src/Journal/OnRamdisk.antt =====
-- The RAM disk (kernel/ramdisk.c) as the device of the journal (kernel/journal.c).
use aurora_os_live.Base.{
  ℕ, ◌+◌, ◌*◌, ◌≤◌, ◌<◌, ◌≡◌, ◌≢◌, ◌⊎◌, inl, inr, List, some, length, ltb, Bool-cases, ap, ◌∙◌,
  arith,
}
use aurora_os_live.Base.Int.{pos}
use aurora_os_live.Block.{Device, Ramdisk, ramdisk_read, ramdisk_write}
use aurora_os_live.Block.RoundTrip.{IsRamdisk}
use aurora_os_live.Block.Disjoint.{ramdisk_write_lem}
use aurora_os_live.Journal.{Driver}
use aurora_os_live.Journal.Store.{BlockStore, block_below}

abbrev pub ramdisk_driver : Device → Driver Ramdisk
ramdisk_driver bdev = record { bdev = bdev; read = ramdisk_read; write = ramdisk_write }

ne-cases : (b c : ℕ) → c ≢ b → (c < b) ⊎ (b < c)
ne-cases b c h = elim (Bool-cases (ltb c b)) [
  | inl l ↦ inl (ground (arith, l))
  | inr l ↦ inr (ground (arith, l, h))
]

blocks_apart : (b c spb : ℕ) → c ≢ b → (c * spb + spb ≤ b * spb) ⊎ (b * spb + spb ≤ c * spb)
blocks_apart b c spb h = elim (ne-cases b c h) [
  | inl l ↦ inl (block_below c b spb (b * spb) (omega arith) l)
  | inr l ↦ inr (block_below b c spb (c * spb) (omega arith) l)
]

module _ (bdev : Device) (spb : ℕ) (some_sectors : 0 < spb) (size : bdev.block_size ≡ 512) where
  pub ramdisk_put :
      (d : Ramdisk) (b : ℕ) (buf : List ℕ)
      → IsRamdisk d bdev
      → b * spb + spb ≤ bdev.total_sectors
      → length buf ≡ spb * bdev.block_size
      → (d' : Ramdisk) × (ramdisk_write d buf (b * spb) (pos spb) ≡ some d')
        × IsRamdisk d' bdev
        × (ramdisk_read d' (b * spb) (pos spb) ≡ some buf)
        × ((c : ℕ)
            → c ≢ b
            → c * spb + spb ≤ bdev.total_sectors
            → ramdisk_read d' (c * spb) (pos spb) ≡ ramdisk_read d (c * spb) (pos spb))
  ramdisk_put d b buf g h l =
      let whole : length buf ≡ spb * 512 = l ∙ ap (λ n. spb * n) size in
      let w = ramdisk_write_lem d bdev (b * spb) spb buf g some_sectors h whole in
      (w.0, w.1, w.2, w.3, λ c ne on. w.4 (c * spb) spb some_sectors on (blocks_apart b c spb ne))

  abbrev pub ramdisk_store : BlockStore (ramdisk_driver bdev) spb
  ramdisk_store = record { Good = λ d. IsRamdisk d bdev; put = ramdisk_put }
