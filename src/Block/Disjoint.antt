-- ===== src/Block/Disjoint.antt =====
-- Writing to a RAM disk (kernel/ramdisk.c) and reading other sectors.
use aurora_os_live.Base.{
  ℕ, ◌+◌, ◌*◌, ◌≤◌, ◌<◌, ◌≡◌, ◌⊎◌, inl, inr, sym, ap, ap₂, ◌∙◌, true, false, some, List, ◌==◌,
  length, take, drop, memcpy, length-memcpy, get_or-memcpy_below, get_or-memcpy_above, length-take,
  length-drop, get_or-take, get_or-drop, take_all, list_ext, arith,
}
use aurora_os_live.Base.Int.{pos}
use aurora_os_live.Block.{Device, Ramdisk, byte_offset, in_ramdisk, ramdisk_read, ramdisk_write}
use aurora_os_live.Block.RoundTrip.{IsRamdisk, take-memcpy, no_wrap}

-- What memcpy has not written is as before.
take-memcpy_apart :
    (dst src : List ℕ) (at off n : ℕ)
    → (off + n ≤ at) ⊎ (at + length src ≤ off)
    → take n (drop off (memcpy dst at src)) ≡ take n (drop off dst)
take-memcpy_apart dst src at off n h =
    let all = memcpy dst at src in
    let same : length (take n (drop off all)) ≡ length (take n (drop off dst)) = omega (
      arith,
      length-take n (drop off all),
      length-take n (drop off dst),
      length-drop off all,
      length-drop off dst,
      length-memcpy src dst at,
    ) in
    let short : length (take n (drop off all)) ≤ n = omega (arith, length-take n (drop off all)) in
    list_ext (take n (drop off all)) (take n (drop off dst)) 0 same (λ i l.
      get_or-take n i (drop off all) 0 (omega arith)
      ∙ get_or-drop off i all 0
      ∙ (elim h [
        | inl below ↦ get_or-memcpy_below src dst at (off + i) 0 (omega arith)
        | inr above ↦ get_or-memcpy_above src dst at (off + i) 0 (omega arith)
      ])
      ∙ sym (get_or-drop off i dst 0)
      ∙ sym (get_or-take n i (drop off dst) 0 (omega arith)))

-- The sectors of a range that lies on the disk.
on_disk :
    (d : Ramdisk) (bdev : Device) (sector count : ℕ)
    → IsRamdisk d bdev
    → sector + count ≤ bdev.total_sectors
    → (byte_offset d sector ≡ sector * 512)
      × (byte_offset d count ≡ count * 512)
      × (in_ramdisk d (byte_offset d sector) (byte_offset d count) ≡ true)
on_disk d bdev sector count r h =
    let bound : sector + count ≤ 2048 = omega (arith, r.small, r.sectors) in
    let off : byte_offset d sector ≡ sector * 512 = no_wrap d sector r.blocks (omega arith) in
    let len : byte_offset d count ≡ count * 512 = no_wrap d count r.blocks (omega arith) in
    (off, len, ground (arith, r.small, r.sectors))

read_on_disk :
    (d : Ramdisk) (bdev : Device) (sector count : ℕ)
    → IsRamdisk d bdev
    → 0 < count
    → sector + count ≤ bdev.total_sectors
    → ramdisk_read d sector (pos count) ≡ some (take (count * 512) (drop (sector * 512) d.bytes))
unfolding ramdisk_read
read_on_disk d bdev sector count r z h =
    let o = on_disk d bdev sector count r h in
    let some_count : (count == 0) ≡ false = ground arith in
    rw (some_count, o.2) (ap₂ (λ n k. some (take n (drop k d.bytes))) o.1 o.0)

-- A range that lies on the disk can be written, is read back, and sectors apart from it stay.
pub ramdisk_write_lem :
    (d : Ramdisk) (bdev : Device) (sector count : ℕ) (buf : List ℕ)
    → IsRamdisk d bdev
    → 0 < count
    → sector + count ≤ bdev.total_sectors
    → length buf ≡ count * 512
    → (d' : Ramdisk) × (ramdisk_write d buf sector (pos count) ≡ some d')
      × IsRamdisk d' bdev
      × (ramdisk_read d' sector (pos count) ≡ some buf)
      × ((other n : ℕ)
          → 0 < n
          → other + n ≤ bdev.total_sectors
          → (other + n ≤ sector) ⊎ (sector + count ≤ other)
          → ramdisk_read d' other (pos n) ≡ ramdisk_read d other (pos n))
unfolding ramdisk_write
ramdisk_write_lem d bdev sector count buf r z h l =
    let o = on_disk d bdev sector count r h in
    let some_count : (count == 0) ≡ false = ground arith in
    let d' : Ramdisk = record d { bytes = memcpy d.bytes (sector * 512) buf } in
    let r' : IsRamdisk d' bdev = record {
      whole = length-memcpy buf d.bytes (sector * 512) ∙ r.whole;
      small = r.small;
      blocks = r.blocks;
      sectors = r.sectors;
    } in
    let all : take (byte_offset d count) buf ≡ buf =
      take_all (byte_offset d count) buf (omega (arith, o.1)) in
    let fits : sector * 512 + length buf ≤ length d.bytes = omega (arith, r.whole, r.sectors) in
    (
      d',
      rw (some_count, o.2) (ap₂ (λ k b. some (record d { bytes = memcpy d.bytes k b })) o.0 all),
      r',
      read_on_disk d' bdev sector count r' z h
          ∙ ap (λ n. some (take n (drop (sector * 512) d'.bytes))) (sym l)
          ∙ ap some (take-memcpy d.bytes buf (sector * 512) fits),
      λ other n zn on apart.
          let off : (other * 512 + n * 512 ≤ sector * 512)
              ⊎ (sector * 512 + length buf ≤ other * 512) =
            elim apart [ inl a ↦ inl (omega arith) | inr a ↦ inr (omega arith) ] in
          read_on_disk d' bdev other n r' zn on
          ∙ ap some (take-memcpy_apart d.bytes buf (sector * 512) (other * 512) (n * 512) off)
          ∙ sym (read_on_disk d bdev other n r zn on),
    )
