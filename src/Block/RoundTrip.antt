-- ===== src/Block/RoundTrip.antt =====
-- A RAM disk behind its block device (kernel/block_dev.c, kernel/ramdisk.c).
use aurora_os_live.Base.{
  ℕ, ◌+◌, ◌*◌, ◌/◌, ◌≤◌, ◌<◌, ◌≡◌, refl, sym, ap, ◌∙◌, true, false, some, List, ◌==◌, length, take,
  drop, memcpy, length-memcpy, get_or-memcpy, length-take, length-drop, get_or-take, get_or-drop,
  take_all, list_ext, length-replicate, arith,
}
use aurora_os_live.Base.Int.{pos}
use aurora_os_live.Block.{
  Device, Ramdisk, ramdisk_size_bytes, in_device, block_dev_read, block_dev_write, byte_offset,
  in_ramdisk, ramdisk_read, ramdisk_write, capped_size, ramdisk_init,
}

-- What memcpy has written is read back.
pub take-memcpy :
    (dst src : List ℕ) (at : ℕ)
    → at + length src ≤ length dst
    → take (length src) (drop at (memcpy dst at src)) ≡ src
take-memcpy dst src at h =
    let all = memcpy dst at src in
    let size : length (take (length src) (drop at all)) ≡ length src = omega (
      arith,
      length-take (length src) (drop at all),
      length-drop at all,
      length-memcpy src dst at,
    ) in
    list_ext (take (length src) (drop at all)) src 0 size (λ i l.
      get_or-take (length src) i (drop at all) 0 (omega arith)
      ∙ get_or-drop at i all 0
      ∙ get_or-memcpy src dst at i 0 (omega arith) h)

-- A RAM disk of at most 1 MiB, in blocks of 512 bytes, and its device.
pub record IsRamdisk (d : Ramdisk) (bdev : Device) : Type 0 where
  pub whole : length d.bytes ≡ d.size
  pub small : d.size ≤ ramdisk_size_bytes
  pub blocks : d.block_size ≡ 512
  pub sectors : bdev.total_sectors ≡ d.size / 512

pub ramdisk_init-IsRamdisk :
    (size_mb : ℕ) → IsRamdisk (ramdisk_init size_mb).0 (ramdisk_init size_mb).1
unfolding ramdisk_init
ramdisk_init-IsRamdisk size_mb = record {
  whole = length-replicate (capped_size size_mb) 0;
  small = ground arith;
  blocks = refl;
  sectors = refl;
}

pub in_device_bounds :
    (bdev : Device) (sector count : ℕ)
    → 0 < count
    → sector + count ≤ bdev.total_sectors
    → in_device bdev sector (pos count) ≡ true
unfolding in_device
in_device_bounds bdev sector count z h = ground arith

pub in_device_range :
    (bdev : Device) (sector count : ℕ)
    → in_device bdev sector (pos count) ≡ true
    → sector + count ≤ bdev.total_sectors
unfolding in_device
in_device_range bdev sector count h = ground arith

pub no_wrap : (d : Ramdisk) (n : ℕ) → d.block_size ≡ 512 → n ≤ 2048 → byte_offset d n ≡ n * 512
no_wrap d n b h = let e : n * d.block_size ≡ n * 512 = ap (λ x. n * x) b in omega arith

-- Sectors that lie on the disk, written through the device and read through it, come back as they were
-- written, and the disk keeps its shape. The buffer holds as many bytes as the sectors.
pub block_dev_read-block_dev_write :
    (d : Ramdisk) (bdev : Device) (sector count : ℕ) (buf : List ℕ)
    → IsRamdisk d bdev
    → 0 < count
    → sector + count ≤ bdev.total_sectors
    → length buf ≡ count * 512
    → (d' : Ramdisk) × (block_dev_write bdev (ramdisk_write d) buf sector (pos count) ≡ some d')
      × IsRamdisk d' bdev
      × (block_dev_read bdev (ramdisk_read d') sector (pos count) ≡ some buf)
unfolding block_dev_read block_dev_write ramdisk_read ramdisk_write
block_dev_read-block_dev_write d bdev sector count buf r z h l =
    let ok = in_device_bounds bdev sector count z h in
    let bound : sector + count ≤ 2048 = omega (arith, r.small, r.sectors) in
    let off : byte_offset d sector ≡ sector * 512 = no_wrap d sector r.blocks (omega arith) in
    let len : byte_offset d count ≡ count * 512 = no_wrap d count r.blocks (omega arith) in
    let on : in_ramdisk d (byte_offset d sector) (byte_offset d count) ≡ true =
      ground (arith, r.small, r.sectors) in
    let some_count : (count == 0) ≡ false = ground arith in
    let all : take (byte_offset d count) buf ≡ buf =
      take_all (byte_offset d count) buf (omega arith) in
    let d' = record d {
      bytes = memcpy d.bytes (byte_offset d sector) (take (byte_offset d count) buf);
    } in
    let fits : byte_offset d sector + length buf ≤ length d.bytes =
      omega (arith, r.whole, r.sectors) in
    let size : length d'.bytes ≡ length d.bytes =
      length-memcpy (take (byte_offset d count) buf) d.bytes (byte_offset d sector) in
    let r' : IsRamdisk d' bdev = record {
      whole = size ∙ r.whole;
      small = r.small;
      blocks = r.blocks;
      sectors = r.sectors;
    } in
    let back : take (byte_offset d count) (drop (byte_offset d sector) d'.bytes) ≡ buf =
      ap
        (λ b.
          take (byte_offset d count)
            (drop (byte_offset d sector) (memcpy d.bytes (byte_offset d sector) b)))
        all
      ∙ ap (λ n. take n (drop (byte_offset d sector) (memcpy d.bytes (byte_offset d sector) buf)))
          (len ∙ sym l)
      ∙ take-memcpy d.bytes buf (byte_offset d sector) fits in
    (d', rw (ok, some_count, on) refl, r', rw (ok, some_count, on) (ap some back))
