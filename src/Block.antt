-- ===== src/Block.antt =====
-- Block devices, kernel/block_dev.c and block_dev.h, and the RAM disk, kernel/ramdisk.c. The result of a
-- driver's `read` and `write` is an option, `none` for -1. A buffer that is not NULL is its bytes. Log
-- output is left out.
pub mod RoundTrip
pub mod Disjoint
mod Tests
use aurora_os_live.Base.{
  ℕ, suc, ◌+◌, ◌-◌, ◌*◌, ◌/◌, ◌%◌, ◌^◌, Bool, true, false, ◌&&◌, ◌||◌, Option, none, some, List, [],
  ◌∷◌, ltb, leb, ◌==◌, if◌then◌else◌, take, drop, replicate, memcpy,
}
use aurora_os_live.Base.Int.{ℤ, pos, negsuc}

-- `struct block_device`, less the pointers of the driver.
pub record Device : Type 0 where
  pub name : List ℕ
  pub block_size : ℕ
  pub total_sectors : ℕ

-- `block_dev_list`; a device that is registered goes to the front.
abbrev pub block_dev_register : Device → List Device → List Device
block_dev_register bdev devices = bdev ∷ devices

-- `strcmp(a, b) == 0`, of strings without their terminator.
abbrev pub same_string : List ℕ → List ℕ → Bool
same_string [] [] = true
same_string (a ∷ s) (b ∷ t) = (a == b) && same_string s t
same_string _ _ = false

abbrev pub block_dev_find : List ℕ → List Device → Option Device
block_dev_find name [] = none
block_dev_find name (d ∷ devices) =
    if same_string d.name name then some d else block_dev_find name devices

-- The checks of `block_dev_read` and `block_dev_write`.
unfoldable pub in_device : Device → ℕ → ℤ → Bool
in_device bdev sector (negsuc n) = false
in_device bdev sector (pos count) =
    if count == 0
    then false
    else if ltb bdev.total_sectors sector || ltb (bdev.total_sectors - sector) count
    then false
    else true

unfoldable pub block_dev_read {ℓ} : {A : Type ℓ} → Device → (ℕ → ℤ → Option A) → ℕ → ℤ → Option A
block_dev_read bdev read sector count =
    if in_device bdev sector count then read sector count else none

unfoldable pub block_dev_write {ℓ} :
    {A : Type ℓ} → Device → (List ℕ → ℕ → ℤ → Option A) → List ℕ → ℕ → ℤ → Option A
block_dev_write bdev write buf sector count =
    if in_device bdev sector count then write buf sector count else none

-- `struct ramdisk_priv` and `g_ramdisk_block_size`.
pub record Ramdisk : Type 0 where
  pub bytes : List ℕ
  pub size : ℕ
  pub block_size : ℕ

abbrev pub ramdisk_size_bytes : ℕ
ramdisk_size_bytes = 1048576

abbrev pub byte_offset : Ramdisk → ℕ → ℕ
byte_offset d sector = sector * d.block_size % 2 ^ 64

-- The two tests of the range.
abbrev pub in_ramdisk : Ramdisk → ℕ → ℕ → Bool
in_ramdisk d offset n =
    if ltb d.size ((offset + n) % 2 ^ 64)
    then false
    else if ltb ((offset + n) % 2 ^ 64) offset
    then false
    else true

unfoldable pub ramdisk_read : Ramdisk → ℕ → ℤ → Option (List ℕ)
ramdisk_read d sector (negsuc n) = none
ramdisk_read d sector (pos count) =
    if count == 0
    then none
    else if in_ramdisk d (byte_offset d sector) (byte_offset d count)
    then some (take (byte_offset d count) (drop (byte_offset d sector) d.bytes))
    else none

unfoldable pub ramdisk_write : Ramdisk → List ℕ → ℕ → ℤ → Option Ramdisk
ramdisk_write d buf sector (negsuc n) = none
ramdisk_write d buf sector (pos count) =
    if count == 0
    then none
    else if in_ramdisk d (byte_offset d sector) (byte_offset d count)
    then some (record d {
      bytes = memcpy d.bytes (byte_offset d sector) (take (byte_offset d count) buf);
    })
    else none

-- `ramdisk_init`, where both blocks of kmalloc are there: the disk and its device, "ramdisk0".
abbrev pub capped_size : ℕ → ℕ
capped_size size_mb =
    let size = if size_mb == 0 then ramdisk_size_bytes else size_mb * 1024 * 1024 % 2 ^ 64 in
    if ltb ramdisk_size_bytes size then ramdisk_size_bytes else size

unfoldable pub ramdisk_init : ℕ → Ramdisk × Device
ramdisk_init size_mb = (
  record {
    bytes = replicate (capped_size size_mb) 0;
    size = capped_size size_mb;
    block_size = 512;
  },
  record {
    name = 114 ∷ 97 ∷ 109 ∷ 100 ∷ 105 ∷ 115 ∷ 107 ∷ 48 ∷ [];
    block_size = 512;
    total_sectors = capped_size size_mb / 512;
  },
)
