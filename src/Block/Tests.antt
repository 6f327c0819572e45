-- ===== src/Block/Tests.antt =====
-- Runs of the RAM disk, and the theorem at a disk of 1 MiB.
use aurora_os_live.Base.{ℕ, ◌^◌, ◌≡◌, refl, none, some, [], ◌∷◌, replicate, length-replicate, arith}
use aurora_os_live.Base.Int.{pos}
use aurora_os_live.Block.{
  Ramdisk, block_dev_read, block_dev_write, ramdisk_read, ramdisk_write, ramdisk_init,
}
use aurora_os_live.Block.RoundTrip.{
  IsRamdisk, ramdisk_init-IsRamdisk, block_dev_read-block_dev_write,
}

abbrev tiny : Ramdisk
tiny = record { bytes = 1 ∷ 2 ∷ 3 ∷ 4 ∷ []; size = 4; block_size = 2 }

second_sector : ramdisk_read tiny 1 (pos 1) ≡ some (3 ∷ 4 ∷ [])
unfolding ramdisk_read
second_sector = refl

beyond : ramdisk_read tiny 2 (pos 1) ≡ none
unfolding ramdisk_read
beyond = refl

-- The product of the sector and the block size wraps round to the start of the disk.
wrapped : ramdisk_read tiny (2 ^ 63) (pos 1) ≡ some (1 ∷ 2 ∷ [])
unfolding ramdisk_read
wrapped = refl

block_dev_read-block_dev_write_example :
    (d' : Ramdisk) × (block_dev_write
        (ramdisk_init 1).1
        (ramdisk_write (ramdisk_init 1).0)
        (replicate 512 7)
        2047
        (pos 1)
      ≡ some d')
    × IsRamdisk d' (ramdisk_init 1).1
    × (block_dev_read (ramdisk_init 1).1 (ramdisk_read d') 2047 (pos 1) ≡ some (replicate 512 7))
unfolding ramdisk_init
block_dev_read-block_dev_write_example =
    block_dev_read-block_dev_write (ramdisk_init 1).0 (ramdisk_init 1).1 2047 1 (replicate 512 7)
      (ramdisk_init-IsRamdisk 1) (omega arith) (omega arith) (length-replicate {A = ℕ} 512 7)
