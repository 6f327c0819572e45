-- ===== src/Journal/Layout.antt =====
-- The blocks on disk of kernel/journal.h as bytes, and calc_checksum of kernel/journal.c. The structures
-- are packed and their fields are little-endian.
use aurora_os_live.Base.{
  ℕ, ◌-◌, ◌*◌, ◌/◌, ◌%◌, ◌^◌, Bool, List, [], ◌∷◌, ◌++◌, if◌then◌else◌, length, take, drop,
  replicate, memcpy, tabulate,
}
use Prim.Native.Nat.{bit_or, bit_xor}
use aurora_os_live.User.Words.{bytes, number}

-- `sum = (sum << 1) | (sum >> 31); sum ^= byte;`
abbrev pub rotate : ℕ → ℕ
rotate sum = bit_or (sum * 2 % 2 ^ 32) (sum / 2 ^ 31)

unfoldable pub checksum_from : ℕ → List ℕ → ℕ
checksum_from sum [] = sum
checksum_from sum (b ∷ bs) = checksum_from (bit_xor (rotate sum) b % 2 ^ 32) bs

abbrev pub calc_checksum : List ℕ → ℕ
calc_checksum buf = checksum_from 0 buf

abbrev pub journal_magic_sb : ℕ
journal_magic_sb = 0x4A524E4C

abbrev pub journal_magic_desc : ℕ
journal_magic_desc = 0x5452414E

abbrev pub journal_magic_commit : ℕ
journal_magic_commit = 0x434F4D54

-- A field of `n` bytes at an offset of a buffer.
abbrev pub word_at : ℕ → ℕ → List ℕ → ℕ
word_at off n buf = number (take n (drop off buf)) % 256 ^ n

-- A buffer of `size` bytes that memset has cleared, with a structure at its start.
abbrev pub in_block : ℕ → List ℕ → List ℕ
in_block size structure = memcpy (replicate size 0) 0 structure

-- `struct journal_superblock`, from the block size on less jsb_max_transactions, which stays 0.
abbrev pub jsb_fields : ℕ → ℕ → ℕ → ℕ → ℕ → ℕ → Bool → List ℕ
jsb_fields block_size start blocks head tail sequence dirty =
    bytes 4 journal_magic_sb
    ++ (bytes 4 block_size
        ++ (bytes 4 0
            ++ (bytes 8 start
                ++ (bytes 8 blocks
                    ++ (bytes 8 head
                        ++ (bytes 8 tail
                            ++ (bytes 8 sequence ++ bytes 4 (if dirty then 1 else 0))))))))

-- `struct journal_block_header` with its checksum.
abbrev pub header_fields : ℕ → ℕ → ℕ → List ℕ
header_fields sequence count checksum =
    bytes 4 journal_magic_desc
    ++ (bytes 8 sequence ++ (bytes 4 count ++ (bytes 4 checksum ++ replicate 16 0)))

-- The checksum is taken over the header less its last four bytes, while its own field is 0.
unfoldable pub desc_header : ℕ → ℕ → List ℕ
desc_header sequence count =
    header_fields sequence count (calc_checksum (take 32 (header_fields sequence count 0)))

-- `struct journal_data_block`, one for each block of the transaction.
unfoldable pub data_block : ℕ → List ℕ → List ℕ
data_block fs_block content = bytes 8 fs_block ++ (bytes 4 (calc_checksum content) ++ replicate 8 0)

unfoldable pub data_blocks : List (ℕ × List ℕ) → List ℕ
data_blocks [] = []
data_blocks ((fs_block, content) ∷ txn) = data_block fs_block content ++ data_blocks txn

-- The descriptor block of a transaction.
unfoldable pub desc_block : ℕ → ℕ → List (ℕ × List ℕ) → List ℕ
desc_block size sequence txn = in_block size (desc_header sequence (length txn) ++ data_blocks txn)

-- `struct journal_commit_record` with its checksum.
abbrev pub commit_fields : ℕ → ℕ → List ℕ
commit_fields sequence checksum =
    bytes 4 journal_magic_commit ++ (bytes 8 sequence ++ (bytes 4 checksum ++ replicate 16 0))

unfoldable pub commit_record : ℕ → List ℕ
commit_record sequence = commit_fields sequence (calc_checksum (take 28 (commit_fields sequence 0)))

-- The record is a variable on the stack, and a whole block is written from its address: behind it stands
-- what the stack holds.
unfoldable pub commit_block : (ℕ → ℕ) → ℕ → ℕ → List ℕ
commit_block stack size sequence =
    commit_record sequence ++ tabulate stack (size - length (commit_record sequence))
