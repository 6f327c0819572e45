-- ===== src/Journal.antt =====
-- The write-ahead journal, kernel/journal.c and journal.h. The device is the functions of its driver behind
-- block_dev_read and block_dev_write (kernel/block_dev.c); `kmalloc n` says whether the call of kmalloc
-- number n returns a block. A static variable is a field of the state.
pub mod Layout
pub mod Fields
pub mod Scans
pub mod Store
pub mod Transaction
pub mod Commit
pub mod Durable
pub mod Logged
pub mod OnRamdisk
pub mod Effects
pub mod Ends
pub mod Kept
pub mod Area
pub mod Crash
pub mod Recovered
pub mod Recovery
pub mod Reopen
pub mod Replay
mod Tests
use aurora_os_live.Base.{
  ℕ, zero, suc, ◌+◌, ◌-◌, ◌*◌, ◌/◌, ◌%◌, ◌^◌, Bool, true, false, not, ◌&&◌, ◌||◌, Option, none,
  some, List, [], ◌∷◌, ◌++◌, ltb, leb, ◌==◌, if◌then◌else◌, length, take,
}
use aurora_os_live.Base.Int.{ℤ, pos, negsuc, minus_one}
use aurora_os_live.Block.{Device, block_dev_read, block_dev_write}
use aurora_os_live.User.Words.{bytes}
use aurora_os_live.Journal.Layout.{
  calc_checksum, journal_magic_sb, journal_magic_desc, journal_magic_commit, word_at, in_block,
  jsb_fields, desc_block, commit_block,
}

-- A block device with a driver whose state is a `D`. A read does not change the state, and a write that
-- fails leaves it as it is.
pub record Driver (D : Type 0) : Type 0 where
  pub bdev : Device
  pub read : D → ℕ → ℤ → Option (List ℕ)
  pub write : D → List ℕ → ℕ → ℤ → Option D

-- `g_journal_initialized` and `struct journal_handle`, less the device. `txn` is the first `txn_blocks`
-- entries of `txn_fs_blocks` and `txn_data`.
pub record Journal : Type 0 where
  pub initialized : Bool
  pub block_size : ℕ
  pub journal_start : ℕ
  pub journal_blocks : ℕ
  pub head : ℕ
  pub tail : ℕ
  pub sequence : ℕ
  pub in_transaction : Bool
  pub txn_capacity : ℕ
  pub txn : List (ℕ × List ℕ)
  pub dirty : Bool
  pub fs_total_blocks : ℕ

-- The journal, the device's state, the number of calls of kmalloc so far, and what stands in memory behind
-- the block that journal_recover allocates for its buffer.
pub record Machine (D : Type 0) : Type 0 where
  pub journal : Journal
  pub disk : D
  pub calls : ℕ
  pub heap : List ℕ

-- `(int)` of an unsigned 32-bit word.
abbrev pub to_int : ℕ → ℤ
to_int w = if ltb w (2 ^ 31) then pos w else negsuc (2 ^ 32 - 1 - w)

abbrev pub add_u64 : ℕ → ℕ → ℕ
add_u64 a b = (a + b) % 2 ^ 64

-- The superblock: its fields, then their checksum.
unfoldable pub jsb_bytes : Journal → List ℕ
jsb_bytes j =
    let fields =
      jsb_fields j.block_size j.journal_start j.journal_blocks j.head j.tail j.sequence j.dirty in
    fields ++ bytes 4 (calc_checksum fields)

abbrev pub jsb_block : Journal → List ℕ
jsb_block j = in_block j.block_size (jsb_bytes j)

-- `free_transaction`.
unfoldable pub free_transaction : Journal → Journal
free_transaction j = record j { txn = []; txn_capacity = 0; in_transaction = false }

abbrev pub desc_capacity : ℕ → ℕ
desc_capacity block_size = (block_size - 36) / 20

-- The state of a descriptor block's header and of a commit record, as journal_recover tests them. The
-- pointers to both are into one buffer, which holds the commit record by then.
abbrev pub is_committed : List ℕ → Bool
is_committed cmt = (word_at 0 4 cmt == journal_magic_commit) && (word_at 4 8 cmt == word_at 4 8 cmt)

abbrev pub journal_to_device : Journal → ℕ → ℕ
journal_to_device j offset = add_u64 j.journal_start offset

-- How far `advance_head` moves the tail in a round: over a transaction, or by one block.
abbrev pub evicted : Option (List ℕ) → ℕ
evicted none = 1
evicted (some buf) =
    if word_at 0 4 buf == journal_magic_desc then (1 + word_at 12 4 buf + 1) % 2 ^ 32 else 1

abbrev pub wrapped_head : Journal → Journal
wrapped_head j =
    if leb j.journal_blocks j.head
    then record j {
      head = j.head - j.journal_blocks;
      tail = if leb j.journal_blocks j.tail then j.tail - j.journal_blocks else j.tail;
    }
    else j

-- `journal_begin`.
abbrev pub capacity : Journal → ℕ → ℕ
capacity j max_blocks =
    let wanted = if max_blocks == 0 then 1 else max_blocks in
    if ltb (desc_capacity j.block_size) wanted then desc_capacity j.block_size else wanted

module _ {D : Type 0} where
  -- After one more call of kmalloc.
  abbrev pub called : Machine D → Machine D
  called m = record m { calls = m.calls + 1 }

  abbrev pub with_tail : Machine D → ℕ → Machine D
  with_tail m n = record m { journal = record m.journal { tail = n } }

module _ {D : Type 0} (dev : Driver D) where
  abbrev pub sectors_per_block : Journal → ℕ
  sectors_per_block j = j.block_size / dev.bdev.block_size

  -- The call of block_dev_write for a whole block.
  unfoldable pub write_sectors : Machine D → List ℕ → ℕ → Option (Machine D)
  write_sectors m buf sector =
      elim (block_dev_write dev.bdev (dev.write m.disk) buf sector
        (to_int (sectors_per_block m.journal))) [
          | none ↦ none
          | some d ↦ some (record m { disk = d })
        ]

  abbrev pub journal_sector : Journal → ℕ → ℕ
  journal_sector j offset = journal_to_device j offset * sectors_per_block j % 2 ^ 64

  unfoldable pub journal_write_block : ℕ → List ℕ → Machine D → Option (Machine D)
  journal_write_block offset buf m = write_sectors m buf (journal_sector m.journal offset)

  unfoldable pub journal_read_block : ℕ → Machine D → Option (List ℕ)
  journal_read_block offset m =
      block_dev_read dev.bdev (dev.read m.disk) (journal_sector m.journal offset)
        (to_int (sectors_per_block m.journal))

  -- The data blocks of a transaction, into the journal from an offset on.
  unfoldable pub log_data : ℕ → List (ℕ × List ℕ) → Machine D → Machine D × Bool
  log_data at [] m = (m, true)
  log_data at ((fs_block, content) ∷ txn) m = elim (journal_write_block at content m) [
    | none ↦ (m, false)
    | some m' ↦ log_data (add_u64 at 1) txn m'
  ]

module _ {D : Type 0} (dev : Driver D) (kmalloc : ℕ → Bool) where
  unfoldable pub write_jsb : Machine D → Machine D × ℤ
  write_jsb m =
      if kmalloc m.calls
      then (elim (journal_write_block dev 0 (jsb_block m.journal) (called m)) [
        | none ↦ (called m, minus_one)
        | some m' ↦ (m', pos 0)
      ])
      else (called m, minus_one)

  -- The loop of `advance_head`; `none` where the fuel runs out.
  unfoldable pub evict : ℕ → Machine D → Option (Machine D)
  evict zero m = none
  evict (suc fuel) m =
      let usable = add_u64 m.journal.journal_blocks (2 ^ 64 - 1) in
      let skip = evicted (journal_read_block dev m.journal.tail (called m)) in
      let rest = evict fuel (with_tail (called m) (add_u64 m.journal.tail skip)) in
      if leb (add_u64 m.journal.tail usable) m.journal.head
      then (if kmalloc m.calls then rest else some (called m))
      else some m

  -- `advance_head`, with fuel for one round more than the head is large.
  unfoldable pub advance_head : ℕ → Machine D → Option (Machine D)
  advance_head n m =
      let head = add_u64 m.journal.head n in
      elim (evict (suc head) (record m { journal = record m.journal { head = head } })) [
        | none ↦ none
        | some m' ↦ some (write_jsb (record m' { journal = wrapped_head m'.journal })).0
      ]

module _ {D : Type 0} (kmalloc : ℕ → Bool) where
  unfoldable pub journal_begin : ℕ → Machine D → Machine D × ℤ
  journal_begin max_blocks m =
      if not m.journal.initialized || m.journal.in_transaction
      then (m, minus_one)
      else if kmalloc m.calls && kmalloc (m.calls + 1)
      then (
        record m {
          journal = record m.journal {
            in_transaction = true;
            txn = [];
            txn_capacity = capacity m.journal max_blocks;
          };
          calls = m.calls + 2;
        },
        pos 0,
      )
      else (record m { calls = m.calls + 2 }, minus_one)

  -- `journal_write`. The block is stored under the low 32 bits of its number.
  unfoldable pub journal_write : ℕ → List ℕ → Machine D → Machine D × ℤ
  journal_write fs_block buf m =
      if not m.journal.initialized || not m.journal.in_transaction
      then (m, minus_one)
      else if leb m.journal.txn_capacity (length m.journal.txn)
      then (m, minus_one)
      else if kmalloc m.calls
      then (
        record (called m) {
          journal = record m.journal {
            txn = m.journal.txn ++ ((fs_block % 2 ^ 32, take m.journal.block_size buf) ∷ []);
          };
        },
        pos 0,
      )
      else (called m, minus_one)
