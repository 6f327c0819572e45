-- ===== src/Journal/Recovery.antt =====
-- journal_recover, journal_init and the queries of kernel/journal.c.
use aurora_os_live.Base.{
  ℕ, zero, suc, ◌+◌, ◌-◌, ◌*◌, ◌%◌, ◌^◌, Bool, true, false, not, ◌&&◌, ◌||◌, Option, none, some,
  List, [], ◌++◌, ltb, leb, ◌==◌, if◌then◌else◌,
}
use aurora_os_live.Base.Int.{ℤ, pos, minus_one}
use aurora_os_live.Journal.{
  Driver, Journal, Machine, add_u64, is_committed, sectors_per_block, write_sectors,
  journal_read_block, called, write_jsb,
}
use aurora_os_live.Journal.Layout.{calc_checksum, journal_magic_sb, journal_magic_desc, word_at}

-- What `journal_get_stats` stores through its four pointers.
pub record Stats : Type 0 where
  pub total_blocks : ℕ
  pub used_blocks : ℕ
  pub num_transactions : ℕ
  pub dirty : Bool

unfoldable pub journal_get_stats : Journal → Stats
journal_get_stats j =
    if j.initialized
    then record {
      total_blocks = j.journal_blocks;
      used_blocks = if leb j.tail j.head then j.head - j.tail else 0;
      num_transactions = add_u64 j.sequence (2 ^ 64 - 1);
      dirty = j.dirty;
    }
    else record { total_blocks = 0; used_blocks = 0; num_transactions = 0; dirty = false }

unfoldable pub journal_is_clean : Journal → Bool
journal_is_clean j = if j.initialized then not j.dirty else true

-- The entry `jdbs[i]` of a descriptor block and of the memory behind it: the code does not test that the
-- entry is in the block.
abbrev pub jdb_fs_block : List ℕ → ℕ → ℕ
jdb_fs_block buf i = word_at (36 + 20 * i) 8 buf

abbrev pub jdb_checksum : List ℕ → ℕ → ℕ
jdb_checksum buf i = word_at (44 + 20 * i) 4 buf

-- `g_journal` after its memset and the arguments of `journal_init`.
abbrev pub new_handle : Journal → ℕ → ℕ → ℕ → ℕ → Journal
new_handle old start blocks block_size fs_total = record {
  initialized = old.initialized;
  block_size = block_size;
  journal_start = start;
  journal_blocks = blocks;
  head = 0;
  tail = 0;
  sequence = 0;
  in_transaction = false;
  txn_capacity = 0;
  txn = [];
  dirty = false;
  fs_total_blocks = fs_total;
}

module _ {D : Type 0} where
  abbrev pub ready : Machine D → Machine D × ℤ
  ready m = (record m { journal = record m.journal { initialized = true } }, pos 0)

  -- On a superblock that was read: its fields, and recovery where it is dirty.
  abbrev pub loaded : List ℕ → Machine D → Machine D
  loaded jsb m = record m {
    journal = record m.journal {
      head = word_at 28 8 jsb;
      tail = word_at 36 8 jsb;
      sequence = word_at 44 8 jsb;
      dirty = not (word_at 52 4 jsb == 0);
    };
  }

  unfoldable pub settled : Machine D × ℤ → Machine D × ℤ
  settled (m, pos n) = ready m
  settled (m, e) = (m, minus_one)

  -- To the next round of the scan, or out of it.
  abbrev pub go_on :
      (ℕ → Machine D → Option (Machine D)) → Machine D × Option ℕ → Option (Machine D)
  go_on next (m, none) = some m
  go_on next (m, some at) = next at m

module _ {D : Type 0} (dev : Driver D) where
  -- What a data block of the journal is good for: it is written to its place where the checksum is right.
  -- A write that fails is only logged.
  unfoldable pub restore_block : ℕ → ℕ → Option (List ℕ) → Machine D → Machine D
  restore_block fs_block checksum none m = m
  restore_block fs_block checksum (some content) m =
      if calc_checksum content == checksum
      then (elim (write_sectors dev m content
          (fs_block * sectors_per_block dev m.journal % 2 ^ 64)) [ none ↦ m | some m' ↦ m' ])
      else m

module _ {D : Type 0} (dev : Driver D) (kmalloc : ℕ → Bool) where
  -- A round of the loop over the blocks of a transaction whose descriptor is at `at` and in `buf`, with what
  -- stands in memory behind it.
  unfoldable pub replay_block : List ℕ → ℕ → ℕ → Machine D → Machine D
  replay_block buf at i m =
      let fs_block = jdb_fs_block buf i in
      if ltb 0 m.journal.fs_total_blocks && leb m.journal.fs_total_blocks fs_block
      then m
      else if kmalloc m.calls
      then restore_block dev fs_block (jdb_checksum buf i)
          (journal_read_block dev (add_u64 at (1 + i)) (called m)) (called m)
      else called m

  -- The loop, for the blocks `i`, `i + 1` and so on, as many as the first number says.
  unfoldable pub replay_blocks : ℕ → List ℕ → ℕ → ℕ → Machine D → Machine D
  replay_blocks zero buf at i m = m
  replay_blocks (suc n) buf at i m = replay_blocks n buf at (i + 1) (replay_block buf at i m)

  -- The rest of a round of the scan, behind the descriptor: `none` ends the scan.
  unfoldable pub scan_transaction : ℕ → ℕ → Option (List ℕ) → Machine D → Machine D × Option ℕ
  scan_transaction at commit_pos none m = (m, none)
  scan_transaction at commit_pos (some cmt) m =
      if is_committed cmt
      then (elim (journal_read_block dev at m) [
        | none ↦ (m, none)
        | some buf ↦
            (replay_blocks (word_at 12 4 buf) (buf ++ m.heap) at 0 m, some (add_u64 commit_pos 1))
      ])
      else (m, some (add_u64 commit_pos 1))

  -- A round of the scan at `at`, on the block that was read there.
  unfoldable pub scan_round : ℕ → ℕ → Option (List ℕ) → Machine D → Machine D × Option ℕ
  scan_round at end none m = (m, none)
  scan_round at end (some hdr) m =
      let commit_pos = (at + 1 + word_at 12 4 hdr) % 2 ^ 64 in
      if word_at 0 4 hdr == journal_magic_desc
      then (if leb end commit_pos
          then (m, none)
          else scan_transaction at commit_pos (journal_read_block dev commit_pos m) m)
      else (m, some (add_u64 at 1))

  -- The scan; `none` where the fuel runs out.
  unfoldable pub scan_journal : ℕ → ℕ → ℕ → Machine D → Option (Machine D)
  scan_journal zero at end m = if ltb at end then none else some m
  scan_journal (suc fuel) at end m =
      let rest =
        go_on (λ at' m'. scan_journal fuel at' end m')
          (scan_round at end (journal_read_block dev at m) m) in
      if ltb at end then rest else some m

  -- The fuel is a round for each position from the tail to the head.
  unfoldable pub journal_recover : Machine D → Option (Machine D × ℤ)
  journal_recover m =
      if not m.journal.initialized
      then some (m, minus_one)
      else if kmalloc m.calls
      then (elim (scan_journal (m.journal.head - m.journal.tail) m.journal.tail m.journal.head
          (called m)) [
            | none ↦ none
            | some m' ↦ some (
              (write_jsb dev kmalloc (record m' {
                journal = record m'.journal { tail = m'.journal.head; dirty = false };
              })).0,
              pos 0,
            )
          ])
      else some (called m, minus_one)

  -- `journal_sync`.
  unfoldable pub journal_sync : Machine D → Machine D × ℤ
  journal_sync m = if m.journal.initialized then write_jsb dev kmalloc m else (m, minus_one)

  unfoldable pub open_existing : Machine D → Option (Machine D × ℤ)
  open_existing m =
      if m.journal.dirty
      then (elim (journal_recover m) [ none ↦ none | some r ↦ some (settled r) ])
      else some (ready m)

  unfoldable pub create : Machine D → Machine D × ℤ
  create m = settled (
      write_jsb dev kmalloc (record m {
        journal = record m.journal { head = 1; tail = 1; sequence = 1; dirty = false };
      }))

  unfoldable pub init_from : Option (List ℕ) → Machine D → Option (Machine D × ℤ)
  init_from none m = some (create m)
  init_from (some jsb) m =
      if word_at 0 4 jsb == journal_magic_sb then open_existing (loaded jsb m) else some (create m)

  -- `journal_init` of a device that is not NULL.
  unfoldable pub journal_init : ℕ → ℕ → ℕ → ℕ → Machine D → Option (Machine D × ℤ)
  journal_init start blocks block_size fs_total m =
      let m1 = record m { journal = new_handle m.journal start blocks block_size fs_total } in
      if ltb blocks 8 || ltb block_size 512
      then some (m, minus_one)
      else if kmalloc m.calls
      then init_from (journal_read_block dev 0 (called m1)) (called m1)
      else some (called m1, minus_one)
