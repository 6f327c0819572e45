-- ===== src/Journal/Tests.antt =====
-- The theorems on the journal, at a RAM disk of 1 MiB with file system blocks of two sectors.
use aurora_os_live.Base.{
  ◌-◌, ◌≢◌, ◌==◌, sym, ap, ◌∙◌, Option, Bool-cases, ℕ, ◌+◌, ◌^◌, ◌≡◌, ◌++◌, some, none, inl, inr,
  refl, Bool, true, false, List, [], ◌∷◌, replicate, length-replicate, Ensures, arith,
}
use mathlib.Core.Path.{subst}
use aurora_os_live.User.Words.{bytes}
use aurora_os_live.Base.Int.{pos, minus_one}
use aurora_os_live.Block.{Ramdisk, Device, in_device, block_dev_read, block_dev_write, ramdisk_init}
use aurora_os_live.Block.RoundTrip.{IsRamdisk, ramdisk_init-IsRamdisk}
use aurora_os_live.Journal.{
  jsb_bytes, jsb_block, write_jsb, log_data, journal_write_block, write_sectors, Journal, Machine,
  Driver, journal_read_block, journal_sector, sectors_per_block, to_int,
}
use aurora_os_live.Journal.Commit.{
  log_transaction, log_commit, marked_dirty, checkpoint, journal_commit,
}
use aurora_os_live.Journal.Recovery.{journal_recover, journal_init, journal_sync}
use aurora_os_live.Journal.Store.{
  BlockStore, Wrote, Misses, put_block, stored_missed, IsPlaced, block_at, stored,
}
use aurora_os_live.Journal.Logged.{Outside, HasRoom, IsOpen, committed}
use aurora_os_live.Journal.OnRamdisk.{ramdisk_driver, ramdisk_store}
use aurora_os_live.Journal.Transaction.{transaction, with_writes, transaction_durable}
use aurora_os_live.Journal.Layout.{
  word_at, journal_magic_sb, journal_magic_desc, desc_block, commit_block, desc_header, data_blocks,
  data_block, commit_record,
}
use aurora_os_live.Vfs.{set_at}
use aurora_os_live.Journal.Ends.{SaneCounts, journal_commit_ends}
use aurora_os_live.Journal.Scans.{journal_recover_returns}
use aurora_os_live.Journal.Reopen.{opening, journal_init_dirty, journal_init-journal_sync}
use aurora_os_live.Journal.Crash.{Written, Spares, commit_damage_recover, journal_recover_replays}

abbrev bdev : Device
bdev = (ramdisk_init 1).1

-- A journal of 16 blocks from block 900 on, which has just been created.
abbrev new_journal : Journal
new_journal = record {
  initialized = true;
  block_size = 1024;
  journal_start = 900;
  journal_blocks = 16;
  head = 1;
  tail = 1;
  sequence = 1;
  in_transaction = false;
  txn_capacity = 0;
  txn = [];
  dirty = false;
  fs_total_blocks = 900;
}

abbrev machine : Machine Ramdisk
machine = record { journal = new_journal; disk = (ramdisk_init 1).0; calls = 0; heap = 1 ∷ [] }

abbrev plenty : ℕ → Bool
plenty n = true

abbrev no_stack : ℕ → ℕ
no_stack i = 0

-- Two blocks.
abbrev blocks : List (ℕ × List ℕ)
blocks = (100, replicate 1024 7) ∷ (101, replicate 1024 8) ∷ []

abbrev driver : Driver Ramdisk
driver = ramdisk_driver bdev

active : IsOpen driver 2 900 (with_writes 4 blocks new_journal)
unfolding ramdisk_init
active = record {
  place = record {
    sectors = refl;
    size = refl;
    some_sectors = omega arith;
    int_sectors = omega arith;
    area = omega arith;
    words = omega arith;
  };
  initialized = refl;
  active = refl;
  on_device = omega arith;
  small = omega arith;
  record_fits = omega arith;
  blocks = (
    omega arith,
    length-replicate {A = ℕ} 1024 7,
    (omega arith, length-replicate {A = ℕ} 1024 8, tt),
  );
}

roomy : HasRoom (with_writes 4 blocks new_journal)
roomy = record { started = omega arith; ordered = omega arith; room = omega arith }

size : bdev.block_size ≡ 512
unfolding ramdisk_init
size = refl

transaction_durable_example : Ensures (transaction driver plenty no_stack 4 blocks machine) (λ r.
    (r.1 ≡ pos 0)
    × (r.0.journal ≡ committed (with_writes 4 blocks new_journal))
    × IsRamdisk r.0.disk bdev
    × ((b : ℕ)
        → Outside new_journal b
        → block_at driver 2 r.0.disk b ≡ stored blocks (block_at driver 2 machine.disk) b))
transaction_durable_example =
    transaction_durable driver 2 (ramdisk_store bdev 2 (omega arith) size) plenty (λ i. refl)
      no_stack 900 4 blocks machine (ramdisk_init-IsRamdisk 1) refl active roomy (omega arith)
      (omega arith)

abbrev cut_off : Machine Ramdisk
cut_off = record machine { journal = with_writes 4 blocks new_journal }

abbrev store : BlockStore driver 2
store = ramdisk_store bdev 2 (omega arith) size

abbrev zeros : List ℕ
zeros = replicate 1024 0

-- Block 100 of the file system is overwritten.
abbrev or_same : Ramdisk → Option Ramdisk → Ramdisk
or_same d none = d
or_same d (some d') = d'

abbrev damage : Ramdisk → Ramdisk
damage d = or_same d (block_dev_write bdev (driver.write d) zeros 200 (pos 2))

damage_lem :
    (d : Ramdisk) → IsRamdisk d bdev → Wrote driver 2 store ((100, zeros) ∷ []) d (damage d)
unfolding ramdisk_init
damage_lem d g =
    let w = put_block driver 2 store d 100 zeros g (omega arith) (omega arith) refl in
    subst (Wrote driver 2 store ((100, zeros) ∷ []) d) (sym (ap (or_same d) w.1)) w.2

spared :
    (b : ℕ)
    → 100 ≢ b
    → (d : Ramdisk) → IsRamdisk d bdev
    → block_at driver 2 (damage d) b ≡ block_at driver 2 d b
spared b h d g =
    ap (λ v. v b) (damage_lem d g).now
    ∙ stored_missed ((100, zeros) ∷ []) (block_at driver 2 d) b (h, tt)

journal_recover_replays_example :
    Ensures (commit_damage_recover driver plenty no_stack damage cut_off) (λ r.
      (r.1 ≡ pos 0)
      × (r.0.journal ≡ record (committed cut_off.journal) { tail = 1 + 2 + 2 })
      × ((b : ℕ)
          → Outside new_journal b
          → Written b blocks
          → block_at driver 2 r.0.disk b ≡ stored blocks (block_at driver 2 machine.disk) b)
      × ((b : ℕ)
          → Outside new_journal b
          → Misses b blocks
          → Spares driver 2 store plenty damage b
          → block_at driver 2 r.0.disk b ≡ block_at driver 2 machine.disk b))
journal_recover_replays_example =
    journal_recover_replays driver 2 store plenty no_stack 900 damage cut_off
      (ramdisk_init-IsRamdisk 1) active roomy refl (omega arith) (omega arith) (omega arith)
      (inl (omega arith), (inl (omega arith), tt)) (inr (omega arith)) (λ i. refl)
      (λ d g. (damage_lem d g).good) (λ k l. spared (900 + k) (λ e. omega arith))

-- A device that holds a dirty superblock everywhere and refuses every write.
abbrev dirty_jsb : List ℕ
dirty_jsb = bytes 4 journal_magic_sb ++ (replicate 48 0 ++ 1 ∷ 0 ∷ 0 ∷ 0 ∷ [])

abbrev failing : Driver ℕ
failing = record {
  bdev = record { name = []; block_size = 512; total_sectors = 2048 };
  read = λ d sector count. some dirty_jsb;
  write = λ d buf sector count. none;
}

abbrev stuck : Machine ℕ
stuck = record { journal = with_writes 4 blocks new_journal; disk = 0; calls = 0; heap = 1 ∷ [] }

-- A device that stores a block for each sector number.
abbrev array : Driver (ℕ → List ℕ)
array = record {
  bdev = record { name = []; block_size = 512; total_sectors = 2048 };
  read = λ d sector count. some (d sector);
  write = λ d buf sector count. some (set_at d sector buf);
}

abbrev IsSane : List ℕ → Type 0
IsSane buf = word_at 0 4 buf ≡ journal_magic_desc → word_at 12 4 buf ≢ 2 ^ 32 - 2

set_at-IsSane :
    (d : ℕ → List ℕ) (sector : ℕ) (buf : List ℕ)
    → ((s : ℕ) → IsSane (d s))
    → IsSane buf
    → (s : ℕ) → IsSane (set_at d sector buf s)
set_at-IsSane d sector buf h b s = elim (Bool-cases (sector == s)) [
  | inl here ↦ rw here b
  | inr there ↦ rw there (h s)
]

array-SaneCounts : (m : Machine (ℕ → List ℕ)) → ((s : ℕ) → IsSane (m.disk s)) → SaneCounts array m
unfolding journal_read_block block_dev_read
array-SaneCounts m h at buf e =
    elim (Bool-cases (
      in_device array.bdev (journal_sector array m.journal at)
        (to_int (sectors_per_block array m.journal)))) [
          | inl on ↦
              let same : m.disk (journal_sector array m.journal at) ≡ buf = cc (rw on at e) in
              subst IsSane same (h (journal_sector array m.journal at))
          | inr off ↦
              let gone : ◌≡◌ {A = Option (List ℕ)} none (some buf) = rw off at e in absurd (cc)
        ]

-- A journal that the next commit fills: block 1 holds the descriptor of an old transaction, and the head is
-- at 13 of 16 blocks.
abbrev full : Machine (ℕ → List ℕ)
full = record {
  journal = record new_journal {
    head = 13;
    in_transaction = true;
    txn_capacity = 4;
    txn = (100, replicate 1024 7) ∷ [];
  };
  disk = set_at (λ s. replicate 1024 0) 1802 (desc_block 1024 1 blocks);
  calls = 0;
  heap = [];
}

zeros-IsSane : IsSane (replicate 1024 0)
zeros-IsSane e = omega (arith, e)

abbrev logs : Machine (ℕ → List ℕ) × Bool
logs = log_transaction array no_stack 1 (marked_dirty array plenty full)

-- The blocks that the commit has written before it evicts.
abbrev content : List ℕ
content = replicate 1024 7

abbrev superblock : List ℕ
superblock = jsb_block (record (full.journal) { sequence = 2; dirty = true })

abbrev written : ℕ → List ℕ
written =
    set_at
      (set_at
        (set_at
          (set_at (set_at full.disk 1800 superblock) 1826 (desc_block 1024 1 full.journal.txn)) 1828
          content)
        1830 (commit_block no_stack 1024 1))
      200 content

written_lem : (checkpoint array logs.0.journal.txn logs.0).0.disk ≡ written
unfolding write_jsb log_transaction log_commit log_data checkpoint journal_write_block write_sectors
    block_dev_write in_device
written_lem = refl

written-IsSane : (s : ℕ) → IsSane (written s)
unfolding desc_block commit_block jsb_bytes desc_header data_blocks data_block commit_record
written-IsSane =
    set_at-IsSane _ 200 content
      (set_at-IsSane _ 1830 (commit_block no_stack 1024 1)
        (set_at-IsSane _ 1828 content
          (set_at-IsSane _ 1826 (desc_block 1024 1 full.journal.txn)
            (set_at-IsSane _ 1800 superblock
              (set_at-IsSane (λ s. replicate 1024 0) 1802 (desc_block 1024 1 blocks)
                (λ s. zeros-IsSane) (λ e. omega arith))
              (λ e. omega arith))
            (λ e. omega arith))
          (λ e. omega arith))
        (λ e. omega arith))
      (λ e. omega arith)

journal_commit_ends_example :
    Ensures
      (journal_commit array plenty no_stack full)
      (λ r. (r.0.journal.in_transaction ≡ false) × (r.0.journal.txn ≡ []))
journal_commit_ends_example =
    journal_commit_ends array plenty no_stack full refl refl
      (record {
        head_low = omega arith;
        tail_low = omega arith;
        some_blocks = omega arith;
        blocks_low = omega arith;
      })
      (array-SaneCounts (checkpoint array logs.0.journal.txn logs.0).0
        (subst (λ d. (s : ℕ) → IsSane (d s)) (sym written_lem) written-IsSane))

-- A transaction that stands in the journal of a RAM disk.
abbrev interrupted : Machine Ramdisk
interrupted = record machine {
  journal = record new_journal { head = 5; dirty = true };
  disk = (log_transaction driver no_stack 1 cut_off).0.disk;
}

journal_recover_returns_example :
    Ensures
      (journal_recover driver plenty interrupted)
      (λ r. (r.1 ≡ pos 0) × (r.0.journal.dirty ≡ false) × (r.0.journal.tail ≡ r.0.journal.head))
journal_recover_returns_example =
    journal_recover_returns driver plenty interrupted refl refl (omega arith)

abbrev booting : Machine ℕ
booting = record stuck { journal = record new_journal { initialized = false } }

dirty_read :
    journal_read_block failing 0 (opening failing plenty 900 16 1024 900 booting) ≡ some dirty_jsb
unfolding journal_read_block block_dev_read in_device
dirty_read = refl

journal_init_dirty_example :
    Ensures
      (journal_init failing plenty 900 16 1024 900 booting)
      (λ r. (r.1 ≡ minus_one) × (r.0.disk ≡ 0) × (r.0.journal.initialized ≡ false))
journal_init_dirty_example =
    journal_init_dirty failing plenty 900 16 1024 900 booting dirty_jsb (omega arith) (omega arith)
      refl refl dirty_read refl (omega arith)

place : IsPlaced driver 2 new_journal
unfolding ramdisk_init
place = record {
  sectors = refl;
  size = refl;
  some_sectors = omega arith;
  int_sectors = omega arith;
  area = omega arith;
  words = omega arith;
}

journal_init-journal_sync_example :
    Ensures
      (journal_init driver plenty 900 16 1024 900 (journal_sync driver plenty machine).0)
      (λ r.
        (r.1 ≡ pos 0)
        × (r.0.journal.initialized ≡ true)
        × (r.0.journal.dirty ≡ false)
        × (r.0.journal.head ≡ 1)
        × (r.0.journal.tail ≡ 1)
        × (r.0.journal.sequence ≡ 1))
journal_init-journal_sync_example =
    journal_init-journal_sync driver 2 (ramdisk_store bdev 2 (omega arith) size) plenty machine 900
      (ramdisk_init-IsRamdisk 1) place
      (record { head = omega arith; tail = omega arith; sequence = omega arith }) refl refl
      (omega arith) (omega arith) (λ i. refl)
