-- ===== src/Journal/Recovered.antt =====
-- journal_recover of kernel/journal.c, whole, on a journal that holds a transaction.
use aurora_os_live.Base.{
  ℕ, zero, suc, ◌+◌, ◌-◌, ◌*◌, ◌%◌, ◌^◌, ◌≤◌, ◌<◌, ◌≡◌, ◌⊎◌, refl, ap, ap₂, ◌∙◌, Bool, true, false,
  some, List, [], ◌∷◌, ◌++◌, ltb, leb, ==_refl, eq→==, length, arith,
}
use mathlib.Core.Path.{subst}
use aurora_os_live.Base.Int.{pos}
use aurora_os_live.Journal.{
  Driver, Journal, Machine, add_u64, journal_read_block, called, write_jsb, jsb_block,
}
use aurora_os_live.Journal.Layout.{word_at, journal_magic_desc, journal_magic_commit}
use aurora_os_live.Journal.Recovery.{
  replay_blocks, scan_transaction, scan_round, go_on, scan_journal, journal_recover,
}
use aurora_os_live.Journal.Store.{
  BlockStore, IsPlaced, IsPlaced-again, Wrote, Wrote-then, AreBlocks, block_at,
}
use aurora_os_live.Journal.Effects.{le_mul, write_jsb_lem}
use aurora_os_live.Journal.Area.{IsLogged}
use aurora_os_live.Journal.Fields.{Described-append}
use aurora_os_live.Journal.Replay.{Holds, AllOutside, journal_read_block_lem, replay_blocks_lem}

module _ {D : Type 0} (dev : Driver D) (kmalloc : ℕ → Bool) where
  scan_end : (fuel at : ℕ) (m : Machine D) → scan_journal dev kmalloc fuel at at m ≡ some m
  unfolding scan_journal
  scan_end zero at m = let stop : ltb at at ≡ false = ground arith in rw stop refl
  scan_end (suc fuel) at m = let stop : ltb at at ≡ false = ground arith in rw stop refl

  scan_transaction_found :
      (at commit_pos : ℕ) (hdr cmt : List ℕ) (m : Machine D)
      → word_at 0 4 cmt ≡ journal_magic_commit
      → journal_read_block dev at m ≡ some hdr
      → scan_transaction dev kmalloc at commit_pos (some cmt) m ≡ (
        replay_blocks dev kmalloc (word_at 12 4 hdr) (hdr ++ m.heap) at 0 m,
        some (add_u64 commit_pos 1),
      )
  unfolding scan_transaction
  scan_transaction_found at commit_pos hdr cmt m c r =
      let magic = eq→== (word_at 0 4 cmt) journal_magic_commit c in
      rw (magic, ==_refl (word_at 4 8 cmt), r) refl

  scan_round_found :
      (at end : ℕ) (hdr : List ℕ) (m : Machine D)
      → (at + 1 + word_at 12 4 hdr) % 2 ^ 64 < end
      → word_at 0 4 hdr ≡ journal_magic_desc
      → scan_round dev kmalloc at end (some hdr) m
        ≡ scan_transaction dev kmalloc at
            ((at + 1 + word_at 12 4 hdr) % 2 ^ 64)
            (journal_read_block dev ((at + 1 + word_at 12 4 hdr) % 2 ^ 64) m)
            m
  unfolding scan_round
  scan_round_found at end hdr m h d =
      let more : leb end ((at + 1 + word_at 12 4 hdr) % 2 ^ 64) ≡ false = ground arith in
      rw (eq→== (word_at 0 4 hdr) journal_magic_desc d, more) refl

  pub scan_step :
      (fuel at end : ℕ) (m : Machine D)
      → at < end
      → scan_journal dev kmalloc (suc fuel) at end m
        ≡ go_on
            (λ at' m'. scan_journal dev kmalloc fuel at' end m')
            (scan_round dev kmalloc at end (journal_read_block dev at m) m)
  unfolding scan_journal
  scan_step fuel at end m h = let go : ltb at end ≡ true = ground arith in rw go refl

  -- The round of the scan that finds a transaction with its commit record.
  scan_found :
      (fuel at end commit_pos n : ℕ) (hdr cmt : List ℕ) (m : Machine D)
      → at < end
      → commit_pos < end
      → word_at 12 4 hdr ≡ n
      → (at + 1 + n) % 2 ^ 64 ≡ commit_pos
      → word_at 0 4 hdr ≡ journal_magic_desc
      → word_at 0 4 cmt ≡ journal_magic_commit
      → journal_read_block dev at m ≡ some hdr
      → journal_read_block dev commit_pos m ≡ some cmt
      → scan_journal dev kmalloc (suc fuel) at end m
        ≡ scan_journal dev kmalloc fuel
            (add_u64 commit_pos 1)
            end
            (replay_blocks dev kmalloc n (hdr ++ m.heap) at 0 m)
  scan_found fuel at end commit_pos n hdr cmt m h l c e d k r1 r2 =
      let next = λ (at' : ℕ) (m' : Machine D). scan_journal dev kmalloc fuel at' end m' in
      let there : (at + 1 + word_at 12 4 hdr) % 2 ^ 64 ≡ commit_pos =
        ap (λ x. (at + 1 + x) % 2 ^ 64) c ∙ e in
      scan_step fuel at end m h
      ∙ ap (λ o. go_on next (scan_round dev kmalloc at end o m)) r1
      ∙ ap (go_on next) (scan_round_found at end hdr m (omega arith) d)
      ∙ ap (λ x. go_on next (scan_transaction dev kmalloc at x (journal_read_block dev x m) m))
          there
      ∙ ap (λ o. go_on next (scan_transaction dev kmalloc at commit_pos o m)) r2
      ∙ ap (go_on next) (scan_transaction_found at commit_pos hdr cmt m k r1)
      ∙ ap (λ x. next (add_u64 commit_pos 1) (replay_blocks dev kmalloc x (hdr ++ m.heap) at 0 m)) c

  pub recover_scanned :
      (m m' : Machine D)
      → m.journal.initialized ≡ true
      → kmalloc m.calls ≡ true
      → scan_journal dev kmalloc
          (m.journal.head - m.journal.tail)
          m.journal.tail
          m.journal.head
          (called m)
        ≡ some m'
      → journal_recover dev kmalloc m
        ≡ some (
          (write_jsb dev kmalloc (record m' {
            journal = record m'.journal { tail = m'.journal.head; dirty = false };
          })).0,
          pos 0,
        )
  unfolding journal_recover
  recover_scanned m m' i k e = simp (i, k, e)

module _ {D : Type 0} (dev : Driver D) (spb : ℕ) (st : BlockStore dev spb)
    (kmalloc : ℕ → Bool) where
  -- The writes of a recovery that replays `txn`.
  abbrev pub recovered : Journal → Journal
  recovered j = record j { tail = j.head; dirty = false }

  abbrev pub recovery_writes : Journal → List (ℕ × List ℕ) → List (ℕ × List ℕ)
  recovery_writes j txn = txn ++ (j.journal_start + 0, jsb_block (recovered j)) ∷ []

  pub recover_lem :
      (n at : ℕ) (txn : List (ℕ × List ℕ)) (c : Machine D)
      → IsPlaced dev spb c.journal
      → st.Good c.disk
      → c.journal.initialized ≡ true
      → n * spb ≤ dev.bdev.total_sectors
      → (c.journal.fs_total_blocks ≡ 0) ⊎ (n ≤ c.journal.fs_total_blocks)
      → c.journal.tail ≡ at
      → c.journal.head ≡ at + length txn + 2
      → at + length txn + 2 < c.journal.journal_blocks
      → AreBlocks c.journal.block_size n txn
      → AllOutside c.journal txn
      → IsLogged (block_at dev spb c.disk) (c.journal.journal_start + at) txn
      → ((i : ℕ) → kmalloc i ≡ true)
      → (m : Machine D) × (journal_recover dev kmalloc c ≡ some (m, pos 0))
        × Wrote dev spb st (recovery_writes c.journal txn) c.disk m.disk
        × (m.journal ≡ recovered c.journal)
  recover_lem n at txn c p g i t f et eh room blocks out on all =
      let j = c.journal in
      let v = block_at dev spb c.disk in
      let start = j.journal_start in
      let cp = at + (1 + length txn) in
      let end = at + length txn + 2 in
      let e1 : start + at + 1 ≡ start + (at + (1 + 0)) = omega arith in
      let e2 : start + cp ≡ start + at + (1 + length txn) = omega arith in
      let read1 : journal_read_block dev at (called c) ≡ some on.desc =
        journal_read_block_lem dev spb st (called c) at p (omega arith) ∙ on.first in
      let read2 : journal_read_block dev cp (called c) ≡ some on.commit =
        journal_read_block_lem dev spb st (called c) cp p (omega arith) ∙ ap v e2 ∙ on.last in
      let rep =
        replay_blocks_lem dev spb st kmalloc all n txn (on.desc ++ c.heap) at 0 (called c) p g t f
          (omega arith) blocks out (Described-append on.desc c.heap 0 txn on.long on.entries)
          (subst (λ x. Holds v x txn) e1 on.body) in
      let m1 : Machine D = record (called c) { disk = rep.0; calls = c.calls + 1 + length txn } in
      let wide : start + j.journal_blocks ≤ dev.bdev.total_sectors =
        le_mul (start + j.journal_blocks) spb dev.bdev.total_sectors p.some_sectors p.area in
      let there : (at + 1 + length txn) % 2 ^ 64 ≡ cp = omega (arith, p.words) in
      let behind : add_u64 cp 1 ≡ end = omega (arith, p.words) in
      let fuel : j.head - j.tail ≡ suc (length txn + 1) = omega arith in
      let scanned : scan_journal dev kmalloc (j.head - j.tail) j.tail j.head (called c) ≡ some m1 =
        ap (λ k. scan_journal dev kmalloc k j.tail j.head (called c)) fuel
        ∙ ap₂ (λ x y. scan_journal dev kmalloc (suc (length txn + 1)) x y (called c)) et eh
        ∙ scan_found dev kmalloc (length txn + 1) at end cp (length txn) on.desc on.commit
            (called c) (omega arith) (omega arith) on.count there on.desc_magic on.commit_magic
            read1 read2
        ∙ ap₂ (λ x q. scan_journal dev kmalloc (length txn + 1) x end q) behind rep.1
        ∙ scan_end dev kmalloc (length txn + 1) end m1 in
      let p2 = IsPlaced-again dev spb j (recovered j) p refl refl refl in
      let m2 : Machine D = record m1 { journal = recovered j } in
      let sb = write_jsb_lem dev spb st kmalloc m2 p2 rep.2.good (omega arith) all in
      (
        record (called m2) { disk = sb.0 },
        recover_scanned dev kmalloc c m1 i (all c.calls) scanned ∙ ap (λ q. some (q.0, pos 0)) sb.1,
        Wrote-then dev spb st txn (_ ∷ []) rep.2 sb.2,
        refl,
      )
