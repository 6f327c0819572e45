-- ===== src/Journal/Replay.antt =====
-- The loop of journal_recover (kernel/journal.c) over the blocks of a transaction, on a device that works.
use aurora_os_live.Base.{
  ℕ, suc, ◌+◌, ◌-◌, ◌*◌, ◌%◌, ◌^◌, ◌≤◌, ◌<◌, ◌≡◌, ◌≢◌, ◌⊎◌, inl, inr, refl, ap, ap₂, ◌∙◌, Bool,
  true, false, ◌&&◌, Option, some, List, [], ◌∷◌, ltb, leb, ◌==◌, length, arith,
}
use mathlib.Core.Path.{subst}
use aurora_os_live.Base.Int.{pos}
use aurora_os_live.Block.{block_dev_read}
use aurora_os_live.Journal.{
  Driver, Journal, Machine, add_u64, to_int, sectors_per_block, write_sectors, journal_read_block,
  called,
}
use aurora_os_live.Journal.Layout.{calc_checksum}
use aurora_os_live.Journal.Recovery.{
  restore_block, replay_block, replay_blocks, jdb_fs_block, jdb_checksum,
}
use aurora_os_live.Journal.Store.{
  BlockStore, IsPlaced, Wrote, Wrote-then, AreBlocks, stored_missed, block_at, block_below,
  write_sectors_lem, sector_of,
}
use aurora_os_live.Journal.Effects.{add_offset}
use aurora_os_live.Journal.Fields.{Described}
use aurora_os_live.Journal.Logged.{Outside}

-- The contents of the blocks stand from a device block on.
abbrev pub Holds : (ℕ → Option (List ℕ)) → ℕ → List (ℕ × List ℕ) → Type 0
Holds v at [] = Unit {0}
Holds v at ((b, buf) ∷ txn) = (v at ≡ some buf) × Holds v (at + 1) txn

-- No block of the transaction is in the journal's area.
abbrev pub AllOutside : Journal → List (ℕ × List ℕ) → Type 0
AllOutside j [] = Unit {0}
AllOutside j ((b, buf) ∷ txn) = Outside j b × AllOutside j txn

pub Holds-cong :
    (v w : ℕ → Option (List ℕ)) (at : ℕ) (txn : List (ℕ × List ℕ))
    → ((b : ℕ) → at ≤ b → b < at + length txn → v b ≡ w b)
    → Holds w at txn
    → Holds v at txn
Holds-cong v w at [] e h = tt
Holds-cong v w at ((b, buf) ∷ txn) e h = (
  e at (omega arith) (omega arith) ∙ h.0,
  Holds-cong v w (at + 1) txn (λ c p q. e c (omega arith) (omega arith)) h.1,
)

pub not_in_area :
    (j : Journal) (b at : ℕ) → Outside j b → at < j.journal_blocks → b ≢ j.journal_start + at
not_in_area j b at (inl o) h e = omega arith
not_in_area j b at (inr o) h e = omega arith

Holds-in_area :
    (j : Journal) (v w : ℕ → Option (List ℕ)) (at : ℕ) (txn : List (ℕ × List ℕ))
    → ((k : ℕ) → k < j.journal_blocks → v (j.journal_start + k) ≡ w (j.journal_start + k))
    → at + length txn ≤ j.journal_blocks
    → Holds w (j.journal_start + at) txn
    → Holds v (j.journal_start + at) txn
Holds-in_area j v w at txn e h = Holds-cong v w (j.journal_start + at) txn (λ b p q.
    let off : j.journal_start + (b - j.journal_start) ≡ b = omega arith in
    subst (λ x. v x ≡ w x) off (e (b - j.journal_start) (omega arith)))

in_file_system :
    (total n b k : ℕ)
    → (total ≡ 0) ⊎ (n ≤ total)
    → b < n
    → k ≡ b
    → (ltb 0 total && leb total k) ≡ false
in_file_system total n b k (inl f) h e = ground arith
in_file_system total n b k (inr f) h e = ground arith

module _ {D : Type 0} (dev : Driver D) (spb : ℕ) (st : BlockStore dev spb) where
  -- Reading a block of the journal.
  pub journal_read_block_lem :
      (m : Machine D) (at : ℕ)
      → IsPlaced dev spb m.journal
      → at < m.journal.journal_blocks
      → journal_read_block dev at m ≡ block_at dev spb m.disk (m.journal.journal_start + at)
  unfolding journal_read_block
  journal_read_block_lem m at p h =
      let count : to_int (sectors_per_block dev m.journal) ≡ pos spb =
        ap to_int p.sectors ∙ ground (arith, p.int_sectors) in
      ap₂ (block_dev_read dev.bdev (dev.read m.disk)) (sector_of dev spb st m.journal at p h).0
        count

  restore_block-some :
      (b checksum : ℕ) (content : List ℕ) (m m' : Machine D)
      → calc_checksum content ≡ checksum
      → write_sectors dev m content (b * sectors_per_block dev m.journal % 2 ^ 64) ≡ some m'
      → restore_block dev b checksum (some content) m ≡ m'
  unfolding restore_block
  restore_block-some b checksum content m m' c e =
      let right : (calc_checksum content == checksum) ≡ true = ground (arith, c) in
      rw (restore_block, right, e) refl

  module _ (kmalloc : ℕ → Bool) (all : (i : ℕ) → kmalloc i ≡ true) where
    replay_block_some :
        (buf : List ℕ) (at i : ℕ) (m : Machine D)
        → (ltb 0 m.journal.fs_total_blocks && leb m.journal.fs_total_blocks (jdb_fs_block buf i))
          ≡ false
        → replay_block dev kmalloc buf at i m
          ≡ restore_block dev
              (jdb_fs_block buf i)
              (jdb_checksum buf i)
              (journal_read_block dev (add_u64 at (1 + i)) (called m))
              (called m)
    unfolding replay_block
    replay_block_some buf at i m e = rw (e, all m.calls) refl

    pub replay_blocks_lem :
        (n : ℕ) (txn : List (ℕ × List ℕ)) (buf : List ℕ) (at i : ℕ) (m : Machine D)
        → IsPlaced dev spb m.journal
        → st.Good m.disk
        → n * spb ≤ dev.bdev.total_sectors
        → (m.journal.fs_total_blocks ≡ 0) ⊎ (n ≤ m.journal.fs_total_blocks)
        → at + (1 + i) + length txn ≤ m.journal.journal_blocks
        → AreBlocks m.journal.block_size n txn
        → AllOutside m.journal txn
        → Described buf i txn
        → Holds (block_at dev spb m.disk) (m.journal.journal_start + (at + (1 + i))) txn
        → (d : D) × (replay_blocks dev kmalloc (length txn) buf at i m
            ≡ record m { disk = d; calls = m.calls + length txn })
          × Wrote dev spb st txn m.disk d
    unfolding replay_blocks
    replay_blocks_lem n [] buf at i m p g t f r a o c h =
        let same : m.calls ≡ m.calls + 0 = omega arith in
        (m.disk, ap (λ k. record m { calls = k }) same, record { good = g; now = refl })
    replay_blocks_lem n ((b, content) ∷ txn) buf at i m p g t f r a o c h =
        let j = m.journal in
        let ok : (ltb 0 j.fs_total_blocks && leb j.fs_total_blocks (jdb_fs_block buf i)) ≡ false =
          in_file_system j.fs_total_blocks n b (jdb_fs_block buf i) f a.0 c.0 in
        let here : journal_read_block dev (add_u64 at (1 + i)) (called m) ≡ some content =
          ap (λ k. journal_read_block dev k (called m))
            (add_offset dev spb st j at (1 + i) p (omega arith))
          ∙ journal_read_block_lem (called m) (at + (1 + i)) p (omega arith)
          ∙ h.0 in
        let on = block_below b n spb dev.bdev.total_sectors t a.0 in
        let low : b * sectors_per_block dev j % 2 ^ 64 ≡ b * spb =
          ap (λ k. b * k % 2 ^ 64) p.sectors ∙ omega (arith, p.words, on) in
        let w = write_sectors_lem dev spb st (called m) b _ content p g on a.1 low in
        let m1 : Machine D = record (called m) { disk = w.0 } in
        let step : replay_block dev kmalloc buf at i m ≡ m1 =
          replay_block_some buf at i m ok
          ∙ ap₂
              (λ x s.
                restore_block dev x s (journal_read_block dev (add_u64 at (1 + i)) (called m))
                  (called m))
              c.0 c.1
          ∙ ap (λ o. restore_block dev b (calc_checksum content) o (called m)) here
          ∙ restore_block-some b (calc_checksum content) content (called m) m1 refl w.1 in
        let next : j.journal_start + (at + (1 + i)) + 1 ≡ j.journal_start + (at + (1 + (i + 1))) =
          omega arith in
        let kept : (k : ℕ)
            → k < j.journal_blocks
            → block_at dev spb w.0 (j.journal_start + k)
              ≡ block_at dev spb m.disk (j.journal_start + k) =
          λ k l.
            ap (λ v. v (j.journal_start + k)) w.2.now
            ∙ stored_missed ((b, content) ∷ []) (block_at dev spb m.disk) (j.journal_start + k)
                (not_in_area j b k o.0 l, tt) in
        let rest : Holds (block_at dev spb w.0) (j.journal_start + (at + (1 + (i + 1)))) txn =
          Holds-in_area j (block_at dev spb w.0) (block_at dev spb m.disk) (at + (1 + (i + 1))) txn
            kept (omega arith) (subst (λ k. Holds (block_at dev spb m.disk) k txn) next h.1) in
        let r =
          replay_blocks_lem n txn buf at (i + 1) m1 p w.2.good t f (omega arith) a.2 o.1 c.2 rest in
        let sum : m.calls + 1 + length txn ≡ m.calls + suc (length txn) = omega arith in
        (
          r.0,
          ap (λ q. replay_blocks dev kmalloc (length txn) buf at (i + 1) q) step
              ∙ r.1
              ∙ ap (λ k. record m { disk = r.0; calls = k }) sum,
          Wrote-then dev spb st (_ ∷ []) txn w.2 r.2,
        )
