-- ===== src/Journal/Reopen.antt =====
-- journal_init of kernel/journal.c on a device that has a journal already.
use aurora_os_live.Base.{
  ℕ, ◌+◌, ◌^◌, ◌≤◌, ◌<◌, ◌≡◌, ◌≢◌, refl, ap, sym, ◌∙◌, Bool, true, false, not, some, List, ltb,
  ◌==◌, ==_refl, eq→==, ne→==, if◌then◌else◌, length, Ensures, arith,
}
use mathlib.Core.Path.{subst}
use aurora_os_live.Base.Int.{pos, minus_one}
use aurora_os_live.Journal.{
  Driver, Journal, Machine, jsb_bytes, jsb_block, journal_read_block, called, write_jsb,
}
use aurora_os_live.Journal.Layout.{word_at, journal_magic_sb}
use aurora_os_live.Journal.Recovery.{
  new_handle, ready, loaded, settled, open_existing, init_from, journal_init, journal_recover,
  journal_sync,
}
use aurora_os_live.Journal.Store.{BlockStore, IsPlaced, IsPlaced-again}
use aurora_os_live.Journal.Effects.{write_jsb_lem}
use aurora_os_live.Journal.Fields.{word_at-in_block, word-bytes}
use aurora_os_live.Journal.Replay.{journal_read_block_lem}

-- The variables of the journal are 64-bit words.
pub record IsWords (j : Journal) : Type 0 where
  pub head : j.head < 2 ^ 64
  pub tail : j.tail < 2 ^ 64
  pub sequence : j.sequence < 2 ^ 64

jsb_block_fields :
    (j : Journal)
    → 60 ≤ j.block_size
    → IsWords j
    → (word_at 0 4 (jsb_block j) ≡ journal_magic_sb)
      × (word_at 28 8 (jsb_block j) ≡ j.head)
      × (word_at 36 8 (jsb_block j) ≡ j.tail)
      × (word_at 44 8 (jsb_block j) ≡ j.sequence)
      × (word_at 52 4 (jsb_block j) ≡ (if j.dirty then 1 else 0))
unfolding jsb_bytes
jsb_block_fields j h w =
    let size : length (jsb_bytes j) ≡ 60 = refl in
    let at : (off n : ℕ)
        → off + n ≤ 60
        → word_at off n (jsb_block j) ≡ word_at off n (jsb_bytes j) =
      λ off n l. word_at-in_block j.block_size off n (jsb_bytes j) (omega arith) (omega arith) in
    (
      at 0 4 (omega arith) ∙ word-bytes 4 journal_magic_sb (omega arith),
      at 28 8 (omega arith) ∙ word-bytes 8 j.head (omega (arith, w.head)),
      at 36 8 (omega arith) ∙ word-bytes 8 j.tail (omega (arith, w.tail)),
      at 44 8 (omega arith) ∙ word-bytes 8 j.sequence (omega (arith, w.sequence)),
      at 52 4 (omega arith) ∙ word-bytes 4 (if j.dirty then 1 else 0) (ground arith),
    )

module _ {D : Type 0} (dev : Driver D) (kmalloc : ℕ → Bool) where
  -- The state in which journal_init reads the superblock.
  abbrev pub opening : ℕ → ℕ → ℕ → ℕ → Machine D → Machine D
  opening start blocks size total m =
      called (record m { journal = new_handle m.journal start blocks size total })

  init_found :
      (start blocks size total : ℕ) (m : Machine D) (jsb : List ℕ)
      → 8 ≤ blocks
      → 512 ≤ size
      → kmalloc m.calls ≡ true
      → journal_read_block dev 0 (opening start blocks size total m) ≡ some jsb
      → word_at 0 4 jsb ≡ journal_magic_sb
      → journal_init dev kmalloc start blocks size total m
        ≡ open_existing dev kmalloc (loaded jsb (opening start blocks size total m))
  unfolding journal_init init_from
  init_found start blocks size total m jsb b s k r magic =
      let enough : ltb blocks 8 ≡ false = ground arith in
      let wide : ltb size 512 ≡ false = ground arith in
      rw (enough, wide, k, r, eq→== (word_at 0 4 jsb) journal_magic_sb magic) refl

  -- journal_init of a journal whose superblock says that it is dirty fails, at boot or wherever no journal
  -- is initialized: it reads the superblock, writes nothing, and leaves the journal uninitialized. The
  -- geometry is accepted and the buffer is there.
  pub journal_init_dirty :
      (start blocks size total : ℕ) (m : Machine D) (jsb : List ℕ)
      → 8 ≤ blocks
      → 512 ≤ size
      → kmalloc m.calls ≡ true
      → m.journal.initialized ≡ false
      → journal_read_block dev 0 (opening start blocks size total m) ≡ some jsb
      → word_at 0 4 jsb ≡ journal_magic_sb
      → word_at 52 4 jsb ≢ 0
      → Ensures
          (journal_init dev kmalloc start blocks size total m)
          (λ r. (r.1 ≡ minus_one) × (r.0.disk ≡ m.disk) × (r.0.journal.initialized ≡ false))
  unfolding open_existing journal_recover settled
  journal_init_dirty start blocks size total m jsb b s k i r magic dirty =
      let flag : (word_at 52 4 jsb == 0) ≡ false = ne→== (word_at 52 4 jsb) 0 dirty in
      subst
        (λ o.
          Ensures o
            (λ x. (x.1 ≡ minus_one) × (x.0.disk ≡ m.disk) × (x.0.journal.initialized ≡ false)))
        (sym (init_found start blocks size total m jsb b s k r magic))
        (rw (flag, i) (refl, refl, refl))

  init_clean :
      (start blocks size total : ℕ) (m : Machine D) (jsb : List ℕ)
      → 8 ≤ blocks
      → 512 ≤ size
      → kmalloc m.calls ≡ true
      → journal_read_block dev 0 (opening start blocks size total m) ≡ some jsb
      → word_at 0 4 jsb ≡ journal_magic_sb
      → word_at 52 4 jsb ≡ 0
      → journal_init dev kmalloc start blocks size total m
        ≡ some (ready (loaded jsb (opening start blocks size total m)))
  unfolding open_existing
  init_clean start blocks size total m jsb b s k r magic clean =
      let flag : (word_at 52 4 jsb == 0) ≡ true = eq→== (word_at 52 4 jsb) 0 clean in
      init_found start blocks size total m jsb b s k r magic ∙ rw flag refl

module _ {D : Type 0} (dev : Driver D) (spb : ℕ) (st : BlockStore dev spb)
    (kmalloc : ℕ → Bool) where
  sync_lem :
      (m : Machine D)
      → m.journal.initialized ≡ true
      → journal_sync dev kmalloc m ≡ write_jsb dev kmalloc m
  unfolding journal_sync
  sync_lem m i = rw i refl

  -- A journal that is clean when journal_sync writes its superblock is found again by journal_init: it
  -- returns 0, is initialized and clean, and continues with the head, the tail and the sequence number that
  -- were written. The device works, every call of kmalloc returns a block, and journal_init gets the same
  -- area and block size.
  pub journal_init-journal_sync :
      (m : Machine D) (total : ℕ)
      → st.Good m.disk
      → IsPlaced dev spb m.journal
      → IsWords m.journal
      → m.journal.initialized ≡ true
      → m.journal.dirty ≡ false
      → 8 ≤ m.journal.journal_blocks
      → 512 ≤ m.journal.block_size
      → ((i : ℕ) → kmalloc i ≡ true)
      → Ensures
          (journal_init dev kmalloc m.journal.journal_start m.journal.journal_blocks
            m.journal.block_size total
            (journal_sync dev kmalloc m).0)
          (λ r.
            (r.1 ≡ pos 0)
            × (r.0.journal.initialized ≡ true)
            × (r.0.journal.dirty ≡ false)
            × (r.0.journal.head ≡ m.journal.head)
            × (r.0.journal.tail ≡ m.journal.tail)
            × (r.0.journal.sequence ≡ m.journal.sequence))
  journal_init-journal_sync m total g p w i clean b s k =
      let j = m.journal in
      let sb = write_jsb_lem dev spb st kmalloc m p g (omega arith) k in
      let m1 : Machine D = record (called m) { disk = sb.0 } in
      let synced : (journal_sync dev kmalloc m).0 ≡ m1 = ap (λ q. q.0) (sync_lem m i ∙ sb.1) in
      let m2 = opening dev kmalloc j.journal_start j.journal_blocks j.block_size total m1 in
      let p2 = IsPlaced-again dev spb j m2.journal p refl refl refl in
      let first = j.journal_start + 0 in
      let read : journal_read_block dev 0 m2 ≡ some (jsb_block j) =
        journal_read_block_lem dev spb st m2 0 p2 (omega arith)
        ∙ ap (λ v. v first) sb.2.now
        ∙ rw (==_refl first) refl in
      let f = jsb_block_fields j (omega arith) w in
      let zero_flag : word_at 52 4 (jsb_block j) ≡ 0 = f.4 ∙ ap (λ x. if x then 1 else 0) clean in
      let flag : (word_at 52 4 (jsb_block j) == 0) ≡ true = eq→== _ 0 zero_flag in
      let found =
        init_clean dev kmalloc j.journal_start j.journal_blocks j.block_size total m1 (jsb_block j)
          b s (k m1.calls) read f.0 zero_flag in
      let eq =
        ap (λ q. journal_init dev kmalloc j.journal_start j.journal_blocks j.block_size total q)
          synced
        ∙ found in
      subst
        (λ o. Ensures o (λ r.
          (r.1 ≡ pos 0)
          × (r.0.journal.initialized ≡ true)
          × (r.0.journal.dirty ≡ false)
          × (r.0.journal.head ≡ j.head)
          × (r.0.journal.tail ≡ j.tail)
          × (r.0.journal.sequence ≡ j.sequence)))
        (sym eq) (refl, refl, ap not flag, f.1, f.2, f.3)
