-- ===== src/Journal/Crash.antt =====
-- journal_commit and then journal_recover (kernel/journal.c), with damage to the file system between them.
use aurora_os_live.Base.{
  ℕ, ◌+◌, ◌-◌, ◌*◌, ◌^◌, ◌≤◌, ◌<◌, ◌≡◌, ◌≢◌, ◌⊎◌, inl, inr, refl, ap, sym, ◌∙◌, Bool, true, Option,
  none, some, List, [], ◌∷◌, ◌++◌, eq→==, length, Ensures, arith,
}
use mathlib.Core.Path.{subst}
use aurora_os_live.Vfs.{set_at}
use aurora_os_live.Base.Int.{ℤ, pos}
use aurora_os_live.Journal.{Driver, Journal, Machine, jsb_block, add_u64}
use aurora_os_live.Journal.Commit.{journal_commit}
use aurora_os_live.Journal.Recovery.{journal_recover}
use aurora_os_live.Journal.Store.{
  BlockStore, IsPlaced-again, Misses, stored, stored-append, stored_missed, stored_cong,
  stored_between, block_at,
}
use aurora_os_live.Journal.Logged.{
  Outside, HasRoom, IsOpen, committed, logged, off_area, Misses-logged, Misses-append,
}
use aurora_os_live.Journal.Area.{logged-IsLogged, IsLogged-cong}
use aurora_os_live.Journal.Durable.{commit_lem, commit_writes}
use aurora_os_live.Journal.Recovered.{recover_lem}
use aurora_os_live.Journal.Replay.{AllOutside, not_in_area}

-- A block that the writes are to.
abbrev pub Written : ℕ → List (ℕ × List ℕ) → Type 0
Written b [] = ⊥
Written b ((c, buf) ∷ ws) = (c ≡ b) ⊎ Written b ws

-- What it held before does not matter.
stored-Written :
    (ws : List (ℕ × List ℕ)) (v w : ℕ → Option (List ℕ)) (b : ℕ)
    → Written b ws
    → stored ws v b ≡ stored ws w b
stored-Written [] v w b h = absurd h
stored-Written ((c, buf) ∷ ws) v w b (inl e) =
    let here = eq→== c b e in
    stored_cong ws (set_at v c (some buf)) (set_at w c (some buf)) b (rw here refl)
stored-Written ((c, buf) ∷ ws) v w b (inr h) =
    stored-Written ws (set_at v c (some buf)) (set_at w c (some buf)) b h

Misses-outside :
    (j : Journal) (at : ℕ) (txn : List (ℕ × List ℕ))
    → AllOutside j txn
    → at < j.journal_blocks
    → Misses (j.journal_start + at) txn
Misses-outside j at [] o h = tt
Misses-outside j at ((b, buf) ∷ txn) o h = (not_in_area j b at o.0 h, Misses-outside j at txn o.1 h)

-- A commit, then what `damage` does to the device, then recovery.
pub commit_damage_recover :
    {D : Type 0} → Driver D → (ℕ → Bool) → (ℕ → ℕ) → (D → D) → Machine D → Option (Machine D × ℤ)
commit_damage_recover dev kmalloc stack damage m = elim (journal_commit dev kmalloc stack m) [
  | none ↦ none
  | some (m', r) ↦ journal_recover dev kmalloc (record m' { disk = damage m'.disk })
]

module _ {D : Type 0} (dev : Driver D) (spb : ℕ) (st : BlockStore dev spb)
    (kmalloc : ℕ → Bool) where
  -- The damage leaves block `b` as it is.
  abbrev pub Spares : (D → D) → ℕ → Type 0
  Spares damage b = (d : D) → st.Good d → block_at dev spb (damage d) b ≡ block_at dev spb d b

  damage_after :
      (stack : ℕ → ℕ) (damage : D → D) (m m' : Machine D)
      → journal_commit dev kmalloc stack m ≡ some (m', pos 0)
      → commit_damage_recover dev kmalloc stack damage m
        ≡ journal_recover dev kmalloc (record m' { disk = damage m'.disk })
  unfolding commit_damage_recover
  damage_after stack damage m m' e = rw (commit_damage_recover, e) refl

  -- The area of the journal after a commit.
  area_kept :
      (stack : ℕ → ℕ) (j : Journal) (v : ℕ → Option (List ℕ)) (b k : ℕ)
      → AllOutside j j.txn
      → b ≡ j.journal_start + k
      → 1 ≤ k
      → k < j.journal_blocks
      → stored (commit_writes dev spb st kmalloc stack j) v b
        ≡ stored
            (logged stack j.sequence j)
            (set_at v
              (j.journal_start + 0)
              (some (jsb_block (record j { sequence = add_u64 j.sequence 1; dirty = true }))))
            b
  area_kept stack j v b k out e l h =
      let first : j.journal_start + 0 ≢ b = λ q. omega (arith, e) in
      let missed : Misses b j.txn =
        subst (λ x. Misses x j.txn) (sym e) (Misses-outside j k j.txn out h) in
      ap (λ f. f b) (stored-append (logged stack j.sequence j) (j.txn ++ _) _)
      ∙ stored_missed (j.txn ++ _) _ b (Misses-append b j.txn _ missed (first, (first, tt)))

  -- journal_commit writes a transaction, of blocks outside the journal's area and within the size of the
  -- file system, where that is known, to an empty journal with room for it. Then the device may be damaged,
  -- but in no block of the journal's area. journal_recover returns 0, leaves the journal clean and empty,
  -- with its head behind the transaction, and puts back each block of the transaction: it holds the last
  -- contents written to it. Any other block outside the area that the damage spares holds what it held
  -- before the commit. The device works, every call of kmalloc returns a block, the descriptor fits a
  -- block, and the transaction's blocks are whole and have 32-bit sectors.
  pub journal_recover_replays :
      (stack : ℕ → ℕ) (n : ℕ) (damage : D → D) (m : Machine D)
      → st.Good m.disk
      → IsOpen dev spb n m.journal
      → HasRoom m.journal
      → m.journal.tail ≡ m.journal.head
      → 0 < length m.journal.txn
      → 36 + 20 * length m.journal.txn ≤ m.journal.block_size
      → length m.journal.txn < 2 ^ 32
      → AllOutside m.journal m.journal.txn
      → (m.journal.fs_total_blocks ≡ 0) ⊎ (n ≤ m.journal.fs_total_blocks)
      → ((i : ℕ) → kmalloc i ≡ true)
      → ((d : D) → st.Good d → st.Good (damage d))
      → ((k : ℕ) → k < m.journal.journal_blocks → Spares damage (m.journal.journal_start + k))
      → Ensures (commit_damage_recover dev kmalloc stack damage m) (λ r.
        (r.1 ≡ pos 0)
        × (r.0.journal
            ≡ record (committed m.journal) { tail = m.journal.head + length m.journal.txn + 2 })
        × ((b : ℕ)
            → Outside m.journal b
            → Written b m.journal.txn
            → block_at dev spb r.0.disk b ≡ stored m.journal.txn (block_at dev spb m.disk) b)
        × ((b : ℕ)
            → Outside m.journal b
            → Misses b m.journal.txn
            → Spares damage b
            → block_at dev spb r.0.disk b ≡ block_at dev spb m.disk b))
  journal_recover_replays stack n damage m g o r empty z fits small out total all keeps spares =
      let j = m.journal in
      let v = block_at dev spb m.disk in
      let w = commit_lem dev spb st kmalloc stack n m o g r z all in
      let d : D = damage w.0.disk in
      let c : Machine D = record w.0 { disk = d; journal = committed j } in
      let same : journal_recover dev kmalloc (record w.0 { disk = d })
          ≡ journal_recover dev kmalloc c =
        ap (λ q. journal_recover dev kmalloc (record w.0 { disk = d; journal = q })) w.3 in
      let p = IsPlaced-again dev spb j c.journal o.place refl refl refl in
      let j1 : Journal = record j { sequence = add_u64 j.sequence 1; dirty = true } in
      let begun = set_at v (j.journal_start + 0) (some (jsb_block j1)) in
      let there = logged-IsLogged dev spb stack n j.sequence j begun o fits small in
      let on =
        IsLogged-cong (block_at dev spb d) (stored (logged stack j.sequence j) begun)
          (j.journal_start + j.head) j.txn
          (λ b low high.
            let k = b - j.journal_start in
            let e : b ≡ j.journal_start + k = omega arith in
            let inside : k < j.journal_blocks = omega (arith, r.room) in
            let late : 1 ≤ k = omega (arith, r.started, r.ordered) in
            subst (λ x. block_at dev spb d x ≡ block_at dev spb w.0.disk x) (sym e)
              (spares k inside w.0.disk w.2.good)
            ∙ ap (λ f. f b) w.2.now
            ∙ area_kept stack j v b k out e late inside)
          there in
      let rec =
        recover_lem dev spb st kmalloc n j.head j.txn c p (keeps w.0.disk w.2.good) o.initialized
          o.on_device total empty refl r.room o.blocks out on all in
      let eq : commit_damage_recover dev kmalloc stack damage m ≡ some (rec.0, pos 0) =
        damage_after stack damage m w.0 w.1 ∙ same ∙ rec.1 in
      let first : (b : ℕ) → Outside j b → j.journal_start + 0 ≢ b =
        λ b ob. off_area j b 0 (omega (arith, r.room)) ob in
      let now : (b : ℕ)
          → Outside j b
          → block_at dev spb rec.0.disk b ≡ stored j.txn (block_at dev spb d) b =
        λ b ob.
          ap (λ f. f b) rec.2.now
          ∙ stored_between [] j.txn _ (block_at dev spb d) b tt (first b ob, tt) in
      rw eq (
        refl,
        rec.3,
        λ b ob wr. now b ob ∙ stored-Written j.txn (block_at dev spb d) v b wr,
        λ b ob ms sp.
            now b ob
            ∙ stored_missed j.txn (block_at dev spb d) b ms
            ∙ sp w.0.disk w.2.good
            ∙ ap (λ f. f b) w.2.now
            ∙ stored_between (_ ∷ logged stack j.sequence j) j.txn _ v b
                (first b ob, Misses-logged stack j.sequence j b r ob) (first b ob, (first b ob, tt))
            ∙ stored_missed j.txn v b ms,
      )
