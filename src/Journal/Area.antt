-- ===== src/Journal/Area.antt =====
-- What the journal's area holds after the first phases of journal_commit (kernel/journal.c).
use aurora_os_live.Base.{
  ℕ, ◌+◌, ◌*◌, ◌^◌, ◌≤◌, ◌<◌, ◌≡◌, inl, refl, ap, ap₂, sym, ◌∙◌, Option, some, List, [], ◌∷◌, ◌++◌,
  ==_refl, length, arith,
}
use mathlib.Core.Path.{subst}
use aurora_os_live.Vfs.{set_at}
use aurora_os_live.Journal.{Driver, Journal}
use aurora_os_live.Journal.Layout.{
  word_at, journal_magic_desc, journal_magic_commit, desc_block, commit_block,
}
use aurora_os_live.Journal.Store.{AreBlocks, stored, stored-append, stored_missed}
use aurora_os_live.Journal.Effects.{placed_from, le_mul}
use aurora_os_live.Journal.Fields.{HaveWords, Described, desc_block_fields, commit_block_fields}
use aurora_os_live.Journal.Logged.{IsOpen, logged, length-desc_block, Misses-placed_from}
use aurora_os_live.Journal.Replay.{Holds, Holds-cong}

set_at_found : (v : ℕ → Option (List ℕ)) (b : ℕ) (o : Option (List ℕ)) → set_at v b o b ≡ o
set_at_found v b o = rw (==_refl b) refl

Holds-placed_from :
    (v : ℕ → Option (List ℕ)) (at : ℕ) (txn : List (ℕ × List ℕ))
    → Holds (stored (placed_from at txn) v) at txn
Holds-placed_from v at [] = tt
Holds-placed_from v at ((b, buf) ∷ txn) = (
  stored_missed (placed_from (at + 1) txn) (set_at v at (some buf)) at
        (Misses-placed_from at (at + 1) txn (inl (omega arith)))
      ∙ set_at_found v at (some buf),
  Holds-placed_from (set_at v at (some buf)) (at + 1) txn,
)

words_of :
    (size n : ℕ) (txn : List (ℕ × List ℕ)) → n ≤ 2 ^ 32 → AreBlocks size n txn → HaveWords txn
words_of size n [] h a = tt
words_of size n ((b, buf) ∷ txn) h a = (omega (arith, a.0), words_of size n txn h a.2)

-- A transaction stands from a device block on, with its descriptor and its commit record.
pub record IsLogged (v : ℕ → Option (List ℕ)) (at : ℕ) (txn : List (ℕ × List ℕ)) : Type 0 where
  pub desc : List ℕ
  pub commit : List ℕ
  pub first : v at ≡ some desc
  pub body : Holds v (at + 1) txn
  pub last : v (at + (1 + length txn)) ≡ some commit
  pub desc_magic : word_at 0 4 desc ≡ journal_magic_desc
  pub count : word_at 12 4 desc ≡ length txn
  pub long : 36 + 20 * (0 + length txn) ≤ length desc
  pub entries : Described desc 0 txn
  pub commit_magic : word_at 0 4 commit ≡ journal_magic_commit

stored-IsLogged :
    (stack : ℕ → ℕ) (size seq at : ℕ) (txn : List (ℕ × List ℕ)) (v : ℕ → Option (List ℕ))
    → 36 + 20 * length txn ≤ size
    → length txn < 2 ^ 32
    → HaveWords txn
    → IsLogged
        (stored
          ((at, desc_block size seq txn)
            ∷ (placed_from (at + 1) txn
                ++ (at + (1 + length txn), commit_block stack size seq) ∷ []))
          v)
        at
        txn
stored-IsLogged stack size seq at txn v fits small words =
    let desc = desc_block size seq txn in
    let commit = commit_block stack size seq in
    let f = desc_block_fields size seq txn fits small words in
    let end = at + (1 + length txn) in
    let v1 = set_at v at (some desc) in
    let v2 = stored (placed_from (at + 1) txn) v1 in
    let v3 = stored (placed_from (at + 1) txn ++ (end, commit) ∷ []) v1 in
    let whole : v3 ≡ set_at v2 end (some commit) =
      stored-append (placed_from (at + 1) txn) ((end, commit) ∷ []) v1 in
    let before : (b : ℕ) → b < end → v3 b ≡ v2 b =
      λ b l. ap (λ g. g b) whole ∙ stored_missed ((end, commit) ∷ []) v2 b (λ e. omega arith, tt) in
    record {
      desc = desc;
      commit = commit;
      first =
          before at (omega arith)
          ∙ stored_missed (placed_from (at + 1) txn) v1 at
              (Misses-placed_from at (at + 1) txn (inl (omega arith)))
          ∙ set_at_found v at (some desc);
      body =
          Holds-cong v3 v2 (at + 1) txn (λ b p q. before b (omega arith))
            (Holds-placed_from v1 (at + 1) txn);
      last = ap (λ g. g end) whole ∙ set_at_found v2 end (some commit);
      desc_magic = f.0;
      count = f.1;
      long = omega (arith, length-desc_block size seq txn);
      entries = f.2;
      commit_magic = commit_block_fields stack size seq;
    }

-- It does not depend on the blocks around it.
pub IsLogged-cong :
    (v w : ℕ → Option (List ℕ)) (at : ℕ) (txn : List (ℕ × List ℕ))
    → ((b : ℕ) → at ≤ b → b < at + (2 + length txn) → v b ≡ w b)
    → IsLogged w at txn
    → IsLogged v at txn
IsLogged-cong v w at txn e l = record {
  desc = l.desc;
  commit = l.commit;
  first = e at (omega arith) (omega arith) ∙ l.first;
  body = Holds-cong v w (at + 1) txn (λ b p q. e b (omega arith) (omega arith)) l.body;
  last = e (at + (1 + length txn)) (omega arith) (omega arith) ∙ l.last;
  desc_magic = l.desc_magic;
  count = l.count;
  long = l.long;
  entries = l.entries;
  commit_magic = l.commit_magic;
}

module _ {D : Type 0} (dev : Driver D) (spb : ℕ) where
  -- So it stands in the journal after phases 1 to 3.
  pub logged-IsLogged :
      (stack : ℕ → ℕ) (n seq : ℕ) (j : Journal) (v : ℕ → Option (List ℕ))
      → IsOpen dev spb n j
      → 36 + 20 * length j.txn ≤ j.block_size
      → length j.txn < 2 ^ 32
      → IsLogged (stored (logged stack seq j) v) (j.journal_start + j.head) j.txn
  logged-IsLogged stack n seq j v o fits small =
      let at = j.journal_start + j.head in
      let desc = desc_block j.block_size seq j.txn in
      let commit = commit_block stack j.block_size seq in
      let e1 : j.journal_start + (j.head + 1) ≡ at + 1 = omega arith in
      let e2 : j.journal_start + (j.head + (1 + length j.txn)) ≡ at + (1 + length j.txn) =
        omega arith in
      let now : stored (logged stack seq j) v
          ≡ stored
              ((at, desc) ∷ (placed_from (at + 1) j.txn ++ (at + (1 + length j.txn), commit) ∷ []))
              v =
        ap₂ (λ x y. stored ((at, desc) ∷ (placed_from x j.txn ++ (y, commit) ∷ [])) v) e1 e2 in
      let words =
        words_of j.block_size n j.txn (le_mul n spb (2 ^ 32) o.place.some_sectors o.small)
          o.blocks in
      subst (λ q. IsLogged q at j.txn) (sym now)
        (stored-IsLogged stack j.block_size seq at j.txn v fits small words)
