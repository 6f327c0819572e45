-- ===== src/Journal/Fields.antt =====
-- The fields of the blocks that kernel/journal.c writes, read back.
use aurora_os_live.Base.{
  ℕ, suc, ◌+◌, ◌*◌, ◌%◌, ◌^◌, ◌≤◌, ◌<◌, ◌≡◌, refl, ap, sym, ◌∙◌, List, [], ◌∷◌, ◌++◌, length, take,
  drop, replicate, memcpy, take-append, drop-append, length-append, length-take, length-drop,
  get_or, length-memcpy, length-replicate, get_or-take, get_or-drop, get_or-memcpy, list_ext, arith,
}
use Prim.Native.Nat.{bit_xor}
use mathlib.Core.Path.{subst}
use mathlib.Core.List.{append_assoc}
use native.Mathlib.Nat.{mod-eq_of_lt}
use aurora_os_live.User.Words.{bytes, number, number-bytes}
use aurora_os_live.Journal.Layout.{
  rotate, checksum_from, calc_checksum, journal_magic_desc, journal_magic_commit, word_at, in_block,
  desc_header, data_block, data_blocks, desc_block, commit_record, commit_block,
}
use aurora_os_live.Journal.Recovery.{jdb_fs_block, jdb_checksum}

-- A structure at the start of a block reads as it is.
pub word_at-in_block :
    (size off n : ℕ) (structure : List ℕ)
    → off + n ≤ length structure
    → length structure ≤ size
    → word_at off n (in_block size structure) ≡ word_at off n structure
word_at-in_block size off n src h l =
    let dst : List ℕ = replicate size 0 in
    let plain : (k : ℕ) → k ≡ 0 + k = λ k. omega arith in
    let all = memcpy dst 0 src in
    let room : 0 + length src ≤ length dst = omega (arith, length-replicate {A = ℕ} size 0) in
    let same : length (take n (drop off all)) ≡ length (take n (drop off src)) = omega (
      arith,
      length-take n (drop off all),
      length-take n (drop off src),
      length-drop off all,
      length-drop off src,
      length-memcpy src dst 0,
      length-replicate {A = ℕ} size 0,
    ) in
    let short : length (take n (drop off all)) ≤ n = omega (arith, length-take n (drop off all)) in
    ap (λ l. number l % 256 ^ n)
      (list_ext (take n (drop off all)) (take n (drop off src)) 0 same (λ i b.
        get_or-take n i (drop off all) 0 (omega arith)
        ∙ get_or-drop off i all 0
        ∙ ap (λ k. get_or all k 0) (plain (off + i))
        ∙ get_or-memcpy src dst 0 (off + i) 0 (omega arith) room
        ∙ sym (get_or-drop off i src 0)
        ∙ sym (get_or-take n i (drop off src) 0 (omega arith))))

drop-length : (xs ys : List ℕ) (k : ℕ) → drop (length xs + k) (xs ++ ys) ≡ drop k ys
drop-length [] ys k = ap (λ n. drop n ys) (omega arith)
drop-length (x ∷ xs) ys k =
    let e : suc (length xs) + k ≡ suc (length xs + k) = omega arith in
    ap (λ n. drop n (x ∷ (xs ++ ys))) e ∙ drop-length xs ys k

-- Within `front`.
word_within :
    (front rest : List ℕ) (off n : ℕ)
    → off + n ≤ length front
    → word_at off n (front ++ rest) ≡ word_at off n front
word_within front rest off n h =
    ap (λ l. number l % 256 ^ n)
      (ap (take n) (drop-append off front rest (omega arith))
        ∙ take-append n (drop off front) rest (omega (arith, length-drop off front)))

-- Behind `front`.
word_behind :
    (front rest : List ℕ) (off k n : ℕ)
    → off ≡ length front + k
    → word_at off n (front ++ rest) ≡ word_at k n rest
word_behind front rest off k n e =
    ap (λ o. word_at o n (front ++ rest)) e
    ∙ ap (λ l. number (take n l) % 256 ^ n) (drop-length front rest k)

-- A word that is written reads back.
pub word-bytes : (n w : ℕ) → w < 256 ^ n → number (bytes n w) % 256 ^ n ≡ w
word-bytes n w h = ap (λ x. x % 256 ^ n) (number-bytes n w h) ∙ mod-eq_of_lt h

checksum_from-lt : (sum : ℕ) (buf : List ℕ) → sum < 2 ^ 32 → checksum_from sum buf < 2 ^ 32
unfolding checksum_from
checksum_from-lt sum [] h = h
checksum_from-lt sum (b ∷ buf) h =
    checksum_from-lt (bit_xor (rotate sum) b % 2 ^ 32) buf (omega arith)

length-data_block : (b : ℕ) (buf : List ℕ) → length (data_block b buf) ≡ 20
unfolding data_block
length-data_block b buf = refl

data_block_fields :
    (b : ℕ) (buf rest : List ℕ)
    → b < 2 ^ 64
    → (word_at 0 8 (data_block b buf ++ rest) ≡ b)
      × (word_at 8 4 (data_block b buf ++ rest) ≡ calc_checksum buf)
unfolding data_block
data_block_fields b buf rest h = (
  word-bytes 8 b (omega arith),
  word-bytes 4 (calc_checksum buf) (omega (arith, checksum_from-lt 0 buf (omega arith))),
)

length-data_blocks : (txn : List (ℕ × List ℕ)) → length (data_blocks txn) ≡ 20 * length txn
unfolding data_blocks
length-data_blocks [] = refl
length-data_blocks ((b, buf) ∷ txn) =
    length-append (data_block b buf) (data_blocks txn)
    ∙ omega (arith, length-data_block b buf, length-data_blocks txn)

-- The entries from `i` on describe the blocks.
abbrev pub Described : List ℕ → ℕ → List (ℕ × List ℕ) → Type 0
Described buf i [] = Unit {0}
Described buf i ((b, content) ∷ txn) =
    (jdb_fs_block buf i ≡ b)
    × (jdb_checksum buf i ≡ calc_checksum content)
    × Described buf (i + 1) txn

-- What stands behind the block does not matter.
pub Described-append :
    (buf rest : List ℕ) (i : ℕ) (txn : List (ℕ × List ℕ))
    → 36 + 20 * (i + length txn) ≤ length buf
    → Described buf i txn
    → Described (buf ++ rest) i txn
Described-append buf rest i [] h d = tt
Described-append buf rest i ((b, content) ∷ txn) h d = (
  word_within buf rest (36 + 20 * i) 8 (omega arith) ∙ d.0,
  word_within buf rest (44 + 20 * i) 4 (omega arith) ∙ d.1,
  Described-append buf rest (i + 1) txn (omega arith) d.2,
)

abbrev pub HaveWords : List (ℕ × List ℕ) → Type 0
HaveWords [] = Unit {0}
HaveWords ((b, buf) ∷ txn) = (b < 2 ^ 64) × HaveWords txn

Described-from :
    (size i : ℕ) (front : List ℕ) (txn : List (ℕ × List ℕ))
    → length front ≡ 36 + 20 * i
    → 36 + 20 * (i + length txn) ≤ size
    → HaveWords txn
    → Described (in_block size (front ++ data_blocks txn)) i txn
unfolding data_blocks
Described-from size i front [] l h w = tt
Described-from size i front ((b, buf) ∷ txn) l h w =
    let entry = data_block b buf in
    let rest = data_blocks txn in
    let all = front ++ (entry ++ rest) in
    let long : length all ≡ 36 + 20 * (i + suc (length txn)) =
      length-append front (entry ++ rest)
      ∙ omega (arith, length-append entry rest, length-data_block b buf, length-data_blocks txn) in
    let front' = front ++ entry in
    let more : length front' ≡ 36 + 20 * (i + 1) =
      length-append front entry ∙ omega (arith, length-data_block b buf) in
    let f = data_block_fields b buf rest w.0 in
    (
      word_at-in_block size (36 + 20 * i) 8 all (omega arith) (omega arith)
          ∙ word_behind front (entry ++ rest) (36 + 20 * i) 0 8 (omega arith)
          ∙ f.0,
      word_at-in_block size (44 + 20 * i) 4 all (omega arith) (omega arith)
          ∙ word_behind front (entry ++ rest) (44 + 20 * i) 8 4 (omega arith)
          ∙ f.1,
      subst (λ x. Described (in_block size x) (i + 1) txn) (append_assoc front entry rest)
          (Described-from size (i + 1) front' txn more (omega arith) w.1),
    )

length-desc_header : (seq n : ℕ) → length (desc_header seq n) ≡ 36
unfolding desc_header
length-desc_header seq n = refl

-- The descriptor block of a transaction, as recovery reads it.
pub desc_block_fields :
    (size seq : ℕ) (txn : List (ℕ × List ℕ))
    → 36 + 20 * length txn ≤ size
    → length txn < 2 ^ 32
    → HaveWords txn
    → (word_at 0 4 (desc_block size seq txn) ≡ journal_magic_desc)
      × (word_at 12 4 (desc_block size seq txn) ≡ length txn)
      × Described (desc_block size seq txn) 0 txn
unfolding desc_block desc_header
desc_block_fields size seq txn h n w =
    let header = desc_header seq (length txn) in
    let all = header ++ data_blocks txn in
    let long : length all ≡ 36 + 20 * length txn =
      length-append header (data_blocks txn)
      ∙ omega (arith, length-desc_header seq (length txn), length-data_blocks txn) in
    (
      word_at-in_block size 0 4 all (omega arith) (omega arith)
          ∙ word-bytes 4 journal_magic_desc (omega arith),
      word_at-in_block size 12 4 all (omega arith) (omega arith)
          ∙ word-bytes 4 (length txn) (omega arith),
      Described-from size 0 header txn (length-desc_header seq (length txn)) (omega arith) w,
    )

pub commit_block_fields :
    (stack : ℕ → ℕ) (size seq : ℕ)
    → word_at 0 4 (commit_block stack size seq) ≡ journal_magic_commit
unfolding commit_block commit_record
commit_block_fields stack size seq = refl
