-- ===== src/Text/Copy.antt =====
-- memcpy (kernel/string.c), which works in words where the addresses allow it.
use aurora_os_live.Base.{
  inl, inr, ℕ, zero, suc, ◌+◌, ◌*◌, ◌/◌, ◌%◌, ◌≤◌, ◌<◌, ◌≡◌, ◌⊎◌, refl, ap, ap₂, sym, ◌∙◌, false,
  ◌&&◌, ◌==◌, ==_refl, Bool-cases, arith,
}
use mathlib.Core.Path.{subst}
use aurora_os_live.User.{load_bytes, store_bytes}
use aurora_os_live.User.Words.{load_bytes_cong}
use aurora_os_live.Text.{put_byte, copy_bytes, copy_words, memcpy}

-- The two ranges of `n` bytes have no byte in common.
abbrev pub Disjoint : ℕ → ℕ → ℕ → Type 0
Disjoint d s n = (d + n ≤ s) ⊎ (s + n ≤ d)

Disjoint-suc : (d s n : ℕ) → Disjoint d s (suc n) → Disjoint (d + 1) (s + 1) n
Disjoint-suc d s n (inl h) = inl (omega arith)
Disjoint-suc d s n (inr h) = inr (omega arith)

Disjoint-add : (d s a b : ℕ) → Disjoint d s (a + b) → Disjoint d s a × Disjoint (d + a) (s + a) b
Disjoint-add d s a b (inl h) = (inl (omega arith), inl (omega arith))
Disjoint-add d s a b (inr h) = (inr (omega arith), inr (omega arith))

not_in : (d s n x : ℕ) → Disjoint d s (suc n) → s + 1 ≤ x → x < s + 1 + n → (x == d) ≡ false
not_in d s n x (inl h) p q = ground arith
not_in d s n x (inr h) p q = ground arith

-- A word, or any number of bytes, read first and then written.
store_bytes-load_bytes :
    (n d s : ℕ) (m : ℕ → ℕ)
    → Disjoint d s n
    → store_bytes m d (load_bytes m s n) ≡ copy_bytes n d s m
unfolding load_bytes store_bytes copy_bytes
store_bytes-load_bytes zero d s m h = refl
store_bytes-load_bytes (suc n) d s m h =
    let m1 : ℕ → ℕ = put_byte m d (m s) in
    let same : load_bytes m (s + 1) n ≡ load_bytes m1 (s + 1) n =
      load_bytes_cong m m1 (s + 1) n (λ x p q. let e = not_in d s n x h p q in rw e refl) in
    ap (store_bytes m1 (d + 1)) same
    ∙ store_bytes-load_bytes n (d + 1) (s + 1) m1 (Disjoint-suc d s n h)

copy_bytes-add :
    (a b d s : ℕ) (m : ℕ → ℕ)
    → copy_bytes (a + b) d s m ≡ copy_bytes b (d + a) (s + a) (copy_bytes a d s m)
unfolding copy_bytes
copy_bytes-add zero b d s m =
    let e1 : 0 + b ≡ b = omega arith in
    let e2 : d ≡ d + 0 = omega arith in
    let e3 : s ≡ s + 0 = omega arith in
    ap (λ n. copy_bytes n d s m) e1 ∙ ap₂ (λ x y. copy_bytes b x y m) e2 e3
copy_bytes-add (suc a) b d s m =
    let m1 : ℕ → ℕ = put_byte m d (m s) in
    let e1 : suc a + b ≡ suc (a + b) = omega arith in
    let e2 : d + 1 + a ≡ d + suc a = omega arith in
    let e3 : s + 1 + a ≡ s + suc a = omega arith in
    ap (λ n. copy_bytes n d s m) e1
    ∙ copy_bytes-add a b (d + 1) (s + 1) m1
    ∙ ap₂ (λ x y. copy_bytes b x y (copy_bytes a (d + 1) (s + 1) m1)) e2 e3

copy_words-eq :
    (k d s : ℕ) (m : ℕ → ℕ) → Disjoint d s (8 * k) → copy_words k d s m ≡ copy_bytes (8 * k) d s m
unfolding copy_words copy_bytes
copy_words-eq zero d s m h = refl
copy_words-eq (suc k) d s m h =
    let e : 8 * suc k ≡ 8 + 8 * k = omega arith in
    let parts = Disjoint-add d s 8 (8 * k) (subst (Disjoint d s) e h) in
    let m1 : ℕ → ℕ = store_bytes m d (load_bytes m s 8) in
    copy_words-eq k (d + 8) (s + 8) m1 parts.1
    ∙ ap (copy_bytes (8 * k) (d + 8) (s + 8)) (store_bytes-load_bytes 8 d s m parts.0)
    ∙ sym (copy_bytes-add 8 (8 * k) d s m)
    ∙ ap (λ n. copy_bytes n d s m) (sym e)

memcpy-copy_bytes :
    (dst src n : ℕ) (m : ℕ → ℕ) → Disjoint dst src n → memcpy dst src n m ≡ copy_bytes n dst src m
unfolding memcpy
memcpy-copy_bytes dst src n m h = elim (Bool-cases (dst % 8 == 0 && src % 8 == 0)) [
  | inl words ↦
      let e : n ≡ 8 * (n / 8) + n % 8 = omega arith in
      let parts = Disjoint-add dst src (8 * (n / 8)) (n % 8) (subst (Disjoint dst src) e h) in
      rw words (
        ap (copy_bytes (n % 8) (dst + 8 * (n / 8)) (src + 8 * (n / 8)))
          (copy_words-eq (n / 8) dst src m parts.0)
        ∙ sym (copy_bytes-add (8 * (n / 8)) (n % 8) dst src m)
        ∙ ap (λ k. copy_bytes k dst src m) (sym e))
  | inr bytes ↦ rw bytes refl
]

copy_bytes_off :
    (n d s : ℕ) (m : ℕ → ℕ) (x : ℕ) → (x < d) ⊎ (d + n ≤ x) → copy_bytes n d s m x ≡ m x
unfolding copy_bytes
copy_bytes_off zero d s m x h = refl
copy_bytes_off (suc n) d s m x (inl h) =
    let e : (x == d) ≡ false = ground arith in
    copy_bytes_off n (d + 1) (s + 1) (put_byte m d (m s)) x (inl (omega arith)) ∙ rw e refl
copy_bytes_off (suc n) d s m x (inr h) =
    let e : (x == d) ≡ false = ground arith in
    copy_bytes_off n (d + 1) (s + 1) (put_byte m d (m s)) x (inr (omega arith)) ∙ rw e refl

copy_bytes_in :
    (n d s : ℕ) (m : ℕ → ℕ) (i : ℕ)
    → Disjoint d s n
    → i < n
    → copy_bytes n d s m (d + i) ≡ m (s + i)
unfolding copy_bytes
copy_bytes_in zero d s m i h l = absurd (omega arith)
copy_bytes_in (suc n) d s m zero h l =
    let e1 : d + 0 ≡ d = omega arith in
    let e2 : s ≡ s + 0 = omega arith in
    ap (copy_bytes n (d + 1) (s + 1) (put_byte m d (m s))) e1
    ∙ copy_bytes_off n (d + 1) (s + 1) (put_byte m d (m s)) d (inl (omega arith))
    ∙ rw (==_refl d) (ap m e2)
copy_bytes_in (suc n) d s m (suc i) h l =
    let m1 : ℕ → ℕ = put_byte m d (m s) in
    let e1 : d + suc i ≡ d + 1 + i = omega arith in
    let e2 : s + 1 + i ≡ s + suc i = omega arith in
    let away = not_in d s n (s + 1 + i) h (omega arith) (omega arith) in
    let kept : m1 (s + 1 + i) ≡ m (s + 1 + i) = rw away refl in
    ap (copy_bytes n (d + 1) (s + 1) m1) e1
    ∙ copy_bytes_in n (d + 1) (s + 1) m1 i (Disjoint-suc d s n h) (omega arith)
    ∙ kept
    ∙ ap m e2

-- memcpy of `n` bytes between ranges that do not overlap, whether or not it goes by words: each byte of the
-- destination is the byte of the source that was there, and no other byte changes.
pub memcpy_copies :
    (dst src n : ℕ) (m : ℕ → ℕ)
    → (dst + n ≤ src) ⊎ (src + n ≤ dst)
    → ((i : ℕ) → i < n → memcpy dst src n m (dst + i) ≡ m (src + i))
      × ((x : ℕ) → (x < dst) ⊎ (dst + n ≤ x) → memcpy dst src n m x ≡ m x)
memcpy_copies dst src n m h =
    let e = memcpy-copy_bytes dst src n m h in
    (
      λ i l. ap (λ f. f (dst + i)) e ∙ copy_bytes_in n dst src m i h l,
      λ x o. ap (λ f. f x) e ∙ copy_bytes_off n dst src m x o,
    )
