-- ===== src/Text/Fill.antt =====
-- memset (kernel/string.c), which works in words where the address allows it.
use aurora_os_live.Base.{
  inl, inr, ℕ, zero, suc, ◌+◌, ◌*◌, ◌/◌, ◌%◌, ◌≤◌, ◌<◌, ◌≡◌, ◌⊎◌, refl, ap, sym, ◌∙◌, false, ◌==◌,
  ==_refl, Bool-cases, replicate, arith,
}
use aurora_os_live.User.{store_bytes}
use aurora_os_live.Text.{put_byte, set_bytes, set_words, memset}

store_bytes-replicate :
    (n p b : ℕ) (m : ℕ → ℕ) → store_bytes m p (replicate n b) ≡ set_bytes n p b m
unfolding store_bytes set_bytes
store_bytes-replicate zero p b m = refl
store_bytes-replicate (suc n) p b m = store_bytes-replicate n (p + 1) b (put_byte m p b)

set_bytes-add :
    (a n p b : ℕ) (m : ℕ → ℕ) → set_bytes (a + n) p b m ≡ set_bytes n (p + a) b (set_bytes a p b m)
unfolding set_bytes
set_bytes-add zero n p b m =
    let e1 : 0 + n ≡ n = omega arith in
    let e2 : p ≡ p + 0 = omega arith in
    ap (λ k. set_bytes k p b m) e1 ∙ ap (λ x. set_bytes n x b m) e2
set_bytes-add (suc a) n p b m =
    let m1 : ℕ → ℕ = put_byte m p b in
    let e1 : suc a + n ≡ suc (a + n) = omega arith in
    let e2 : p + 1 + a ≡ p + suc a = omega arith in
    ap (λ k. set_bytes k p b m) e1
    ∙ set_bytes-add a n (p + 1) b m1
    ∙ ap (λ x. set_bytes n x b (set_bytes a (p + 1) b m1)) e2

set_words-eq : (k p b : ℕ) (m : ℕ → ℕ) → set_words k p b m ≡ set_bytes (8 * k) p b m
unfolding set_words set_bytes
set_words-eq zero p b m = refl
set_words-eq (suc k) p b m =
    let e : 8 * suc k ≡ 8 + 8 * k = omega arith in
    set_words-eq k (p + 8) b (store_bytes m p (replicate 8 b))
    ∙ ap (set_bytes (8 * k) (p + 8) b) (store_bytes-replicate 8 p b m)
    ∙ sym (set_bytes-add 8 (8 * k) p b m)
    ∙ ap (λ n. set_bytes n p b m) (sym e)

memset-set_bytes : (s c n : ℕ) (m : ℕ → ℕ) → memset s c n m ≡ set_bytes n s (c % 256) m
unfolding memset
memset-set_bytes s c n m = elim (Bool-cases (s % 8 == 0)) [
  | inl words ↦
      let e : n ≡ 8 * (n / 8) + n % 8 = omega arith in
      rw words (
        ap (set_bytes (n % 8) (s + 8 * (n / 8)) (c % 256)) (set_words-eq (n / 8) s (c % 256) m)
        ∙ sym (set_bytes-add (8 * (n / 8)) (n % 8) s (c % 256) m)
        ∙ ap (λ k. set_bytes k s (c % 256) m) (sym e))
  | inr bytes ↦ rw bytes refl
]

set_bytes_off : (n p b : ℕ) (m : ℕ → ℕ) (x : ℕ) → (x < p) ⊎ (p + n ≤ x) → set_bytes n p b m x ≡ m x
unfolding set_bytes
set_bytes_off zero p b m x h = refl
set_bytes_off (suc n) p b m x (inl h) =
    let e : (x == p) ≡ false = ground arith in
    set_bytes_off n (p + 1) b (put_byte m p b) x (inl (omega arith)) ∙ rw e refl
set_bytes_off (suc n) p b m x (inr h) =
    let e : (x == p) ≡ false = ground arith in
    set_bytes_off n (p + 1) b (put_byte m p b) x (inr (omega arith)) ∙ rw e refl

set_bytes_in : (n p b : ℕ) (m : ℕ → ℕ) (i : ℕ) → i < n → set_bytes n p b m (p + i) ≡ b
unfolding set_bytes
set_bytes_in zero p b m i l = absurd (omega arith)
set_bytes_in (suc n) p b m zero l =
    let e : p + 0 ≡ p = omega arith in
    ap (set_bytes n (p + 1) b (put_byte m p b)) e
    ∙ set_bytes_off n (p + 1) b (put_byte m p b) p (inl (omega arith))
    ∙ rw (==_refl p) refl
set_bytes_in (suc n) p b m (suc i) l =
    let e : p + suc i ≡ p + 1 + i = omega arith in
    ap (set_bytes n (p + 1) b (put_byte m p b)) e
    ∙ set_bytes_in n (p + 1) b (put_byte m p b) i (omega arith)

-- memset of `n` bytes, whether or not it goes by words: each of them becomes the low byte of the value, and
-- no other byte changes.
pub memset_fills :
    (s c n : ℕ) (m : ℕ → ℕ)
    → ((i : ℕ) → i < n → memset s c n m (s + i) ≡ c % 256)
      × ((x : ℕ) → (x < s) ⊎ (s + n ≤ x) → memset s c n m x ≡ m x)
memset_fills s c n m =
    let e = memset-set_bytes s c n m in
    (
      λ i l. ap (λ f. f (s + i)) e ∙ set_bytes_in n s (c % 256) m i l,
      λ x o. ap (λ f. f x) e ∙ set_bytes_off n s (c % 256) m x o,
    )
