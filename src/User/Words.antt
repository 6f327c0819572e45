-- ===== src/User/Words.antt =====
-- Words of 8 bytes in memory, the lowest byte first.
use aurora_os_live.Base.{
  ℕ, zero, suc, ◌+◌, ◌*◌, ◌/◌, ◌%◌, ◌^◌, ◌≤◌, ◌<◌, ◌≡◌, refl, ap, ap₂, ◌∙◌, List, [], ◌∷◌, ◌++◌,
  true, some, length, get_or, ◌==◌, if◌then◌else◌, arith,
}
use native.Mathlib.Nat.{pow-suc}
use aurora_os_live.User.{Space, may_copy, copy_from_user, load_bytes, store_bytes}

-- The `n` bytes of a word, and the word of some bytes.
abbrev pub bytes : ℕ → ℕ → List ℕ
bytes zero w = []
bytes (suc n) w = w % 256 ∷ bytes n (w / 256)

abbrev pub number : List ℕ → ℕ
number [] = 0
number (b ∷ bs) = b + 256 * number bs

-- A list of 64-bit words, one after the other.
abbrev pub words_bytes : List ℕ → List ℕ
words_bytes [] = []
words_bytes (w ∷ ws) = bytes 8 w ++ words_bytes ws

-- The words that memory holds from an address on.
pub load_words : (ℕ → ℕ) → ℕ → ℕ → List ℕ
load_words m a zero = []
load_words m a (suc n) = number (load_bytes m a 8) ∷ load_words m (a + 8) n

pub load_words-suc :
    (m : ℕ → ℕ) (a n : ℕ)
    → load_words m a (suc n) ≡ number (load_bytes m a 8) ∷ load_words m (a + 8) n
unfolding load_words
load_words-suc m a n = refl

pub number-bytes : (n w : ℕ) → w < 256 ^ n → number (bytes n w) ≡ w
number-bytes zero w h = omega arith
number-bytes (suc n) w h =
    omega (arith, pow-suc 256 n, number-bytes n (w / 256) (omega (arith, pow-suc 256 n)))

pub length-bytes : (n w : ℕ) → length (bytes n w) ≡ n
length-bytes zero w = refl
length-bytes (suc n) w = ap suc (length-bytes n (w / 256))

-- Bytes below what is stored stay.
pub store_bytes_below :
    (m : ℕ → ℕ) (a : ℕ) (bs : List ℕ) (x : ℕ) → x < a → store_bytes m a bs x ≡ m x
unfolding store_bytes
store_bytes_below m a [] x h = refl
store_bytes_below m a (b ∷ bs) x h =
    store_bytes_below (λ y. if y == a then b else m y) (a + 1) bs x (omega arith) ∙ ground arith

-- Loading depends on the loaded bytes alone.
pub load_bytes_cong :
    (m m' : ℕ → ℕ) (a n : ℕ)
    → ((x : ℕ) → a ≤ x → x < a + n → m x ≡ m' x)
    → load_bytes m a n ≡ load_bytes m' a n
unfolding load_bytes
load_bytes_cong m m' a zero h = refl
load_bytes_cong m m' a (suc n) h =
    ap₂ ◌∷◌ (h a (omega arith) (omega arith))
      (load_bytes_cong m m' (a + 1) n (λ x p q. h x (omega arith) (omega arith)))

pub load_words_cong :
    (m m' : ℕ → ℕ) (a n : ℕ)
    → ((x : ℕ) → a ≤ x → x < a + 8 * n → m x ≡ m' x)
    → load_words m a n ≡ load_words m' a n
unfolding load_words
load_words_cong m m' a zero h = refl
load_words_cong m m' a (suc n) h =
    ap₂ (λ b r. number b ∷ r) (load_bytes_cong m m' a 8 (λ x p q. h x p (omega arith)))
      (load_words_cong m m' (a + 8) n (λ x p q. h x (omega arith) (omega arith)))

pub load_bytes-store_bytes :
    (m : ℕ → ℕ) (a : ℕ) (bs : List ℕ) → load_bytes (store_bytes m a bs) a (length bs) ≡ bs
unfolding load_bytes store_bytes
load_bytes-store_bytes m a [] = refl
load_bytes-store_bytes m a (b ∷ bs) =
    let m' : ℕ → ℕ = λ y. if y == a then b else m y in
    ap₂ ◌∷◌ (store_bytes_below m' (a + 1) bs a (omega arith) ∙ ground arith)
      (load_bytes-store_bytes m' (a + 1) bs)

-- 64-bit words.
abbrev pub AreWords : List ℕ → Type 0
AreWords [] = Unit {0}
AreWords (w ∷ ws) = (w < 2 ^ 64) × AreWords ws

store_bytes-append :
    (m : ℕ → ℕ) (a : ℕ) (bs cs : List ℕ)
    → store_bytes m a (bs ++ cs) ≡ store_bytes (store_bytes m a bs) (a + length bs) cs
unfolding store_bytes
store_bytes-append m a [] cs = ap (λ k. store_bytes m k cs) (omega arith)
store_bytes-append m a (b ∷ bs) cs =
    let m' : ℕ → ℕ = λ y. if y == a then b else m y in
    store_bytes-append m' (a + 1) bs cs
    ∙ ap (λ k. store_bytes (store_bytes m' (a + 1) bs) k cs) (omega arith)

-- Words stored are the words loaded.
pub load_words-store_bytes :
    (m : ℕ → ℕ) (a : ℕ) (ws : List ℕ)
    → AreWords ws
    → load_words (store_bytes m a (words_bytes ws)) a (length ws) ≡ ws
unfolding load_words
load_words-store_bytes m a [] h = refl
load_words-store_bytes m a (w ∷ ws) h =
    let m' = store_bytes m a (bytes 8 w) in
    let rest = store_bytes m' (a + 8) (words_bytes ws) in
    let e : store_bytes m a (bytes 8 w ++ words_bytes ws) ≡ rest =
      store_bytes-append m a (bytes 8 w) (words_bytes ws) in
    let first : load_bytes rest a 8 ≡ bytes 8 w =
      load_bytes_cong rest m' a 8
        (λ x p q. store_bytes_below m' (a + 8) (words_bytes ws) x (omega arith))
      ∙ load_bytes-store_bytes m a (bytes 8 w) in
    ap (λ k. load_words k a (length (w ∷ ws))) e
    ∙ ap₂ ◌∷◌ (ap number first ∙ number-bytes 8 w (omega (arith, h.0)))
        (load_words-store_bytes m' (a + 8) ws h.1)

-- A kernel buffer that holds a copy of `n` bytes reads as the memory that they come from.
pub get_or-load_bytes : (m : ℕ → ℕ) (a n i : ℕ) → i < n → get_or (load_bytes m a n) i 0 ≡ m (a + i)
unfolding load_bytes
get_or-load_bytes m a zero i h = absurd (omega arith)
get_or-load_bytes m a (suc n) zero h = ap m (omega arith)
get_or-load_bytes m a (suc n) (suc i) h =
    get_or-load_bytes m (a + 1) n i (omega arith) ∙ ap m (omega arith)

load_bytes-shift :
    (m : ℕ → ℕ) (a b n : ℕ) → load_bytes (λ i. m (a + i)) b n ≡ load_bytes m (a + b) n
unfolding load_bytes
load_bytes-shift m a b zero = refl
load_bytes-shift m a b (suc n) =
    ap (λ r. m (a + b) ∷ r)
      (load_bytes-shift m a (b + 1) n ∙ ap (λ k. load_bytes m k n) (omega arith))

load_words-shift :
    (m : ℕ → ℕ) (a b n : ℕ) → load_words (λ i. m (a + i)) b n ≡ load_words m (a + b) n
unfolding load_words
load_words-shift m a b zero = refl
load_words-shift m a b (suc n) =
    ap₂ (λ x r. number x ∷ r) (load_bytes-shift m a b 8)
      (load_words-shift m a (b + 8) n ∙ ap (λ k. load_words m k n) (omega arith))

-- The words of a kernel buffer.
abbrev pub buffer_words : List ℕ → ℕ → List ℕ
buffer_words buf n = load_words (λ i. get_or buf i 0) 0 n

pub buffer_words-load_bytes :
    (m : ℕ → ℕ) (a n : ℕ) → buffer_words (load_bytes m a (8 * n)) n ≡ load_words m a n
buffer_words-load_bytes m a n =
    load_words_cong _ (λ i. m (a + i)) 0 n (λ x p q. get_or-load_bytes m a (8 * n) x (omega arith))
    ∙ load_words-shift m a 0 n
    ∙ ap (λ k. load_words m k n) (omega arith)

pub copy_from_user_ok :
    (sp : Space) (a n : ℕ)
    → may_copy sp a n ≡ true
    → copy_from_user sp a n ≡ some (load_bytes sp.memory a n)
unfolding copy_from_user
copy_from_user_ok sp a n h = rw h refl
