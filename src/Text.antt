-- ===== src/Text.antt =====
-- snprintf and the copying functions of kernel/string.c. Memory is a function from addresses to bytes; the
-- buffer of snprintf starts at `buf`. A string is its bytes before the terminator. The arguments behind
-- the format are the words that va_arg reads, and `strings` gives the string that a pointer points to,
-- outside the buffer. snprintf returns `pos`, cut to an int.
pub mod Bounds
pub mod Digits
pub mod Copy
pub mod Fill
pub mod Format
pub mod Expand
mod Tests
use aurora_os_live.Base.{
  ℕ, zero, suc, ◌+◌, ◌-◌, ◌*◌, ◌/◌, ◌%◌, ◌^◌, Bool, true, false, not, ◌&&◌, ◌||◌, List, [], ◌∷◌,
  ◌++◌, ltb, leb, ◌==◌, if◌then◌else◌,
}
use aurora_os_live.User.{load_bytes, store_bytes}
use aurora_os_live.Base.{replicate}

-- The memory and `pos`.
pub record Output : Type 0 where
  pub memory : ℕ → ℕ
  pub pos : ℕ

abbrev pub put_byte : (ℕ → ℕ) → ℕ → ℕ → ℕ → ℕ
put_byte m a b x = if x == a then b else m x

module _ (buf size : ℕ) where
  unfoldable pub sn_write_char : Output → ℕ → Output
  sn_write_char o c = record {
    memory =
        if ltb ((o.pos + 1) % 2 ^ 64) size then put_byte o.memory (buf + o.pos) c else o.memory;
    pos = (o.pos + 1) % 2 ^ 64;
  }

  -- `sn_write_str` of a string that is not NULL.
  unfoldable pub write_chars : Output → List ℕ → Output
  write_chars o [] = o
  write_chars o (c ∷ s) = write_chars (sn_write_char o c) s

-- '0' + digit, or 'a' + digit - 10.
abbrev pub digit_char : ℕ → ℕ
digit_char d = if ltb d 10 then 48 + d else 97 + d - 10

-- The digits in `tmp`, the highest first: the loop that fills it, with the rounds that are left.
unfoldable pub digits : ℕ → ℕ → ℕ → List ℕ → List ℕ
digits zero base val tmp = tmp
digits (suc left) base val tmp =
    let more = digits left base (val / base) (digit_char (val % base) ∷ tmp) in
    if val == 0 then tmp else more

unfoldable pub uint_chars : ℕ → ℕ → List ℕ
uint_chars val base = if val == 0 then 48 ∷ [] else digits 20 base val []

-- "(null)", "(nil)" and "0x".
abbrev pub null_text : List ℕ
null_text = 40 ∷ 110 ∷ 117 ∷ 108 ∷ 108 ∷ 41 ∷ []

abbrev pub nil_text : List ℕ
nil_text = 40 ∷ 110 ∷ 105 ∷ 108 ∷ 41 ∷ []

unfoldable pub string_at : (ℕ → List ℕ) → ℕ → List ℕ
string_at strings p = if p == 0 then null_text else strings p

-- `%d` of an `int`, given by its bits.
unfoldable pub int_chars : ℕ → List ℕ
int_chars v = if ltb v (2 ^ 31) then uint_chars v 10 else 45 ∷ uint_chars (2 ^ 32 - v) 10

unfoldable pub pointer_chars : ℕ → List ℕ
pointer_chars v = if v == 0 then nil_text else 48 ∷ 120 ∷ uint_chars v 16

-- The characters that stand for `%` and the character `d`, with the word `a` that va_arg reads there.
unfoldable pub directive : (ℕ → List ℕ) → ℕ → ℕ → List ℕ
directive strings d a =
    if d == 115
    then string_at strings a
    else if d == 100
    then int_chars (a % 2 ^ 32)
    else if d == 117
    then uint_chars a 10
    else if d == 120
    then uint_chars a 16
    else if d == 112
    then pointer_chars a
    else if d == 99
    then a % 256 ∷ []
    else if d == 37
    then 37 ∷ []
    else 37 ∷ d ∷ []

abbrev pub takes_argument : ℕ → Bool
takes_argument d = d == 115 || (d == 100 || (d == 117 || (d == 120 || (d == 112 || d == 99))))

-- Where the terminator goes.
abbrev pub last_byte : ℕ → ℕ → ℕ
last_byte size pos = if ltb pos size then pos else size - 1

module _ (buf size : ℕ) (strings : ℕ → List ℕ) (args : ℕ → ℕ) where
  -- The loop over the format; `k` arguments have been read.
  unfoldable pub format_loop : List ℕ → ℕ → Output → Output
  format_loop [] k o = o
  format_loop (c ∷ []) k o = if ltb o.pos size then sn_write_char buf size o c else o
  format_loop (c ∷ d ∷ fmt) k o = elim (ltb o.pos size) [
    | false ↦ o
    | true ↦ elim (c == 37) [
      | true ↦
          format_loop fmt (if takes_argument d then k + 1 else k)
            (write_chars buf size o (directive strings d (args k)))
      | false ↦ format_loop (d ∷ fmt) k (sn_write_char buf size o c)
    ]
  ]

  -- The terminator.
  abbrev pub terminated : Output → Output
  terminated o = record o { memory = put_byte o.memory (buf + last_byte size o.pos) 0 }

  -- `snprintf` of a format that is not NULL into a buffer that is not NULL.
  unfoldable pub snprintf : List ℕ → (ℕ → ℕ) → Output
  snprintf fmt m =
      if size == 0
      then record { memory = m; pos = 0 }
      else terminated (format_loop fmt 0 (record { memory = m; pos = 0 }))

-- `memcpy`: words while both addresses are multiples of 8, then bytes from the lowest up.
unfoldable pub copy_bytes : ℕ → ℕ → ℕ → (ℕ → ℕ) → ℕ → ℕ
copy_bytes zero d s m = m
copy_bytes (suc n) d s m = copy_bytes n (d + 1) (s + 1) (put_byte m d (m s))

unfoldable pub copy_words : ℕ → ℕ → ℕ → (ℕ → ℕ) → ℕ → ℕ
copy_words zero d s m = m
copy_words (suc k) d s m = copy_words k (d + 8) (s + 8) (store_bytes m d (load_bytes m s 8))

unfoldable pub memcpy : ℕ → ℕ → ℕ → (ℕ → ℕ) → ℕ → ℕ
memcpy dst src n m =
    if dst % 8 == 0 && src % 8 == 0
    then copy_bytes (n % 8) (dst + 8 * (n / 8)) (src + 8 * (n / 8)) (copy_words (n / 8) dst src m)
    else copy_bytes n dst src m

-- `memset`, with the word of eight copies of the byte.
unfoldable pub set_bytes : ℕ → ℕ → ℕ → (ℕ → ℕ) → ℕ → ℕ
set_bytes zero p b m = m
set_bytes (suc n) p b m = set_bytes n (p + 1) b (put_byte m p b)

unfoldable pub set_words : ℕ → ℕ → ℕ → (ℕ → ℕ) → ℕ → ℕ
set_words zero p b m = m
set_words (suc k) p b m = set_words k (p + 8) b (store_bytes m p (replicate 8 b))

unfoldable pub memset : ℕ → ℕ → ℕ → (ℕ → ℕ) → ℕ → ℕ
memset s c n m =
    let b = c % 256 in
    if s % 8 == 0
    then set_bytes (n % 8) (s + 8 * (n / 8)) b (set_words (n / 8) s b m)
    else set_bytes n s b m
