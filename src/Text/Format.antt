-- ===== src/Text/Format.antt =====
-- The text that a format of snprintf (kernel/string.c) stands for, and the texts of the directives.
use aurora_os_live.Base.{
  inl, inr, ℕ, zero, suc, ◌+◌, ◌-◌, ◌%◌, ◌^◌, ◌≤◌, ◌<◌, ◌≡◌, refl, ap, sym, ◌∙◌, true, false, List,
  [], ◌∷◌, ◌++◌, ltb, ◌==◌, if◌then◌else◌, Bool-cases, arith, ◌/◌, get_or,
}
use native.Mathlib.Nat.{mod-lt}
use mathlib.Core.List.{append-nil, append_assoc}
use aurora_os_live.Text.{
  directive, takes_argument, digit_char, digits, uint_chars, string_at, int_chars, pointer_chars,
}

-- What a character behind '%' asks for: a string, an int, a word in decimal, in hexadecimal or as a
-- pointer, or a character, each an argument; or, without one, the text that it is.
pub data Conversion : Type 0 where
  string signed unsigned hexadecimal pointer character : Conversion
  itself : List ℕ → Conversion

-- 's', 'd', 'u', 'x', 'p', 'c' and '%'.
unfoldable pub conversion : ℕ → Conversion
conversion d =
    if d == 115
    then string
    else if d == 100
    then signed
    else if d == 117
    then unsigned
    else if d == 120
    then hexadecimal
    else if d == 112
    then pointer
    else if d == 99
    then character
    else if d == 37
    then itself (37 ∷ [])
    else itself (37 ∷ d ∷ [])

-- "0123456789abcdef".
abbrev pub digit_characters : List ℕ
digit_characters =
    48 ∷ 49 ∷ 50 ∷ 51 ∷ 52 ∷ 53 ∷ 54 ∷ 55 ∷ 56 ∷ 57 ∷ 97 ∷ 98 ∷ 99 ∷ 100 ∷ 101 ∷ 102 ∷ []

-- The last `places` digits of a number, without leading zeros.
unfoldable pub last_digits : ℕ → ℕ → ℕ → List ℕ
last_digits zero base val = []
last_digits (suc places) base val =
    let higher = last_digits places base (val / base) in
    if val == 0 then [] else higher ++ get_or digit_characters (val % base) 0 ∷ []

-- A 64-bit number has at most 20 digits in base 10 or 16.
abbrev pub numeral : ℕ → ℕ → List ℕ
numeral base val = if val == 0 then 48 ∷ [] else last_digits 20 base val

-- The text of an argument.
unfoldable pub rendered : (ℕ → List ℕ) → Conversion → ℕ → List ℕ
rendered strings string a = if a == 0 then 40 ∷ 110 ∷ 117 ∷ 108 ∷ 108 ∷ 41 ∷ [] else strings a
rendered strings signed a =
    if ltb (a % 2 ^ 32) (2 ^ 31)
    then numeral 10 (a % 2 ^ 32)
    else 45 ∷ numeral 10 (2 ^ 32 - a % 2 ^ 32)
rendered strings unsigned a = numeral 10 a
rendered strings hexadecimal a = numeral 16 a
rendered strings pointer a =
    if a == 0 then 40 ∷ 110 ∷ 105 ∷ 108 ∷ 41 ∷ [] else 48 ∷ 120 ∷ numeral 16 a
rendered strings character a = a % 256 ∷ []
rendered strings (itself text) a = text

-- How many arguments it takes.
unfoldable pub arguments : Conversion → ℕ
arguments string = 1
arguments signed = 1
arguments unsigned = 1
arguments hexadecimal = 1
arguments pointer = 1
arguments character = 1
arguments (itself text) = 0

-- The digits as the code makes them.
digits-last_digits :
    (places base val : ℕ) (tmp : List ℕ)
    → 2 ≤ base
    → base ≤ 16
    → digits places base val tmp ≡ last_digits places base val ++ tmp
unfolding digits last_digits
digits-last_digits zero base val tmp l h = refl
digits-last_digits (suc places) base val tmp l h = elim (Bool-cases (val == 0)) [
  | inl z ↦ rw z refl
  | inr p ↦
      let pos : 0 < base = omega arith in
      let low : val % base < base = mod-lt val pos in
      let c : digit_char (val % base) ≡ get_or digit_characters (val % base) 0 =
        ground (arith, low) in
      rw p (
        digits-last_digits places base (val / base) (digit_char (val % base) ∷ tmp) l h
        ∙ ap (λ x. last_digits places base (val / base) ++ x ∷ tmp) c
        ∙ sym (append_assoc (last_digits places base (val / base)) (_ ∷ []) tmp))
]

uint_chars-numeral : (val base : ℕ) → 2 ≤ base → base ≤ 16 → uint_chars val base ≡ numeral base val
unfolding uint_chars
uint_chars-numeral val base l h = elim (Bool-cases (val == 0)) [
  | inl z ↦ rw z refl
  | inr p ↦ rw p (digits-last_digits 20 base val [] l h ∙ append-nil (last_digits 20 base val))
]

pub directive-rendered :
    (strings : ℕ → List ℕ) (d a : ℕ) → directive strings d a ≡ rendered strings (conversion d) a
unfolding directive conversion rendered string_at int_chars pointer_chars
directive-rendered strings d a = ground (
  arith,
  uint_chars-numeral a 10 (omega arith) (omega arith),
  uint_chars-numeral a 16 (omega arith) (omega arith),
  uint_chars-numeral (a % 2 ^ 32) 10 (omega arith) (omega arith),
  uint_chars-numeral (2 ^ 32 - a % 2 ^ 32) 10 (omega arith) (omega arith),
)

pub takes_argument-arguments :
    (d k : ℕ) → (if takes_argument d then k + 1 else k) ≡ k + arguments (conversion d)
unfolding conversion arguments
takes_argument-arguments d k = ground arith

module _ (strings : ℕ → List ℕ) (args : ℕ → ℕ) where
  -- The whole text of a format, when `k` arguments have been read.
  unfoldable pub expand : List ℕ → ℕ → List ℕ
  expand [] k = []
  expand (c ∷ []) k = c ∷ []
  expand (c ∷ d ∷ fmt) k = elim (c == 37) [
    | true ↦ rendered strings (conversion d) (args k) ++ expand fmt (k + arguments (conversion d))
    | false ↦ c ∷ expand (d ∷ fmt) k
  ]
