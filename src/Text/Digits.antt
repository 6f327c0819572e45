-- ===== src/Text/Digits.antt =====
-- Numbers as snprintf (kernel/string.c) writes them.
use aurora_os_live.Base.{
  inl, inr, ℕ, zero, suc, ◌+◌, ◌-◌, ◌*◌, ◌/◌, ◌%◌, ◌^◌, ◌≤◌, ◌<◌, ◌≡◌, refl, ap, ap₂, sym, ◌∙◌,
  true, false, List, [], ◌∷◌, length, ltb, ◌==◌, ==_refl, if◌then◌else◌, Bool-cases, arith,
}
use native.Mathlib.Nat.{pow-zero, pow-suc, mod-lt, div-add-mod', div-lt_iff_lt-mul}
use aurora_os_live.User.{load_bytes}
use aurora_os_live.User.Words.{load_bytes_cong}
use aurora_os_live.Text.{
  Output, put_byte, sn_write_char, write_chars, digit_char, digits, uint_chars, directive,
  format_loop, terminated, last_byte, snprintf,
}
use aurora_os_live.Text.Bounds.{length-uint_chars}

-- The number that a text of digits and of letters from 'a' on stands for, after digits of value `acc`.
abbrev pub char_value : ℕ → ℕ
char_value c = if ltb c 58 then c - 48 else c + 10 - 97

pub number_of : ℕ → ℕ → List ℕ → ℕ
number_of base acc [] = acc
number_of base acc (c ∷ s) = number_of base (acc * base + char_value c) s

char_value-digit_char : (d : ℕ) → d < 16 → char_value (digit_char d) ≡ d
char_value-digit_char d h = ground arith

module _ (base : ℕ) (two : 2 ≤ base) (few : base ≤ 16) where
  shorter : (val left : ℕ) → val < base ^ suc left → val / base < base ^ left
  shorter val left h =
      let pos : 0 < base = omega arith in
      (div-lt_iff_lt-mul pos).1 (omega (arith, pow-suc base left))

  low_digit : (val : ℕ) → val % base < 16
  low_digit val =
      let pos : 0 < base = omega arith in let l : val % base < base = mod-lt val pos in omega arith

  joined : (val : ℕ) → val / base * base + char_value (digit_char (val % base)) ≡ val
  joined val =
      let low : val % base < 16 = low_digit val in
      ap (λ d. val / base * base + d) (char_value-digit_char (val % base) low)
      ∙ div-add-mod' val base

  number_of-digits :
      (left val : ℕ) (tmp : List ℕ)
      → val < base ^ left
      → number_of base 0 (digits left base val tmp) ≡ number_of base val tmp
  unfolding digits number_of
  number_of-digits zero val tmp h = ap (λ n. number_of base n tmp) (omega (arith, pow-zero base))
  number_of-digits (suc left) val tmp h = elim (Bool-cases (val == 0)) [
    | inl z ↦ rw z (ap (λ n. number_of base n tmp) (ground (arith, z)))
    | inr p ↦ rw p (
        number_of-digits left (val / base) (digit_char (val % base) ∷ tmp) (shorter val left h)
        ∙ ap (λ n. number_of base n tmp) (joined val))
  ]

  number_of-uint_chars : (val : ℕ) → val < base ^ 20 → number_of base 0 (uint_chars val base) ≡ val
  unfolding uint_chars number_of
  number_of-uint_chars val h = elim (Bool-cases (val == 0)) [
    | inl z ↦ rw z (ground (arith, z))
    | inr p ↦ rw p (number_of-digits 20 val [] h)
  ]

module _ (buf size : ℕ) (small : size < 2 ^ 62) where
  sn_write_char_fits :
      (o : Output) (c : ℕ)
      → o.pos + 1 < size
      → sn_write_char buf size o c
        ≡ record { memory = put_byte o.memory (buf + o.pos) c; pos = o.pos + 1 }
  unfolding sn_write_char
  sn_write_char_fits o c h =
      let next : (o.pos + 1) % 2 ^ 64 ≡ o.pos + 1 = omega arith in
      let fits : ltb (o.pos + 1) size ≡ true = ground arith in rw (next, fits) refl

  write_chars_below :
      (s : List ℕ) (o : Output) (x : ℕ)
      → o.pos + length s < size
      → x < buf + o.pos
      → (write_chars buf size o s).memory x ≡ o.memory x
  unfolding write_chars
  write_chars_below [] o x h b = refl
  write_chars_below (c ∷ s) o x h b =
      let o1 : Output = record { memory = put_byte o.memory (buf + o.pos) c; pos = o.pos + 1 } in
      let away : (x == buf + o.pos) ≡ false = ground arith in
      ap (λ q. (write_chars buf size q s).memory x) (sn_write_char_fits o c (omega arith))
      ∙ write_chars_below s o1 x (omega arith) (omega arith)
      ∙ rw away refl

  write_chars_pos :
      (s : List ℕ) (o : Output)
      → o.pos + length s < size
      → (write_chars buf size o s).pos ≡ o.pos + length s
  unfolding write_chars
  write_chars_pos [] o h = omega arith
  write_chars_pos (c ∷ s) o h =
      let o1 : Output = record { memory = put_byte o.memory (buf + o.pos) c; pos = o.pos + 1 } in
      let sum : o.pos + 1 + length s ≡ o.pos + suc (length s) = omega arith in
      ap (λ q. (write_chars buf size q s).pos) (sn_write_char_fits o c (omega arith))
      ∙ write_chars_pos s o1 (omega arith)
      ∙ sum

  -- What is written stands behind what was there.
  load_bytes-write_chars :
      (s : List ℕ) (o : Output)
      → o.pos + length s < size
      → load_bytes (write_chars buf size o s).memory (buf + o.pos) (length s) ≡ s
  unfolding load_bytes write_chars
  load_bytes-write_chars [] o h = refl
  load_bytes-write_chars (c ∷ s) o h =
      let o1 : Output = record { memory = put_byte o.memory (buf + o.pos) c; pos = o.pos + 1 } in
      let e : sn_write_char buf size o c ≡ o1 = sn_write_char_fits o c (omega arith) in
      let next : buf + o.pos + 1 ≡ buf + (o.pos + 1) = omega arith in
      ap₂ ◌∷◌
        (ap (λ q. (write_chars buf size q s).memory (buf + o.pos)) e
          ∙ write_chars_below s o1 (buf + o.pos) (omega arith) (omega arith)
          ∙ rw (==_refl (buf + o.pos)) refl)
        (ap₂ (λ q a. load_bytes (write_chars buf size q s).memory a (length s)) e next
          ∙ load_bytes-write_chars s o1 (omega arith))

  format_uint :
      (strings : ℕ → List ℕ) (args : ℕ → ℕ) (o : Output)
      → o.pos < size
      → format_loop buf size strings args (37 ∷ 117 ∷ []) 0 o
        ≡ write_chars buf size o (uint_chars (args 0) 10)
  unfolding format_loop directive
  format_uint strings args o h =
      let go : ltb o.pos size ≡ true = ground arith in rw (format_loop, go) refl

  snprintf_done :
      (strings : ℕ → List ℕ) (args m : ℕ → ℕ) (fmt : List ℕ) (o : Output)
      → format_loop buf size strings args fmt 0 (record { memory = m; pos = 0 }) ≡ o
      → o.pos < size
      → snprintf buf size strings args fmt m
        ≡ record o { memory = put_byte o.memory (buf + o.pos) 0 }
  unfolding snprintf
  snprintf_done strings args m fmt o e h =
      let some_bytes : (size == 0) ≡ false = ground arith in
      let inside : last_byte size o.pos ≡ o.pos = ground arith in
      let ended : snprintf buf size strings args fmt m
          ≡ terminated buf size strings args
              (format_loop buf size strings args fmt 0 (record { memory = m; pos = 0 })) =
        rw some_bytes refl in
      ended
      ∙ ap (terminated buf size strings args) e
      ∙ ap (λ i. record o { memory = put_byte o.memory (buf + i) 0 }) inside

  chars_kept :
      (o : Output)
      → load_bytes (put_byte o.memory (buf + o.pos) 0) buf o.pos ≡ load_bytes o.memory buf o.pos
  chars_kept o =
      load_bytes_cong (put_byte o.memory (buf + o.pos) 0) o.memory buf o.pos
        (λ x p q. let away : (x == buf + o.pos) ≡ false = ground arith in rw away refl)

  -- snprintf of "%u" into a buffer of more than 20 bytes writes a text whose value is the argument, a 64-bit
  -- word, from the start of the buffer to the position where it ends. The buffer is shorter than 2 ^ 62.
  pub snprintf_uint :
      (strings : ℕ → List ℕ) (args m : ℕ → ℕ)
      → 20 < size
      → args 0 < 2 ^ 64
      → number_of 10 0 (
          load_bytes
            (snprintf buf size strings args (37 ∷ 117 ∷ []) m).memory
            buf
            (snprintf buf size strings args (37 ∷ 117 ∷ []) m).pos)
        ≡ args 0
  snprintf_uint strings args m z a =
      let s = uint_chars (args 0) 10 in
      let short : length s ≤ 20 = length-uint_chars (args 0) 10 in
      let o0 : Output = record { memory = m; pos = 0 } in
      let o = write_chars buf size o0 s in
      let start : buf + 0 ≡ buf = omega arith in
      let bound : args 0 < 10 ^ 20 = omega arith in
      let at : o.pos ≡ length s = write_chars_pos s o0 (omega arith) ∙ omega arith in
      let done =
        snprintf_done strings args m (37 ∷ 117 ∷ []) o (format_uint strings args o0 (omega arith))
          (omega arith) in
      ap (λ r. number_of 10 0 (load_bytes r.memory buf r.pos)) done
      ∙ ap (number_of 10 0) (chars_kept o)
      ∙ ap₂ (λ b n. number_of 10 0 (load_bytes o.memory b n)) (sym start) at
      ∙ ap (number_of 10 0) (load_bytes-write_chars s o0 (omega arith))
      ∙ number_of-uint_chars 10 (omega arith) (omega arith) (args 0) bound
