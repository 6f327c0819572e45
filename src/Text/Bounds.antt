-- ===== src/Text/Bounds.antt =====
-- Which bytes snprintf (kernel/string.c) writes.
use aurora_os_live.Base.{
  ℕ, zero, suc, ◌+◌, ◌-◌, ◌/◌, ◌%◌, ◌^◌, ◌≤◌, ◌<◌, ◌≡◌, ◌≢◌, ◌⊎◌, inl, inr, refl, sym, ◌∙◌, false,
  List, [], ◌∷◌, length, ltb, ◌==◌, ==_refl, if◌then◌else◌, Bool-cases, arith,
}
use mathlib.Core.Path.{subst}
use aurora_os_live.Text.{
  Output, sn_write_char, write_chars, digit_char, digits, uint_chars, string_at, int_chars,
  pointer_chars, directive, takes_argument, format_loop, terminated, last_byte, snprintf,
}

module _ (buf size : ℕ) (small : size < 2 ^ 62) where
  -- An address outside the buffer.
  abbrev pub OffBuffer : ℕ → Type 0
  OffBuffer x = (x < buf) ⊎ (buf + size ≤ x)

  sn_write_char_off :
      (o : Output) (c x : ℕ)
      → OffBuffer x
      → o.pos + 1 < 2 ^ 64
      → (sn_write_char buf size o c).memory x ≡ o.memory x
  unfolding sn_write_char
  sn_write_char_off o c x (inl h) b = ground arith
  sn_write_char_off o c x (inr h) b = ground arith

  pub write_chars_off :
      (s : List ℕ) (o : Output) (x : ℕ)
      → OffBuffer x
      → o.pos + length s < 2 ^ 64
      → (write_chars buf size o s).memory x ≡ o.memory x
  unfolding write_chars sn_write_char
  write_chars_off [] o x h b = refl
  write_chars_off (c ∷ s) o x h b =
      write_chars_off s (sn_write_char buf size o c) x h (omega arith)
      ∙ sn_write_char_off o c x h (omega arith)

length-digits :
    (left base val : ℕ) (tmp : List ℕ) → length (digits left base val tmp) ≤ left + length tmp
unfolding digits
length-digits zero base val tmp = omega arith
length-digits (suc left) base val tmp = elim (Bool-cases (val == 0)) [
  | inl z ↦ rw z (omega arith)
  | inr p ↦
      rw p (omega (arith, length-digits left base (val / base) (digit_char (val % base) ∷ tmp)))
]

pub length-uint_chars : (val base : ℕ) → length (uint_chars val base) ≤ 20
unfolding uint_chars
length-uint_chars val base = ground (arith, length-digits 20 base val [])

length-string_at :
    (strings : ℕ → List ℕ) (a : ℕ) → length (string_at strings a) ≤ 6 + length (strings a)
unfolding string_at
length-string_at strings a = ground arith

length-int_chars : (v : ℕ) → length (int_chars v) ≤ 21
unfolding int_chars
length-int_chars v = ground (arith, length-uint_chars v 10, length-uint_chars (2 ^ 32 - v) 10)

length-pointer_chars : (v : ℕ) → length (pointer_chars v) ≤ 22
unfolding pointer_chars
length-pointer_chars v = ground (arith, length-uint_chars v 16)

-- No directive gives more characters than its string has, and 22.
pub length-directive :
    (strings : ℕ → List ℕ) (d a : ℕ) → length (directive strings d a) ≤ 22 + length (strings a)
unfolding directive
length-directive strings d a = ground (
  arith,
  length-string_at strings a,
  length-int_chars (a % 2 ^ 32),
  length-uint_chars a 10,
  length-uint_chars a 16,
  length-pointer_chars a,
)

module _ (buf size : ℕ) (small : size < 2 ^ 62) (strings : ℕ → List ℕ) (args : ℕ → ℕ)
    (short : (p : ℕ) → length (strings p) < 2 ^ 62) where
  format_loop_off :
      (fmt : List ℕ) (k : ℕ) (o : Output) (x : ℕ)
      → OffBuffer buf size small x
      → (format_loop buf size strings args fmt k o).memory x ≡ o.memory x
  unfolding format_loop
  format_loop_off [] k o x h = refl
  format_loop_off (c ∷ []) k o x h = elim (Bool-cases (ltb o.pos size)) [
    | inl l ↦ rw l (sn_write_char_off buf size small o c x h (ground (arith, l)))
    | inr r ↦ rw r refl
  ]
  format_loop_off (c ∷ d ∷ fmt) k o x h = elim (Bool-cases (ltb o.pos size)) [
    | inr r ↦ rw (format_loop, r) refl
    | inl l ↦
        let low : o.pos < size = ground (arith, l) in
        let text = directive strings d (args k) in
        let bound : length text < 2 ^ 63 =
          omega (arith, length-directive strings d (args k), short (args k)) in
        elim (Bool-cases (c == 37)) [
          | inl p ↦
              rw (format_loop, l, p)
                (format_loop_off fmt (if takes_argument d then k + 1 else k)
                    (write_chars buf size o text) x h
                  ∙ write_chars_off buf size small text o x h (omega arith))
          | inr q ↦
              rw (format_loop, l, q)
                (format_loop_off (d ∷ fmt) k (sn_write_char buf size o c) x h
                  ∙ sn_write_char_off buf size small o c x h (omega arith))
        ]
  ]

  -- snprintf into a buffer of at least one byte writes no byte outside it, and puts a terminator in it: at
  -- the position where it ends, or at the last byte where that is beyond. The buffer and the strings are
  -- shorter than 2 ^ 62 bytes.
  pub snprintf_bounded :
      (fmt : List ℕ) (m : ℕ → ℕ)
      → 0 < size
      → ((x : ℕ)
          → (x < buf) ⊎ (buf + size ≤ x)
          → (snprintf buf size strings args fmt m).memory x ≡ m x)
        × (last_byte size (snprintf buf size strings args fmt m).pos < size)
        × ((snprintf buf size strings args fmt m).memory
              (buf + last_byte size (snprintf buf size strings args fmt m).pos)
            ≡ 0)
  unfolding snprintf
  snprintf_bounded fmt m z =
      let some_bytes : (size == 0) ≡ false = ground arith in
      let o = format_loop buf size strings args fmt 0 (record { memory = m; pos = 0 }) in
      let i = last_byte size o.pos in
      let within : i < size = ground arith in
      let done : snprintf buf size strings args fmt m ≡ terminated buf size strings args o =
        rw some_bytes refl in
      let here : (terminated buf size strings args o).memory (buf + i) ≡ 0 =
        rw (==_refl (buf + i)) refl in
      let off : (x : ℕ)
          → OffBuffer buf size small x
          → (terminated buf size strings args o).memory x ≡ m x =
        λ x h.
          off_byte x (buf + i) (o.memory x) (not_there x h i within)
          ∙ format_loop_off fmt 0 (record { memory = m; pos = 0 }) x h in
      subst
        (λ (r : Output).
          ((x : ℕ) → OffBuffer buf size small x → r.memory x ≡ m x)
          × (last_byte size r.pos < size)
          × (r.memory (buf + last_byte size r.pos) ≡ 0))
        (sym done) (off, within, here)
    where
      not_there : (x : ℕ) → OffBuffer buf size small x → (i : ℕ) → i < size → x ≢ buf + i
      not_there x (inl h) i l e = omega arith
      not_there x (inr h) i l e = omega arith

      off_byte : (x a v : ℕ) → x ≢ a → (if x == a then 0 else v) ≡ v
      off_byte x a v h = ground (arith, h)
