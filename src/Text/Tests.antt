-- ===== src/Text/Tests.antt =====
-- snprintf and memcpy (kernel/string.c) on small buffers.
use aurora_os_live.Base.{
  ℕ, ◌-◌, ◌+◌, ◌%◌, ◌^◌, ◌≤◌, ◌<◌, ◌≡◌, ◌⊎◌, inr, refl, List, [], ◌∷◌, length, take, ltb, ◌==◌,
  if◌then◌else◌, arith,
}
use aurora_os_live.User.{load_bytes, store_bytes}
use aurora_os_live.Text.{
  last_byte, snprintf, memcpy, memset, format_loop, write_chars, directive, string_at,
  sn_write_char, uint_chars, digits, set_bytes, set_words,
}
use aurora_os_live.Text.Bounds.{snprintf_bounded}
use aurora_os_live.Text.Expand.{snprintf_writes}
use aurora_os_live.Text.Format.{expand}
use aurora_os_live.Text.Digits.{number_of, snprintf_uint}
use aurora_os_live.Text.Copy.{memcpy_copies}

-- Every byte is its address.
abbrev addresses : ℕ → ℕ
addresses x = x % 256

-- "pid", and the arguments 5 (a pointer to it) and 4095.
abbrev pid_text : ℕ → List ℕ
pid_text p = if p == 5 then 112 ∷ 105 ∷ 100 ∷ [] else []

abbrev two_arguments : ℕ → ℕ
two_arguments k = if k == 0 then 5 else 4095

-- "%s=%x".
abbrev named_hex : List ℕ
named_hex = 37 ∷ 115 ∷ 61 ∷ 37 ∷ 120 ∷ []

named_hex_text :
    load_bytes (snprintf 1000 16 pid_text two_arguments named_hex addresses).memory 1000 8
    ≡ 112 ∷ 105 ∷ 100 ∷ 61 ∷ 102 ∷ 102 ∷ 102 ∷ 0 ∷ []
unfolding snprintf load_bytes format_loop write_chars directive string_at sn_write_char uint_chars
    digits
named_hex_text = refl

-- A buffer of 6 bytes cuts the text.
named_hex_cut :
    load_bytes (snprintf 1000 6 pid_text two_arguments named_hex addresses).memory 1000 6
    ≡ 112 ∷ 105 ∷ 100 ∷ 61 ∷ 102 ∷ 0 ∷ []
unfolding snprintf load_bytes format_loop write_chars directive string_at sn_write_char uint_chars
    digits
named_hex_cut = refl

pid_text_short : (p : ℕ) → length (pid_text p) < 2 ^ 62
pid_text_short p = ground arith

snprintf_bounded_example :
    ((x : ℕ)
      → (x < 1000) ⊎ (1000 + 6 ≤ x)
      → (snprintf 1000 6 pid_text two_arguments named_hex addresses).memory x ≡ addresses x)
    × (last_byte 6 (snprintf 1000 6 pid_text two_arguments named_hex addresses).pos < 6)
    × ((snprintf 1000 6 pid_text two_arguments named_hex addresses).memory
          (1000 + last_byte 6 (snprintf 1000 6 pid_text two_arguments named_hex addresses).pos)
        ≡ 0)
snprintf_bounded_example =
    snprintf_bounded 1000 6 (omega arith) pid_text two_arguments pid_text_short named_hex addresses
      (omega arith)

snprintf_writes_example :
    let r = snprintf 1000 6 pid_text two_arguments named_hex addresses in
    let t = expand pid_text two_arguments named_hex 0 in
    (last_byte 6 r.pos ≡ last_byte 6 (length t))
    × (ltb r.pos 6 ≡ ltb (length t) 6)
    × (load_bytes r.memory 1000 (last_byte 6 (length t)) ≡ take (6 - 1) t)
snprintf_writes_example =
    snprintf_writes 1000 6 (omega arith) (omega arith) pid_text two_arguments pid_text_short
      named_hex addresses

snprintf_uint_example :
    number_of 10 0 (
      load_bytes
        (snprintf 1000 32 pid_text (λ k. 4096) (37 ∷ 117 ∷ []) addresses).memory
        1000
        (snprintf 1000 32 pid_text (λ k. 4096) (37 ∷ 117 ∷ []) addresses).pos)
    ≡ 4096
snprintf_uint_example =
    snprintf_uint 1000 32 (omega arith) pid_text (λ k. 4096) addresses (omega arith) (omega arith)

memcpy_copies_example :
    ((i : ℕ) → i < 13 → memcpy 64 16 13 addresses (64 + i) ≡ addresses (16 + i))
    × ((x : ℕ) → (x < 64) ⊎ (64 + 13 ≤ x) → memcpy 64 16 13 addresses x ≡ addresses x)
memcpy_copies_example = memcpy_copies 64 16 13 addresses (inr (omega arith))

memset_bytes :
    load_bytes (memset 16 511 9 addresses) 15 11
    ≡ 15 ∷ 255 ∷ 255 ∷ 255 ∷ 255 ∷ 255 ∷ 255 ∷ 255 ∷ 255 ∷ 255 ∷ 25 ∷ []
unfolding memset load_bytes set_bytes set_words store_bytes
memset_bytes = refl
