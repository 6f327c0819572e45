-- ===== src/Text/Expand.antt =====
-- The buffer of snprintf (kernel/string.c) and the text of its format.
use aurora_os_live.Base.{
  inl, inr, ℕ, zero, suc, ◌+◌, ◌-◌, ◌%◌, ◌^◌, ◌≤◌, ◌<◌, ◌≡◌, refl, ap, ap₂, sym, ◌∙◌, false, List,
  [], ◌∷◌, ◌++◌, length, length-append, take, take_all, take-append, ltb, ◌==◌, ==_refl,
  if◌then◌else◌, Bool-cases, arith,
}
use mathlib.Core.Path.{subst}
use mathlib.Core.List.{append-nil, append_assoc}
use aurora_os_live.User.{load_bytes}
use aurora_os_live.User.Words.{load_bytes_cong}
use aurora_os_live.Text.{
  Output, put_byte, sn_write_char, write_chars, directive, takes_argument, format_loop, terminated,
  last_byte, snprintf,
}
use aurora_os_live.Text.Format.{expand, directive-rendered, takes_argument-arguments}
use aurora_os_live.Text.Bounds.{length-directive}

load_bytes_snoc :
    (m : ℕ → ℕ) (a n : ℕ) → load_bytes m a (suc n) ≡ load_bytes m a n ++ m (a + n) ∷ []
unfolding load_bytes
load_bytes_snoc m a zero = let e : a ≡ a + 0 = omega arith in ap (λ x. m x ∷ []) e
load_bytes_snoc m a (suc n) =
    let e : a + 1 + n ≡ a + suc n = omega arith in
    ap (λ r. m a ∷ r) (load_bytes_snoc m (a + 1) n ∙ ap (λ x. load_bytes m (a + 1) n ++ m x ∷ []) e)

module _ (buf size : ℕ) (some : 0 < size) (small : size < 2 ^ 62) where
  -- The buffer holds the start of `s`, and the position is the length of `s`.
  abbrev Holds : Output → List ℕ → Type 0
  Holds o s =
      (o.pos ≡ length s) × (load_bytes o.memory buf (last_byte size (length s)) ≡ take (size - 1) s)

  -- The buffer holds the start of `t`, and the position is at its end or, as the end of `t`, beyond the buffer.
  abbrev Cut : Output → List ℕ → Type 0
  Cut o t =
      (last_byte size o.pos ≡ last_byte size (length t))
      × (ltb o.pos size ≡ ltb (length t) size)
      × (load_bytes o.memory buf (last_byte size (length t)) ≡ take (size - 1) t)

  Holds-Cut : (o : Output) (s : List ℕ) → Holds o s → Cut o s
  Holds-Cut o s h = (ap (last_byte size) h.0, ap (λ n. ltb n size) h.0, h.1)

  Holds-Cut_append :
      (o : Output) (s rest : List ℕ) → Holds o s → ltb o.pos size ≡ false → Cut o (s ++ rest)
  Holds-Cut_append o s rest h f =
      let long : size ≤ length s = ground (arith, h.0, f) in
      let longer : size ≤ length (s ++ rest) = omega (arith, length-append s rest) in
      let e1 : last_byte size o.pos ≡ size - 1 = ground (arith, f) in
      let e2 : last_byte size (length (s ++ rest)) ≡ size - 1 = ground arith in
      let e3 : last_byte size (length s) ≡ size - 1 = ground arith in
      let e4 : ltb (length (s ++ rest)) size ≡ false = ground arith in
      (
        e1 ∙ sym e2,
        f ∙ sym e4,
        ap (load_bytes o.memory buf) (e2 ∙ sym e3)
            ∙ h.1
            ∙ sym (take-append (size - 1) s rest (omega arith)),
      )

  sn_write_char-Holds :
      (o : Output) (s : List ℕ) (c : ℕ)
      → Holds o s
      → o.pos + 1 < 2 ^ 64
      → Holds (sn_write_char buf size o c) (s ++ c ∷ [])
  unfolding sn_write_char
  sn_write_char-Holds o s c h b =
      let next : (o.pos + 1) % 2 ^ 64 ≡ o.pos + 1 = omega arith in
      let n : length (s ++ c ∷ []) ≡ length s + 1 = length-append s (c ∷ []) in
      let at : (o.pos + 1) % 2 ^ 64 ≡ length (s ++ c ∷ []) = omega (arith, h.0, n) in
      elim (Bool-cases (ltb ((o.pos + 1) % 2 ^ 64) size)) [
        | inl fits ↦
            let room : length s + 1 < size = ground (arith, fits, h.0) in
            let e1 : last_byte size (length s) ≡ length s = ground arith in
            let e2 : last_byte size (length (s ++ c ∷ [])) ≡ suc (length s) = ground (arith, n) in
            let m1 : ℕ → ℕ = put_byte o.memory (buf + o.pos) c in
            let kept : load_bytes m1 buf (length s) ≡ load_bytes o.memory buf (length s) =
              load_bytes_cong m1 o.memory buf (length s) (λ x p q.
                let away : (x == buf + o.pos) ≡ false = ground (arith, h.0) in rw away refl) in
            let last : m1 (buf + length s) ≡ c =
              ap (λ k. m1 (buf + k)) (sym h.0) ∙ rw (==_refl (buf + o.pos)) refl in
            let all : load_bytes o.memory buf (length s) ≡ s =
              ap (load_bytes o.memory buf) (sym e1) ∙ h.1 ∙ take_all (size - 1) s (omega arith) in
            (
              at,
              rw fits (
                  ap (load_bytes m1 buf) e2
                  ∙ load_bytes_snoc m1 buf (length s)
                  ∙ ap₂ (λ r x. r ++ x ∷ []) (kept ∙ all) last
                  ∙ sym (take_all (size - 1) (s ++ c ∷ []) (omega (arith, n)))),
            )
        | inr full ↦
            let long : size ≤ length s + 1 = ground (arith, full, h.0) in
            let e1 : last_byte size (length s) ≡ size - 1 = ground arith in
            let e2 : last_byte size (length (s ++ c ∷ [])) ≡ size - 1 = ground (arith, n) in
            (
              at,
              rw full (
                  ap (load_bytes o.memory buf) (e2 ∙ sym e1)
                  ∙ h.1
                  ∙ sym (take-append (size - 1) s (c ∷ []) (omega arith))),
            )
      ]

  write_chars-Holds :
      (w : List ℕ) (o : Output) (s : List ℕ)
      → Holds o s
      → o.pos + length w < 2 ^ 64
      → Holds (write_chars buf size o w) (s ++ w)
  unfolding write_chars sn_write_char
  write_chars-Holds [] o s h b = subst (Holds o) (sym (append-nil s)) h
  write_chars-Holds (c ∷ w) o s h b =
      subst (Holds (write_chars buf size (sn_write_char buf size o c) w))
        (append_assoc s (c ∷ []) w)
        (write_chars-Holds w (sn_write_char buf size o c) (s ++ c ∷ [])
          (sn_write_char-Holds o s c h (omega arith)) (omega arith))

  module _ (strings : ℕ → List ℕ) (args : ℕ → ℕ)
      (short : (p : ℕ) → length (strings p) < 2 ^ 62) where
    format_loop-Cut :
        (fmt : List ℕ) (k : ℕ) (o : Output) (s : List ℕ)
        → Holds o s
        → Cut (format_loop buf size strings args fmt k o) (s ++ expand strings args fmt k)
    unfolding format_loop expand
    format_loop-Cut [] k o s h = subst (Cut o) (sym (append-nil s)) (Holds-Cut o s h)
    format_loop-Cut (c ∷ []) k o s h = elim (Bool-cases (ltb o.pos size)) [
      | inl low ↦
          let o1 = sn_write_char buf size o c in
          rw low (Holds-Cut o1 (s ++ c ∷ []) (sn_write_char-Holds o s c h (ground (arith, low))))
      | inr full ↦ rw full (Holds-Cut_append o s (c ∷ []) h full)
    ]
    format_loop-Cut (c ∷ d ∷ fmt) k o s h = elim (Bool-cases (ltb o.pos size)) [
      | inr full ↦
          rw (format_loop, full) (Holds-Cut_append o s (expand strings args (c ∷ d ∷ fmt) k) h full)
      | inl low ↦
          let below : o.pos < size = ground (arith, low) in
          let w = directive strings d (args k) in
          let bound : length w < 2 ^ 63 =
            omega (arith, length-directive strings d (args k), short (args k)) in
          elim (Bool-cases (c == 37)) [
            | inl p ↦
                let k' = if takes_argument d then k + 1 else k in
                let o' = write_chars buf size o w in
                rw (format_loop, expand, low, p)
                  (subst (Cut (format_loop buf size strings args fmt k' o'))
                    (append_assoc s w (expand strings args fmt k')
                      ∙ ap₂ (λ x i. s ++ (x ++ expand strings args fmt i))
                          (directive-rendered strings d (args k)) (takes_argument-arguments d k))
                    (format_loop-Cut fmt k' o' (s ++ w) (write_chars-Holds w o s h (omega arith))))
            | inr q ↦
                let o' = sn_write_char buf size o c in
                rw (format_loop, expand, low, q)
                  (subst (Cut (format_loop buf size strings args (d ∷ fmt) k o'))
                    (append_assoc s (c ∷ []) (expand strings args (d ∷ fmt) k))
                    (format_loop-Cut (d ∷ fmt) k o' (s ++ c ∷ [])
                      (sn_write_char-Holds o s c h (omega arith))))
          ]
    ]

    terminated-Cut :
        (o : Output) (t : List ℕ) → Cut o t → Cut (terminated buf size strings args o) t
    terminated-Cut o t h = (
      h.0,
      h.1,
      load_bytes_cong (put_byte o.memory (buf + last_byte size o.pos) 0) o.memory buf
            (last_byte size (length t))
            (λ x p q.
              let away : (x == buf + last_byte size o.pos) ≡ false = ground (arith, h.0) in
              rw away refl)
          ∙ h.2,
    )

    -- snprintf into a buffer of at least one byte leaves in it the text that the format stands for, cut to one
    -- byte less than the buffer, and ends at the length of the text where that is less than the size of
    -- the buffer, and at the size or beyond where the text is cut. The buffer and the strings are shorter
    -- than 2 ^ 62 bytes.
    pub snprintf_writes :
        (fmt : List ℕ) (m : ℕ → ℕ)
        → let r = snprintf buf size strings args fmt m in
          let t = expand strings args fmt 0 in
          (last_byte size r.pos ≡ last_byte size (length t))
          × (ltb r.pos size ≡ ltb (length t) size)
          × (load_bytes r.memory buf (last_byte size (length t)) ≡ take (size - 1) t)
    unfolding snprintf load_bytes
    snprintf_writes fmt m =
        let some_bytes : (size == 0) ≡ false = ground arith in
        let o0 : Output = record { memory = m; pos = 0 } in
        let o = format_loop buf size strings args fmt 0 o0 in
        let t = expand strings args fmt 0 in
        let empty : last_byte size (length {A = ℕ} []) ≡ 0 = ground arith in
        let begun : Holds o0 [] =
          (refl, ap (load_bytes m buf) empty ∙ sym (take_all (size - 1) [] (omega arith))) in
        let done : snprintf buf size strings args fmt m ≡ terminated buf size strings args o =
          rw some_bytes refl in
        subst (λ r. Cut r t) (sym done) (terminated-Cut o t (format_loop-Cut fmt 0 o0 [] begun))
