-- ===== src/Sched/Pids.antt =====
-- The process numbers of kernel/sched.c: the bitmap with its cursor, and the table of tasks.
use Prim.Native.Nat.{bit_and, bit_or}
use native.Mathlib.Decide.{ℕ_discrete}
use native.Mathlib.Nat.{pow-suc, div-div-eq-div-mul}
use aurora_os_live.Base.{
  ℕ, zero, suc, ◌+◌, ◌-◌, ◌/◌, ◌%◌, ◌^◌, ◌≤◌, ◌<◌, ◌≡◌, ◌≢◌, refl, sym, ap, ◌∙◌, inl, inr, true,
  false, Bool-cases, ltb, leb, ◌==◌, ==_iff, ne→==, if◌then◌else◌, arith,
}
use aurora_os_live.Base.Int.{ℤ, pos, negsuc, minus_one}
use aurora_os_live.Base.Bits.{
  bit_test, bit_test-le, bit_test-bit_or, bit_test-pow, bit_and-pow, bit_not,
}
use aurora_os_live.Vfs.{set_at}
use aurora_os_live.Sched.{max_pid}

-- `pid_bitmap`, by its words, `next_pid` and `pid_table`.
pub record Pids : Type 0 where
  pub pid_bitmap : ℕ → ℕ
  pub next_pid : ℕ
  pub pid_table : ℕ → ℕ

abbrev pub pid_set_bit : ℕ → Pids → Pids
pid_set_bit pid s = record s {
  pid_bitmap = set_at s.pid_bitmap (pid / 64) (bit_or (s.pid_bitmap (pid / 64)) (2 ^ (pid % 64)));
}

abbrev pub pid_clear_bit : ℕ → Pids → Pids
pid_clear_bit pid s = record s {
  pid_bitmap =
      set_at s.pid_bitmap (pid / 64)
        (bit_and (s.pid_bitmap (pid / 64)) (bit_not 64 (2 ^ (pid % 64))));
}

abbrev pub pid_test_bit : ℕ → Pids → ℕ
pid_test_bit pid s = bit_and (s.pid_bitmap (pid / 64) / 2 ^ (pid % 64)) 1

abbrev pub advance : Pids → Pids
advance s = record s { next_pid = if leb max_pid (s.next_pid + 1) then 2 else s.next_pid + 1 }

-- The loop of `alloc_pid`, with the attempts that are left.
unfoldable pub scan : ℕ → Pids → Pids × ℤ
scan zero s = (s, minus_one)
scan (suc n) s = elim (pid_test_bit s.next_pid s == 0) [
  | true ↦ (pid_set_bit s.next_pid (advance s), pos s.next_pid)
  | false ↦ scan n (advance s)
]

unfoldable pub alloc_pid : Pids → Pids × ℤ
alloc_pid s = scan max_pid (pid_set_bit 1 (pid_set_bit 0 s))

unfoldable pub free_pid : ℤ → Pids → Pids
free_pid (negsuc n) s = s
free_pid (pos pid) s =
    if ltb pid 2
    then s
    else if ltb pid max_pid
    then record (pid_clear_bit pid s) { pid_table = set_at s.pid_table pid 0 }
    else s

unfoldable pub pid_register : ℤ → ℕ → Pids → Pids
pid_register (negsuc n) t s = s
pid_register (pos pid) t s =
    if ltb pid max_pid then record s { pid_table = set_at s.pid_table pid t } else s

-- Whether a number is in use.
pub used : ℕ → Pids → ℕ
used pid s = bit_test (s.pid_bitmap (pid / 64)) (pid % 64)

bit_test-div : (i x : ℕ) → bit_test x i ≡ x / 2 ^ i % 2
unfolding bit_test
bit_test-div zero x = let e : x / 2 ^ 0 ≡ x = omega arith in ap (λ y. y % 2) (sym e)
bit_test-div (suc i) x =
    let e : x / 2 / 2 ^ i ≡ x / 2 ^ suc i =
      div-div-eq-div-mul x 2 (2 ^ i) ∙ ap (λ y. x / y) (omega (arith, pow-suc 2 i)) in
    bit_test-div i (x / 2) ∙ ap (λ y. y % 2) e

pid_test_bit-used : (pid : ℕ) (s : Pids) → pid_test_bit pid s ≡ used pid s
unfolding used bit_test
pid_test_bit-used pid s =
    let w = s.pid_bitmap (pid / 64) in
    omega (arith, bit_and-pow (w / 2 ^ (pid % 64)) 0, bit_test-div (pid % 64) w)

-- A bit that is set, and all others.
used-pid_set_bit :
    (p : ℕ) (s : Pids) (q : ℕ) → used q (pid_set_bit p s) ≡ (if p == q then 1 else used q s)
unfolding used
used-pid_set_bit p s q =
    let w = s.pid_bitmap (p / 64) in
    elim (ℕ_discrete (p / 64) (q / 64)) [
      | no n ↦
          let d : p ≢ q = λ e. n (ap (λ x. x / 64) e) in
          rw (ne→== (p / 64) (q / 64) n, ne→== p q d) refl
      | yes e ↦
          let same : w ≡ s.pid_bitmap (q / 64) = ap s.pid_bitmap e in
          ground (
            arith,
            bit_test-bit_or w (2 ^ (p % 64)) (q % 64),
            bit_test-pow (p % 64) (q % 64),
            bit_test-le w (q % 64),
            ap (λ x. bit_test x (q % 64)) same,
          )
    ]

-- Where the loop ends, from a cursor in range: at the first number that is not in use, or with all
-- numbers in use that it has passed.
abbrev pub InRange : ℕ → Type 0
InRange p = (2 ≤ p) × (p < max_pid)

-- How far a number is from the cursor.
abbrev pub ahead : ℕ → ℕ → ℕ
ahead c q = if leb c q then q - c else q + (max_pid - 2) - c

abbrev pub Scanned : ℕ → Pids → Pids × ℤ → Type 0
Scanned n s (t, negsuc k) = (k ≡ 0) × ((q : ℕ) → InRange q → ahead s.next_pid q < n → used q s ≡ 1)
Scanned n s (t, pos p) =
    InRange p
    × (used p s ≡ 0)
    × InRange t.next_pid
    × ((q : ℕ) → used q t ≡ (if p == q then 1 else used q s))

advance-InRange : (s : Pids) → InRange s.next_pid → InRange (advance s).next_pid
advance-InRange s r = ground arith

-- A number in use is passed by.
passed :
    (n : ℕ) (s : Pids) (out : Pids × ℤ)
    → InRange s.next_pid
    → used s.next_pid s ≡ 1
    → Scanned n (advance s) out
    → Scanned (suc n) s out
unfolding used
passed n s (t, pos p) r u h = h
passed n s (t, negsuc k) r u (z, h) = (
  z,
  λ q i l. elim (ℕ_discrete s.next_pid q) [
    | yes e ↦ ap (λ x. used x s) (sym e) ∙ u
    | no d ↦ h q i (closer q i d l)
  ],
)
  where
    closer :
        (q : ℕ)
        → InRange q
        → s.next_pid ≢ q
        → ahead s.next_pid q < suc n
        → ahead (advance s).next_pid q < n
    closer q i d l = ground arith

scan_lem : (n : ℕ) (s : Pids) → InRange s.next_pid → Scanned n s (scan n s)
unfolding scan used
scan_lem zero s r = (refl, λ q i h. absurd (omega arith))
scan_lem (suc n) s r = elim (Bool-cases (pid_test_bit s.next_pid s == 0)) [
  | inl e ↦
      rw (scan, e)
        (
          r,
          sym (pid_test_bit-used s.next_pid s) ∙ (==_iff (pid_test_bit s.next_pid s) 0).0 e,
          advance-InRange s r,
          λ q. used-pid_set_bit s.next_pid (advance s) q,
        )
  | inr e ↦
      let le : used s.next_pid s ≤ 1 =
        bit_test-le (s.pid_bitmap (s.next_pid / 64)) (s.next_pid % 64) in
      let u : used s.next_pid s ≡ 1 = ground (arith, pid_test_bit-used s.next_pid s) in
      rw (scan, e)
        (passed n s (scan n (advance s)) r u (scan_lem n (advance s) (advance-InRange s r)))
]

-- What `alloc_pid` returns: a free number, now in use, or -1 where there is none.
abbrev pub Took : Pids → Pids × ℤ → Type 0
Took s (t, negsuc k) = (k ≡ 0) × ((q : ℕ) → InRange q → used q s ≡ 1)
Took s (t, pos p) =
    InRange p
    × (used p s ≡ 0)
    × InRange t.next_pid
    × ((q : ℕ) → InRange q → used q t ≡ (if p == q then 1 else used q s))

Took-reserved :
    (s : Pids) (out : Pids × ℤ)
    → InRange s.next_pid
    → Scanned max_pid (pid_set_bit 1 (pid_set_bit 0 s)) out
    → Took s out
Took-reserved s (t, pos p) r (i, u, i', h) =
    (i, sym (reserved p i) ∙ u, i', λ q j. h q ∙ ap (λ x. if p == q then 1 else x) (reserved q j))
  where
    reserved : (q : ℕ) → InRange q → used q (pid_set_bit 1 (pid_set_bit 0 s)) ≡ used q s
    reserved q j = ground (arith, used-pid_set_bit 1 (pid_set_bit 0 s) q, used-pid_set_bit 0 s q)
Took-reserved s (t, negsuc k) r (z, h) = (z, λ q j. sym (reserved q j) ∙ h q j (ground arith))
  where
    reserved : (q : ℕ) → InRange q → used q (pid_set_bit 1 (pid_set_bit 0 s)) ≡ used q s
    reserved q j = ground (arith, used-pid_set_bit 1 (pid_set_bit 0 s) q, used-pid_set_bit 0 s q)

-- From a cursor in 2..8191, alloc_pid returns a number of that range that was not in use, marks it and
-- no other of the range, and leaves the cursor in the range; or it returns -1, and all numbers of the
-- range are in use.
pub alloc_pid-Took : (s : Pids) → InRange s.next_pid → Took s (alloc_pid s)
unfolding alloc_pid
alloc_pid-Took s r =
    Took-reserved s (alloc_pid s) r (scan_lem max_pid (pid_set_bit 1 (pid_set_bit 0 s)) r)
