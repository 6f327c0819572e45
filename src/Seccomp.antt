-- ===== src/Seccomp.antt =====
-- System call filters, kernel/seccomp.c. A task pointer that may be NULL is an option; the filter
-- pointer of a task is the filter that it leads to, since `seccomp_set_filter` copies what it is
-- given. Both functions run whole under `seccomp_lock`.
pub mod Policy
mod Tests
use aurora_os_live.Base.{ℕ, ◌/◌, ◌%◌, ◌^◌, Option, none, some, leb, ◌==◌, if◌then◌else◌, Bool}
use aurora_os_live.Base.Int.{ℤ, pos, negsuc, minus_one}
use Prim.Native.Nat.{bit_and}

-- `uint64_t syscall_mask[4]`
pub record Filter : Type 0 where
  pub word0 : ℕ
  pub word1 : ℕ
  pub word2 : ℕ
  pub word3 : ℕ

pub record Task : Type 0 where
  pub seccomp : Option Filter

-- `filter->syscall_mask[word_idx]`, for an index below 4.
abbrev pub mask_word : Filter → ℕ → ℕ
mask_word f i =
    if i == 0 then f.word0 else if i == 1 then f.word1 else if i == 2 then f.word2 else f.word3

-- `allocated` is whether `kmalloc` succeeds.
pub seccomp_set_filter : Bool → Option Filter → Option Task → Option Task × ℤ
seccomp_set_filter allocated filter none = (none, minus_one)
seccomp_set_filter allocated none (some t) = (some (record t { seccomp = none }), pos 0)
seccomp_set_filter allocated (some f) (some t) =
    if allocated then (some (record t { seccomp = some f }), pos 0) else (some t, minus_one)

-- The bit test, for a number in range.
pub check_bit : Filter → ℕ → ℤ
check_bit f n = if bit_and (mask_word f (n / 64)) (2 ^ (n % 64)) == 0 then minus_one else pos 0

pub check_filter : Filter → ℤ → ℤ
check_filter f (negsuc n) = minus_one
check_filter f (pos n) = if leb 256 n then minus_one else check_bit f n

pub seccomp_check : Option Task → ℤ → ℤ
unfolding check_filter check_bit
seccomp_check none n = pos 0
seccomp_check (some t) n = elim t.seccomp [ none ↦ pos 0 | some f ↦ check_filter f n ]
