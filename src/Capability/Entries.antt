-- ===== src/Capability/Entries.antt =====
-- What the entries in all tables grant (kernel/capability.c), and what writing a slot or a fresh entry
-- does to it.
use aurora_os_live.Base.{
  ℕ, zero, suc, ◌^◌, ◌<◌, ◌≡◌, ◌≢◌, refl, ap, ◌∙◌, ◌⊎◌, inl, inr, List, [], ◌∷◌, ◌==◌, Bool-cases,
  ==_iff, get_or, set, arith,
}
use aurora_os_live.Fd.{slot, unused}
use aurora_os_live.Capability.{Kernel, Entry, cap_entry_magic, put_word, fill}
use aurora_os_live.Capability.Rights.{Narrows}

-- What a word of a table may grant, where it is no raw `struct file` pointer.
abbrev pub Below : (ℕ → ℕ) → (ℕ → Entry) → ℕ → Type 0
Below bound entries w =
    w ≢ unused
    → (entries w).magic ≡ cap_entry_magic
    → Narrows (entries w).caps (bound (entries w).file)

-- Every entry in every table grants at most what `bound` allows on its file; rights are 32-bit words.
pub record IsConfined (bound : ℕ → ℕ) (s : Kernel) : Type 0 where
  pub below : (t i : ℕ) → Below bound s.entries (slot (s.tables t) i)
  pub words : (p : ℕ) → (s.entries p).caps < 2 ^ 32

-- A block that no table points at, as `kmalloc` returns it.
abbrev pub IsFresh : ℕ → Kernel → Type 0
IsFresh p s = (t i : ℕ) → slot (s.tables t) i ≢ p

get_or-set-cases :
    (xs : List ℕ) (i j v d : ℕ)
    → (get_or (set xs i v) j d ≡ v) ⊎ (get_or (set xs i v) j d ≡ get_or xs j d)
get_or-set-cases [] i j v d = inr refl
get_or-set-cases (x ∷ xs) zero zero v d = inl refl
get_or-set-cases (x ∷ xs) zero (suc j) v d = inr refl
get_or-set-cases (x ∷ xs) (suc i) zero v d = inr refl
get_or-set-cases (x ∷ xs) (suc i) (suc j) v d = get_or-set-cases xs i j v d

pub slot-put_word :
    (s : Kernel) (t i w u j : ℕ)
    → (slot ((put_word s t i w).tables u) j ≡ w)
      ⊎ (slot ((put_word s t i w).tables u) j ≡ slot (s.tables u) j)
slot-put_word s t i w u j = elim (Bool-cases (t == u)) [
  | inl e ↦
      let k : t ≡ u = (==_iff t u).0 e in
      elim (get_or-set-cases (s.tables t) i j w unused) [
        | inl z ↦ inl (rw e z)
        | inr z ↦ inr (rw e (z ∙ ap (λ v. slot (s.tables v) j) k))
      ]
  | inr e ↦ inr (rw e refl)
]

pub Below-of_eq :
    (bound : ℕ → ℕ) (entries : ℕ → Entry) (w w' : ℕ)
    → w' ≡ w
    → Below bound entries w
    → Below bound entries w'
Below-of_eq bound entries w w' e b = rw e b

module _ {bound : ℕ → ℕ} {s : Kernel} where
  pub put_word-IsConfined :
      (t i w : ℕ)
      → IsConfined bound s
      → Below bound s.entries w
      → IsConfined bound (put_word s t i w)
  put_word-IsConfined t i w c b = record {
    below = λ u j. elim (slot-put_word s t i w u j) [
      | inl e ↦ Below-of_eq bound s.entries _ _ e b
      | inr e ↦ Below-of_eq bound s.entries _ _ e (c.below u j)
    ];
    words = c.words;
  }

  pub fill-IsConfined :
      (p filp caps : ℕ)
      → IsConfined bound s
      → IsFresh p s
      → caps < 2 ^ 32
      → IsConfined bound (fill p filp caps s)
  fill-IsConfined p filp caps c f h = record {
    below = λ u j. ground (arith, c.below u j, f u j);
    words = λ q. ground (arith, c.words q);
  }
