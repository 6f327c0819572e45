-- ===== src/Base/Tests.antt =====
-- Boolean tests on the native numbers, the conditional, and case lemmas.
use Prim.Native.Nat.{ℕ, compare, Ordering}
use mathlib.Core.Path.{◌≡◌, refl, subst}
use mathlib.Core.Logic.{◌≢◌, ◌↔◌, ◌⊎◌, inl, inr}
use mathlib.Core.Bool.{Bool, true, false}
use mathlib.Core.Option.{Option, none, some}
use native.Mathlib.Omega.{arith}

abbrev pub ltb : ℕ → ℕ → Bool
ltb a b = elim (compare a b) [ Ordering.lt ↦ true | _ ↦ false ]

abbrev pub leb : ℕ → ℕ → Bool
leb a b = elim (compare a b) [ Ordering.gt ↦ false | _ ↦ true ]

infix 50 ◌==◌
abbrev pub ◌==◌ : ℕ → ℕ → Bool
a == b = elim (compare a b) [ Ordering.eq ↦ true | _ ↦ false ]

infix 1 if◌then◌else◌
abbrev pub if◌then◌else◌ {ℓ} : {A : Type ℓ} → Bool → A → A → A
if true then x else y = x
if false then x else y = y

pub ==_iff : (a b : ℕ) → ((a == b) ≡ true) ↔ (a ≡ b)
==_iff a b = ground arith

pub ==_refl : (a : ℕ) → (a == a) ≡ true
==_refl a = ground arith

pub eq→== : (a b : ℕ) → a ≡ b → (a == b) ≡ true
eq→== a b h = ground arith

pub ne→== : (a b : ℕ) → a ≢ b → (a == b) ≡ false
ne→== a b h = ground arith

pub Bool-cases : (b : Bool) → (b ≡ true) ⊎ (b ≡ false)
Bool-cases true = inl refl
Bool-cases false = inr refl

pub Option-cases {ℓ} : {A : Type ℓ} (o : Option A) → (o ≡ none) ⊎ ((a : A) × (o ≡ some a))
Option-cases none = inl refl
Option-cases (some a) = inr (a, refl)

-- Total correctness: the computation returns, and what it returns satisfies `P`.
abbrev pub Ensures {ℓ} : {A : Type ℓ} → Option A → (A → Type 0) → Type 0
Ensures none P = ⊥
Ensures (some a) P = P a

infixl 5 ◌>>=◌
abbrev pub ◌>>=◌ {ℓ κ} : {A : Type ℓ} {B : Type κ} → Option A → (A → Option B) → Option B
none >>= f = none
some a >>= f = f a

pub Ensures->>= {ℓ κ} :
    {A : Type ℓ} {B : Type κ} (m : Option A) (f : A → Option B) (P : A → Type 0) (Q : B → Type 0)
    → Ensures m P
    → ((a : A) → P a → Ensures (f a) Q)
    → Ensures (m >>= f) Q
Ensures->>= none f P Q h k = absurd h
Ensures->>= (some a) f P Q h k = k a h

pub Ensures_mono {ℓ} :
    {A : Type ℓ} (m : Option A) (P Q : A → Type 0)
    → Ensures m P
    → ((a : A) → P a → Q a)
    → Ensures m Q
Ensures_mono none P Q h k = h
Ensures_mono (some a) P Q h k = k a h

-- Partial correctness: what the computation returns satisfies `P`, if it returns.
abbrev pub IfReturns {ℓ} : {A : Type ℓ} → Option A → (A → Type 0) → Type 0
IfReturns none P = Unit {0}
IfReturns (some a) P = P a

pub IfReturns->>= {ℓ κ} :
    {A : Type ℓ} {B : Type κ} (m : Option A) (f : A → Option B) (P : A → Type 0) (Q : B → Type 0)
    → IfReturns m P
    → ((a : A) → P a → IfReturns (f a) Q)
    → IfReturns (m >>= f) Q
IfReturns->>= none f P Q h k = tt
IfReturns->>= (some a) f P Q h k = k a h

pub IfReturns_some {ℓ} :
    {A : Type ℓ} (m : Option A) (P : A → Type 0) (a : A) → IfReturns m P → m ≡ some a → P a
IfReturns_some m P a h e = subst (λ x. IfReturns x P) e h

pub IfReturns_trivial {ℓ} : {A : Type ℓ} (m : Option A) → IfReturns m (λ a. Unit {0})
IfReturns_trivial none = tt
IfReturns_trivial (some a) = tt
