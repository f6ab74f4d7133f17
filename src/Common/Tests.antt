-- ===== src/Common/Tests.antt =====
-- Boolean tests on the native numbers and the conditional.
use Prim.Native.Nat.{ℕ, zero, suc, ◌<◌, compare, Ordering}
use mathlib.Core.Path.{◌≡◌, refl, subst}
use mathlib.Core.Logic.{◌↔◌, ◌⊎◌, inl, inr}
use mathlib.Core.Bool.{Bool, true, false, ◌&&◌, ◌||◌}
use mathlib.Core.Option.{Option, none, some}
use native.Mathlib.Omega.{arith}

abbrev pub ltb : ℕ → ℕ → Bool
ltb a b = elim (compare a b) [ Ordering.lt ↦ true | _ ↦ false ]

abbrev pub leb : ℕ → ℕ → Bool
leb a b = elim (compare a b) [ Ordering.gt ↦ false | _ ↦ true ]

infix 50 ◌==◌
abbrev pub ◌==◌ : ℕ → ℕ → Bool
a == b = elim (compare a b) [ Ordering.eq ↦ true | _ ↦ false ]

infix 1 if◌then◌else◌
abbrev pub if◌then◌else◌ {ℓ} : {A : Type ℓ} → Bool → A → A → A
if true then x else y = x
if false then x else y = y

pub ==_iff : (a b : ℕ) → ((a == b) ≡ true) ↔ (a ≡ b)
==_iff a b = ground arith

pub Bool-cases : (b : Bool) → (b ≡ true) ⊎ (b ≡ false)
Bool-cases true = inl refl
Bool-cases false = inr refl

pub Option-cases {ℓ} : {A : Type ℓ} (o : Option A) → (o ≡ none) ⊎ ((a : A) × (o ≡ some a))
Option-cases none = inl refl
Option-cases (some a) = inr (a, refl)

pub or_false : (b : Bool) → (b || false) ≡ b
or_false true = refl
or_false false = refl

pub or_assoc : (a b c : Bool) → (a || (b || c)) ≡ ((a || b) || c)
or_assoc true b c = refl
or_assoc false b c = refl

-- Whether a test passes at the first numbers, by evaluation.
unfoldable pub passes_first : (ℕ → Bool) → ℕ → Bool
passes_first test zero = true
passes_first test (suc k) = passes_first test k && test k

pub at_first :
    (test : ℕ → Bool) {k : ℕ} → passes_first test k ≡ true → (c : ℕ) → c < k → test c ≡ true
unfolding passes_first
at_first test {k = zero} table c within = absurd (omega arith)
at_first test {k = suc k} table c within = elim (Bool-cases (c == k)) [
  | inl same ↦ ground arith
  | inr other ↦ at_first test {k = k} (ground arith) c (ground arith)
]

-- Whether an optional value is present.
abbrev pub is_some {ℓ} : {A : Type ℓ} → Option A → Bool
is_some none = false
is_some (some a) = true

-- Whether a pointer is this handle.
abbrev pub is_handle : ℕ → Option ℕ → Bool
is_handle h none = false
is_handle h (some h') = h == h'

-- A result with a property, or none.
abbrev pub Ensures : {A : Type 0} → Option A → (A → Type 0) → Type 0
Ensures none P = Unit
Ensures (some a) P = P a

-- A result with a property.
abbrev pub Returns : {A : Type 0} → Option A → (A → Type 0) → Type 0
Returns none P = ⊥
Returns (some a) P = P a

pub Returns-mono :
    {A : Type 0} (m : Option A) (P Q : A → Type 0)
    → Returns m P
    → ((a : A) → P a → Q a)
    → Returns m Q
Returns-mono none P Q h k = h
Returns-mono (some a) P Q h k = k a h

pub Returns-some :
    {A : Type 0} (m : Option A) (P : A → Type 0) (a : A) → Returns m P → m ≡ some a → P a
Returns-some m P a h e = subst (λ o. Returns o P) e h
