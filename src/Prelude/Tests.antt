-- ===== src/Prelude/Tests.antt =====
-- Boolean tests on numbers and texts, the conditional, and the split on a computed value.
use Prim.Native.Nat.{ℕ, compare, Ordering}
use Prim.Native.String.{String}
use mathlib.Core.Path.{◌≡◌, refl}
use mathlib.Core.Logic.{◌≢◌, ◌⊎◌, inl, inr}
use native.Mathlib.Omega.{arith}
use mathlib.Core.Bool.{Bool, true, false}
use mathlib.Core.Option.{Option, none, some}
use text.Mathlib.Text.{◌==◌ as str_eq}
use text.Mathlib.TextEquality.{eq_iff}

abbrev pub ltb : ℕ → ℕ → Bool
ltb a b = elim (compare a b) [ Ordering.lt ↦ true | _ ↦ false ]

abbrev pub leb : ℕ → ℕ → Bool
leb a b = elim (compare a b) [ Ordering.gt ↦ false | _ ↦ true ]

infix 50 ◌==◌
abbrev pub ◌==◌ : ℕ → ℕ → Bool
a == b = elim (compare a b) [ Ordering.eq ↦ true | _ ↦ false ]

infix 1 if◌then◌else◌
abbrev pub if◌then◌else◌ {ℓ} : {A : Type ℓ} → Bool → A → A → A
if true then x else y = x
if false then x else y = y

-- The truth value of a decision.
abbrev pub holds {ℓ} : {A : Type ℓ} → Dec A → Bool
holds (yes a) = true
holds (no n) = false

pub Bool-cases : (b : Bool) → (b ≡ true) ⊎ (b ≡ false)
Bool-cases true = inl refl
Bool-cases false = inr refl

pub Option-cases {ℓ} : {A : Type ℓ} (o : Option A) → (o ≡ none) ⊎ ((a : A) × (o ≡ some a))
Option-cases none = inl refl
Option-cases (some a) = inr (a, refl)

text_dec : (s t : String) (b : Bool) → str_eq s t ≡ b → Dec (s ≡ t)
text_dec s t true e = yes ((eq_iff s t).0 e)
text_dec s t false e = no (λ p. cc ((eq_iff s t).1 p))

-- Equality of texts, `===` in the source.
unfoldable pub String-discrete : Discrete String
unfolding text_dec
String-discrete s t = text_dec s t (str_eq s t) refl

both {ℓ} :
    {A B : Type ℓ} {a c : A} {b d : B}
    → Dec (a ≡ c)
    → Dec (b ≡ d)
    → Dec (◌≡◌ {A = A × B} (a, b) (c, d))
both (yes p) (yes q) = yes (λ i. (p i, q i))
both (no n) q = no (λ e. n (λ i. (e i).0))
both (yes p) (no n) = no (λ e. n (λ i. (e i).1))

unfoldable pub Pair-discrete {ℓ} : {A B : Type ℓ} → Discrete A → Discrete B → Discrete (A × B)
unfolding both
Pair-discrete da db (a, b) (c, d) = both (da a c) (db b d)

pub eq-true : (a b : ℕ) → a ≡ b → (a == b) ≡ true
eq-true a b h = ground arith

pub eq-false : (a b : ℕ) → ◌≢◌ {A = ℕ} a b → (a == b) ≡ false
eq-false a b h = ground arith

pub holds-yes {ℓ} : {A : Type ℓ} (d : Dec A) → A → holds d ≡ true
holds-yes (yes a) p = refl
holds-yes (no n) p = absurd (n p)

pub holds-no {ℓ} : {A : Type ℓ} (d : Dec A) → ¬ A → holds d ≡ false
holds-no (yes a) n = absurd (n a)
holds-no (no m) n = refl

pub true_of_holds {ℓ} : {A : Type ℓ} (d : Dec A) → holds d ≡ true → A
true_of_holds (yes a) e = a
true_of_holds (no n) e = absurd (cc)

pub false_of_holds {ℓ} : {A : Type ℓ} (d : Dec A) → holds d ≡ false → ¬ A
false_of_holds (yes a) e p = cc
false_of_holds (no n) e p = n p
