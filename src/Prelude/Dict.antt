-- ===== src/Prelude/Dict.antt =====
-- The `Map` of JavaScript, which iterates in the order of first insertion: an association list.
use Prim.Native.Nat.{ℕ, ◌+◌}
use mathlib.Core.Path.{◌≡◌, refl, ap, subst}
use mathlib.Core.Logic.{ite, if_pos, if_neg}
use mathlib.Core.Option.{Option, none, some}
use mathlib.Core.List.{List, [], ◌∷◌}
use native.Mathlib.Omega.{arith}
use arkain.Prelude.Lists.{sum_by, All}
use arkain.Prelude.Tests.{holds, holds-yes, holds-no, if◌then◌else◌}

module _ {ℓ} {K V : Type ℓ} (dec : Discrete K) where
  -- `m.get(k)`
  unfoldable pub lookup : K → List (K × V) → Option V
  lookup k [] = none
  lookup k ((j, v) ∷ m) = ite (dec j k) (some v) (lookup k m)

  -- `m.set(k, f(m.get(k)))`: a key keeps its place, a new key goes last.
  unfoldable pub alter : K → (Option V → V) → List (K × V) → List (K × V)
  alter k f [] = (k, f none) ∷ []
  alter k f ((j, v) ∷ m) = ite (dec j k) ((j, f (some v)) ∷ m) ((j, v) ∷ alter k f m)

  -- `m.set(k, v)`
  unfoldable pub insert : K → V → List (K × V) → List (K × V)
  unfolding alter
  insert k v = alter k (λ _. v)

  pub lookup-alter :
      (k j : K) (f : Option V → V) (m : List (K × V))
      → lookup j (alter k f m) ≡ ite (dec k j) (some (f (lookup k m))) (lookup j m)
  unfolding lookup alter
  lookup-alter k j f [] = refl
  lookup-alter k j f ((i, v) ∷ m) = ground (arith, lookup-alter k j f m)

  pub lookup-insert :
      (k j : K) (v : V) (m : List (K × V))
      → lookup j (insert k v m) ≡ ite (dec k j) (some v) (lookup j m)
  unfolding insert
  lookup-insert k j v m = lookup-alter k j (λ _. v) m

  -- No key stands twice.
  abbrev pub DistinctKeys : List (K × V) → Type ℓ
  DistinctKeys [] = Unit
  DistinctKeys ((k, v) ∷ m) = (lookup k m ≡ none) × DistinctKeys m

  pub alter-DistinctKeys :
      (k : K) (f : Option V → V) (m : List (K × V)) → DistinctKeys m → DistinctKeys (alter k f m)
  unfolding alter lookup
  alter-DistinctKeys k f [] h = (refl, tt)
  alter-DistinctKeys k f ((j, v) ∷ m) h =
      ground (arith, lookup-alter k j f m, alter-DistinctKeys k f m)

  pub insert-DistinctKeys :
      (k : K) (v : V) (m : List (K × V)) → DistinctKeys m → DistinctKeys (insert k v m)
  unfolding insert
  insert-DistinctKeys k v m = alter-DistinctKeys k (λ _. v) m

  -- What a map adds up to, when the altered entry grows by `d`.
  pub sum_by-alter :
      (g : V → ℕ) (k : K) (f : Option V → V) (d : ℕ) (m : List (K × V))
      → g (f none) ≡ d
      → ((v : V) → g (f (some v)) ≡ g v + d)
      → sum_by (λ (e : K × V). g e.1) (alter k f m) ≡ sum_by (λ (e : K × V). g e.1) m + d
  unfolding alter
  sum_by-alter g k f d [] hn hs = omega arith
  sum_by-alter g k f d ((j, v) ∷ m) hn hs = ground (arith, hs v, sum_by-alter g k f d m hn hs)

  -- With no key twice, what holds of every entry that a lookup finds holds of every entry.
  pub All-of_lookup {κ} :
      (P : K × V → Type κ) (m : List (K × V))
      → DistinctKeys m
      → ((k : K) (v : V) → lookup k m ≡ some v → P (k, v))
      → All P m
  unfolding lookup
  All-of_lookup P [] d h = tt
  All-of_lookup P ((k, v) ∷ m) d h =
      (h k v (rw (if_pos _ refl)), All-of_lookup P m d.1 (λ j w found. h j w (deeper j w found)))
    where
      deeper : (j : K) (w : V) → lookup j m ≡ some w → lookup j ((k, v) ∷ m) ≡ some w
      deeper j w found = elim (dec k j) [
        | yes p ↦ absurd (cc (p, d.0, found))
        | no p ↦ rw (if_neg _ p) found
      ]

  -- With distinct keys, what the entries of one key add up to is what the key has.
  abbrev pub of_found : (V → ℕ) → Option V → ℕ
  of_found g none = 0
  of_found g (some v) = g v

  pub sum_by-key :
      (g : V → ℕ) (k : K) (m : List (K × V))
      → DistinctKeys m
      → sum_by (λ e. if holds (dec e.0 k) then g e.1 else 0) m ≡ of_found g (lookup k m)
  unfolding lookup
  sum_by-key g k [] h = refl
  sum_by-key g k ((j, v) ∷ m) h = elim (dec j k) [
    | yes p ↦
        rw (holds-yes (dec j k) p, if_pos (dec j k) p (some v) (lookup k m))
          (omega
            (arith, sum_by-key g k m h.1, ap (of_found g) (subst (λ i. lookup i m ≡ none) p h.0)))
    | no n ↦
        rw (holds-no (dec j k) n, if_neg (dec j k) n (some v) (lookup k m))
          (omega (arith, sum_by-key g k m h.1))
  ]
