-- ===== src/Storage/Merging.antt =====
-- Items merged by their keys: what is found under a key, and that writing and reading keeps it.
use arkain.Prelude.{
  ◌≡◌, refl, sym, ap, ◌∙◌, String, Option, none, some, List, [], ◌∷◌, ◌++◌, arith, ite,
  String-discrete, All,
}
use arkain.Prelude.Dict.{lookup, alter, insert, lookup-insert, DistinctKeys, insert-DistinctKeys}
use mathlib.Core.List.{append-nil, append_assoc}
use mathlib.Core.Path.{fun_ext}
use arkain.Storage.{merge, values}

module _ {A : Type 0} (key_of : A → String) where
  -- The map after the items are put into it, one after the other.
  unfoldable pub replaced : List A → (String → Option A) → String → Option A
  replaced [] f = f
  replaced (a ∷ rest) f = replaced rest (λ k. ite (String-discrete (key_of a) k) (some a) (f k))

  pub lookup-merge :
      (items : List A) (m : List (String × A))
      → (λ k. lookup String-discrete k (merge key_of items m))
        ≡ replaced items (λ k. lookup String-discrete k m)
  unfolding merge replaced
  lookup-merge [] m = refl
  lookup-merge (a ∷ rest) m =
      lookup-merge rest (insert String-discrete (key_of a) a m)
      ∙ ap (replaced rest) (fun_ext (λ k. lookup-insert String-discrete (key_of a) k a m))

  -- Each item stands under its own key.
  abbrev pub Keyed : List (String × A) → Type 0
  Keyed m = All (λ e. key_of e.1 ≡ e.0) m

  insert-Keyed :
      (a : A) (m : List (String × A)) → Keyed m → Keyed (insert String-discrete (key_of a) a m)
  unfolding insert alter
  insert-Keyed a [] h = (refl, tt)
  insert-Keyed a ((k, b) ∷ m) h = ground (arith, insert-Keyed a m)

  pub merge-Keyed :
      (items : List A) (m : List (String × A)) → Keyed m → Keyed (merge key_of items m)
  unfolding merge
  merge-Keyed [] m h = h
  merge-Keyed (a ∷ rest) m h =
      merge-Keyed rest (insert String-discrete (key_of a) a m) (insert-Keyed a m h)

  pub merge-DistinctKeys :
      (items : List A) (m : List (String × A))
      → DistinctKeys String-discrete m
      → DistinctKeys String-discrete (merge key_of items m)
  unfolding merge
  merge-DistinctKeys [] m h = h
  merge-DistinctKeys (a ∷ rest) m h =
      merge-DistinctKeys rest (insert String-discrete (key_of a) a m)
        (insert-DistinctKeys String-discrete (key_of a) a m h)

  -- a new key goes last
  insert-new :
      (k : String) (a : A) (m : List (String × A))
      → lookup String-discrete k m ≡ none
      → insert String-discrete k a m ≡ m ++ ((k, a) ∷ [])
  unfolding insert alter lookup
  insert-new k a [] h = refl
  insert-new k a ((j, b) ∷ m) h = ground (arith, insert-new k a m)

  -- no key of the one among the keys of the other
  abbrev Apart : List (String × A) → List (String × A) → Type 0
  Apart acc m = All (λ e. lookup String-discrete e.0 acc ≡ none) m

  apart_lem :
      (k : String) (a : A) (acc m : List (String × A))
      → lookup String-discrete k m ≡ none
      → Apart acc m
      → Apart (insert String-discrete k a acc) m
  unfolding lookup
  apart_lem k a acc [] h apart = tt
  apart_lem k a acc ((j, b) ∷ m) h apart =
      ground (arith, lookup-insert String-discrete k j a acc, apart_lem k a acc m)

  onto_lem :
      (acc m : List (String × A))
      → Keyed m
      → DistinctKeys String-discrete m
      → Apart acc m
      → merge key_of (values m) acc ≡ acc ++ m
  unfolding merge
  onto_lem acc [] keyed distinct apart = sym (append-nil acc)
  onto_lem acc ((k, a) ∷ m) keyed distinct apart =
      ap (λ j. merge key_of (values m) (insert String-discrete j a acc)) keyed.0
      ∙ onto_lem (insert String-discrete k a acc) m keyed.1 distinct.1
          (apart_lem k a acc m distinct.0 apart.1)
      ∙ ap (λ n. n ++ m) (insert-new k a acc apart.0)
      ∙ append_assoc acc ((k, a) ∷ []) m

  Apart-nil : (m : List (String × A)) → Apart [] m
  unfolding lookup
  Apart-nil [] = tt
  Apart-nil (e ∷ m) = (refl, Apart-nil m)

  -- What is written reads back as the same entries in the same order.
  pub merge-values :
      (m : List (String × A))
      → Keyed m
      → DistinctKeys String-discrete m
      → merge key_of (values m) [] ≡ m
  merge-values m keyed distinct = onto_lem [] m keyed distinct (Apart-nil m)
