-- ===== src/Adapters/Pull.antt =====
-- The loop that asks an adapter page by page, and a cursor that goes through windows and axes as a
-- sweep does.
use arkain.Prelude.{
  ◌≡◌, refl, sym, ap, ◌∙◌, inl, inr, ℕ, suc, ◌+◌, ◌*◌, ◌≤◌, ◌<◌, Bool, false, Option, none, some,
  List, [], ◌∷◌, map, length, length-map, subst, arith, All, Option-cases,
}
use arkain.Adapters.Sweep.{
  Position, Answer, Any, Asks, next, sweep, covers_lem, Short, ends_lem, times_suc,
}

abbrev pub mapped : {A B : Type 0} → (A → B) → Option A → Option B
mapped f none = none
mapped f (some a) = some (f a)

Any-map :
    {A B : Type 0} (P : B → Type 0) (f : A → B) (xs : List A)
    → Any P (map f xs)
    → Any (λ a. P (f a)) xs
Any-map P f [] h = h
Any-map P f (x ∷ xs) (inl h) = inl h
Any-map P f (x ∷ xs) (inr h) = inr (Any-map P f xs h)

pub Any-with :
    {A : Type 0} (P Q : A → Type 0) (xs : List A) → All P xs → Any Q xs → Any (λ a. P a × Q a) xs
Any-with P Q [] h k = k
Any-with P Q (x ∷ xs) h (inl q) = inl (h.0, q)
Any-with P Q (x ∷ xs) h (inr k) = inr (Any-with P Q xs h.1 k)

module _ {C R : Type 0} (step : C → ℕ × R → Option C) where
  abbrev pub after_call : C × ℕ → Option C → (C → List (C × ℕ) × Option C) → List (C × ℕ) × Option C
  after_call asked none rest = (asked ∷ [], none)
  after_call asked (some d) rest = (asked ∷ (rest d).0, (rest d).1)

  -- The cursors that are asked with, each with the time of its call, and the one to go on with, if
  -- there is one.
  unfoldable pub pull : C → List (ℕ × R) → List (C × ℕ) × Option C
  pull c [] = ([], some c)
  pull c (a ∷ responses) = after_call (c, a.0) (step c a) (λ d. pull d responses)

  module _ (axes width : ℕ) (position : C → Position) (more : R → Bool) (Valid : C → Type 0)
      (sim : (c : C) (a : ℕ × R)
        → Valid c
        → mapped position (step c a) ≡ next axes width (position c) (a.0, more a.1))
      (valid : (c d : C) (a : ℕ × R) → Valid c → step c a ≡ some d → Valid d) where
    abbrev pub answers : List (ℕ × R) → List Answer
    answers responses = map (λ a. (a.0, more a.1)) responses

    abbrev seen : List (C × ℕ) × Option C → List (Position × ℕ) × Option Position
    seen (asked, c) = (map (λ e. (position e.0, e.1)) asked, mapped position c)

    pull_sim :
        (c : C) (responses : List (ℕ × R))
        → Valid c
        → seen (pull c responses) ≡ sweep axes width (position c) (answers responses)
    unfolding pull sweep
    pull_sim c [] ok = refl
    pull_sim c (a ∷ responses) ok = elim (Option-cases (step c a)) [
      | inl e ↦ rw (sym (sim c a ok), e) refl
      | inr (d, e) ↦
          rw (sym (sim c a ok), e)
            (ap (λ r. ((position c, a.0) ∷ r.0, r.1)) (pull_sim d responses (valid c d a ok e)))
    ]

    -- Every cursor that is asked with is valid.
    pub pull-Valid :
        (c : C) (responses : List (ℕ × R)) → Valid c → All (λ e. Valid e.0) (pull c responses).0
    unfolding pull
    pull-Valid c [] ok = tt
    pull-Valid c (a ∷ responses) ok = elim (Option-cases (step c a)) [
      | inl e ↦ rw e (ok, tt)
      | inr (d, e) ↦ rw e (ok, pull-Valid d responses (valid c d a ok e))
    ]

    none_lem : (o : Option C) → mapped position o ≡ none → o ≡ none
    none_lem none h = refl
    none_lem (some d) h = cc

    pub pull-Asks :
        (start : ℕ) (c : C) (responses : List (ℕ × R))
        → Valid c
        → (position c).axis ≡ 0
        → All (λ a. start ≤ a.0) responses
        → (pull c responses).1 ≡ none
        → (i t : ℕ) → i < axes
        → (position c).from ≤ t
        → t ≤ start
        → Any (λ e. Asks axes width i t (position e.0, e.1)) (pull c responses).0
    pull-Asks start c responses ok first late ended i t hi low high =
        Any-map (Asks axes width i t) (λ e. (position e.0, e.1)) (pull c responses).0
          (subst (Any (Asks axes width i t)) (sym (ap (λ r. r.0) (pull_sim c responses ok))) (
            covers_lem axes width start (position c) (answers responses) (omega (arith, first))
              (late_lem responses late)
              (sym (ap (λ r. r.1) (pull_sim c responses ok)) ∙ ap (mapped position) ended) i t hi
              high (inl (omega (arith, first), low))))
      where
        late_lem :
            (rs : List (ℕ × R)) → All (λ a. start ≤ a.0) rs → All (λ a. start ≤ a.0) (answers rs)
        late_lem [] h = tt
        late_lem (a ∷ rs) h = (h.0, late_lem rs h.1)

    pub pull_ends :
        (stop k : ℕ) (c : C) (responses : List (ℕ × R))
        → Valid c
        → (position c).axis < axes
        → stop ≤ (position c).from + suc k * width
        → All (λ a. (a.0 ≤ stop) × (more a.1 ≡ false)) responses
        → axes * suc k ≤ length responses
        → (pull c responses).1 ≡ none
    pull_ends stop k c responses ok in_axes near short enough = none_lem (pull c responses).1 (
        ap (λ r. r.1) (pull_sim c responses ok)
        ∙ ends_lem axes width stop k (position c) (answers responses) in_axes near
            (short_lem responses short)
            (omega (
              arith,
              length-map {B = Answer} (λ (a : ℕ × R). (a.0, more a.1)) responses,
              times_suc axes k,
            )))
      where
        short_lem :
            (rs : List (ℕ × R))
            → All (λ a. (a.0 ≤ stop) × (more a.1 ≡ false)) rs
            → Short axes width stop (answers rs)
        short_lem [] h = tt
        short_lem (a ∷ rs) h = (h.0, short_lem rs h.1)
