-- ===== src/Adapters/Sweep.antt =====
-- How an adapter's cursor goes through windows of time, and in each window through a number of
-- axes: the statuses, or the storefronts and their statuses. A call is asked at a position, and its
-- answer says whether there is more at it. This is what the cursors of the adapters are proved to
-- do.
use arkain.Prelude.{
  ◌≡◌, refl, ◌⊎◌, inl, inr, ℕ, zero, suc, ◌+◌, ◌-◌, ◌*◌, ◌≤◌, ◌<◌, min, Bool, true, false, Option,
  none, some, List, [], ◌∷◌, length, arith, if◌then◌else◌, ltb, Bool-cases, All, dec_le, ℕ_discrete,
}

pub record Position : Type 0 where
  pub axis : ℕ
  pub from : ℕ

-- An answer: the time at which the call was made, and whether there is more.
abbrev pub Answer : Type 0
Answer = ℕ × Bool

abbrev pub Any {ℓ} : {A : Type ℓ} → (A → Type 0) → List A → Type 0
Any P [] = ⊥
Any P (e ∷ es) = P e ⊎ Any P es

pub Any-mono :
    {A : Type 0} (P Q : A → Type 0) (xs : List A) → ((a : A) → P a → Q a) → Any P xs → Any Q xs
Any-mono P Q [] f h = elim h [ ]
Any-mono P Q (x ∷ xs) f (inl h) = inl (f x h)
Any-mono P Q (x ∷ xs) f (inr h) = inr (Any-mono P Q xs f h)

ltb→lt : (a b : ℕ) → ltb a b ≡ true → a < b
ltb→lt a b h = ground arith

suc_times : (k w : ℕ) → suc k * w ≡ w + k * w
suc_times k w = grind arith

pub times_suc : (w k : ℕ) → w * suc k ≡ w + w * k
times_suc w k = grind arith

module _ (axes width : ℕ) where
  abbrev pub window_end : Position → ℕ → ℕ
  window_end p now = min (p.from + width) now

  unfoldable pub next : Position → Answer → Option Position
  next p (now, true) = some p
  next p (now, false) =
      if ltb (p.axis + 1) axes
      then some (record { axis = p.axis + 1; from = p.from })
      else if ltb (window_end p now) now
      then some (record { axis = 0; from = window_end p now })
      else none

  abbrev pub after_step :
      Position × ℕ
      → Option Position
      → (Position → List (Position × ℕ) × Option Position)
      → List (Position × ℕ) × Option Position
  after_step asked none rest = (asked ∷ [], none)
  after_step asked (some q) rest = (asked ∷ (rest q).0, (rest q).1)

  -- The positions that are asked at with the times of the calls, and where it goes on, if it does.
  unfoldable pub sweep : Position → List Answer → List (Position × ℕ) × Option Position
  unfolding next
  sweep p [] = ([], some p)
  sweep p (a ∷ answers) = after_step (p, a.0) (next p a) (λ q. sweep q answers)

  -- A call that asks an axis about a moment.
  abbrev pub Asks : ℕ → ℕ → Position × ℕ → Type 0
  Asks a t (p, now) = (p.axis ≡ a) × (p.from ≤ t) × (t ≤ window_end p now)

  -- what is still to be asked from a position on
  abbrev Due : Position → ℕ → ℕ → Type 0
  Due p a t = ((p.axis ≤ a) × (p.from ≤ t)) ⊎ (p.from + width < t)

  module _ (start : ℕ) where
    abbrev pub Since : List Answer → Type 0
    Since answers = All (λ a. start ≤ a.0) answers

    on_axis :
        (p q : Position) (now a t : ℕ) (rest : List (Position × ℕ))
        → q.axis ≡ p.axis + 1
        → q.from ≡ p.from
        → start ≤ now
        → t ≤ start
        → (Due q a t → Any (Asks a t) rest)
        → Due p a t
        → Asks a t (p, now) ⊎ Any (Asks a t) rest
    on_axis p q now a t rest ea ef late ht later (inr past) = inr (later (inr (omega (arith, ef))))
    on_axis p q now a t rest ea ef late ht later (inl (low, from)) =
        elim (dec_le t (p.from + width)) [
          | no over ↦ inr (later (inr (omega (arith, ef, over))))
          | yes within ↦ elim (ℕ_discrete p.axis a) [
            | yes same ↦ inl (same, from, omega arith)
            | no other ↦ inr (later (inl (omega (arith, ea, other), omega (arith, ef))))
          ]
        ]

    on_window :
        (p q : Position) (now a t : ℕ) (rest : List (Position × ℕ))
        → a < axes
        → axes ≤ p.axis + 1
        → q.axis ≡ 0
        → q.from ≡ p.from + width
        → start ≤ now
        → t ≤ start
        → (Due q a t → Any (Asks a t) rest)
        → Due p a t
        → Asks a t (p, now) ⊎ Any (Asks a t) rest
    on_window p q now a t rest ha last ea ef late ht later (inr past) =
        inr (later (inl (omega (arith, ea), omega (arith, ef))))
    on_window p q now a t rest ha last ea ef late ht later (inl (low, from)) =
        elim (dec_le t (p.from + width)) [
          | no over ↦ inr (later (inl (omega (arith, ea), omega (arith, ef, over))))
          | yes within ↦ inl (omega arith, from, omega arith)
        ]

    at_end :
        (p : Position) (now a t : ℕ)
        → a < axes
        → axes ≤ p.axis + 1
        → now ≤ p.from + width
        → start ≤ now
        → t ≤ start
        → Due p a t
        → Asks a t (p, now)
    at_end p now a t ha last done late ht (inr past) = absurd (omega arith)
    at_end p now a t ha last done late ht (inl (low, from)) = (omega arith, from, omega arith)

    pub covers_lem :
        (p : Position) (answers : List Answer)
        → p.axis < axes
        → Since answers
        → (sweep p answers).1 ≡ none
        → (a t : ℕ) → a < axes
        → t ≤ start
        → Due p a t
        → Any (Asks a t) (sweep p answers).0
    unfolding sweep next
    covers_lem p [] in_axes late ended a t ha ht due = absurd (cc)
    covers_lem p ((now, true) ∷ answers) in_axes late ended a t ha ht due =
        inr (covers_lem p answers in_axes late.1 ended a t ha ht due)
    covers_lem p ((now, false) ∷ answers) in_axes late ended a t ha ht due =
        elim (Bool-cases (ltb (p.axis + 1) axes)) [
          | inl further ↦
              let q : Position = record { axis = p.axis + 1; from = p.from } in
              let later : Due q a t → Any (Asks a t) (sweep q answers).0 =
                covers_lem q answers (ground arith) late.1 (rw further at ended) a t ha ht in
              rw further (on_axis p q now a t (sweep q answers).0 refl refl late.0 ht later due)
          | inr last ↦ elim (Bool-cases (ltb (window_end p now) now)) [
            | inl left ↦
                let q : Position = record { axis = 0; from = window_end p now } in
                let later : Due q a t → Any (Asks a t) (sweep q answers).0 =
                  covers_lem q answers (omega arith) late.1 (rw (last, left) at ended) a t ha ht in
                rw (last, left)
                  (on_window p q now a t (sweep q answers).0 ha (ground arith) refl (ground arith)
                    late.0 ht later due)
            | inr done ↦
                rw (last, done)
                  (inl (at_end p now a t ha (ground arith) (ground arith) late.0 ht due))
          ]
        ]

  module _ (stop : ℕ) where
    -- Calls before a time, whose answers have no more.
    abbrev pub Short : List Answer → Type 0
    Short answers = All (λ a. (a.0 ≤ stop) × (a.1 ≡ false)) answers

    pub ends_lem :
        (k : ℕ) (p : Position) (answers : List Answer)
        → p.axis < axes
        → stop ≤ p.from + suc k * width
        → Short answers
        → (axes - p.axis) + axes * k ≤ length answers
        → (sweep p answers).1 ≡ none
    unfolding sweep next
    ends_lem k p [] in_axes near short enough = absurd (grind arith)
    ends_lem k p ((now, true) ∷ answers) in_axes near short enough = absurd (cc (short.0.1))
    ends_lem zero p ((now, false) ∷ answers) in_axes near short enough =
        elim (Bool-cases (ltb (p.axis + 1) axes)) [
          | inl further ↦ rw further (
              ends_lem zero (record { axis = p.axis + 1; from = p.from }) answers (ground arith)
                near short.1 (omega (arith, ltb→lt (p.axis + 1) axes further)))
          | inr last ↦ elim (Bool-cases (ltb (window_end p now) now)) [
            | inl left ↦ absurd (omega (arith, ltb→lt (window_end p now) now left))
            | inr done ↦ rw (last, done) refl
          ]
        ]
    ends_lem (suc k) p ((now, false) ∷ answers) in_axes near short enough =
        elim (Bool-cases (ltb (p.axis + 1) axes)) [
          | inl further ↦ rw further (
              ends_lem (suc k) (record { axis = p.axis + 1; from = p.from }) answers (ground arith)
                near short.1 (omega (arith, ltb→lt (p.axis + 1) axes further)))
          | inr last ↦ elim (Bool-cases (ltb (window_end p now) now)) [
            | inl left ↦
                rw (last, left)
                  (ends_lem k (record { axis = 0; from = window_end p now }) answers (omega arith)
                    (omega (
                      arith,
                      ltb→lt (window_end p now) now left,
                      suc_times (suc k) width,
                      suc_times k width,
                    ))
                    short.1 (omega (arith, times_suc axes k)))
            | inr done ↦ rw (last, done) refl
          ]
        ]
