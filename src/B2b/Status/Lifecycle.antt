-- ===== src/B2b/Status/Lifecycle.antt =====
-- The life of a purchase order: the diagram that the doc comment of the table draws, and what the
-- check lets through over a whole sequence of moves.
use arkain.Prelude.{
  ℕ, suc, ◌+◌, ◌≤◌, ◌≡◌, refl, ◌↔◌, true, List, [], ◌∷◌, Result, ok, ◌>>◌, length, arith,
  Bool-cases, inl, inr,
}
use arkain.B2b.Types.{
  PurchaseOrderStatus, draft, submitted, approved, rejected, fulfilled, cancelled,
}
use arkain.B2b.Status.{can_transition, InvalidTransitionError, assert_transition}

-- DRAFT -> SUBMITTED -> {APPROVED|REJECTED}; APPROVED -> FULFILLED; {DRAFT|SUBMITTED} -> CANCELLED
infix 40 ◌⟶◌
pub data ◌⟶◌ : PurchaseOrderStatus → PurchaseOrderStatus → Type 0 where
  submit : draft ⟶ submitted
  approve : submitted ⟶ approved
  reject : submitted ⟶ rejected
  fulfill : approved ⟶ fulfilled
  cancel_draft : draft ⟶ cancelled
  cancel_submitted : submitted ⟶ cancelled

ruleset edges = (submit, approve, reject, fulfill, cancel_draft, cancel_submitted)

⟶_of_can : (a b : PurchaseOrderStatus) → can_transition a b ≡ true → a ⟶ b
unfolding can_transition
⟶_of_can a b h = grind (arith, edges)

can_of_⟶ : {a b : PurchaseOrderStatus} → a ⟶ b → can_transition a b ≡ true
unfolding can_transition
can_of_⟶ submit = refl
can_of_⟶ approve = refl
can_of_⟶ reject = refl
can_of_⟶ fulfill = refl
can_of_⟶ cancel_draft = refl
can_of_⟶ cancel_submitted = refl

-- The check accepts exactly the moves of the diagram.
pub can_transition_iff : (a b : PurchaseOrderStatus) → (can_transition a b ≡ true) ↔ (a ⟶ b)
can_transition_iff a b = (⟶_of_can a b, can_of_⟶)

-- The moves of a sequence, each checked before it is made.
unfoldable pub follow :
    PurchaseOrderStatus
    → List PurchaseOrderStatus
    → Result InvalidTransitionError PurchaseOrderStatus
follow s [] = ok s
follow s (t ∷ rest) = let end = follow t rest in assert_transition s t >> end

-- How many moves a status has left at most.
moves_left : PurchaseOrderStatus → ℕ
moves_left draft = 3
moves_left submitted = 2
moves_left approved = 1
moves_left _ = 0

move_uses_up :
    (s t : PurchaseOrderStatus) → can_transition s t ≡ true → suc (moves_left t) ≤ moves_left s
unfolding can_transition moves_left
move_uses_up s t h = ground arith

follow-moves_left :
    (s e : PurchaseOrderStatus) (path : List PurchaseOrderStatus)
    → follow s path ≡ ok e
    → length path + moves_left e ≤ moves_left s
unfolding follow assert_transition
follow-moves_left s e [] h = ground arith
follow-moves_left s e (t ∷ rest) h = elim (Bool-cases (can_transition s t)) [
  | inl can ↦ omega (arith, move_uses_up s t can, follow-moves_left t e rest (rw can at h))
  | inr cannot ↦ cc (rw cannot at h)
]

-- A sequence of moves that the check lets through from DRAFT has at most three moves.
pub follow-length :
    (e : PurchaseOrderStatus) (path : List PurchaseOrderStatus)
    → follow draft path ≡ ok e
    → length path ≤ 3
unfolding moves_left
follow-length e path h = omega (arith, follow-moves_left draft e path h)

-- The only way from DRAFT to FULFILLED is by SUBMITTED and APPROVED, one move each.
pub follow-fulfilled :
    (path : List PurchaseOrderStatus)
    → follow draft path ≡ ok fulfilled
    → path ≡ submitted ∷ approved ∷ fulfilled ∷ []
unfolding follow assert_transition can_transition
follow-fulfilled [] h = cc
follow-fulfilled (a ∷ []) h = ground arith
follow-fulfilled (a ∷ b ∷ []) h = ground arith
follow-fulfilled (a ∷ b ∷ c ∷ []) h = ground arith
follow-fulfilled (a ∷ b ∷ c ∷ d ∷ rest) h =
    absurd (omega (arith, follow-length fulfilled (a ∷ b ∷ c ∷ d ∷ rest) h))
