-- ===== src/B2b/Status.antt =====
-- src/domain/b2b/purchaseOrderStateMachine.ts: the table of allowed moves and its check.
pub mod Lifecycle
use arkain.Prelude.{Bool, true, false, ◌||◌, List, [], ◌∷◌, Result, ok, throw, holds, if◌then◌else◌}
use arkain.B2b.Types.{
  PurchaseOrderStatus, draft, submitted, approved, rejected, fulfilled, cancelled,
  PurchaseOrderStatus-discrete,
}

-- `ALLOWED_TRANSITIONS`
unfoldable pub allowed_transitions : PurchaseOrderStatus → List PurchaseOrderStatus
allowed_transitions draft = submitted ∷ cancelled ∷ []
allowed_transitions submitted = approved ∷ rejected ∷ cancelled ∷ []
allowed_transitions approved = fulfilled ∷ []
allowed_transitions rejected = []
allowed_transitions fulfilled = []
allowed_transitions cancelled = []

-- `statuses.includes(to)`
abbrev includes : PurchaseOrderStatus → List PurchaseOrderStatus → Bool
includes to [] = false
includes to (s ∷ rest) = holds (PurchaseOrderStatus-discrete s to) || includes to rest

unfoldable pub can_transition : PurchaseOrderStatus → PurchaseOrderStatus → Bool
unfolding allowed_transitions PurchaseOrderStatus-discrete
can_transition from to = includes to (allowed_transitions from)

pub data InvalidTransitionError : Type 0 where
  invalid_transition : PurchaseOrderStatus → PurchaseOrderStatus → InvalidTransitionError

unfoldable pub assert_transition :
    PurchaseOrderStatus → PurchaseOrderStatus → Result InvalidTransitionError (Unit {0})
unfolding can_transition
assert_transition from to =
    if can_transition from to then ok tt else throw (invalid_transition from to)
