-- ===== src/B2b/Store/WellFormed.antt =====
-- What holds of every purchase order that the store has written: its total is that of its items, and
-- its time stamps are those of its status.
use arkain.Prelude.{
  ℕ, ◌*◌, String, ◌≡◌, ◌≢◌, Bool, true, false, Option, none, some, arith, All, sum_by, not,
}
use arkain.B2b.Types.{
  PurchaseOrderStatus, draft, submitted, approved, rejected, fulfilled, cancelled,
  PurchaseOrderItem,
}
use arkain.B2b.Status.{can_transition}
use arkain.B2b.Rows.{PurchaseOrderRow, Tables, Database}
use arkain.B2b.Store.{stamp_submitted, stamp_approved, stamp_rejected, stamp_none}
use arkain.B2b.Store.Transition.{moved}

abbrev is_set {ℓ} : {A : Type ℓ} → Option A → Bool
is_set none = false
is_set (some a) = true

abbrev is_draft : PurchaseOrderStatus → Bool
is_draft draft = true
is_draft _ = false

abbrev is_rejected : PurchaseOrderStatus → Bool
is_rejected rejected = true
is_rejected _ = false

abbrev was_approved : PurchaseOrderStatus → Bool
was_approved approved = true
was_approved fulfilled = true
was_approved _ = false

abbrev pub HasLineTotal : PurchaseOrderItem → Type 0
HasLineTotal i = i.line_total_krw ≡ i.quantity * i.unit_price_krw

pub record IsWellFormed (r : PurchaseOrderRow) : Type 0 where
  pub line_totals : All HasLineTotal r.items
  pub total : r.total_amount_krw ≡ sum_by (λ i. i.line_total_krw) r.items
  -- a cancelled order may have been submitted or not
  pub submission : r.status ≢ cancelled → is_set r.submitted_at ≡ not (is_draft r.status)
  pub approval : is_set r.approved_at ≡ was_approved r.status
  pub rejection : is_set r.rejected_at ≡ is_rejected r.status
  pub reason : is_set r.rejection_reason ≡ is_rejected r.status

abbrev pub AllOrders : (PurchaseOrderRow → Type 0) → (t : Tables) → Database t → Type 0
AllOrders P t db = (j : String) (r : PurchaseOrderRow) → t.orders.find j db.orders ≡ some r → P r

-- A stamp that belongs to the move.
abbrev pub Keeps : PurchaseOrderStatus → (PurchaseOrderRow → PurchaseOrderRow) → Type 0
Keeps to stamp =
    (r : PurchaseOrderRow)
    → can_transition r.status to ≡ true
    → IsWellFormed r
    → IsWellFormed (moved to stamp r)

pub Keeps-submitted : (now : ℕ) → Keeps submitted (stamp_submitted now)
unfolding can_transition
Keeps-submitted now r can w = ground (arith, w.submission)

pub Keeps-approved : (now : ℕ) → Keeps approved (stamp_approved now)
unfolding can_transition
Keeps-approved now r can w = ground (arith, w.submission)

pub Keeps-rejected : (now : ℕ) (reason : String) → Keeps rejected (stamp_rejected now reason)
unfolding can_transition
Keeps-rejected now reason r can w = ground (arith, w.submission)

pub Keeps-fulfilled : Keeps fulfilled stamp_none
unfolding can_transition
Keeps-fulfilled r can w = ground (arith, w.submission)

pub Keeps-cancelled : Keeps cancelled stamp_none
unfolding can_transition
Keeps-cancelled r can w = ground (arith, w.submission)
