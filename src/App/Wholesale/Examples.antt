-- ===== src/App/Wholesale/Examples.antt =====
-- The wholesale desk at work, on one order in memory.
use arkain.Prelude.{◌≡◌, refl, String, some, none, [], ◌∷◌, String-discrete}
use arkain.Prelude.Dict.{lookup}
use arkain.Prisma.Memory.{text_table}
use arkain.Prelude.{◌≢◌, false_of_holds}
use arkain.Prisma.{select}
use arkain.Prisma.Memory.{pair_table}
use arkain.B2b.Types.{draft, approved}
use arkain.B2b.Rows.{PurchaseOrderRow, Tables, Database}
use arkain.B2b.Store.{transition, stamp_approved, of_tenant}
use arkain.App.Wholesale.{transition_handler}
use arkain.App.Wholesale.Moves.{expected_reply, transition_handler-replies}

desk : Tables
desk = record { accounts = text_table _; prices = pair_table _; orders = text_table _ }

abbrev draft_order : PurchaseOrderRow
draft_order = record {
  tenant_id = "s1";
  account_id = "acme";
  status = draft;
  items = [];
  total_amount_krw = 0;
  memo = none;
  submitted_at = none;
  approved_at = none;
  rejected_at = none;
  rejection_reason = none;
}

-- The draft is the only order.
one_draft : Database desk
unfolding desk text_table pair_table lookup
one_draft = record {
  accounts = ([], tt);
  prices = ([], tt);
  orders = (("k", draft_order) ∷ [], (refl, tt));
}

s1_is_text : ◌≢◌ {A = String} "s1" ""
s1_is_text p = false_of_holds (String-discrete "s1" "") (unfold String-discrete in refl) p

transition_handler-replies_example :
    (transition_handler desk
      (λ tenant. transition desk tenant "k" approved (stamp_approved 5))
      (some "s1")
      one_draft).0
    ≡ expected_reply "k" approved
        (stamp_approved 5)
        (select (of_tenant desk "s1") (desk.orders.find "k" one_draft.orders))
transition_handler-replies_example =
    transition_handler-replies desk "s1" "k" approved (stamp_approved 5) one_draft s1_is_text
