-- ===== src/Domain/Store/Reads.antt =====
-- The list of orders: whose they are, how many, and their order.
use arkain.Prelude.{
  ℕ, zero, suc, ◌≤◌, ◌≡◌, refl, sym, ◌∙◌, String, Bool, true, false, ◌&&◌, Option, none, some, List,
  [], ◌∷◌, map, min, All, length, take, leb, arith, String-discrete, Bool-cases, holds-no,
  length-map, inl, inr,
}
use arkain.Prelude.Dict.{All-of_lookup}
use arkain.Prisma.{select}
use arkain.Domain.Store.{
  OrderRow, OrderKey, DomainTables, DomainDb, OrderListItem, OrderListFilter, to_list_item,
  put_by_date, newest_first, given, shown_by, page_limit, list_orders,
}

abbrev pub limit_or_default : Option ℕ → ℕ
limit_or_default none = 50
limit_or_default (some limit) = limit

page_limit_lem : (limit : Option ℕ) → page_limit limit ≡ min (limit_or_default limit) 200
unfolding page_limit
page_limit_lem none = refl
page_limit_lem (some limit) = refl

-- Each order is at least as late as those after it.
abbrev pub NewestFirst : List OrderListItem → Type 0
NewestFirst [] = Unit
NewestFirst (o ∷ rest) = All (λ p. p.ordered_at ≤ o.ordered_at) rest × NewestFirst rest

abbrev pub OfTenant : Option String → String → Type 0
OfTenant none owner = Unit
OfTenant (some tenant_id) owner = owner ≡ tenant_id

abbrev Entry : Type 0
Entry = OrderKey × OrderRow

abbrev Sorted : List Entry → Type 0
Sorted [] = Unit
Sorted (e ∷ rest) = All (λ f. f.1.ordered_at ≤ e.1.ordered_at) rest × Sorted rest

module _ (P : Entry → Type 0) where
  All-put_by_date : (e : Entry) (list : List Entry) → P e → All P list → All P (put_by_date e list)
  unfolding put_by_date
  All-put_by_date e [] p h = (p, tt)
  All-put_by_date e (f ∷ rest) p h = elim (Bool-cases (leb f.1.ordered_at e.1.ordered_at)) [
    | inl b ↦ rw b (p, h)
    | inr b ↦ rw b (h.0, All-put_by_date e rest p h.1)
  ]

  All-newest_first : (list : List Entry) → All P list → All P (newest_first list)
  unfolding newest_first
  All-newest_first [] h = tt
  All-newest_first (e ∷ rest) h =
      All-put_by_date e (newest_first rest) h.0 (All-newest_first rest h.1)

  All-take : (n : ℕ) (list : List Entry) → All P list → All P (take n list)
  All-take zero list h = tt
  All-take (suc n) [] h = tt
  All-take (suc n) (e ∷ rest) h = (h.0, All-take n rest h.1)

All-weaken :
    (a b : ℕ) (list : List Entry)
    → a ≤ b
    → All (λ f. f.1.ordered_at ≤ a) list
    → All (λ f. f.1.ordered_at ≤ b) list
All-weaken a b [] h all = tt
All-weaken a b (f ∷ rest) h all = (omega (arith, all.0), All-weaken a b rest h all.1)

leb-≤ : (a b : ℕ) → leb a b ≡ true → a ≤ b
leb-≤ a b h = ground arith

leb-> : (a b : ℕ) → leb a b ≡ false → b ≤ a
leb-> a b h = ground arith

put_by_date-Sorted : (e : Entry) (list : List Entry) → Sorted list → Sorted (put_by_date e list)
unfolding put_by_date
put_by_date-Sorted e [] h = (tt, tt)
put_by_date-Sorted e (f ∷ rest) h = elim (Bool-cases (leb f.1.ordered_at e.1.ordered_at)) [
  | inl b ↦
      let earlier = leb-≤ f.1.ordered_at e.1.ordered_at b in
      rw b ((earlier, All-weaken f.1.ordered_at e.1.ordered_at rest earlier h.0), h)
  | inr b ↦ rw b (
    All-put_by_date (λ g. g.1.ordered_at ≤ f.1.ordered_at) e rest
        (leb-> f.1.ordered_at e.1.ordered_at b) h.0,
    put_by_date-Sorted e rest h.1,
  )
]

newest_first-Sorted : (list : List Entry) → Sorted (newest_first list)
unfolding newest_first
newest_first-Sorted [] = tt
newest_first-Sorted (e ∷ rest) = put_by_date-Sorted e (newest_first rest) (newest_first-Sorted rest)

take-Sorted : (n : ℕ) (list : List Entry) → Sorted list → Sorted (take n list)
take-Sorted zero list h = tt
take-Sorted (suc n) [] h = tt
take-Sorted (suc n) (e ∷ rest) h =
    (All-take (λ f. f.1.ordered_at ≤ e.1.ordered_at) n rest h.0, take-Sorted n rest h.1)

length-take : (n : ℕ) (list : List Entry) → length (take n list) ≤ n
length-take zero list = omega arith
length-take (suc n) [] = omega arith
length-take (suc n) (e ∷ rest) = omega (arith, length-take n rest)

abbrev items : List Entry → List OrderListItem
items list = map (λ e. to_list_item e.0 e.1) list

All-items :
    (P : OrderListItem → Type 0) (list : List Entry)
    → All (λ e. P (to_list_item e.0 e.1)) list
    → All P (items list)
All-items P [] h = tt
All-items P (e ∷ rest) h = (h.0, All-items P rest h.1)

items-NewestFirst : (list : List Entry) → Sorted list → NewestFirst (items list)
unfolding to_list_item
items-NewestFirst [] h = tt
items-NewestFirst (e ∷ rest) h =
    (All-items (λ p. p.ordered_at ≤ e.1.ordered_at) rest h.0, items-NewestFirst rest h.1)

given-OfTenant :
    (filter : Option String) (owner : String) (others : Bool)
    → given String-discrete filter owner && others ≡ true
    → OfTenant filter owner
given-OfTenant none owner others h = tt
given-OfTenant (some tenant_id) owner others h = elim (String-discrete owner tenant_id) [
  | yes p ↦ p
  | no n ↦ cc (rw (holds-no (String-discrete owner tenant_id) n) at h)
]

shown_by-OfTenant :
    (filter : OrderListFilter) (key : OrderKey) (row : OrderRow)
    → shown_by filter key row ≡ true
    → OfTenant filter.tenant_id key.0
unfolding shown_by
shown_by-OfTenant filter key row h = given-OfTenant filter.tenant_id key.0 _ h

found-OfTenant :
    (filter : OrderListFilter) (key : OrderKey) (o : Option OrderRow) (row : OrderRow)
    → select (shown_by filter key) o ≡ some row
    → OfTenant filter.tenant_id key.0
found-OfTenant filter key none row h = cc
found-OfTenant filter key (some r) row h = elim (Bool-cases (shown_by filter key r)) [
  | inl shown ↦ shown_by-OfTenant filter key r shown
  | inr hidden ↦ cc (rw hidden at h)
]

-- What the page of orders is to be.
pub record IsOrderList (filter : OrderListFilter) (list : List OrderListItem) : Type 0 where
  pub tenants : All (λ o. OfTenant filter.tenant_id o.id.0) list
  pub newest : NewestFirst list
  pub few : length list ≤ min (limit_or_default filter.limit) 200

-- The list of orders shows orders of the given tenant only, where one is given, the newest first, and
-- at most the given number of them, 50 where none is given, and never more than 200.
pub list_orders-IsOrderList :
    (t : DomainTables) (filter : OrderListFilter) (db : DomainDb t)
    → IsOrderList filter (list_orders t filter db)
unfolding list_orders to_list_item
list_orders-IsOrderList t filter db =
    let found = t.orders.find_many (shown_by filter) db.orders in
    let owned : All (λ (e : Entry). OfTenant filter.tenant_id e.0.0) found =
      All-of_lookup t.orders.dec (λ e. OfTenant filter.tenant_id e.0.0) found
        (t.orders.find_many-DistinctKeys (shown_by filter) db.orders)
        (λ key row h.
          found-OfTenant filter key (t.orders.find key db.orders) row
            (sym (t.orders.lookup-find_many (shown_by filter) key db.orders) ∙ h)) in
    let page = take (page_limit filter.limit) (newest_first found) in
    record {
      tenants =
          All-items (λ o. OfTenant filter.tenant_id o.id.0) page
            (All-take (λ e. OfTenant filter.tenant_id e.0.0) (page_limit filter.limit)
              (newest_first found)
              (All-newest_first (λ e. OfTenant filter.tenant_id e.0.0) found owned));
      newest =
          items-NewestFirst page (
            take-Sorted (page_limit filter.limit) (newest_first found) (newest_first-Sorted found));
      few = omega (
        arith,
        length-map (λ (e : Entry). to_list_item e.0 e.1) page,
        length-take (page_limit filter.limit) (newest_first found),
        page_limit_lem filter.limit,
      );
    }
