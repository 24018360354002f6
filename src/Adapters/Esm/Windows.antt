-- ===== src/Adapters/Esm/Windows.antt =====
-- The storefronts, statuses and windows that a pull from ESM asks for.
use arkain.Prelude.{
  ◌≡◌, refl, sym, ap, ◌∙◌, ℕ, suc, ◌+◌, ◌*◌, ◌≤◌, ◌<◌, min, Bool, true, false, Option, none, some,
  String, if◌then◌else◌, List, [], ◌∷◌, zero, ◌/◌, length, All, arith, leb, ltb, Bool-cases, inl,
  inr,
}
use arkain.Adapters.Cursors.{
  CursorCodec, or_first, encode_cursor, decode_cursor, decode-encode_cursor,
}
use arkain.Prelude.Text.{append}
use arkain.Adapters.Http.{Utc, pad, decimal}
use arkain.Adapters.Transport.{RequestSpec, request_orders, item_at}
use arkain.Adapters.Esm.{
  EsmSite, auction, gmarket, OrderCursor, next_cursor, max_window_ms, order_statuses,
  order_page_size, format_esm_date, orders_request, site_type,
}
use arkain.Adapters.Sweep.{Position, Any, Any-mono, Asks, next}
use arkain.Adapters.Pull.{pull, mapped, pull-Asks, pull_ends, pull-Valid, Any-with}

at_axis :
    {a b : ℕ} (from : ℕ)
    → a ≡ b
    → ◌≡◌ {A = Option Position}
        (some (record { axis = a; from = from }))
        (some (record { axis = b; from = from }))
at_axis from e = ap (λ n. some (record { axis = n; from = from })) e

ltb→lt : (a b : ℕ) → ltb a b ≡ true → a < b
ltb→lt a b h = ground arith

le_of_ltb : (a b : ℕ) → ltb a b ≡ false → b ≤ a
le_of_ltb a b h = ground arith

ltb-true : (a b : ℕ) → a < b → ltb a b ≡ true
ltb-true a b h = ground arith

ltb-false : (a b : ℕ) → b ≤ a → ltb a b ≡ false
ltb-false a b h = ground arith

-- An answer is the number of rows of its page.
module _ (codec : CursorCodec OrderCursor) (sites : ℕ) where
  -- the cursor that the next page is asked with, which has travelled as a text
  unfoldable pub step : OrderCursor → ℕ × ℕ → Option OrderCursor
  step state (now_ms, rows) =
      decode_cursor codec (encode_cursor codec (next_cursor sites state now_ms rows))

  abbrev position : OrderCursor → Position
  position state = record { axis = state.site_idx * 5 + state.status_idx; from = state.from }

  -- whether the page is full
  abbrev pub more : ℕ → Bool
  more rows = leb order_page_size rows

  -- The cursor names a status and a storefront.
  abbrev Valid : OrderCursor → Type 0
  Valid state = (state.status_idx < 5) × (state.site_idx < sites)

  sim_lem :
      (state : OrderCursor) (a : ℕ × ℕ)
      → Valid state
      → mapped position (step state a)
        ≡ next (sites * 5) max_window_ms (position state) (a.0, more a.1)
  unfolding step
  sim_lem state (now_ms, rows) ok =
      ap (mapped position) (decode-encode_cursor codec (next_cursor sites state now_ms rows))
      ∙ unfold next_cursor next in
        elim (Bool-cases (leb order_page_size rows)) [
          | inl full ↦ rw full refl
          | inr short ↦ elim (Bool-cases (ltb (state.status_idx + 1) 5)) [
            | inl further ↦
                rw
                  (
                    short,
                    further,
                    ltb-true (state.site_idx * 5 + state.status_idx + 1) (sites * 5)
                        (omega (arith, ok, ltb→lt (state.status_idx + 1) 5 further)),
                  )
                  (at_axis state.from (omega arith))
            | inr last ↦ elim (Bool-cases (ltb (state.site_idx + 1) sites)) [
              | inl site ↦
                  rw
                    (
                      short,
                      last,
                      site,
                      ltb-true (state.site_idx * 5 + state.status_idx + 1) (sites * 5)
                          (omega (arith, ok, ltb→lt (state.site_idx + 1) sites site)),
                    )
                    (at_axis state.from
                      (omega (arith, ok, le_of_ltb (state.status_idx + 1) 5 last)))
              | inr end ↦
                  rw
                    (
                      short,
                      last,
                      end,
                      ltb-false (state.site_idx * 5 + state.status_idx + 1) (sites * 5) (
                          omega (
                            arith,
                            ok,
                            le_of_ltb (state.status_idx + 1) 5 last,
                            le_of_ltb (state.site_idx + 1) sites end,
                          )),
                    )
                    (elim (Bool-cases (ltb (min (state.from + max_window_ms) now_ms) now_ms)) [
                      | inl left ↦ rw left refl
                      | inr done ↦ rw done refl
                    ])
            ]
          ]
        ]

  next_lem :
      (c d : OrderCursor) (now_ms rows : ℕ)
      → Valid c
      → next_cursor sites c now_ms rows ≡ some d
      → Valid d
  unfolding next_cursor
  next_lem c d now_ms rows ok e = ground arith

  valid_lem : (c d : OrderCursor) (a : ℕ × ℕ) → Valid c → step c a ≡ some d → Valid d
  valid_lem c d (now_ms, rows) ok e =
      next_lem c d now_ms rows ok
        (sym (decode-encode_cursor codec (next_cursor sites c now_ms rows)) ∙ unfold step in e)

  abbrev pub first : ℕ → OrderCursor
  first since = record { site_idx = 0; status_idx = 0; from = since; page_index = 1 }

  -- A call at a cursor that names a storefront and a status, with a moment between the two ends.
  abbrev Reaches : ℕ → ℕ → ℕ → OrderCursor × ℕ → Type 0
  Reaches s i t (state, now_ms) =
      (state.site_idx ≡ s)
      × (state.status_idx ≡ i)
      × (state.from ≤ t)
      × (t ≤ min (state.from + max_window_ms) now_ms)

  reaches_lem :
      (s i t : ℕ) (e : OrderCursor × ℕ)
      → i < 5
      → Valid e.0 × Asks (sites * 5) max_window_ms (s * 5 + i) t (position e.0, e.1)
      → Reaches s i t e
  reaches_lem s i t (state, now_ms) hi ((low, _), (axis, from, to)) =
      (omega arith, omega arith, from, to)

  pull-Reaches :
      (since start s i t : ℕ) (responses : List (ℕ × ℕ))
      → 1 ≤ sites
      → All (λ r. start ≤ r.0) responses
      → (pull step (first since) responses).1 ≡ none
      → s < sites
      → i < 5
      → since ≤ t
      → t ≤ start
      → Any (Reaches s i t) (pull step (first since) responses).0
  pull-Reaches since start s i t responses some_site late ended hs hi low high =
      let asks =
        λ (e : OrderCursor × ℕ). Asks (sites * 5) max_window_ms (s * 5 + i) t (position e.0, e.1) in
      Any-mono (λ e. Valid e.0 × asks e) (Reaches s i t) (pull step (first since) responses).0
        (λ e h. reaches_lem s i t e hi h)
        (Any-with (λ e. Valid e.0) asks (pull step (first since) responses).0
          (pull-Valid step (sites * 5) max_window_ms position more Valid sim_lem valid_lem
            (first since) responses (omega arith, omega arith))
          (pull-Asks step (sites * 5) max_window_ms position more Valid sim_lem valid_lem start
            (first since) responses (omega arith, omega arith) (omega arith) late ended (s * 5 + i)
            t (omega arith) low high))

  -- With a storefront at least: when no page is full, and no call is made after `stop`, a pull comes
  -- to an end within five calls for each storefront and each of the windows of 30 days, one after
  -- the other from its beginning, that reach `stop`.
  pub pull_ends_lem :
      (since stop k : ℕ) (responses : List (ℕ × ℕ))
      → 1 ≤ sites
      → stop ≤ since + suc k * max_window_ms
      → All (λ r. (r.0 ≤ stop) × (more r.1 ≡ false)) responses
      → sites * 5 * suc k ≤ length responses
      → (pull step (first since) responses).1 ≡ none
  pull_ends_lem since stop k responses some_site near short enough =
      pull_ends step (sites * 5) max_window_ms position more Valid sim_lem valid_lem stop k
        (first since) responses (omega arith, omega arith) (omega arith) near short enough

-- The number of a storefront, and those of the statuses, as ESM documents them.
abbrev SiteType : EsmSite → ℕ → Type 0
SiteType auction n = n ≡ 1
SiteType gmarket n = n ≡ 2

site_type_lem : (site : EsmSite) → SiteType site (site_type site)
site_type_lem auction = refl
site_type_lem gmarket = refl

status_lem : (i : ℕ) → i < 5 → or_first (item_at order_statuses i) 0 ≡ suc i
status_lem zero h = refl
status_lem (suc zero) h = refl
status_lem (suc (suc zero)) h = refl
status_lem (suc (suc (suc zero))) h = refl
status_lem (suc (suc (suc (suc zero)))) h = refl
status_lem (suc (suc (suc (suc (suc i))))) h = absurd (omega arith)

-- `YYYY-MM-DD hh:mm`, which ESM documents as the format of a time.
abbrev two_digits : ℕ → String
two_digits n = if ltb n 10 then append "0" (decimal n) else decimal n

abbrev minute_text : Utc → String
minute_text d = append (decimal d.full_year) (
    append "-" (
      append (two_digits (d.month + 1)) (
        append "-" (
          append (two_digits d.date)
            (append " " (append (two_digits d.hours) (append ":" (two_digits d.minutes))))))))

format_esm_date_lem : (utc : ℕ → Utc) (ms : ℕ) → format_esm_date utc ms ≡ minute_text (utc ms)
unfolding format_esm_date pad
format_esm_date_lem utc ms = refl

-- A request for the orders of a storefront that are of a status and were paid at a moment. It names
-- the ends of its window by the digits of UTC, to the minute; ESM reads digits as those of a zone
-- that is `ahead` minutes before UTC, and a moment shows there the minute of UTC `ahead` minutes
-- later.
pub record AsksAbout (utc : ℕ → Utc) (ahead status moment : ℕ) (site : EsmSite) (spec : RequestSpec)
    : Type 0 where
  pub number : ℕ
  pub from_ms : ℕ
  pub to_ms : ℕ
  pub page : ℕ
  pub numbered : SiteType site number
  pub sent :
      spec.body
      ≡ request_orders number status (minute_text (utc from_ms)) (minute_text (utc to_ms)) page 200
  pub after : from_ms / 60000 ≤ (moment + ahead * 60000) / 60000
  pub before : (moment + ahead * 60000) / 60000 ≤ to_ms / 60000

-- The request that a call sends.
abbrev pub AskedFor : (ℕ → Utc) → List EsmSite → ℕ → ℕ → ℕ → EsmSite → OrderCursor × ℕ → Type 0
AskedFor utc sites ahead status moment site (state, now_ms) =
    (item_at sites state.site_idx ≡ some site)
    × AsksAbout utc ahead status moment site (orders_request utc site state now_ms)

minutes_mono : (a b : ℕ) → a ≤ b → a / 60000 ≤ b / 60000
minutes_mono a b h = omega arith

asked_lem :
    (utc : ℕ → Utc) (sites : List EsmSite) (codec : CursorCodec OrderCursor) (ahead s i moment : ℕ)
    (site : EsmSite)
    → item_at sites s ≡ some site
    → i < 5
    → (e : OrderCursor × ℕ) → Reaches codec (length sites) s i (moment + ahead * 60000) e
    → AskedFor utc sites ahead (suc i) moment site e
unfolding orders_request
asked_lem utc sites codec ahead s i moment site at hi (state, now_ms)
      (site_is, status_is, from, to) =
    (
      ap (item_at sites) site_is ∙ at,
      record {
        number = site_type site;
        from_ms = state.from;
        to_ms = min (state.from + max_window_ms) now_ms;
        page = state.page_index;
        numbered = site_type_lem site;
        sent =
            rw
              (
                status_is,
                status_lem i hi,
                format_esm_date_lem utc state.from,
                format_esm_date_lem utc (min (state.from + max_window_ms) now_ms),
              )
              refl;
        after = minutes_mono state.from (moment + ahead * 60000) from;
        before = minutes_mono (moment + ahead * 60000) (min (state.from + max_window_ms) now_ms) to;
      },
    )

item_at-bound :
    (sites : List EsmSite) (s : ℕ) (site : EsmSite) → item_at sites s ≡ some site → s < length sites
item_at-bound [] s site h = absurd (cc)
item_at-bound (x ∷ sites) zero site h = omega arith
item_at-bound (x ∷ sites) (suc s) site h = let rest = item_at-bound sites s site h in omega arith

-- Whatever the answers: a pull over the storefronts of a seller that starts at a time, follows the
-- cursors and comes to an end has sent, for each storefront and each of the five statuses, a request
-- about every moment that lies between where it was to start and that time after it is set ahead
-- by the minutes by which the zone in which ESM reads the digits of a request is before UTC. In UTC
-- that is every moment of the pull; in Korea, where a moment is set ahead by nine hours, the moments
-- of the last nine hours before the start are not among those that the theorem is about.
pub pull-AskedAtEach :
    (utc : ℕ → Utc) (sites : List EsmSite) (codec : CursorCodec OrderCursor)
    (ahead since start s i moment : ℕ) (site : EsmSite) (responses : List (ℕ × ℕ))
    → item_at sites s ≡ some site
    → i < 5
    → All (λ r. start ≤ r.0) responses
    → (pull (step codec (length sites)) (first codec (length sites) since) responses).1 ≡ none
    → since ≤ moment + ahead * 60000
    → moment + ahead * 60000 ≤ start
    → Any
        (AskedFor utc sites ahead (suc i) moment site)
        (pull (step codec (length sites)) (first codec (length sites) since) responses).0
pull-AskedAtEach utc sites codec ahead since start s i moment site responses at hi late ended low
      high =
    let bound = item_at-bound sites s site at in
    Any-mono (Reaches codec (length sites) s i (moment + ahead * 60000))
      (AskedFor utc sites ahead (suc i) moment site)
      (pull (step codec (length sites)) (first codec (length sites) since) responses).0
      (asked_lem utc sites codec ahead s i moment site at hi)
      (pull-Reaches codec (length sites) since start s i (moment + ahead * 60000) responses
        (omega arith) late ended bound hi low high)
