-- ===== src/Web/History/Alerts.antt =====
-- handlers.go: what the history of a monitor's alerts shows.
use webtracker.Shared.{
  ℕ, ◌≤◌, ◌<◌, ◌≡◌, ◌≢◌, ◌⊎◌, inl, inr, refl, ap, ◌∙◌, String, List, [], ◌∷◌, map, length, All,
  arith, str_eq, eq_iff, str_eq_ne, Bool-cases,
}
use webtracker.Shared.Int.{pos_part, ℤ, pos}
use webtracker.Shared.Clock.{Instant}
use webtracker.Shared.Errors.{Result, ok, Result-cases}
use webtracker.Domain.Alert.{Alert}
use webtracker.ChannelAdapters.{type_text}
use webtracker.Web.{Parsers, answered}
use webtracker.Web.Api.{parse_count}
use webtracker.Web.History.{
  alerts_for, parse_time, HistoryRepository, HistoryQuery, latest, history_query, parse_limit,
  fetch, Counted, AlertResponse, get_alert_history, of_type, filter_type, to_alert_response,
  alerts_body, alerts_for,
}

-- A limit of the repository that is positive is one; without it, all alerts are returned.
pub record HonoursLimit {W A : Type 0} (repo : HistoryRepository W A) : Type 0 where
  pub at_most :
      (id : String) (n : ℕ) (w : W) (l : List A)
      → 0 < n
      → (repo.get_by_monitor_id id (pos n) w).0 ≡ ok l
      → length l ≤ n

-- What the query allows: at most 1000, and at most the limit that it names.
abbrev pub IsWithin : Parsers → (String → String) → ℕ → Type 0
IsWithin p query n =
    (n ≤ 1000) × ((k : ℕ) → p.atoi (query "limit") ≡ ok (pos k) → query "limit" ≢ "" → n ≤ k)

of_type-length :
    (type : String) (alerts : List Alert) → length (of_type type alerts) ≤ length alerts
unfolding of_type
of_type-length type [] = omega arith
of_type-length type (a ∷ alerts) = ground (arith, of_type-length type alerts)

abbrev pub HasType : String → AlertResponse → Type 0
HasType type r = type_text r.type ≡ type

of_type-All :
    (type : String) (alerts : List Alert)
    → All (HasType type) (map to_alert_response (of_type type alerts))
unfolding of_type to_alert_response
of_type-All type [] = tt
of_type-All type (a ∷ alerts) = elim (Bool-cases (str_eq (type_text a.type) type)) [
  | inl e ↦ rw e ((eq_iff (type_text a.type) type).0 e, of_type-All type alerts)
  | inr e ↦ rw e (of_type-All type alerts)
]

filter_type-length :
    (type : String) (alerts : List Alert) → length (filter_type type alerts) ≤ length alerts
unfolding filter_type
filter_type-length type alerts = ground (arith, of_type-length type alerts)

length-map : {A B : Type 0} (f : A → B) (l : List A) → length (map f l) ≡ length l
length-map f [] = refl
length-map f (a ∷ l) = omega (arith, length-map f l)

-- The limits that a query may come to.
limit_lem :
    (atoi : String → Result ℤ) (s : String) (limit : ℤ)
    → parse_limit atoi s ≡ ok limit
    → (s ≢ "" → atoi s ≢ ok (pos 0))
    → (n : ℕ) × (limit ≡ pos n)
      × (0 < n)
      × ((n ≤ 1000) × ((k : ℕ) → atoi s ≡ ok (pos k) → s ≢ "" → n ≤ k))
unfolding parse_limit parse_count
limit_lem atoi s limit h positive = elim (Bool-cases (str_eq s "")) [
  | inl e ↦ (
    100,
    ground (arith, h, e),
    ground arith,
    (ground arith, λ k f ne. absurd (ne ((eq_iff s "").0 e))),
  )
  | inr e ↦
      let ne : s ≢ "" = λ f. ground (arith, (eq_iff s "").1 f, e) in
      (
        pos_part limit,
        ground arith,
        ground (arith, e, h, positive ne),
        (ground arith, λ k f _. ground (arith, e, f)),
      )
]

missing_lem :
    (parse : String → Result Instant) (text s : String) → s ≡ "" → parse_time parse text s ≡ ok 0
unfolding parse_time
missing_lem parse text s e = rw e refl

module _ (p : Parsers) (query : String → String) where
  abbrev start_of : Result Instant
  start_of = parse_time p.parse_rfc3339 "invalid start date format, use RFC3339" (query "start")

  abbrev end_of : Result Instant
  end_of = parse_time p.parse_rfc3339 "invalid end date format, use RFC3339" (query "end")

  dates_lem :
      (q : HistoryQuery) (limit : ℤ)
      → parse_limit p.atoi (query "limit") ≡ ok limit
      → (start_of ≡ ok 0) ⊎ (end_of ≡ ok 0)
      → history_query p query ≡ ok q
      → q ≡ latest limit
  unfolding history_query
  dates_lem q limit e (inl m) h = elim (Result-cases end_of) [
    | inr (x, f) ↦ absurd (ground (arith, e, m, f, h))
    | inl (t, f) ↦ ground (arith, e, m, f, h)
  ]
  dates_lem q limit e (inr m) h = elim (Result-cases start_of) [
    | inr (x, f) ↦ absurd (ground (arith, e, f, h))
    | inl (t, f) ↦ ground (arith, e, m, f, h)
  ]

  zero_date : (query "start" ≡ "") ⊎ (query "end" ≡ "") → (start_of ≡ ok 0) ⊎ (end_of ≡ ok 0)
  zero_date (inl e) = inl (missing_lem _ _ _ e)
  zero_date (inr e) = inr (missing_lem _ _ _ e)

  query_lem :
      (q : HistoryQuery)
      → (query "start" ≡ "") ⊎ (query "end" ≡ "")
      → (query "limit" ≢ "" → p.atoi (query "limit") ≢ ok (pos 0))
      → history_query p query ≡ ok q
      → (n : ℕ) × (q ≡ latest (pos n)) × (0 < n) × IsWithin p query n
  unfolding history_query
  query_lem q missing positive h = elim (Result-cases (parse_limit p.atoi (query "limit"))) [
    | inr (x, e) ↦ absurd (ground (arith, e, h))
    | inl (limit, e) ↦
        let (n, f, some, within) = limit_lem p.atoi (query "limit") limit e positive in
        (n, dates_lem q limit e (zero_date missing) h ∙ ap latest f, some, within)
  ]

  body_lem :
      (alerts : List Alert) (n : ℕ)
      → length alerts ≤ n
      → IsWithin p query n
      → let body = alerts_body (query "type") alerts in
        (body.count ≡ length body.items)
        × IsWithin p query body.count
        × (query "type" ≢ "" → All (HasType (query "type")) body.items)
  unfolding filter_type
  body_lem alerts n few (small, within) =
      let fewer = filter_type-length (query "type") alerts in
      (
        refl,
        (
          omega (arith, length-map to_alert_response (filter_type (query "type") alerts)),
          λ k e ne.
              let below = within k e ne in
              omega (arith, length-map to_alert_response (filter_type (query "type") alerts)),
        ),
        λ ne. rw (filter_type, str_eq_ne (query "type") "" ne) (of_type-All (query "type") alerts),
      )

  module _ {W : Type 0} (repo : HistoryRepository W Alert) (honours : HonoursLimit repo) where
    -- Without a range of dates, and with a limit that is missing or not 0 (0 stands for no limit),
    -- an answer has no more alerts than the limit of the query allows, 1000 at most, counts them,
    -- and has none of another type than the query names.
    pub get_alert_history_bounds :
        (id : String) (w : W) (code : ℕ) (body : Counted AlertResponse)
        → (query "start" ≡ "") ⊎ (query "end" ≡ "")
        → (query "limit" ≢ "" → p.atoi (query "limit") ≢ ok (pos 0))
        → (get_alert_history p repo id query w).0 ≡ answered code body
        → (body.count ≡ length body.items)
          × IsWithin p query body.count
          × (query "type" ≢ "" → All (HasType (query "type")) body.items)
    unfolding get_alert_history alerts_for fetch
    get_alert_history_bounds id w code body missing positive h = elim (Bool-cases (str_eq id "")) [
      | inl e ↦ absurd (ground (arith, e, h))
      | inr e ↦ elim (Result-cases (history_query p query)) [
        | inr (x, f) ↦ absurd (ground (arith, e, f, h))
        | inl (q, f) ↦
            let (n, g, some, within) = query_lem q missing positive f in
            elim (Result-cases (repo.get_by_monitor_id id (pos n) w).0) [
              | inr (x, k) ↦ absurd (ground (arith, e, f, g, k, h))
              | inl (alerts, k) ↦
                  let same : alerts_body (query "type") alerts ≡ body =
                    ground (arith, e, f, g, k, h) in
                  rw (← same) (body_lem alerts n (honours.at_most id n w alerts some k) within)
            ]
      ]
    ]
