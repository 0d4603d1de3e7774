-- ===== src/Worker/Message/Laws.antt =====
-- Which messages `Validate` accepts (orbitplusworker/internal/domain/tripdetails_refresh_message.go).
use orbitplus.Common.{
  String, ◌≡◌, refl, ◌⊎◌, inl, inr, ◌↔◌, true, false, Option, none, some, arith, Bool-cases, ap,
  sym, ◌∙◌, str_eq, eq_iff, ◌||◌,
}
use orbitplus.Common.Text.{trim_space, is_blank, is_empty}
use orbitplus.Common.Date.{Date, parse_date, before}
use orbitplus.Worker.Message.{
  TripDetailsRefreshMessage, action_search, action_busmap, action_searchbusmap, require_fields,
  validate_current_or_future_date, validate,
}

-- A date of the calendar that is not before today.
pub record IsCurrentOrFuture (today : Date) (value : String) : Type 0 where
  pub date : Date
  pub reads : parse_date (trim_space value) ≡ some date
  pub not_past : before date today ≡ false

pub record IsSearchRequest (today : Date) (m : TripDetailsRefreshMessage) : Type 0 where
  pub action : (m.action_type ≡ action_search) ⊎ (m.action_type ≡ action_searchbusmap)
  pub from_code : is_blank m.from_code ≡ false
  pub to_code : is_blank m.to_code ≡ false
  pub trip_date : IsCurrentOrFuture today m.trip_date

pub record IsBusMapRequest (today : Date) (m : TripDetailsRefreshMessage) : Type 0 where
  pub action : m.action_type ≡ action_busmap
  pub trip_code : is_blank m.trip_code ≡ false
  pub from_station_code : is_blank m.from_station_code ≡ false
  pub to_station_code : is_blank m.to_station_code ≡ false
  pub travel_date : IsCurrentOrFuture today m.travel_date

-- What the worker may work on.
pub record IsAcceptable (today : Date) (m : TripDetailsRefreshMessage) : Type 0 where
  pub operator_code : is_blank m.operator_code ≡ false
  pub zone_url : is_blank m.zone_url ≡ false
  pub request : IsSearchRequest today m ⊎ IsBusMapRequest today m

date_accepts :
    (today : Date) (name value : String)
    → validate_current_or_future_date today name value ≡ none
    → IsCurrentOrFuture today value
unfolding validate_current_or_future_date
date_accepts today name value h = go (parse_date (trim_space value)) refl h
  where
    go :
        (o : Option Date)
        → parse_date (trim_space value) ≡ o
        → validate_current_or_future_date today name value ≡ none
        → IsCurrentOrFuture today value
    go none e q = ground arith
    go (some d) e q = record { date = d; reads = e; not_past = ground arith }

none-ne-some {ℓ} : {A : Type ℓ} {a : A} → none ≡ some a → ⊥
none-ne-some h = cc

date_complete :
    (today : Date) (name value : String)
    → IsCurrentOrFuture today value
    → validate_current_or_future_date today name value ≡ none
unfolding validate_current_or_future_date
date_complete today name value h = ground (arith, h.reads, h.not_past)

is_empty-eq : (s : String) → is_empty s ≡ true → s ≡ ""
is_empty-eq String.[] h = refl
is_empty-eq (String.◌∷◌ c s) h = cc

-- A date is not blank.
date_not_blank :
    (today : Date) (value : String) → IsCurrentOrFuture today value → is_blank value ≡ false
unfolding is_blank parse_date
date_not_blank today value h = elim (Bool-cases (is_blank value)) [
  | inl b ↦ absurd (none-ne-some (ap parse_date (sym (is_empty-eq (trim_space value) b)) ∙ h.reads))
  | inr b ↦ b
]

action_not_blank :
    (s : String)
    → (s ≡ action_search) ⊎ (s ≡ action_searchbusmap) ⊎ (s ≡ action_busmap)
    → is_blank s ≡ false
unfolding is_blank
action_not_blank s (inl e) = rw e
action_not_blank s (inr (inl e)) = rw e
action_not_blank s (inr (inr e)) = rw e

accepts :
    (today : Date) (m : TripDetailsRefreshMessage) → validate today m ≡ none → IsAcceptable today m
unfolding validate require_fields
accepts today m h = ground (
  arith,
  eq_iff m.action_type action_search,
  eq_iff m.action_type action_searchbusmap,
  eq_iff m.action_type action_busmap,
  date_accepts today "tripDate" m.trip_date,
  date_accepts today "travelDate" m.travel_date,
)

busmap_tests :
    (s : String)
    → s ≡ action_busmap
    → (str_eq s action_search || str_eq s action_searchbusmap) ≡ false
busmap_tests s e = rw e

str_eq-action_busmap : (s : String) → s ≡ action_busmap → str_eq s action_busmap ≡ true
str_eq-action_busmap s e = rw e

search_test :
    (s : String)
    → (s ≡ action_search) ⊎ (s ≡ action_searchbusmap)
    → (str_eq s action_search || str_eq s action_searchbusmap) ≡ true
search_test s (inl e) = rw e
search_test s (inr e) = rw e

complete :
    (today : Date) (m : TripDetailsRefreshMessage) → IsAcceptable today m → validate today m ≡ none
unfolding validate require_fields
complete today m h = go h.request
  where
    search_case :
        IsSearchRequest today m
        → (str_eq m.action_type action_search || str_eq m.action_type action_searchbusmap) ≡ true
        → is_blank m.action_type ≡ false
        → validate today m ≡ none
    search_case r t b =
        rw (b, h.operator_code, h.zone_url, t, r.from_code, r.to_code)
          (rw (date_not_blank today m.trip_date r.trip_date)
            (date_complete today "tripDate" m.trip_date r.trip_date))

    busmap_case : IsBusMapRequest today m → validate today m ≡ none
    busmap_case r =
        rw
          (
            action_not_blank m.action_type (inr (inr r.action)),
            h.operator_code,
            h.zone_url,
            busmap_tests m.action_type r.action,
            r.trip_code,
            r.from_station_code,
            r.to_station_code,
          )
          (rw
            (
              str_eq-action_busmap m.action_type r.action,
              date_not_blank today m.travel_date r.travel_date,
            )
            (date_complete today "travelDate" m.travel_date r.travel_date))

    go : IsSearchRequest today m ⊎ IsBusMapRequest today m → validate today m ≡ none
    go (inl r) =
        search_case r (search_test m.action_type r.action)
          (action_not_blank m.action_type (ground (arith, r.action)))
    go (inr r) = busmap_case r

-- `Validate` returns no error exactly for a message that names an operator and a zone, has one of
-- the three actions, every field that the action needs, and a well-formed date that is not before
-- today.
pub validate-none_iff :
    (today : Date) (m : TripDetailsRefreshMessage)
    → (validate today m ≡ none) ↔ IsAcceptable today m
validate-none_iff today m = (accepts today m, complete today m)
