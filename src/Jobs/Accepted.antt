-- ===== src/Jobs/Accepted.antt =====
-- A job that the master builds is a message that the worker accepts
-- (orbitplus/internal/application/master/orionmax_inventory_job_builder.go, buildInventoryRefreshJob;
-- orbitplusworker/internal/domain/tripdetails_refresh_message.go, Validate).
use mathlib.Core.Path.{subst}
use orbitplus.Worker.Errors.{bad_date, past_date}
use orbitplus.Common.{
  String, ◌≡◌, refl, ◌∙◌, sym, ap, ◌⊎◌, Bool, true, false, Option, none, some, List, [], ◌∷◌, ◌||◌,
  All, str_eq, if◌then◌else◌, Bool-cases, inl, inr,
}
use orbitplus.Common.Text.{is_empty, is_blank, trim_space}
use orbitplus.Common.Date.{Date, parse_date, before}
use orbitplus.Json.{Members, obj, get}
use orbitplus.Master.Errors.{GoResult, ok, err}
use orbitplus.Master.Zones.{zone_bits_base_url}
use orbitplus.Master.Inventory.{
  QueueMetrix, InventoryItem, InventoryRefreshJob, invalid_inventory_event, action_type_of,
  action_from, action_type_by_activity_type,
}
use orbitplus.Master.Inventory.Job.{
  JobDeps, metric_trip_date, normalize_trip_date, job_base, job_route, job_trip, job_of,
  with_payload, build_for_zone, build_for_date, build_inventory_refresh_job,
  resolve_inventory_trip_code,
}
use orbitplus.Worker.Message.{validate, require_fields, validate_current_or_future_date}
use orbitplus.Jobs.{message_of}
use orbitplus.Jobs.Dates.{trim_space-parse_date}

action_from-cases :
    (table : List (String × String)) (a : String)
    → All (λ p. p.1 ≡ "searchbusmap") table
    → (action_from table a ≡ "") ⊎ (action_from table a ≡ "searchbusmap")
unfolding action_from
action_from-cases [] a h = inl refl
action_from-cases ((k, v) ∷ rest) a h = elim (Bool-cases (str_eq k a)) [
  | inl t ↦ rw t (inr h.0)
  | inr f ↦ rw f (action_from-cases rest a h.1)
]

-- An inventory change of any kind asks for a combined refresh.
action_type_of-eq : (a : String) → action_type_of a ≡ "searchbusmap"
unfolding action_type_of
action_type_of-eq a = elim (action_from-cases action_type_by_activity_type a all_same) [
  | inl e ↦ rw e refl
  | inr e ↦ rw e refl
]
  where
    all_same : All (λ p. p.1 ≡ "searchbusmap") action_type_by_activity_type
    all_same = (
      refl,
      (
        refl,
        (
          refl,
          (
            refl,
            (
              refl,
              (
                refl,
                (
                  refl,
                  (
                    refl,
                    (refl, (refl, (refl, (refl, (refl, (refl, (refl, (refl, (refl, tt))))))))),
                  ),
                ),
              ),
            ),
          ),
        ),
      ),
    )

-- The texts of an item that the worker wants not blank.
pub record IsFilled (item : InventoryItem) : Type 0 where
  pub operator_code : is_blank item.operator_code ≡ false
  pub source : is_blank item.source ≡ false
  pub destination : is_blank item.destination ≡ false

date-not_blank : (s : String) (date : Date) → parse_date s ≡ some date → is_blank s ≡ false
unfolding is_blank parse_date
date-not_blank s date p = rw (trim_space-parse_date s date p) (go s p)
  where
    go : (t : String) → parse_date t ≡ some date → is_empty t ≡ false
    go String.[] q = absurd (cc q)
    go (String.◌∷◌ c t) q = refl

action-not_blank : is_blank "searchbusmap" ≡ false
unfolding is_blank trim_space
action-not_blank = refl

future_date :
    (today date : Date) (name s : String)
    → parse_date s ≡ some date
    → before date today ≡ false
    → validate_current_or_future_date today name s ≡ none
unfolding validate_current_or_future_date
future_date today date name s p future =
    ap
      (λ (o : Option Date). elim o [
        | none ↦ some (bad_date name)
        | some d ↦ if before d today then some (past_date name) else none
      ])
      (ap parse_date (trim_space-parse_date s date p) ∙ p)
    ∙ rw future refl

job_of-validate :
    (today date : Date) (item : InventoryItem) (url trip_code trip_date : String)
    → IsFilled item
    → is_blank url ≡ false
    → parse_date trip_date ≡ some date
    → before date today ≡ false
    → validate today (message_of (job_of item "searchbusmap" url trip_code trip_date)) ≡ none
unfolding validate message_of job_of job_base job_route job_trip get require_fields
job_of-validate today date item url trip_code trip_date filled u p future =
    elim (Bool-cases (is_empty trip_code)) [
      | inl t ↦
          rw
            (
              t,
              action-not_blank,
              filled.operator_code,
              u,
              filled.source,
              filled.destination,
              date-not_blank trip_date date p,
              future_date today date "tripDate" trip_date p future,
            )
            refl
      | inr f ↦
          rw
            (
              f,
              action-not_blank,
              filled.operator_code,
              u,
              filled.source,
              filled.destination,
              date-not_blank trip_date date p,
              future_date today date "tripDate" trip_date p future,
            )
            refl
    ]

module _ {W : Type 0} (d : JobDeps W) (today : Date) where
  -- The payload is the encoding of a message that the worker accepts.
  pub record IsAccepted (job : InventoryRefreshJob) : Type 0 where
    pub members : Members
    pub encoded : d.marshal (obj members) ≡ ok job.payload
    pub accepted : validate today (message_of members) ≡ none

  -- What holds of every job that was built.
  abbrev Built : (InventoryRefreshJob → Type 0) → GoResult InventoryRefreshJob → Type 0
  Built P (ok job) = P job
  Built P (err e) = Unit

  abbrev IsCurrent : String → Type 0
  IsCurrent text = (date : Date) → parse_date text ≡ some date → before date today ≡ false

  with_payload-IsAccepted :
      (metric : QueueMetrix) (trip_code : String) (m : Members) (r : GoResult String)
      → d.marshal (obj m) ≡ r
      → validate today (message_of m) ≡ none
      → Built IsAccepted (with_payload d metric trip_code r)
  unfolding with_payload
  with_payload-IsAccepted metric trip_code m (err e) q h = tt
  with_payload-IsAccepted metric trip_code m (ok payload) q h = record {
    members = m;
    encoded = q;
    accepted = h;
  }

  build_for_zone-IsAccepted :
      (item : InventoryItem) (metric : QueueMetrix) (date : Date) (text : String)
      (url : Option String) (w : W)
      → IsFilled item
      → ((u : String) → url ≡ some u → is_blank u ≡ false)
      → parse_date text ≡ some date
      → before date today ≡ false
      → Built IsAccepted (build_for_zone d "searchbusmap" item metric text url w).0
  unfolding build_for_zone
  build_for_zone-IsAccepted item metric date text none w filled u p future = tt
  build_for_zone-IsAccepted item metric date text (some url) w filled u p future =
      with_payload-IsAccepted _ _ _ _ refl (
        job_of-validate today date item url (resolve_inventory_trip_code d item text w).0 text
          filled (u url refl) p future)

  build_for_date-IsAccepted :
      (item : InventoryItem) (metric : QueueMetrix) (w : W)
      → IsFilled item
      → ((u : String) → zone_bits_base_url d.getenv metric.zone ≡ some u → is_blank u ≡ false)
      → IsCurrent (metric_trip_date item.doj)
      → Built IsAccepted
          (build_for_date d "searchbusmap" item metric (normalize_trip_date item.doj) w).0
  unfolding build_for_date normalize_trip_date
  build_for_date-IsAccepted item metric w filled u current =
      go (parse_date (metric_trip_date item.doj)) refl
    where
      go :
          (o : Option Date)
          → parse_date (metric_trip_date item.doj) ≡ o
          → Built IsAccepted
              (build_for_date d "searchbusmap" item metric
                (elim o [ none ↦ none | some date ↦ some (metric_trip_date item.doj) ])
                w).0
      go none q = tt
      go (some date) q =
          build_for_zone-IsAccepted item metric date (metric_trip_date item.doj) _ w filled u q
            (current date q)

  Built-if :
      (P : InventoryRefreshJob → Type 0) (b : Bool) (x y : GoResult InventoryRefreshJob × W)
      → Built P x.0
      → Built P y.0
      → Built P (if b then x else y).0
  Built-if P true x y p q = p
  Built-if P false x y p q = q

  -- A job that is built for an inventory change, whose item has an operator and two stations that are
  -- not blank, whose zone has no blank URL and whose date is not past, is encoded from a message that
  -- the worker's validation accepts on that day.
  pub build_inventory_refresh_job-IsAccepted :
      (activity_type : String) (item : InventoryItem) (metric : QueueMetrix) (w : W)
      (job : InventoryRefreshJob)
      → IsFilled item
      → ((u : String) → zone_bits_base_url d.getenv metric.zone ≡ some u → is_blank u ≡ false)
      → IsCurrent (metric_trip_date item.doj)
      → (build_inventory_refresh_job d (action_type_of activity_type) item metric w).0 ≡ ok job
      → IsAccepted job
  unfolding build_inventory_refresh_job
  build_inventory_refresh_job-IsAccepted activity_type item metric w job filled u current h =
      subst (Built IsAccepted)
        (ap (λ action. (build_inventory_refresh_job d action item metric w).0)
            (sym (action_type_of-eq activity_type))
          ∙ h)
        (Built-if IsAccepted
          (is_empty item.reference_id
            || is_empty item.operator_code
            || is_empty item.source
            || is_empty item.destination)
          (err invalid_inventory_event, w)
          (build_for_date d "searchbusmap" item metric (normalize_trip_date item.doj) w) tt
          (build_for_date-IsAccepted item metric w filled u current))
