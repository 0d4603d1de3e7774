-- ===== src/Master/Storage/Reported.antt =====
-- What TripDetailsStorage.Store promises of the trip codes that it reports, and when it returns no
-- error (orbitplus/internal/application/master/tripdetails_storage_coordinator.go).
use orbitplus.Common.{
  String, ◌≡◌, refl, Bool, true, false, not, Option, none, some, List, [], elem, All, if◌then◌else◌,
}
use orbitplus.Common.Text.{to_upper, trim_space}
use orbitplus.Json.{Value, Members, obj}
use orbitplus.Master.Errors.{GoError, other, GoResult, ok, err}
use orbitplus.Master.Metadata.{string_field}
use orbitplus.Master.Exec.{Deps, Run, Event}
use orbitplus.Master.Storage.{store_entries, entry_store, store_payload, store}
use orbitplus.Master.Storage.Extract.{Payload, extract_entries, resolve_trip_details_payload}
use orbitplus.Master.Storage.Persisted.{Persisted, Persisted-IsLasting, entry_store-Ensures}
use orbitplus.Master.Storage.Entries.{Any, store_entries-All, store_entries-IsReported}

module _ {W : Type 0} (d : Deps W) where
  -- The request was read as these entries for this action.
  pub record IsRead (value : Value) (p : Payload) (entries : List Value) (action_type : String)
      : Type 0 where
    pub resolved : resolve_trip_details_payload value ≡ ok p
    pub extracted :
        extract_entries p.payload p.envelope (to_upper p.action_type) ≡ ok (entries, action_type)

  -- The value is an entry of the request, and it is persisted in full.
  abbrev pub IsPersisted : Payload → String → List Event → Value → Type 0
  IsPersisted p action_type log v =
      (entry : Members) × (v ≡ obj entry) × Persisted d p action_type entry log

  -- The same, with its trip code.
  abbrev pub IsPersistedAs : Payload → String → String → List Event → Value → Type 0
  IsPersistedAs p action_type c log v =
      (entry : Members) × (v ≡ obj entry)
      × (trim_space (string_field entry "tripCode") ≡ c)
      × Persisted d p action_type entry log

  -- All entries of the request are persisted.
  pub record IsComplete (value : Value) (log : List Event) : Type 0 where
    pub payload : Payload
    pub entries : List Value
    pub action_type : String
    pub read : IsRead value payload entries action_type
    pub persisted : All (IsPersisted payload action_type log) entries

  -- Some entry of the request has this trip code and is persisted.
  pub record IsReportedFor (value : Value) (c : String) (log : List Event) : Type 0 where
    pub payload : Payload
    pub entries : List Value
    pub action_type : String
    pub read : IsRead value payload entries action_type
    pub persisted : Any (IsPersistedAs payload action_type c log) entries

  -- If the loop over any entries that the request was read as has this property, so has the run.
  store-cases :
      (value : Value) (s : Run W) (Q : (List String × Option GoError) × Run W → Type 0)
      → ((e : GoError) → Q (([], some e), s))
      → ((p : Payload) (entries : List Value) (action_type : String)
          → IsRead value p entries action_type
          → Q (store_entries (entry_store d p action_type) entries [] s))
      → Q (store d value s)
  unfolding store store_payload
  store-cases value s Q failed run = by_configured d.cache_configured
    where
      by_extracted :
          (p : Payload) (x : GoResult (List Value × String))
          → resolve_trip_details_payload value ≡ ok p
          → extract_entries p.payload p.envelope (to_upper p.action_type) ≡ x
          → Q (elim x [
            | err e ↦ (([], some e), s)
            | ok (entries, action_type) ↦ store_entries (entry_store d p action_type) entries [] s
          ])
      by_extracted p (err e) r x = failed e
      by_extracted p (ok (entries, action_type)) r x =
          run p entries action_type (record { resolved = r; extracted = x })

      by_resolved :
          (r : GoResult Payload)
          → resolve_trip_details_payload value ≡ r
          → Q (elim r [ err e ↦ (([], some e), s) | ok p ↦ store_payload d p s ])
      by_resolved (err e) q = failed e
      by_resolved (ok p) q = by_extracted p _ q refl

      by_configured :
          (b : Bool)
          → Q (
              if not b
              then (([], some (other "TripDetails persistence is not configured")), s)
              else elim (resolve_trip_details_payload value) [
                | err e ↦ (([], some e), s)
                | ok p ↦ store_payload d p s
              ])
      by_configured false = failed _
      by_configured true = by_resolved _ refl

  -- When Store returns no error, every entry of the request is persisted in full: its trip and stage
  -- documents, a record for each route of the stage and one for its schedule, its BusMap document,
  -- as its action asks for.
  pub store-IsComplete :
      (value : Value) (s : Run W)
      → (store d value s).0.1 ≡ none
      → IsComplete value (store d value s).1.log
  store-IsComplete value s =
      store-cases value s (λ r. r.0.1 ≡ none → IsComplete value r.1.log) (λ e h. absurd (cc h))
        λ p entries action_type read h. record {
          payload = p;
          entries = entries;
          action_type = action_type;
          read = read;
          persisted =
              store_entries-All (entry_store d p action_type) (Persisted d p action_type)
                (Persisted-IsLasting d p action_type) (entry_store-Ensures d p action_type) entries
                [] s h;
        }

  -- Whether or not Store fails, a trip code that it reports as updated is that of an entry of the
  -- request that is persisted in full.
  pub store-IsReportedFor :
      (value : Value) (s : Run W) (c : String)
      → elem c (store d value s).0.0 ≡ true
      → IsReportedFor value c (store d value s).1.log
  store-IsReportedFor value s c =
      store-cases value s (λ r. elem c r.0.0 ≡ true → IsReportedFor value c r.1.log)
        (λ e h. absurd (cc h))
        λ p entries action_type read h. record {
          payload = p;
          entries = entries;
          action_type = action_type;
          read = read;
          persisted =
              store_entries-IsReported (entry_store d p action_type) (Persisted d p action_type)
                (Persisted-IsLasting d p action_type) (entry_store-Ensures d p action_type) entries
                s c h;
        }
