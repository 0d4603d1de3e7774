-- ===== src/Master/RefreshTests.antt =====
-- A refresh of one stale route.
use orbitplus.Common.{ℕ, ◌+◌, ◌≡◌, refl, String, true, false, none, some, List, [], ◌∷◌, pos}
use orbitplus.Common.Date.{Date, parse_date, before, add_week}
use orbitplus.Master.Errors.{ok}
use orbitplus.Master.Metadata.{TripDetailsStageMetadata}
use orbitplus.Master.Refresh.{
  RouteRefresher, Refreshing, reply, future_route_pairs, url_of, is_candidate, is_in_week, row_key,
  pair_key, pair_of_row, put_pair, collect_pairs, add_to_group, group_pairs,
}
use orbitplus.Common.Text.{contains}
use orbitplus.Master.Refresh.Future.{IsFuture, future_route_pairs-IsFuture}
use orbitplus.Master.Refresh.Run.{run}
use orbitplus.Master.Refresh.Run.Orderly.{IsRun, run-IsRun}

abbrev row : TripDetailsStageMetadata
row = record {
  operator_code = "op";
  trip_code = "T1";
  schedule_code = "";
  trip_date = "2026-01-02";
  from_station_code = "A";
  to_station_code = "B";
  trip_stage_code = "S1";
  updated_at = 7;
}

abbrev today : Date
today = record { year = 2025; month = 12; day = 28 }

abbrev active : List (String × String)
active = ("op", "http://app.ezeebits.com") ∷ []

week_runs : add_week today ≡ record { year = 2026; month = 1; day = 4 }
unfolding add_week
week_runs = refl

future_runs : future_route_pairs today active (row ∷ row ∷ []) ≡ ("op", pair_of_row row ∷ []) ∷ []
unfolding future_route_pairs collect_pairs is_candidate is_in_week url_of parse_date before add_week
    put_pair row_key pair_key pair_of_row group_pairs add_to_group
future_runs = refl

future_route_pairs-IsFuture_example :
    IsFuture today active (row ∷ row ∷ []) (future_route_pairs today active (row ∷ row ∷ []))
unfolding contains
future_route_pairs-IsFuture_example =
    future_route_pairs-IsFuture today active (row ∷ row ∷ [])
      ((refl, refl, refl), ((refl, refl, refl), tt))

abbrev refresher : RouteRefresher ℕ
refresher = record {
  configured = true;
  base_url = "http://orbit";
  access_token = "token";
  stale_duration = 3;
  top_route_url = λ base code token. some base;
  http_get =
      λ endpoint w. (reply 200 (some (("A", record { route = "B" ∷ []; top_route = [] }) ∷ [])), w);
  list_active_operators =
      λ w. (ok (record { code = "op"; zone_code = "bits"; active_flag = pos 1 } ∷ []), w);
  list_stale_route_metadata = λ cutoff w. (ok (row ∷ []), w);
  find_by_reference_id = λ r w. (ok none, w);
  save_received = λ m w. (none, w + 1);
  publish = λ r p priority w. (none, w + 1);
  mark_queued = λ m w. (none, w + 1);
  mark_dead = λ m w. (none, w + 1);
  now = λ w. w;
  today = λ w. today;
  getenv = λ name. "";
  marshal = λ v. ok "payload";
  error_text = λ e. "";
  rfc3339_nano = λ t. "";
  itoa = λ n. "";
  sha256_hex = λ s. "5f";
}

abbrev start : Refreshing ℕ
start = record { world = 10; locked = false; log = [] }

run-IsRun_example : IsRun refresher start (run refresher start).1
run-IsRun_example = run-IsRun refresher start tt
