-- ===== src/Master/Refresh/Run/Orderly.antt =====
-- The order of the calls of a route refresh, and its mutex
-- (orbitplus/internal/application/master/orbit_route_refresh.go, Run).
use orbitplus.Common.{
  ℕ, String, ◌≡◌, refl, sym, Bool, true, false, not, Option, none, some, List, [], ◌∷◌,
  if◌then◌else◌,
}
use orbitplus.Common.Date.{Date}
use orbitplus.Master.Errors.{GoError, GoResult, ok, err, other}
use orbitplus.Master.Metadata.{TripDetailsStageMetadata}
use orbitplus.Master.Live.Cold.{Operator}
use orbitplus.Master.Inventory.{QueueMetrix}
use orbitplus.Master.Inventory.Receive.{QueueEvent, saved, published}
use orbitplus.Master.Inventory.Receive.Orderly.{IsOrderly, FailedAs}
use orbitplus.Master.Refresh.{
  OrbitRouteDefinition, RouteRefreshPair, RouteRefresher, Refreshing, url_of, orbit_route_priority,
  routes_from, future_route_pairs, is_already_queued, select_operators,
}
use orbitplus.Master.Refresh.Run.{
  note_call, at_world, fetch_orbit_routes, mark_route_dead, after_route_publish, after_route_save,
  save_route, publish_payload, publish_unless_queued, publish_route, unless_error, publish_listed,
  publish_routes, publish_fetched, url_or_empty, publish_groups, publish_stale, run_selected,
  run_operators, run_locked, run,
}

-- The calls are in order, and the mutex is held.
record IsRunning {W : Type 0} (s : Refreshing W) : Type 0 where
  orderly : IsOrderly s.log
  held : s.locked ≡ true

module _ {W : Type 0} (d : RouteRefresher W) where
  mark_route_dead-IsRunning :
      (metric : QueueMetrix) (cause : GoError) (s : Refreshing W)
      → FailedAs metric.reference_id s.log
      → IsRunning s
      → IsRunning (mark_route_dead d metric cause s)
  unfolding mark_route_dead note_call
  mark_route_dead-IsRunning metric cause s f h = record {
    orderly = ((f, refl), h.orderly);
    held = h.held;
  }

  -- The state after a call.
  abbrev after : QueueEvent → W → Refreshing W → Refreshing W
  after event w s = record s { world = w; log = event ∷ s.log }

  after_route_publish-IsRunning :
      (priority : ℕ) (metric : QueueMetrix) (e : Option GoError) (w : W) (s : Refreshing W)
      → IsRunning (after (published metric.reference_id metric.worker_payload priority e) w s)
      → IsRunning
          (after_route_publish d metric e
            (after (published metric.reference_id metric.worker_payload priority e) w s)).1
  unfolding after_route_publish note_call
  after_route_publish-IsRunning priority metric none w s h = record {
    orderly = (((refl, refl), refl), h.orderly);
    held = h.held;
  }
  after_route_publish-IsRunning priority metric (some e) w s h =
      mark_route_dead-IsRunning metric e _ refl h

  after_route_save-IsRunning :
      (priority : ℕ) (metric : QueueMetrix) (e : Option GoError) (w : W) (s : Refreshing W)
      → IsRunning s
      → IsRunning (after_route_save d priority metric e (after (saved metric e) w s)).1
  unfolding after_route_save note_call
  after_route_save-IsRunning priority metric (some e) w s h = record {
    orderly = (tt, h.orderly);
    held = h.held;
  }
  after_route_save-IsRunning priority metric none w s h =
      after_route_publish-IsRunning priority metric _ _ (after (saved metric none) w s)
        (record { orderly = ((refl, refl), (tt, h.orderly)); held = h.held })

  at_world-IsRunning : (w : W) (s : Refreshing W) → IsRunning s → IsRunning (at_world w s)
  at_world-IsRunning w s h = record { orderly = h.orderly; held = h.held }

  publish_payload-IsRunning :
      (reference_id : String) (route : RouteRefreshPair) (zone_url : String) (priority : ℕ)
      (r : GoResult String) (s : Refreshing W)
      → IsRunning s
      → IsRunning (publish_payload d reference_id route zone_url priority r s).1
  unfolding publish_payload save_route note_call
  publish_payload-IsRunning reference_id route zone_url priority (err e) s h = h
  publish_payload-IsRunning reference_id route zone_url priority (ok payload) s h =
      after_route_save-IsRunning priority _ _ _ s h

  IsRunning-if :
      {A : Type 0} (b : Bool) (x y : A × Refreshing W)
      → IsRunning x.1
      → IsRunning y.1
      → IsRunning (if b then x else y).1
  IsRunning-if true x y p q = p
  IsRunning-if false x y p q = q

  publish_unless_queued-IsRunning :
      (reference_id : String) (route : RouteRefreshPair) (zone_url : String) (priority : ℕ)
      (r : GoResult (Option QueueMetrix)) (s : Refreshing W)
      → IsRunning s
      → IsRunning (publish_unless_queued d reference_id route zone_url priority r s).1
  unfolding publish_unless_queued
  publish_unless_queued-IsRunning reference_id route zone_url priority (err e) s h = h
  publish_unless_queued-IsRunning reference_id route zone_url priority (ok existing) s h =
      IsRunning-if (is_already_queued existing) ((false, none), s) _ h
        (publish_payload-IsRunning reference_id route zone_url priority _ s h)

  unless_error-IsRunning :
      (e : Option GoError) (rest : Refreshing W → Option GoError × Refreshing W) (s : Refreshing W)
      → IsRunning s
      → IsRunning (rest s).1
      → IsRunning (unless_error d e rest s).1
  unfolding unless_error
  unless_error-IsRunning none rest s h r = r
  unless_error-IsRunning (some e) rest s h r = h

  publish_listed-IsRunning :
      (route : RouteRefreshPair) (zone_url : String) (o : Option ℕ) (s : Refreshing W)
      → IsRunning s
      → IsRunning (publish_listed d route zone_url o s).1
  unfolding publish_listed publish_route
  publish_listed-IsRunning route zone_url none s h = h
  publish_listed-IsRunning route zone_url (some priority) s h =
      publish_unless_queued-IsRunning _ route zone_url priority _ _ (at_world-IsRunning _ s h)

  publish_routes-IsRunning :
      (zone_url : String) (orbit_routes : List (String × OrbitRouteDefinition))
      (routes : List RouteRefreshPair) (s : Refreshing W)
      → IsRunning s
      → IsRunning (publish_routes d zone_url orbit_routes routes s).1
  unfolding publish_routes
  publish_routes-IsRunning zone_url orbit_routes [] s h = h
  publish_routes-IsRunning zone_url orbit_routes (route ∷ routes) s h =
      let kept =
        publish_listed-IsRunning route zone_url
          (orbit_route_priority (routes_from route.from_station orbit_routes) route.to_station) s
          h in
      unless_error-IsRunning _ (publish_routes d zone_url orbit_routes routes) _ kept
        (publish_routes-IsRunning zone_url orbit_routes routes _ kept)

  publish_fetched-IsRunning :
      (code zone_url : String) (routes : List RouteRefreshPair)
      (r : GoResult (List (String × OrbitRouteDefinition))) (s : Refreshing W)
      → IsRunning s
      → IsRunning (publish_fetched d code zone_url routes r s).1
  unfolding publish_fetched
  publish_fetched-IsRunning code zone_url routes (err e) s h = h
  publish_fetched-IsRunning code zone_url routes (ok orbit_routes) s h =
      publish_routes-IsRunning zone_url orbit_routes routes s h

  publish_groups-IsRunning :
      (zone_urls : List (String × String)) (groups : List (String × List RouteRefreshPair))
      (s : Refreshing W)
      → IsRunning s
      → IsRunning (publish_groups d zone_urls groups s).1
  unfolding publish_groups
  publish_groups-IsRunning zone_urls [] s h = h
  publish_groups-IsRunning zone_urls ((code, routes) ∷ groups) s h =
      let kept =
        publish_fetched-IsRunning code (url_or_empty d (url_of code zone_urls)) routes
          (fetch_orbit_routes d code s.world).0 _ (at_world-IsRunning _ s h) in
      unless_error-IsRunning _ (publish_groups d zone_urls groups) _ kept
        (publish_groups-IsRunning zone_urls groups _ kept)

  publish_stale-IsRunning :
      (today : Date) (selected : List (String × String))
      (r : GoResult (List TripDetailsStageMetadata)) (s : Refreshing W)
      → IsRunning s
      → IsRunning (publish_stale d today selected r s).1
  unfolding publish_stale
  publish_stale-IsRunning today selected (err e) s h = h
  publish_stale-IsRunning today selected (ok rows) s h =
      publish_groups-IsRunning selected (future_route_pairs today selected rows) s h

  run_selected-IsRunning :
      (now : ℕ) (today : Date) (r : GoResult (List (String × String))) (s : Refreshing W)
      → IsRunning s
      → IsRunning (run_selected d now today r s).1
  unfolding run_selected
  run_selected-IsRunning now today (err e) s h = h
  run_selected-IsRunning now today (ok selected) s h =
      publish_stale-IsRunning today selected _ _ (at_world-IsRunning _ s h)

  run_operators-IsRunning :
      (now : ℕ) (today : Date) (r : GoResult (List Operator)) (s : Refreshing W)
      → IsRunning s
      → IsRunning (run_operators d now today r s).1
  unfolding run_operators
  run_operators-IsRunning now today (err e) s h = h
  run_operators-IsRunning now today (ok operators) s h =
      run_selected-IsRunning now today (select_operators d.getenv operators []) s h

  run_locked-IsRunning : (s : Refreshing W) → IsRunning s → IsRunning (run_locked d s).1
  unfolding run_locked
  run_locked-IsRunning s h = run_operators-IsRunning _ _ _ _ (at_world-IsRunning _ s h)

  -- What a run leaves: the calls in order, the mutex as it was, and nothing done when it was held.
  pub record IsRun (s s' : Refreshing W) : Type 0 where
    pub orderly : IsOrderly s'.log
    pub released : s'.locked ≡ s.locked
    pub alone : s.locked ≡ true → s' ≡ s

  -- A run of the route refresh leaves its mutex as it was and does nothing when another run holds it.
  -- When the calls before it are in order, so are its own: a message is sent only directly after the
  -- row of its job, with its reference and its payload, was saved, a row is marked queued only
  -- directly after its message was sent, and marked dead only directly after it was saved or its
  -- message could not be sent.
  pub run-IsRun : (s : Refreshing W) → IsOrderly s.log → IsRun s (run d s).1
  unfolding run
  run-IsRun s h = go d.configured s.locked refl
    where
      ran : IsRunning (run_locked d (record s { locked = true })).1
      ran = run_locked-IsRunning _ (record { orderly = h; held = refl })

      ended : Bool → Bool → Option GoError × Refreshing W
      ended a b =
          if not a
          then (some (other "Orbit route refresh is not configured"), s)
          else if b
          then (some (other "Orbit route refresh is already running"), s)
          else (
            (run_locked d (record s { locked = true })).0,
            record (run_locked d (record s { locked = true })).1 { locked = false },
          )

      go : (a b : Bool) → s.locked ≡ b → IsRun s (ended a b).1
      go false b q = record { orderly = h; released = refl; alone = λ p. refl }
      go true true q = record { orderly = h; released = refl; alone = λ p. refl }
      go true false q = record {
        orderly = ran.orderly;
        released = sym q;
        alone = λ p. absurd (cc (p, q));
      }
