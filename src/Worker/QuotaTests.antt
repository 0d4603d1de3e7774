-- ===== src/Worker/QuotaTests.antt =====
-- The limiter's theorems about waiting, at a small quota and a world that is a clock and the
-- limiter's windows.
use orbitplus.Common.{ℕ, ◌+◌, ◌≤◌, ◌≡◌, ◌≢◌, ◌↔◌, refl, true, none, some, [], ◌∷◌, arith, pos}
use orbitplus.Common.Int.{pos_part}
use orbitplus.Worker.Errors.{ok, err, other}
use orbitplus.Worker.RateLimit.{
  RateLimitPolicy, Windows, limit, enabled, acquire, blocked, is_allowed,
}
use orbitplus.Worker.RateLimit.Retry.{allowed-iff-retry_after}
use orbitplus.Worker.Deps.{Deps, accepted, ExecutionResult, Codec, end_of_input}
use orbitplus.Worker.Message.{TripDetailsRefreshMessage}
use orbitplus.Worker.Handle.{WorkerConfig, validate_config, handle}
use orbitplus.Worker.Trace.{start}
use orbitplus.Worker.Trace.Total.{handle-returns_alone}
use orbitplus.Worker.Exec.{Run, done, exhausted}
use orbitplus.Worker.Await.{await_zone_rate_limit}
use orbitplus.Worker.Await.Alone.{reply, IsAlone, await-two_polls}

abbrev quota : RateLimitPolicy
quota = record { default = record { hits = pos 2; window = pos 10 }; overrides = [] }

abbrev full : Windows
full z = some (record { start = 1; count = 2 })

full-blocked : (acquire quota 4 "z" full).0 ≡ blocked (pos 7)
unfolding acquire enabled limit
full-blocked = refl

allowed-iff-retry_after_example : (is_allowed (acquire quota 11 "z" full).0 ≡ true) ↔ (4 + 7 ≤ 11)
allowed-iff-retry_after_example =
    allowed-iff-retry_after quota 4 "z" full (pos 7) full-blocked 11 (omega arith)

abbrev World : Type 0
World = ℕ × Windows

-- The limiter and the timer are those of the world, and all else succeeds.
abbrev limiter_deps : Deps World
limiter_deps = record {
  ctx_err = λ w. none;
  wait = λ delay w. (none, (w.0 + pos_part delay, w.1));
  ack = λ w. (none, w);
  fetch_operator_credential =
      λ o w. (ok (record { operator_code = o; username = "u"; api_token = "t" }), w);
  check_health = λ w. (none, w);
  acquire = λ z w. (reply (acquire quota w.0 z w.1).0, (w.0, (acquire quota w.0 z w.1).1));
  fetch_trip_details = λ q w. (ok "T", w);
  send_trip_details = λ m b w. (ok accepted, w);
  send_dlq = λ r f w. (none, w);
}

limiter_deps-IsAlone : IsAlone quota limiter_deps
limiter_deps-IsAlone = record {
  clock = λ w. w.0;
  windows = λ w. w.1;
  acquires = λ z w. refl;
  keeps_windows = λ z w. refl;
  keeps_time = λ z w. omega arith;
  lasts = λ delay w e. omega arith;
  waits_alone = λ delay w. refl;
}

await-two_polls_example :
    await_zone_rate_limit limiter_deps 2 "z" (record { world = (4, full); trace = [] }) ≢ exhausted
await-two_polls_example =
    await-two_polls quota limiter_deps limiter_deps-IsAlone "z" 0
      (record { world = (4, full); trace = [] })

abbrev three_attempts : WorkerConfig
three_attempts = record {
  worker_concurrency = pos 1;
  max_attempts = pos 3;
  retry_delays = pos 2 ∷ pos 5 ∷ [];
}

three_attempts-valid : validate_config three_attempts ≡ none
unfolding validate_config
three_attempts-valid = refl

abbrev job : TripDetailsRefreshMessage
job = record {
  action_type = "busmap";
  reference_id = "R1";
  operator_code = "OP1";
  zone_url = "http://app.ezeebits.com";
  from_code = "";
  to_code = "";
  trip_date = "";
  trip_code = "T1";
  from_station_code = "A";
  to_station_code = "B";
  travel_date = "2026-08-20";
}

abbrev no_json : Codec
no_json = record { next_value = λ s. end_of_input; marshal = λ v. err (other "unused") }

-- The windows are full, so the request of the job has to wait.
handle-returns_alone_example :
    (r : ExecutionResult) × (s : Run World) × (handle limiter_deps no_json 2 three_attempts
        (record { year = 2026; month = 8; day = 13 })
        (ok job)
        (start (4, full))
      ≡ done r s)
handle-returns_alone_example =
    handle-returns_alone quota limiter_deps limiter_deps-IsAlone no_json 0 three_attempts
      (record { year = 2026; month = 8; day = 13 }) (ok job) (4, full) three_attempts-valid
