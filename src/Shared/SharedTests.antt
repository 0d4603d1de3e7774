-- ===== src/Shared/SharedTests.antt =====
-- The theorems about the shared quota, at a server that is a function from keys to counters.
use orbitplus.Common.{
  Option, none, some, ◌⊎◌, ◌≤◌, ℕ, suc, ◌-◌, min, String, ◌≡◌, refl, List, true, [], ◌∷◌, pos,
  str_eq, eq_refl, if◌then◌else◌,
}
use orbitplus.Common.Int.{pos_part}
use orbitplus.Worker.RateLimit.{RateLimitPolicy, limit, enabled}
use orbitplus.Worker.Deps.{over_quota}
use orbitplus.Common.Text.{trim_left, trim_right, is_space, trim_space, is_blank}
use orbitplus.Common.Pieces.{cut, cut_last, split}
use orbitplus.Worker.Errors.{ok}
use orbitplus.Worker.Config.{
  Parsers, put_override, window_of, hits_of, filled, parse_cut, parse_rate_limit, parse_pair,
  parse_piece, parse_pieces, parse_rate_limit_overrides, apply_default, apply_overrides,
  apply_rate_limit,
}
use orbitplus.Shared.Expiry.{no_limits, apply_rate_limit-expiry}
use orbitplus.Shared.{Dragonfly, milliseconds}
use orbitplus.Shared.Distributed.{
  rate_limit_script, run_script, read_reply, retry_after_millis, acquire_enabled, acquire_at,
  acquire_distributed,
}
use orbitplus.Shared.Live.{acquire_live}
use orbitplus.Shared.Equal.{live_of_policy, live_of_reply, acquire_live-distributed}
use orbitplus.Shared.Quota.{
  SharedCall, worker, master, IsCounting, granted_calls, zone_calls, key, granted_calls-min,
}

abbrev Counters : Type 0
Counters = String → ℕ

-- Every window has 7 milliseconds left.
abbrev server : Dragonfly Counters
server = record {
  reachable = λ s. true;
  answers = λ s. true;
  incr = λ k s. (pos (suc (s k)), λ j. if str_eq k j then suc (s k) else s j);
  pexpire = λ k window s. s;
  pttl = λ k s. pos 7;
}

abbrev stored : String → Counters → ℕ
stored k s = s k

server-IsCounting : IsCounting server stored
server-IsCounting = record {
  reachable = λ s. refl;
  answers = λ s. refl;
  incr_reply = λ k s. refl;
  incr_count = λ k s. rw (eq_refl k) refl;
  incr_other = λ j k s h. rw h refl;
  pexpire_count = λ j k window s. refl;
}

abbrev policy : RateLimitPolicy
policy = record {
  default = record { hits = pos 2; window = pos 9000000 };
  overrides = ("free", record { hits = pos 0; window = pos 0 }) ∷ [];
}

abbrev unused : Counters
unused k = 0

abbrev used_up : Counters
used_up k = 2

used_up-over_quota : (acquire_distributed server policy "z" used_up).0 ≡ over_quota (pos 7000000)
unfolding rate_limit_script run_script read_reply retry_after_millis acquire_enabled acquire_at
    acquire_distributed limit enabled
used_up-over_quota = refl

acquire_live-distributed_example : acquire_live server (live_of_policy policy) "z" used_up ≡ (
  live_of_reply (acquire_distributed server policy "z" used_up).0,
  (acquire_distributed server policy "z" used_up).1,
)
acquire_live-distributed_example = acquire_live-distributed server policy "z" used_up

abbrev calls : List SharedCall
calls =
    record { client = worker; zone = "z" }
    ∷ record { client = master; zone = "free" }
    ∷ record { client = master; zone = "z" }
    ∷ record { client = worker; zone = "z" }
    ∷ []

z-enabled : enabled (limit policy "z") ≡ true
unfolding limit enabled
z-enabled = refl

granted_calls-min_example :
    granted_calls server policy "z" calls unused
    ≡ min (pos_part (limit policy "z").hits - stored (key "z") unused) (zone_calls "z" calls)
granted_calls-min_example =
    granted_calls-min server stored server-IsCounting policy "z" calls unused z-enabled

-- "2" is a number, and "9ms" is a duration.
abbrev parsers : Parsers
parsers = record {
  atoi = λ s. if str_eq s "2" then some (pos 2) else none;
  parse_duration = λ s. if str_eq s "9ms" then some (pos 9000000) else none;
}

abbrev lookup : String → Option String
lookup name =
    if str_eq name "WORKER_BITS_RATE_LIMIT_OVERRIDES" then some "z?a=b = 2/9ms ,," else none

abbrev read_policy : RateLimitPolicy
read_policy = record {
  default = no_limits.default;
  overrides = ("z?a=b", record { hits = pos 2; window = pos 9000000 }) ∷ [];
}

apply_rate_limit_runs : apply_rate_limit parsers lookup no_limits ≡ ok read_policy
unfolding put_override window_of hits_of filled parse_cut parse_rate_limit parse_pair parse_piece
    parse_pieces parse_rate_limit_overrides apply_default apply_overrides apply_rate_limit trim_left
    trim_right is_space trim_space is_blank cut cut_last split
apply_rate_limit_runs = refl

apply_rate_limit-expiry_example :
    (limit read_policy "z?a=b" ≡ no_limits.default)
    ⊎ ((enabled (limit read_policy "z?a=b") ≡ true)
        × (1 ≤ pos_part (milliseconds (limit read_policy "z?a=b").window)))
apply_rate_limit-expiry_example =
    apply_rate_limit-expiry parsers lookup read_policy "z?a=b" apply_rate_limit_runs
