-- ===== src/Worker/Settings.antt =====
-- Single settings of the worker's environment, and the rules for the addresses it talks to
-- (orbitplusworker/internal/application/worker/config.go). A function that sets a target takes its
-- old value and returns the new one. os.ReadFile, url.Parse and net.ParseIP are parameters.
use Prim.Native.String.{◌++◌}
use orbitplus.Common.{String, Bool, Option, none, some, List, [], ◌∷◌, ℤ, pos, ◌&&◌, if◌then◌else◌}
use orbitplus.Common.Int.{is_positive, le_int}
use orbitplus.Common.Text.{is_empty, is_blank, trim_space}
use orbitplus.Common.Pieces.{split}
use orbitplus.Worker.Errors.{GoError, other, wrapped, GoResult, ok, err, ◌>>=◌}
use orbitplus.Worker.Config.{Parsers, filled}

unfoldable pub positive_or : GoError → Option ℤ → GoResult ℤ
positive_or e none = err e
positive_or e (some n) = if is_positive n then ok n else err e

-- setPositiveInt
unfoldable pub set_positive_int : Parsers → Option String → String → ℤ → GoResult ℤ
set_positive_int p none name target = ok target
set_positive_int p (some value) name target =
    positive_or (other (name ++ " must be a positive integer")) (p.atoi value)

-- setPositiveDuration
unfoldable pub set_positive_duration : Parsers → Option String → String → ℤ → GoResult ℤ
set_positive_duration p none name target = ok target
set_positive_duration p (some value) name target =
    if is_empty value
    then ok target
    else positive_or (other (name ++ " must be a positive duration")) (p.parse_duration value)

unfoldable pub parse_delays : Parsers → GoError → List String → GoResult (List ℤ)
parse_delays p e [] = ok []
parse_delays p e (value ∷ values) = positive_or e (p.parse_duration (trim_space value)) >>= λ delay.
    parse_delays p e values >>= λ delays. ok (delay ∷ delays)

-- setRetryDelays; 44 is ",".
unfoldable pub set_retry_delays : Parsers → Option String → String → List ℤ → GoResult (List ℤ)
set_retry_delays p none name target = ok target
set_retry_delays p (some value) name target =
    if is_blank value
    then ok target
    else parse_delays p (other (name ++ " must be comma-separated positive durations"))
        (split 44 value)

unfoldable pub is_port : ℤ → Bool
is_port n = le_int (pos 1) n && le_int n (pos 65535)

unfoldable pub port_or : GoError → Option ℤ → GoResult ℤ
port_or e none = err e
port_or e (some n) = if is_port n then ok n else err e

-- setTCPPort
unfoldable pub set_tcp_port : Parsers → Option String → String → ℤ → GoResult ℤ
set_tcp_port p none name target = ok target
set_tcp_port p (some value) name target =
    port_or (other (name ++ " must be an integer between 1 and 65535")) (p.atoi value)

unfoldable pub secret_of_contents : String → GoResult String → GoResult String
secret_of_contents file_name (err e) = err (wrapped ("read " ++ file_name) e)
secret_of_contents file_name (ok contents) =
    if is_blank contents then err (other (file_name ++ " is empty")) else ok (trim_space contents)

unfoldable pub choose_secret :
    (String → GoResult String)
    → String
    → String
    → Option String
    → Option String
    → String
    → GoResult String
choose_secret read_file name file_name (some value) (some path) target =
    err (other (name ++ " and " ++ file_name ++ " are mutually exclusive"))
choose_secret read_file name file_name (some value) none target = ok value
choose_secret read_file name file_name none (some path) target =
    secret_of_contents file_name (read_file path)
choose_secret read_file name file_name none none target = ok target

-- loadSecret
unfoldable pub load_secret :
    (String → GoResult String)
    → (String → Option String)
    → String
    → String
    → String
    → GoResult String
load_secret read_file lookup name file_name target =
    choose_secret read_file name file_name (filled (lookup name)) (filled (lookup file_name)) target

pub record CacheConfig : Type 0 where
  pub address : String
  pub password : String
  pub database : ℤ
  pub dial_timeout : ℤ

unfoldable pub database_or : GoError → Option ℤ → GoResult ℤ
database_or e none = err e
database_or e (some n) = if le_int (pos 0) n then ok n else err e

unfoldable pub parse_database : Parsers → Option String → GoResult ℤ
parse_database p none = ok (pos 0)
parse_database p (some value) =
    database_or (other "DRAGONFLY_DATABASE must be a non-negative integer")
      (p.atoi (trim_space value))

abbrev or_empty : Option String → String
or_empty none = ""
or_empty (some s) = s

unfoldable pub cache_at :
    Parsers
    → (String → Option String)
    → Option String
    → Option CacheConfig
    → GoResult (Option CacheConfig)
cache_at p lookup none cache = ok cache
cache_at p lookup (some address) cache =
    set_positive_duration p (lookup "DRAGONFLY_CONNECTION_TIMEOUT") "DRAGONFLY_CONNECTION_TIMEOUT"
      (pos 5000000000)
    >>= λ timeout. parse_database p (filled (lookup "DRAGONFLY_DATABASE")) >>= λ database. ok (
        some (record {
          address = trim_space address;
          password = or_empty (lookup "DRAGONFLY_PASSWORD");
          database = database;
          dial_timeout = timeout;
        }))

-- applyCache
unfoldable pub apply_cache :
    Parsers → (String → Option String) → Option CacheConfig → GoResult (Option CacheConfig)
apply_cache p lookup cache = cache_at p lookup (filled (lookup "DRAGONFLY_ADDRESS")) cache
