-- ===== src/Shared.antt =====
-- The quota that the worker and the master share in Dragonfly: the script that both run, over the
-- server's commands (orbitplusworker/internal/infrastructure/dragonfly/rate_limiter.go and
-- orbitplus/internal/infrastructure/dragonfly/rate_limiter.go).
pub mod Distributed
pub mod Live
pub mod Equal
pub mod Quota
pub mod Expiry
mod SharedTests
use orbitplus.Common.{
  ℕ, zero, ◌/◌, String, Bool, true, false, Option, none, some, List, [], ◌∷◌, ℤ, pos, negsuc,
  if◌then◌else◌, suc,
}
use orbitplus.Common.Int.{le_int, is_positive}

-- The commands INCR, PEXPIRE and PTTL of a server with the state `S`, whether a script reaches
-- it and whether its reply comes back.
pub record Dragonfly (S : Type 0) : Type 0 where
  pub reachable : S → Bool
  pub answers : S → Bool
  pub incr : String → S → ℤ × S
  pub pexpire : String → ℤ → S → S
  pub pttl : String → S → ℤ

abbrev pub is_one : ℤ → Bool
is_one (pos (suc zero)) = true
is_one _ = false

-- Duration.Milliseconds of a window, which is positive.
unfoldable pub milliseconds : ℤ → ℤ
milliseconds (pos n) = pos (n / 1000000)
milliseconds (negsuc n) = pos 0
