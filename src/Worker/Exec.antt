-- ===== src/Worker/Exec.antt =====
-- The effects of the worker: a step runs in the world of `Deps`, and every call of a dependency is
-- also noted in a trace, newest first, which no step reads.
use orbitplus.Common.{String, Option, none, some, List, ◌∷◌, ℤ}
use orbitplus.Worker.Errors.{GoError, GoResult, ok, err}
use orbitplus.Worker.Deps.{OperatorCredential, OrbitPlusStatus, AcquireReply}

-- A call of a dependency with what it returned.
pub data Event : Type 0 where
  credential : String → GoResult OperatorCredential → Event
  health : Option GoError → Event
  acquired : String → AcquireReply → Event
  waited : ℤ → Option GoError → Event
  fetched : String → GoResult String → Event
  pushed : String → GoResult OrbitPlusStatus → Event
  dlq : String → Option GoError → Event
  acked : Option GoError → Event

pub record Run (W : Type 0) : Type 0 where
  pub world : W
  pub trace : List Event

-- `exhausted`: the polls given to a rate-limit loop ran out. `panicked`: an index out of range.
pub data Step (W A : Type 0) : Type 0 where
  done : A → Run W → Step W A
  exhausted : Step W A
  panicked : Step W A

abbrev pub M : Type 0 → Type 0 → Type 0
M W A = Run W → Step W A

module _ {W A : Type 0} where
  abbrev pub pure : A → M W A
  pure a s = done a s

  -- Call a dependency and note the call.
  abbrev pub call : (W → A × W) → (A → Event) → M W A
  call f note s = let (a, w) = f s.world in done a (record { world = w; trace = note a ∷ s.trace })

  abbrev pub look : (W → A) → M W A
  look f s = done (f s.world) s

module _ {W A B : Type 0} where
  abbrev pub continue : Step W A → (A → M W B) → Step W B
  continue (done a s) f = f a s
  continue exhausted f = exhausted
  continue panicked f = panicked

  infixl 5 ◌>>=◌
  abbrev pub ◌>>=◌ : M W A → (A → M W B) → M W B
  ◌>>=◌ m f s = continue (m s) f

-- `value, err := m; if err != nil { return fail(err) }`
module _ {W A B : Type 0} where
  abbrev pub on_result : GoResult A → (GoError → M W B) → (A → M W B) → M W B
  on_result (ok a) fail f = f a
  on_result (err e) fail f = fail e

module _ {W B : Type 0} where
  abbrev pub on_error : Option GoError → (GoError → M W B) → M W B → M W B
  on_error none fail k = k
  on_error (some e) fail k = fail e
