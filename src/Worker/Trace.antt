-- ===== src/Worker/Trace.antt =====
-- What the calls of a run are counted by, and assertions on the trace of calls before and after a
-- step of the worker, with one rule for each way to build a step.
pub mod Work
pub mod Once
pub mod Source
pub mod Finish
pub mod Loop
pub mod Quota
pub mod Delivery
pub mod Gate
pub mod Total
use orbitplus.Common.{
  ℕ, Bool, true, false, ◌≡◌, refl, Option, none, some, List, [], ◌∷◌, count, if◌then◌else◌,
}
use mathlib.Core.Path.{subst}
use orbitplus.Worker.Errors.{GoError, GoResult, ok, err}
use orbitplus.Worker.Deps.{AcquireReply, granted, over_quota, failed}
use orbitplus.Worker.Exec.{
  Event, credential, health, acquired, waited, fetched, pushed, dlq, acked, Run, Step, done,
  exhausted, panicked, M, pure, call, look, ◌>>=◌, continue, on_result, on_error,
}

-- The zone's limiter let a request pass: it granted a slot, or it failed, and the worker fails open.
abbrev pub is_slot : Event → Bool
is_slot (acquired z granted) = true
is_slot (acquired z (failed e)) = true
is_slot _ = false

abbrev pub is_fetch : Event → Bool
is_fetch (fetched a r) = true
is_fetch _ = false

abbrev pub is_credential : Event → Bool
is_credential (credential o r) = true
is_credential _ = false

abbrev pub is_ack : Event → Bool
is_ack (acked r) = true
is_ack _ = false

abbrev pub is_good_ack : Event → Bool
is_good_ack (acked none) = true
is_good_ack _ = false

abbrev pub is_dlq : Event → Bool
is_dlq (dlq r e) = true
is_dlq _ = false

abbrev pub slots : List Event → ℕ
slots = count is_slot

abbrev pub fetches : List Event → ℕ
fetches = count is_fetch

abbrev pub credentials : List Event → ℕ
credentials = count is_credential

abbrev pub acks : List Event → ℕ
acks = count is_ack

abbrev pub good_acks : List Event → ℕ
good_acks = count is_good_ack

abbrev pub dlqs : List Event → ℕ
dlqs = count is_dlq

-- The worker takes up a delivery: nothing has been called yet.
abbrev pub start : {W : Type 0} → W → Run W
start w = record { world = w; trace = [] }

-- A run that runs out of polls has no result, and none of the runs may panic.
abbrev pub Post : {W A : Type 0} → (A → List Event → Type 0) → Step W A → Type 0
Post Q (done a s) = Q a s.trace
Post Q exhausted = Unit
Post Q panicked = ⊥

pub record Triple {W A : Type 0} (P : List Event → Type 0) (m : M W A) (Q : A → List Event → Type 0)
    : Type 0 where
  pub at : (s : Run W) → P s.trace → Post Q (m s)

-- `P` holds after the step if it holds before.
abbrev pub Keeps : {W A : Type 0} → (List Event → Type 0) → M W A → Type 0
Keeps P m = Triple P m (λ a. P)

module _ {W A : Type 0} {P : List Event → Type 0} {Q : A → List Event → Type 0} where
  pub Triple-pure : (a : A) → ((t : List Event) → P t → Q a t) → Triple {W = W} P (pure a) Q
  Triple-pure a h = record { at = λ s p. h s.trace p }

  pub Triple-call :
      (f : W → A × W) (note : A → Event)
      → ((a : A) (t : List Event) → P t → Q a (note a ∷ t))
      → Triple P (call f note) Q
  Triple-call f note h = record { at = λ s p. h (f s.world).0 s.trace p }

  pub Triple-look : (f : W → A) → ((a : A) (t : List Event) → P t → Q a t) → Triple P (look f) Q
  Triple-look f h = record { at = λ s p. h (f s.world) s.trace p }

  pub Triple-if :
      (b : Bool) (m n : M W A) → Triple P m Q → Triple P n Q → Triple P (if b then m else n) Q
  Triple-if true m n hm hn = hm
  Triple-if false m n hm hn = hn

  pub Triple-weaken :
      {P' : List Event → Type 0} {Q' : A → List Event → Type 0} (m : M W A)
      → Triple P' m Q'
      → ((t : List Event) → P t → P' t)
      → ((a : A) (t : List Event) → Q' a t → Q a t)
      → Triple P m Q
  Triple-weaken {Q' = Q'} m h pre post = record { at = λ s p. go (m s) (h.at s (pre s.trace p)) }
    where
      go : (r : Step W A) → Post Q' r → Post Q r
      go (done a s) q = post a s.trace q
      go exhausted q = tt
      go panicked q = q

module _ {W A B : Type 0} {Q : B → List Event → Type 0} where
  Post-continue :
      {R : A → List Event → Type 0} (f : A → M W B)
      → ((a : A) → Triple (R a) (f a) Q)
      → (r : Step W A) → Post R r
      → Post Q (continue r f)
  Post-continue f h (done a s) p = (h a).at s p
  Post-continue f h exhausted p = tt
  Post-continue f h panicked p = p

module _ {W A B : Type 0} {P : List Event → Type 0} {Q : B → List Event → Type 0} where
  pub Triple-bind :
      (R : A → List Event → Type 0) (m : M W A) (f : A → M W B)
      → Triple P m R
      → ((a : A) → Triple (R a) (f a) Q)
      → Triple P (m >>= f) Q
  Triple-bind R m f hm hf = record { at = λ s p. Post-continue f hf (m s) (hm.at s p) }

-- The precondition of the rest may depend on the result that is branched on.
module _ {W A B : Type 0} {Q : B → List Event → Type 0} where
  pub Triple-result :
      (P : GoResult A → List Event → Type 0) (r : GoResult A) (fail : GoError → M W B)
      (f : A → M W B)
      → ((e : GoError) → Triple (P (err e)) (fail e) Q)
      → ((a : A) → Triple (P (ok a)) (f a) Q)
      → Triple (P r) (on_result r fail f) Q
  Triple-result P (ok a) fail f he hf = hf a
  Triple-result P (err e) fail f he hf = he e

module _ {W B : Type 0} {Q : B → List Event → Type 0} where
  pub Triple-error :
      (P : Option GoError → List Event → Type 0) (r : Option GoError) (fail : GoError → M W B)
      (k : M W B)
      → ((e : GoError) → Triple (P (some e)) (fail e) Q)
      → Triple (P none) k Q
      → Triple (P r) (on_error r fail k) Q
  Triple-error P none fail k he hk = hk
  Triple-error P (some e) fail k he hk = he e

-- What an assertion says of a run that has ended.
pub Post-done :
    {W A : Type 0} (Q : A → List Event → Type 0) (r : Step W A) {a : A} {s : Run W}
    → r ≡ done a s
    → Post Q r
    → Q a s.trace
Post-done Q r e p = subst (Post Q) e p
