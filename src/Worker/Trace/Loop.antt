-- ===== src/Worker/Trace/Loop.antt =====
-- The rule for the retry loop of Handle: what holds when an attempt begins, after it, and at the end
-- (orbitplusworker/internal/application/worker/worker.go).
use orbitplus.Common.{
  ℕ, zero, suc, ◌+◌, ◌-◌, ◌≤◌, ◌<◌, ◌≡◌, ◌≢◌, refl, inl, inr, Bool, true, false, not, ◌||◌, Option,
  none, some, List, [], ◌∷◌, ℤ, ◌==◌, get_elem?, length, arith, Bool-cases,
}
use mathlib.Core.Path.{sym, subst}
use orbitplus.Common.Date.{Date}
use orbitplus.Common.Int.{pos_part}
use orbitplus.Worker.Errors.{GoError, GoResult, ok, err}
use orbitplus.Worker.Message.{TripDetailsRefreshMessage}
use orbitplus.Worker.Deps.{
  Deps, Codec, unset, ExecutionResult, ExecutionStatus, acknowledged, invalid_envelope,
}
use orbitplus.Worker.Exec.{Event, waited, M, call, look}
use orbitplus.Worker.Await.{wait_for_retry}
use orbitplus.Worker.Attempt.{Attempt, process_once}
use orbitplus.Worker.Handle.{
  WorkerConfig, validate_config, acknowledge, report_failure, retry_after, retry_or_report,
  conclude, after_attempt, attempt_loop, cancelled_with, acknowledged_with, parse_message,
  handle_parsed, handle,
}
use orbitplus.Worker.Trace.{
  Post, Triple, Triple-pure, Triple-call, Triple-look, Triple-bind, Triple-error, Triple-weaken,
  start,
}

-- There is one delay for each retry.
abbrev pub HasDelays : WorkerConfig → Type 0
HasDelays config = length config.retry_delays + 1 ≡ pos_part config.max_attempts

pub validate_config-HasDelays :
    (config : WorkerConfig) → validate_config config ≡ none → HasDelays config
unfolding validate_config
validate_config-HasDelays config h = ground arith

validate_config-positive :
    (config : WorkerConfig) → validate_config config ≡ none → 0 < pos_part config.max_attempts
unfolding validate_config
validate_config-positive config h = ground arith

get_elem?-some : (ds : List ℤ) (i : ℕ) → i < length ds → (delay : ℤ) × (get_elem? ds i ≡ some delay)
get_elem?-some [] i h = elim h [ ]
get_elem?-some (x ∷ ds) zero h = (x, refl)
get_elem?-some (x ∷ ds) (suc i) h = get_elem?-some ds i (omega arith)

may_go : (retry : Bool) (n k : ℕ) → (not retry || n == k) ≡ false → (retry ≡ true) × (n ≢ k)
may_go retry n k h = ground arith

-- What one theorem needs of the attempts of a run: `I n` when attempt number n begins, `R n a` when
-- it has ended as `a`, and `Q` at the end.
pub record IsLoop {W : Type 0} (d : Deps W) (c : Codec) (polls : ℕ) (config : WorkerConfig)
    (m : TripDetailsRefreshMessage) (I : ℕ → List Event → Type 0)
    (R : ℕ → Attempt → List Event → Type 0) (Q : ExecutionResult → List Event → Type 0)
    : Type 0 where
  pub attempt :
      (n : ℕ) → n ≤ pos_part config.max_attempts → Triple (I n) (process_once d c polls m) (R n)
  pub delivered :
      (n : ℕ) (a : Attempt)
      → a.failure ≡ none
      → Triple
          (R n a)
          (acknowledge d c polls a.status (acknowledged_with acknowledged a.status none))
          Q
  pub reported :
      (n : ℕ) (a : Attempt) (f : ExecutionStatus)
      → a.failure ≡ some f
      → Triple (R n a) (report_failure d c polls config m a) Q
  pub cancelled :
      (n : ℕ) (a : Attempt) (f : ExecutionStatus) (e : GoError) (t : List Event)
      → a.failure ≡ some f
      → R n a t
      → Q (cancelled_with a.status e) t
  pub wait_cancelled :
      (n : ℕ) (a : Attempt) (f : ExecutionStatus) (delay : ℤ) (e : GoError) (t : List Event)
      → a.failure ≡ some f
      → R n a t
      → Q (cancelled_with a.status e) (waited delay (some e) ∷ t)
  pub again :
      (n : ℕ) (a : Attempt) (f : ExecutionStatus) (delay : ℤ) (t : List Event)
      → a.failure ≡ some f
      → a.may_retry ≡ true
      → R n a t
      → I (suc n) (waited delay none ∷ t)

module _ {W : Type 0} {I : ℕ → List Event → Type 0} {R : ℕ → Attempt → List Event → Type 0}
    {Q : ExecutionResult → List Event → Type 0} (d : Deps W) (c : Codec) (polls : ℕ)
    (config : WorkerConfig) (m : TripDetailsRefreshMessage)
    (rules : IsLoop d c polls config m I R Q) (delays : HasDelays config) where
  abbrev Waited : ℕ → Attempt → ℤ → Option GoError → List Event → Type 0
  Waited n a delay none t = I (suc n) t
  Waited n a delay (some e) t = Q (cancelled_with a.status e) t

  waited_lem :
      (n : ℕ) (a : Attempt) (f : ExecutionStatus) (delay : ℤ)
      → a.failure ≡ some f
      → a.may_retry ≡ true
      → (r : Option GoError) (t : List Event) → R n a t
      → Waited n a delay r (waited delay r ∷ t)
  waited_lem n a f delay ef retry none t r = rules.again n a f delay t ef retry r
  waited_lem n a f delay ef retry (some e) t r = rules.wait_cancelled n a f delay e t ef r

  retry_after_lem :
      (next : M W ExecutionResult) (n : ℕ) (a : Attempt) (f : ExecutionStatus) (delay : ℤ)
      → a.failure ≡ some f
      → a.may_retry ≡ true
      → Triple (I (suc n)) next Q
      → Triple (R n a) (retry_after d c polls config m next a (some delay)) Q
  unfolding retry_after wait_for_retry
  retry_after_lem next n a f delay ef retry h =
      Triple-bind (Waited n a delay) (call (d.wait delay) (waited delay)) _
        (Triple-call (d.wait delay) (waited delay) (waited_lem n a f delay ef retry))
        λ w. Triple-error (Waited n a delay) w _ _ (λ e. Triple-pure _ (λ t q. q)) h

  retry_or_report_lem :
      (next : M W ExecutionResult) (n : ℕ) (a : Attempt) (f : ExecutionStatus)
      → a.failure ≡ some f
      → 0 < n
      → n ≤ pos_part config.max_attempts
      → (n < pos_part config.max_attempts → Triple (I (suc n)) next Q)
      → Triple (R n a) (retry_or_report d c polls config m next n a) Q
  unfolding retry_or_report
  retry_or_report_lem next n a f ef p le h =
      elim (Bool-cases (not a.may_retry || n == pos_part config.max_attempts)) [
        | inl stop ↦ simp stop (rules.reported n a f ef)
        | inr go ↦
            let (retry, more) = may_go a.may_retry n (pos_part config.max_attempts) go in
            let (delay, e) = get_elem?-some config.retry_delays (n - 1) (omega arith) in
            simp (go, e) (retry_after_lem next n a f delay ef retry (h (omega arith)))
      ]

  conclude_lem :
      (next : M W ExecutionResult) (n : ℕ) (a : Attempt) (o : Option ExecutionStatus)
      → a.failure ≡ o
      → 0 < n
      → n ≤ pos_part config.max_attempts
      → (n < pos_part config.max_attempts → Triple (I (suc n)) next Q)
      → Triple (R n a) (conclude d c polls config m next n a o) Q
  unfolding conclude
  conclude_lem next n a none e p le h = rules.delivered n a e
  conclude_lem next n a (some f) e p le h =
      Triple-bind (λ x. R n a) (look d.ctx_err) _ (Triple-look d.ctx_err (λ x t r. r))
        λ x.
          Triple-error (λ y. R n a) x _ _
            (λ y. Triple-pure _ (λ t r. rules.cancelled n a f y t e r))
            (retry_or_report_lem next n a f e p le h)

  -- The loop from attempt number `n`, with enough rounds left for the attempts that remain.
  pub attempt_loop_lem :
      (left n : ℕ)
      → 0 < n
      → n + left ≡ suc (pos_part config.max_attempts)
      → 0 < left
      → Triple (I n) (attempt_loop d c polls config m left n) Q
  unfolding attempt_loop after_attempt
  attempt_loop_lem zero n p e q = absurd (omega arith)
  attempt_loop_lem (suc left) n p e q =
      Triple-bind (R n) (process_once d c polls m) _ (rules.attempt n (omega arith)) λ a.
        conclude_lem (attempt_loop d c polls config m left (suc n)) n a a.failure refl p
          (omega arith)
          λ lt. attempt_loop_lem left (suc n) (omega arith) (omega arith) (omega arith)

module _ {W : Type 0} (Q : ExecutionResult → List Event → Type 0) (d : Deps W) (c : Codec)
    (polls : ℕ) (config : WorkerConfig) (valid : validate_config config ≡ none) (today : Date)
    (decoded : GoResult TripDetailsRefreshMessage) where
  -- A run of Handle, from the message that it parses or the error that it discards.
  pub handle_lem :
      {I : ℕ → List Event → Type 0} {R : ℕ → Attempt → List Event → Type 0} (w : W)
      → ((e : GoError) → Q (cancelled_with unset e) [])
      → ((e : GoError)
          → parse_message today decoded ≡ err e
          → Triple
              (λ t. t ≡ [])
              (acknowledge d c polls unset (acknowledged_with invalid_envelope unset (some e)))
              Q)
      → ((m : TripDetailsRefreshMessage)
          → parse_message today decoded ≡ ok m
          → I 1 [] × IsLoop d c polls config m I R Q)
      → Post Q (handle d c polls config today decoded (start w))
  unfolding handle handle_parsed
  handle_lem {I = I} w cancelled discarded rules =
      (Triple-bind {P = λ t. t ≡ []} (λ x t. t ≡ []) (look d.ctx_err) _
          (Triple-look d.ctx_err (λ x t e. e))
          λ x.
            Triple-error (λ y t. t ≡ []) x _ _
              (λ e.
                Triple-pure (cancelled_with unset e)
                  (λ t q. subst (Q (cancelled_with unset e)) (sym q) (cancelled e)))
              (parsed (parse_message today decoded) refl)).at
        (start w) refl
    where
      parsed :
          (r : GoResult TripDetailsRefreshMessage)
          → parse_message today decoded ≡ r
          → Triple (λ t. t ≡ []) (handle_parsed d c polls config r) Q
      parsed (err e) eq = discarded e eq
      parsed (ok m) eq =
          let (begin, loop) = rules m eq in
          let positive = validate_config-positive config valid in
          Triple-weaken _
            (attempt_loop_lem d c polls config m loop (validate_config-HasDelays config valid)
              (pos_part config.max_attempts) 1 (omega arith) (omega arith) positive)
            (λ t q. subst (I 1) (sym q) begin) (λ a t q. q)
