-- ===== src/Worker/Errors.antt =====
-- The `error` values of the worker (internal/application/worker/retry.go and the `fmt.Errorf` calls
-- of the worker and its domain package), one constructor for each text.
use orbitplus.Common.{ℕ, String, Bool, true, false, Option, none, some}

pub data GoError : Type 0 where
  retryable : String → GoError  -- *RetryableError
  canceled : GoError  -- context.Canceled
  deadline_exceeded : GoError  -- context.DeadlineExceeded
  invalid_config : String → GoError  -- wraps ErrInvalidConfig
  other : String → GoError  -- an error of another package, or one fixed text
  missing : String → GoError  -- "missing %s"
  missing_for : String → String → GoError  -- "missing %s for actionType: %s"
  unsupported_action : String → GoError  -- "unsupported actionType: %s"
  bad_date : String → GoError  -- "%s must use YYYY-MM-DD format"
  past_date : String → GoError  -- "%s cannot be in the past"
  mismatch : String → String → String → GoError  -- "%s is %q, expected %q"
  wrapped : String → GoError → GoError  -- fmt.Errorf("...: %w", err)
  wrapped_at : String → ℕ → GoError → GoError  -- the same with an entry's index
  at_entry : String → ℕ → GoError  -- a fixed text with an entry's index

-- errors.As(err, &retryableError)
unfoldable pub is_retryable_error : GoError → Bool
is_retryable_error (retryable m) = true
is_retryable_error (wrapped m e) = is_retryable_error e
is_retryable_error (wrapped_at m i e) = is_retryable_error e
is_retryable_error _ = false

-- errors.Is(err, context.Canceled) || errors.Is(err, context.DeadlineExceeded)
unfoldable pub is_cancellation : GoError → Bool
is_cancellation canceled = true
is_cancellation deadline_exceeded = true
is_cancellation (wrapped m e) = is_cancellation e
is_cancellation (wrapped_at m i e) = is_cancellation e
is_cancellation _ = false

-- A pair `(value, error)` of which one half counts.
pub data GoResult (A : Type 0) : Type 0 where
  ok : A → GoResult A
  err : GoError → GoResult A

infixl 5 ◌>>=◌ ◌>>◌
abbrev pub ◌>>=◌ : {A B : Type 0} → GoResult A → (A → GoResult B) → GoResult B
ok a >>= f = f a
err e >>= f = err e

-- fmt.Errorf("...: %w", err) on the error of a result
abbrev pub wrap_error : {A : Type 0} → String → GoResult A → GoResult A
wrap_error m (ok a) = ok a
wrap_error m (err e) = err (wrapped m e)

-- `if err := step; err != nil { return err }`
abbrev pub ◌>>◌ : {B : Type 0} → Option GoError → GoResult B → GoResult B
none >> k = k
some e >> k = err e
