-- ===== src/Master/Errors.antt =====
-- The `error` values of trip details persistence and reading
-- (orbitplus/internal/application/master, the tripdetails_*.go files).
use orbitplus.Common.{String, Option, none, some}

pub data GoError : Type 0 where
  missing_storage_identifiers : GoError  -- errMissingStorageIdentifiers
  not_found : GoError  -- ErrTripDetailsNotFound
  other : String → GoError  -- an error of another package, or one fixed text
  wrapped : String → GoError → GoError  -- fmt.Errorf("...: %w", err)

pub data GoResult (A : Type 0) : Type 0 where
  ok : A → GoResult A
  err : GoError → GoResult A

infixl 5 ◌>>=◌ ◌>>◌
abbrev pub ◌>>=◌ : {A B : Type 0} → GoResult A → (A → GoResult B) → GoResult B
ok a >>= f = f a
err e >>= f = err e

-- `if err := step; err != nil { return err }`
abbrev pub ◌>>◌ : {B : Type 0} → Option GoError → GoResult B → GoResult B
none >> k = k
some e >> k = err e
