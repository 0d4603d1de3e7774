-- ===== src/Shared/Expiry.antt =====
-- The quotas that the worker reads from its environment, as the script of the shared limiter uses
-- them (orbitplusworker/internal/application/worker/config.go and
-- orbitplusworker/internal/infrastructure/dragonfly/rate_limiter.go).
use mathlib.Core.Path.{subst}
use orbitplus.Common.{
  ◌≤◌, String, ◌≡◌, refl, true, Option, none, some, List, [], ◌∷◌, ℤ, pos, negsuc, str_eq,
  Bool-cases, inl, inr, arith, All, ◌⊎◌,
}
use orbitplus.Common.Int.{le_int, pos_part, is_positive}
use orbitplus.Common.Text.{is_empty, is_blank, trim_space}
use orbitplus.Common.Pieces.{cut, cut_last, split}
use orbitplus.Worker.Errors.{GoResult, ok, err, wrap_error, ◌>>=◌}
use orbitplus.Worker.RateLimit.{RateLimit, enabled, RateLimitPolicy, limit, find_override}
use orbitplus.Worker.Config.{
  Parsers, millisecond, Overrides, put_override, window_of, hits_of, filled, parse_cut,
  parse_rate_limit, parse_pair, parse_piece, parse_pieces, parse_rate_limit_overrides,
  apply_default, apply_overrides, apply_rate_limit,
}
use orbitplus.Shared.{milliseconds}

-- The policy before the environment is read: no quota at all.
abbrev pub no_limits : RateLimitPolicy
no_limits = record { default = record { hits = pos 0; window = pos 0 }; overrides = [] }

-- An enabled quota whose counters get an expiry of a millisecond or more.
abbrev pub IsUsable : RateLimit → Type 0
IsUsable l = (enabled l ≡ true) × (1 ≤ pos_part (milliseconds l.window))

abbrev AreUsable : Overrides → Type 0
AreUsable = All (λ r. IsUsable r.1)

-- When there is a result, it satisfies `P`.
abbrev Returns : {A : Type 0} → (A → Type 0) → GoResult A → Type 0
Returns P (ok a) = P a
Returns P (err e) = Unit

Returns-bind :
    {A B : Type 0} (P : A → Type 0) (Q : B → Type 0) (r : GoResult A) (f : A → GoResult B)
    → Returns P r
    → ((a : A) → P a → Returns Q (f a))
    → Returns Q (r >>= f)
Returns-bind P Q (ok a) f p next = next a p
Returns-bind P Q (err e) f p next = tt

Returns-wrap :
    {A : Type 0} (P : A → Type 0) (m : String) (r : GoResult A)
    → Returns P r
    → Returns P (wrap_error m r)
Returns-wrap P m (ok a) p = p
Returns-wrap P m (err e) p = tt

milliseconds-positive :
    (w : ℤ) → le_int millisecond w ≡ true → (is_positive w ≡ true) × (1 ≤ pos_part (milliseconds w))
unfolding milliseconds
milliseconds-positive (pos n) h = ground arith
milliseconds-positive (negsuc n) h = ground arith

window_of-IsUsable :
    (hits : ℤ) (window : Option ℤ)
    → is_positive hits ≡ true
    → Returns IsUsable (window_of hits window)
unfolding window_of enabled
window_of-IsUsable hits none positive = tt
window_of-IsUsable hits (some w) positive = elim (Bool-cases (le_int millisecond w)) [
  | inr f ↦ rw f tt
  | inl t ↦ rw (t, positive, (milliseconds-positive w t).0) (refl, (milliseconds-positive w t).1)
]

hits_of-IsUsable : (hits window : Option ℤ) → Returns IsUsable (hits_of hits window)
unfolding hits_of
hits_of-IsUsable none window = tt
hits_of-IsUsable (some h) window = elim (Bool-cases (is_positive h)) [
  | inr f ↦ rw f tt
  | inl t ↦ rw t (window_of-IsUsable h window t)
]

put_override-AreUsable :
    (zone : String) (l : RateLimit) (o : Overrides)
    → IsUsable l
    → AreUsable o
    → AreUsable (put_override zone l o)
unfolding put_override
put_override-AreUsable zone l [] u us = (u, tt)
put_override-AreUsable zone l ((z, old) ∷ rest) u (v, us) = elim (Bool-cases (str_eq z zone)) [
  | inr f ↦ rw f (v, put_override-AreUsable zone l rest u us)
  | inl t ↦ rw t (u, us)
]

-- Every limit that is found satisfies `P`.
abbrev Found : (RateLimit → Type 0) → Option RateLimit → Type 0
Found P none = Unit
Found P (some l) = P l

find_override-IsUsable :
    (zone : String) (o : Overrides) → AreUsable o → Found IsUsable (find_override zone o)
unfolding find_override
find_override-IsUsable zone [] us = tt
find_override-IsUsable zone ((z, old) ∷ rest) (v, us) = elim (Bool-cases (str_eq z zone)) [
  | inr f ↦ rw f (find_override-IsUsable zone rest us)
  | inl t ↦ rw t v
]

abbrev IsUnlimitedOrUsable : RateLimit → Type 0
IsUnlimitedOrUsable l = (l ≡ no_limits.default) ⊎ IsUsable l

abbrev ArePolicy : RateLimitPolicy → Type 0
ArePolicy policy = IsUnlimitedOrUsable policy.default × AreUsable policy.overrides

limit-IsUsable :
    (policy : RateLimitPolicy) (zone : String)
    → ArePolicy policy
    → IsUnlimitedOrUsable (limit policy zone)
unfolding limit
limit-IsUsable policy zone (d, us) =
    go (find_override zone policy.overrides) (find_override-IsUsable zone policy.overrides us)
  where
    go :
        (f : Option RateLimit)
        → Found IsUsable f
        → IsUnlimitedOrUsable (elim f [ some l ↦ l | none ↦ policy.default ])
    go none u = d
    go (some l) u = inr u

module _ (p : Parsers) where
  parse_cut-IsUsable : (c : Option (String × String)) → Returns IsUsable (parse_cut p c)
  unfolding parse_cut
  parse_cut-IsUsable none = tt
  parse_cut-IsUsable (some (hits, window)) =
      hits_of-IsUsable (p.atoi (trim_space hits)) (p.parse_duration (trim_space window))

  parse_rate_limit-IsUsable : (value : String) → Returns IsUsable (parse_rate_limit p value)
  unfolding parse_rate_limit
  parse_rate_limit-IsUsable value = parse_cut-IsUsable (cut 47 (trim_space value))

  parse_pair-AreUsable :
      (c : Option (String × String)) (o : Overrides)
      → AreUsable o
      → Returns AreUsable (parse_pair p c o)
  unfolding parse_pair
  parse_pair-AreUsable none o us = tt
  parse_pair-AreUsable (some (zone, value)) o us = elim (Bool-cases (is_empty zone)) [
    | inl t ↦ rw t tt
    | inr f ↦ elim (Bool-cases (is_empty value)) [
      | inl t ↦ rw (f, t) tt
      | inr g ↦
          rw (f, g)
            (Returns-bind IsUsable AreUsable (wrap_error _ (parse_rate_limit p value)) _
              (Returns-wrap IsUsable _ (parse_rate_limit p value) (parse_rate_limit-IsUsable value))
              (λ l u. put_override-AreUsable (trim_space zone) l o u us))
    ]
  ]

  parse_piece-AreUsable :
      (pair : String) (o : Overrides) → AreUsable o → Returns AreUsable (parse_piece p pair o)
  unfolding parse_piece
  parse_piece-AreUsable pair o us = elim (Bool-cases (is_blank pair)) [
    | inl t ↦ rw t us
    | inr f ↦ rw f (parse_pair-AreUsable (cut_last 61 (trim_space pair)) o us)
  ]

  parse_pieces-AreUsable :
      (pairs : List String) (o : Overrides)
      → AreUsable o
      → Returns AreUsable (parse_pieces p pairs o)
  unfolding parse_pieces
  parse_pieces-AreUsable [] o us = us
  parse_pieces-AreUsable (pair ∷ pairs) o us =
      Returns-bind AreUsable AreUsable (parse_piece p pair o) (parse_pieces p pairs)
        (parse_piece-AreUsable pair o us) (parse_pieces-AreUsable pairs)

  apply_default-ArePolicy :
      (value : Option String) (policy : RateLimitPolicy)
      → ArePolicy policy
      → Returns ArePolicy (apply_default p value policy)
  unfolding apply_default
  apply_default-ArePolicy none policy ps = ps
  apply_default-ArePolicy (some value) policy ps =
      Returns-bind IsUsable ArePolicy (wrap_error _ (parse_rate_limit p value)) _
        (Returns-wrap IsUsable _ (parse_rate_limit p value) (parse_rate_limit-IsUsable value))
        (λ l u. (inr u, ps.1))

  apply_overrides-ArePolicy :
      (value : Option String) (policy : RateLimitPolicy)
      → ArePolicy policy
      → Returns ArePolicy (apply_overrides p value policy)
  unfolding apply_overrides parse_rate_limit_overrides
  apply_overrides-ArePolicy none policy ps = ps
  apply_overrides-ArePolicy (some value) policy ps =
      Returns-bind AreUsable ArePolicy (parse_pieces p (split 44 value) []) _
        (parse_pieces-AreUsable (split 44 value) [] tt) (λ o us. (ps.0, us))

  apply_rate_limit-ArePolicy :
      (lookup : String → Option String) → Returns ArePolicy (apply_rate_limit p lookup no_limits)
  unfolding apply_rate_limit
  apply_rate_limit-ArePolicy lookup =
      Returns-bind ArePolicy ArePolicy
        (apply_default p (filled (lookup "WORKER_BITS_RATE_LIMIT")) no_limits)
        (apply_overrides p (filled (lookup "WORKER_BITS_RATE_LIMIT_OVERRIDES")))
        (apply_default-ArePolicy (filled (lookup "WORKER_BITS_RATE_LIMIT")) no_limits
          (inl refl, tt))
        (apply_overrides-ArePolicy (filled (lookup "WORKER_BITS_RATE_LIMIT_OVERRIDES")))

  -- When the worker has read its policy from the environment, a zone has no quota at all, or an
  -- enabled one whose counters expire after a millisecond or more: PEXPIRE is never given a 0, which
  -- would delete the counter at once.
  pub apply_rate_limit-expiry :
      (lookup : String → Option String) (policy : RateLimitPolicy) (zone : String)
      → apply_rate_limit p lookup no_limits ≡ ok policy
      → (limit policy zone ≡ no_limits.default)
        ⊎ ((enabled (limit policy zone) ≡ true)
            × (1 ≤ pos_part (milliseconds (limit policy zone).window)))
  apply_rate_limit-expiry lookup policy zone read =
      limit-IsUsable policy zone
        (subst (Returns ArePolicy) read (apply_rate_limit-ArePolicy lookup))
