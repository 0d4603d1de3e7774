-- ===== src/Worker/RateLimit/Quota.antt =====
-- How many requests the process-local limiter admits
-- (orbitplusworker/internal/application/worker/ratelimit.go, Acquire).
use orbitplus.Common.{
  ℕ, suc, ◌+◌, ◌-◌, ◌≤◌, ◌<◌, min, String, ◌≡◌, ◌⊎◌, true, false, none, some, List, [], ◌∷◌, ◌&&◌,
  str_eq, eq_iff, eq_refl, arith, if◌then◌else◌, ◌∙◌, ap, sym, inl, inr, Bool-cases, ltb, ltb→lt,
  ltb-false,
}
use orbitplus.Common.Int.{pos_part}
use orbitplus.Worker.RateLimit.{
  enabled, RateLimitPolicy, limit, InMemoryWindow, Windows, put_window, is_allowed, acquire,
}

-- One call of `Acquire`: when, and for which zone.
pub record Call : Type 0 where
  pub time : ℕ
  pub zone : String

-- How many calls for `zone` are admitted when the calls are made in this order.
pub admitted : RateLimitPolicy → String → Windows → List Call → ℕ
admitted p zone ws [] = 0
admitted p zone ws (c ∷ cs) =
    let (v, ws') = acquire p c.time c.zone ws in
    (if str_eq c.zone zone && is_allowed v then 1 else 0) + admitted p zone ws' cs

-- The clock does not run backwards.
abbrev pub IsOrdered : ℕ → List Call → Type 0
IsOrdered t [] = Unit
IsOrdered t (c ∷ cs) = (t ≤ c.time) × IsOrdered c.time cs

-- All calls happen before `t`.
abbrev pub AllBefore : ℕ → List Call → Type 0
AllBefore t [] = Unit
AllBefore t (c ∷ cs) = (c.time < t) × AllBefore t cs

acquire_other :
    (p : RateLimitPolicy) (now : ℕ) (z zone : String) (ws : Windows)
    → str_eq z zone ≡ false
    → (acquire p now z ws).1 zone ≡ ws zone
unfolding acquire put_window
acquire_other p now z zone ws h = ground arith

-- How many of the calls are for `zone`.
pub requests : String → List Call → ℕ
requests zone [] = 0
requests zone (c ∷ cs) = (if str_eq c.zone zone then 1 else 0) + requests zone cs

AllBefore-mono : (cs : List Call) {t u : ℕ} → t ≤ u → AllBefore t cs → AllBefore u cs
AllBefore-mono [] le b = tt
AllBefore-mono (c ∷ cs) le b = (omega arith, AllBefore-mono cs le b.1)

module _ (p : RateLimitPolicy) (zone : String) (on : enabled (limit p zone) ≡ true) where
  abbrev hits : ℕ
  hits = pos_part (limit p zone).hits

  abbrev width : ℕ
  width = pos_part (limit p zone).window

  -- Within a window that has begun, an admission counts one hit, up to the quota.
  acquire_inside :
      (now : ℕ) (z : String) (ws : Windows) (w : InMemoryWindow)
      → str_eq z zone ≡ true
      → ws zone ≡ some w
      → w.start ≤ now
      → now < w.start + width
      → ((is_allowed (acquire p now z ws).0 ≡ true)
          × (w.count < hits)
          × ((acquire p now z ws).1 zone ≡ some (record w { count = w.count + 1 })))
        ⊎ ((is_allowed (acquire p now z ws).0 ≡ false)
            × (hits ≤ w.count)
            × ((acquire p now z ws).1 zone ≡ some w))
  unfolding acquire enabled put_window
  acquire_inside now z ws w same e s b =
      rw ((eq_iff z zone).0 same) (ground (arith, on, eq_refl zone))

  -- A zone with no window, or with one that is over, begins a window with this hit.
  acquire_fresh :
      (now : ℕ) (z : String) (ws : Windows)
      → str_eq z zone ≡ true
      → (ws zone ≡ none) ⊎ ((w : InMemoryWindow) × (ws zone ≡ some w) × (w.start + width ≤ now))
      → (is_allowed (acquire p now z ws).0 ≡ true)
        × ((acquire p now z ws).1 zone ≡ some (record { start = now; count = 1 }))
  unfolding acquire enabled put_window
  acquire_fresh now z ws same (inl e) =
      rw ((eq_iff z zone).0 same) (ground (arith, on, eq_refl zone))
  acquire_fresh now z ws same (inr (w, e, b)) =
      rw ((eq_iff z zone).0 same) (ground (arith, on, eq_refl zone))

  hits_pos : 0 < hits
  unfolding enabled
  hits_pos = ground (arith, on)

  -- Inside a window the limiter admits exactly what is left of the quota.
  admitted_inside :
      (cs : List Call) (ws : Windows) (w : InMemoryWindow) (t : ℕ)
      → ws zone ≡ some w
      → w.start ≤ t
      → IsOrdered t cs
      → AllBefore (w.start + width) cs
      → admitted p zone ws cs ≡ min (hits - w.count) (requests zone cs)
  unfolding admitted requests
  admitted_inside [] ws w t e s o b = omega arith
  admitted_inside (c ∷ cs) ws w t e s o b = elim (Bool-cases (str_eq c.zone zone)) [
    | inr other ↦ rw other (
        omega (
          arith,
          admitted_inside cs (acquire p c.time c.zone ws).1 w c.time
              (acquire_other p c.time c.zone zone ws other ∙ e) (omega arith) o.1 b.1,
        ))
    | inl same ↦ elim (acquire_inside c.time c.zone ws w same e (omega arith) b.0) [
      | inl (y, lt, e') ↦
          rw (same, y)
            (omega (
              arith,
              admitted_inside cs (acquire p c.time c.zone ws).1 (record w { count = w.count + 1 })
                  c.time e' (omega arith) o.1 b.1,
            ))
      | inr (n, ge, e') ↦
          rw (same, n)
            (omega (
              arith,
              admitted_inside cs (acquire p c.time c.zone ws).1 w c.time e' (omega arith) o.1 b.1,
            ))
    ]
  ]

  -- After a first hit at the time `c.time` the zone's requests share one window.
  admitted_after_fresh :
      (c : Call) (cs : List Call) (ws : Windows) (u : ℕ)
      → str_eq c.zone zone ≡ true
      → (ws zone ≡ none) ⊎ ((w : InMemoryWindow) × (ws zone ≡ some w) × (w.start + width ≤ c.time))
      → IsOrdered c.time cs
      → AllBefore u cs
      → u ≤ c.time + width
      → admitted p zone ws (c ∷ cs) ≡ min hits (suc (requests zone cs))
  unfolding admitted
  admitted_after_fresh c cs ws u same old o b le =
      let (y, e') = acquire_fresh c.time c.zone ws same old in
      rw (same, y)
        (omega (
          arith,
          hits_pos,
          admitted_inside cs (acquire p c.time c.zone ws).1 (record { start = c.time; count = 1 })
              c.time e' (omega arith) o (AllBefore-mono cs le b),
        ))

  requests-same :
      (c : Call) (cs : List Call)
      → str_eq c.zone zone ≡ true
      → requests zone (c ∷ cs) ≡ suc (requests zone cs)
  unfolding requests
  requests-same c cs same = rw same (omega arith)

  -- A zone that has no window yet is given one by its first request. As long as that window could
  -- last, of the zone's requests exactly the first `hits` are admitted, whatever requests for other
  -- zones come in between.
  pub admitted_window :
      (cs : List Call) (ws : Windows) (t u : ℕ)
      → ws zone ≡ none
      → IsOrdered t cs
      → AllBefore u cs
      → u ≤ t + width
      → admitted p zone ws cs ≡ min hits (requests zone cs)
  unfolding admitted requests
  admitted_window [] ws t u e o b le = omega arith
  admitted_window (c ∷ cs) ws t u e o b le = elim (Bool-cases (str_eq c.zone zone)) [
    | inr other ↦ rw other (
        omega (
          arith,
          admitted_window cs (acquire p c.time c.zone ws).1 c.time u
              (acquire_other p c.time c.zone zone ws other ∙ e) o.1 b.1 (omega arith),
        ))
    | inl same ↦
        admitted_after_fresh c cs ws u same (inl e) o.1 b.1 (omega arith)
        ∙ ap (λ n. min hits n) (sym (requests-same c cs same))
  ]

  -- In any stretch of time that is no longer than the window, and from any state in which the
  -- zone's window has begun already, at most twice the quota is admitted: the rest of the window
  -- that was open, and one more.
  pub admitted_stretch :
      (cs : List Call) (ws : Windows) (w : InMemoryWindow) (t u : ℕ)
      → ws zone ≡ some w
      → w.start ≤ t
      → IsOrdered t cs
      → AllBefore u cs
      → u ≤ t + width
      → admitted p zone ws cs ≤ (hits - w.count) + hits
  unfolding admitted
  admitted_stretch [] ws w t u e s o b le = omega arith
  admitted_stretch (c ∷ cs) ws w t u e s o b le = elim (Bool-cases (str_eq c.zone zone)) [
    | inr other ↦ rw other (
        omega (
          arith,
          admitted_stretch cs (acquire p c.time c.zone ws).1 w c.time u
              (acquire_other p c.time c.zone zone ws other ∙ e) (omega arith) o.1 b.1 (omega arith),
        ))
    | inl same ↦ elim (Bool-cases (ltb c.time (w.start + width))) [
      | inr over ↦ omega (
        arith,
        admitted_after_fresh c cs ws u same (inr (w, e, ltb-false c.time (w.start + width) over))
            o.1 b.1 (omega arith),
      )
      | inl open_still ↦
          elim (acquire_inside c.time c.zone ws w same e (omega arith)
            (ltb→lt c.time (w.start + width) open_still)) [
              | inl (y, lt, e') ↦
                  rw (same, y)
                    (omega (
                      arith,
                      admitted_stretch cs (acquire p c.time c.zone ws).1
                          (record w { count = w.count + 1 }) c.time u e' (omega arith) o.1 b.1
                          (omega arith),
                    ))
              | inr (n, ge, e') ↦
                  rw (same, n)
                    (omega (
                      arith,
                      admitted_stretch cs (acquire p c.time c.zone ws).1 w c.time u e' (omega arith)
                          o.1 b.1 (omega arith),
                    ))
            ]
    ]
  ]
