-- ===== src/Master/Live/Cold/Refreshed.antt =====
-- What a successful refresh of a cold route has done
-- (orbitplus/internal/application/master/cold_cache_refresher.go, RefreshCold).
use orbitplus.Common.{
  String, Bool, true, false, Option, none, some, ◌≡◌, refl, ◌⊎◌, inl, inr, ◌∷◌, not, if◌then◌else◌,
}
use orbitplus.Master.Zones.{zone_bits_base_url}
use orbitplus.Master.Lookup.{RouteLookup}
use orbitplus.Master.Live.{BitsLookup, LiveError}
use orbitplus.Master.Live.Verifier.{Verifier, Live, in_world}
use orbitplus.Master.Live.Verify.{verify}
use orbitplus.Master.Live.Slots.Repairs.{companion}
use orbitplus.Master.Live.Slots.{Fetching, not_asked, asked, asked_companion, verify-Fetching}
use orbitplus.Master.Live.Cold.{
  Operator, OperatorReply, operator_found, operator_missing, operator_failed, bits_lookup,
  is_valid_credential, ColdCacheRefresher, is_refreshed, zone_url_of, refresh_at_url, refresh_with,
  refresh_cold,
}

module _ {W : Type 0} (v : Verifier W) (find_operator : String → W → OperatorReply × W)
    (getenv : String → String) where
  -- The refresher of a verifier, with the operators behind a repository.
  abbrev pub live_refresher : ColdCacheRefresher (Live W)
  live_refresher = record {
    verifier = some (verify v);
    operators = some (λ code. in_world (find_operator code));
    getenv = getenv;
  }

  -- The state in which BITS is asked, and the lookup that it is asked for.
  pub record IsRefreshed (action : String) (l : RouteLookup) (s s' : Live W) : Type 0 where
    pub operator : Operator
    pub url : String
    pub world : W
    pub found : find_operator l.operator_code s.run.world ≡ (operator_found operator, world)
    pub zone : zone_bits_base_url getenv operator.zone_code ≡ some url
    pub fetched :
        (s'.fetches ≡ bits_lookup action l url ∷ s.fetches)
        ⊎ (s'.fetches ≡ companion (bits_lookup action l url) (bits_lookup action l url ∷ s.fetches))

  asked_when_answered :
      (l : BitsLookup) (s : Live W)
      → is_refreshed (verify v l s).0.1 ≡ true
      → ((verify v l s).1.fetches ≡ l ∷ s.fetches)
        ⊎ ((verify v l s).1.fetches ≡ companion l (l ∷ s.fetches))
  asked_when_answered l s h = go (verify-Fetching v l s)
    where
      no_error : (e : Option LiveError) → is_refreshed e ≡ true → e ≡ none
      no_error none q = refl
      no_error (some e) q = absurd (cc q)

      go :
          Fetching v l s (verify v l s)
          → ((verify v l s).1.fetches ≡ l ∷ s.fetches)
            ⊎ ((verify v l s).1.fetches ≡ companion l (l ∷ s.fetches))
      go (not_asked e same) = absurd (e (no_error _ h))
      go (asked a f) = inl f
      go (asked_companion a f) = inr f

  IsRefreshed-at :
      (action : String) (l : RouteLookup) (s : Live W) (reply : OperatorReply × W)
      → find_operator l.operator_code s.run.world ≡ reply
      → (refresh_at_url
          (verify v)
          action
          l
          (zone_url_of getenv reply.0)
          (record s { run = record s.run { world = reply.1 } })).0
        ≡ true
      → IsRefreshed action l s
          (refresh_at_url
            (verify v)
            action
            l
            (zone_url_of getenv reply.0)
            (record s { run = record s.run { world = reply.1 } })).1
  unfolding refresh_at_url zone_url_of
  IsRefreshed-at action l s (operator_missing, w) q h = absurd (cc h)
  IsRefreshed-at action l s (operator_failed, w) q h = absurd (cc h)
  IsRefreshed-at action l s (operator_found o, w) q h =
      go (zone_bits_base_url getenv o.zone_code) refl h
    where
      state : Live W
      state = record s { run = record s.run { world = w } }

      go :
          (u : Option String)
          → zone_bits_base_url getenv o.zone_code ≡ u
          → (refresh_at_url (verify v) action l u state).0 ≡ true
          → IsRefreshed action l s (refresh_at_url (verify v) action l u state).1
      go none z r = absurd (cc r)
      go (some url) z r = record {
        operator = o;
        url = url;
        world = w;
        found = q;
        zone = z;
        fetched = asked_when_answered (bits_lookup action l url) state r;
      }

  -- A refresh that reports success found the operator and the URL of its zone, and has asked BITS at
  -- that URL for the lookup, with the credential of the caller: once, or once more for the companion
  -- search of a BusMap.
  pub refresh_cold-IsRefreshed :
      (action : String) (l : RouteLookup) (s : Live W)
      → (refresh_cold live_refresher action l s).0 ≡ true
      → IsRefreshed action l s (refresh_cold live_refresher action l s).1
  unfolding refresh_cold refresh_with
  refresh_cold-IsRefreshed action l s h = go (is_valid_credential l) h
    where
      reply : OperatorReply × W
      reply = find_operator l.operator_code s.run.world

      refreshed : Bool × Live W
      refreshed =
          refresh_at_url (verify v) action l (zone_url_of getenv reply.0)
            (record s { run = record s.run { world = reply.1 } })

      go :
          (b : Bool)
          → (if not b then (false, s) else refreshed).0 ≡ true
          → IsRefreshed action l s (if not b then (false, s) else refreshed).1
      go true q = IsRefreshed-at action l s reply refl q
      go false q = absurd (cc q)
