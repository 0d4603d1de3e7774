-- ===== src/Master/Storage/Effects.antt =====
-- Rules for what a step of storage leaves written, one for each way to build a step
-- (orbitplus/internal/application/master, the tripdetails_*storage*.go files).
use orbitplus.Common.{◌≡◌, refl, ◌⊎◌, inl, inr, String, Option, none, some, List, [], ◌∷◌}
use orbitplus.Master.Errors.{GoError, GoResult, ok, err}
use orbitplus.Master.Exec.{
  M, Run, Event, Write, written, write, next, ◌and_then◌, labelled, wrap_error, with_value, checked,
  skip,
}

-- The write is in the log, and it succeeded.
abbrev pub Wrote : Write → List Event → Type 0
Wrote w [] = ⊥
Wrote w (written x e ∷ log) = ((x ≡ w) × (e ≡ none)) ⊎ Wrote w log

abbrev pub Extends : List Event → List Event → Type 0
Extends log log' = (w : Write) → Wrote w log → Wrote w log'

-- What holds of a log still holds of a longer one.
abbrev pub IsLasting : (List Event → Type 0) → Type 0
IsLasting P = (log log' : List Event) → Extends log log' → P log → P log'

-- A step keeps what was written, and when it returns no error `P` holds.
pub record Ensures {W : Type 0} (m : M W (Option GoError)) (P : List Event → Type 0) : Type 0 where
  pub grows : (s : Run W) → Extends s.log (m s).1.log
  pub gives : (s : Run W) → (m s).0 ≡ none → P (m s).1.log

module _ {W : Type 0} where
  pub ensures-write :
      (w : Write) (f : W → Option GoError × W) → Ensures {W = W} (write w f) (λ log. Wrote w log)
  unfolding write
  ensures-write w f = record { grows = λ s x h. inr h; gives = λ s h. inl (refl, h) }

  pub ensures-skip : Ensures {W = W} skip (λ log. Unit)
  unfolding skip
  ensures-skip = record { grows = λ s x h. h; gives = λ s h. tt }

  module _ {P : List Event → Type 0} where
    pub ensures-labelled :
        (text : String) (m : M W (Option GoError)) → Ensures m P → Ensures (labelled text m) P
    unfolding labelled wrap_error
    ensures-labelled text m h = record {
      grows = h.grows;
      gives = λ s e. h.gives s (unwrap (m s).0 e);
    }
      where
        unwrap : (e : Option GoError) → wrap_error text e ≡ none → e ≡ none
        unwrap none q = refl
        unwrap (some x) q = absurd (cc q)

    pub ensures-with_value :
        {A : Type 0} (r : GoResult A) (f : A → M W (Option GoError))
        → ((a : A) → r ≡ ok a → Ensures (f a) P)
        → Ensures (with_value r f) P
    unfolding with_value
    ensures-with_value (ok a) f h = record { grows = (h a refl).grows; gives = (h a refl).gives }
    ensures-with_value (err e) f h = record { grows = λ s x q. q; gives = λ s q. absurd (cc q) }

    pub ensures-checked :
        (o : Option GoError) (m : M W (Option GoError)) → Ensures m P → Ensures (checked o m) P
    unfolding checked
    ensures-checked none m h = record { grows = h.grows; gives = h.gives }
    ensures-checked (some e) m h = record { grows = λ s x q. q; gives = λ s q. absurd (cc q) }

    pub ensures-weaken :
        {Q : List Event → Type 0} (m : M W (Option GoError))
        → Ensures m P
        → ((log : List Event) → P log → Q log)
        → Ensures m Q
    ensures-weaken m h f = record { grows = h.grows; gives = λ s e. f _ (h.gives s e) }

    module _ {Q : List Event → Type 0} (m k : M W (Option GoError)) (hm : Ensures m P)
        (hk : Ensures k Q) where
      grows-next :
          (e : Option GoError) (log : List Event) (s : Run W)
          → Extends log s.log
          → Extends log (next k e s).1.log
      unfolding next
      grows-next none log s h x q = hk.grows s x (h x q)
      grows-next (some e) log s h x q = h x q

      gives-next :
          IsLasting P
          → (e : Option GoError) (s : Run W) → (e ≡ none → P s.log)
          → (next k e s).0 ≡ none
          → P (next k e s).1.log × Q (next k e s).1.log
      unfolding next
      gives-next last none s p q = (last s.log (k s).1.log (hk.grows s) (p refl), hk.gives s q)
      gives-next last (some e) s p q = absurd (cc q)

      pub ensures-and_then : IsLasting P → Ensures (m and_then k) (λ log. P log × Q log)
      unfolding ◌and_then◌
      ensures-and_then last = record {
        grows = λ s. grows-next (m s).0 s.log (m s).1 (hm.grows s);
        gives = λ s. gives-next last (m s).0 (m s).1 (hm.gives s);
      }
