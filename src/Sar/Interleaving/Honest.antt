-- ===== src/Sar/Interleaving/Honest.antt =====
-- Goroutines in `review` of pkg/sar/sar.go against a server that decides by a fixed policy.
use kcp_marketplace.Base.{ℕ, ◌≡◌, sym, ◌∙◌, subst, List, [], ◌∷◌, update, update_all}
use kcp_marketplace.Sar.{Digest, cache_key}
use kcp_marketplace.Sar.Keys.{HasSixtyFourDigits}
use kcp_marketplace.Sar.Policy.{
  Policy, HasNoCollision, FollowsPolicy, new-FollowsPolicy, get_cached, cached_right,
  put-FollowsPolicy,
}
use kcp_marketplace.Sar.Interleaving.{
  Phase, answered, Event, answer, store, result, System, start, Step, tick, begin, hit, miss, reply,
  fail, save, leave, Reach, here, next,
}

module _ (policy : Policy) where
  -- Every answer of the server in a log is the policy's.
  abbrev pub IsAnsweredByPolicy : List Event → Type 0
  IsAnsweredByPolicy [] = Unit
  IsAnsweredByPolicy (answer _ cluster spec a ∷ log) =
      (a ≡ policy cluster spec) × IsAnsweredByPolicy log
  IsAnsweredByPolicy (store _ _ _ ∷ log) = IsAnsweredByPolicy log
  IsAnsweredByPolicy (result _ _ _ _ ∷ log) = IsAnsweredByPolicy log

  -- Every result in a log is the policy's.
  abbrev pub HasPolicyResults : List Event → Type 0
  HasPolicyResults [] = Unit
  HasPolicyResults (answer _ _ _ _ ∷ log) = HasPolicyResults log
  HasPolicyResults (store _ _ _ ∷ log) = HasPolicyResults log
  HasPolicyResults (result _ cluster spec a ∷ log) =
      (a ≡ policy cluster spec) × HasPolicyResults log

  abbrev IsRightPhase : Phase → Type 0
  IsRightPhase (answered cluster spec a) = a ≡ policy cluster spec
  IsRightPhase _ = Unit

  module _ (d : Digest) (digits : HasSixtyFourDigits d) (apart : HasNoCollision d policy) where
    record Inv (s : System) : Type 0 where
      follows : FollowsPolicy d policy s.checker
      phases : (i : ℕ) → IsRightPhase (s.phase i)
      results : HasPolicyResults s.log

    start-Inv : (ttl : ℕ) → Inv (start ttl)
    start-Inv ttl = record {
      follows = new-FollowsPolicy d policy ttl;
      phases = λ i. tt;
      results = tt;
    }

    -- A goroutine that moves to a phase that is right.
    moved :
        {s : System} (i : ℕ) (p : Phase)
        → Inv s
        → IsRightPhase p
        → (j : ℕ) → IsRightPhase (update s.phase i p j)
    moved {s} i p inv right = update_all IsRightPhase s.phase i p right inv.phases

    Step-Inv : {s t : System} → Step d s t → IsAnsweredByPolicy t.log → Inv s → Inv t
    Step-Inv (tick n) by inv = record {
      follows = inv.follows;
      phases = inv.phases;
      results = inv.results;
    }
    Step-Inv (begin i u cluster asked at) by inv = record {
      follows = inv.follows;
      phases = moved i _ inv tt;
      results = inv.results;
    }
    Step-Inv {s} (hit i cluster spec allowed at found) by inv =
        let (e, there, is) =
          get_cached d policy s.checker s.clock (cache_key d cluster spec) allowed found in
        record {
          follows = inv.follows;
          phases = moved i _ inv tt;
          results = (
            sym is ∙ cached_right d policy s.checker cluster spec e inv.follows there,
            inv.results,
          );
        }
    Step-Inv (miss i cluster spec at none) by inv = record {
      follows = inv.follows;
      phases = moved i _ inv tt;
      results = inv.results;
    }
    Step-Inv (reply i cluster spec allowed at) by inv = record {
      follows = inv.follows;
      phases = moved i _ inv by.0;
      results = inv.results;
    }
    Step-Inv (fail i cluster spec cause at) by inv = record {
      follows = inv.follows;
      phases = moved i _ inv tt;
      results = inv.results;
    }
    Step-Inv {s} (save i cluster spec allowed at) by inv =
        let right : allowed ≡ policy cluster spec = subst IsRightPhase at (inv.phases i) in
        record {
          follows =
              put-FollowsPolicy d policy digits apart s.checker s.clock cluster spec allowed
                inv.follows right;
          phases = moved i _ inv tt;
          results = (right, inv.results);
        }
    Step-Inv (leave i r at) by inv = record {
      follows = inv.follows;
      phases = moved i _ inv tt;
      results = inv.results;
    }

    -- The log only grows.
    was_answered : {s t : System} → Step d s t → IsAnsweredByPolicy t.log → IsAnsweredByPolicy s.log
    was_answered (tick _) by = by
    was_answered (begin _ _ _ _ _) by = by
    was_answered (hit _ _ _ _ _ _) by = by
    was_answered (miss _ _ _ _ _) by = by
    was_answered (reply _ _ _ _ _) by = by.1
    was_answered (fail _ _ _ _ _) by = by
    was_answered (save _ _ _ _ _) by = by
    was_answered (leave _ _ _) by = by

    Reach-Inv : (ttl : ℕ) {s : System} → Reach d (start ttl) s → IsAnsweredByPolicy s.log → Inv s
    Reach-Inv ttl here by = start-Inv ttl
    Reach-Inv ttl (next r st) by = Step-Inv st by (Reach-Inv ttl r (was_answered st by))

    -- In every state that any number of goroutines in `review` reach from an empty cache, if all
    -- answers of the server so far are a fixed policy's, then all decisions in the cache and all
    -- results so far are the policy's. It supposes 64-digit digests, none shared by specs that
    -- the policy decides differently.
    pub interleaved-FollowsPolicy :
        (ttl : ℕ) (s : System)
        → Reach d (start ttl) s
        → IsAnsweredByPolicy s.log
        → FollowsPolicy d policy s.checker × HasPolicyResults s.log
    interleaved-FollowsPolicy ttl s r by =
        let inv = Reach-Inv ttl r by in (inv.follows, inv.results)
