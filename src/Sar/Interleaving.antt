-- ===== src/Sar/Interleaving.antt =====
-- Any number of goroutines in `review` of pkg/sar/sar.go at once. The mutex makes `get` and `put`
-- one step each; between them the goroutine asks the server, and others move.
pub mod Log
pub mod Audit
pub mod Honest
pub mod Sequential
use kcp_marketplace.Base.{ℕ, ◌+◌, String, ◌≡◌, Bool, true, false, List, [], ◌∷◌, update}
use kcp_marketplace.Errors.{Error, review_failed, Result, ok, err}
use kcp_marketplace.Sar.{Digest, User, Spec, Checker, new, with_user, cache_key, get, put}

-- Where a goroutine stands in `review`, with the local variables that are live there.
pub data Phase : Type 0 where
  idle : Phase
  asking : String → Spec → Phase  -- before `get`
  missed : String → Spec → Phase  -- before `Create`
  answered : String → Spec → Bool → Phase  -- before `put`
  done : Result Bool → Phase

-- What happened, for the record: the server's answers, the writes to the cache, the results.
pub data Event : Type 0 where
  answer : ℕ → String → Spec → Bool → Event
  store : ℕ → String → Bool → Event
  result : ℕ → String → Spec → Bool → Event

-- The log has the last event first.
pub record System : Type 0 where
  pub checker : Checker
  pub clock : ℕ
  pub phase : ℕ → Phase
  pub log : List Event

abbrev pub start : ℕ → System
start ttl = record { checker = new ttl; clock = 0; phase = λ _. idle; log = [] }

module _ (d : Digest) where
  pub data Step (s : System) : System → Type 0 where
    tick : (n : ℕ) → Step s (record s { clock = s.clock + n })
    begin :
        (i : ℕ) (u : User) (cluster : String) (asked : Spec)
        → s.phase i ≡ idle
        → Step s (record s { phase = update s.phase i (asking cluster (with_user u asked)) })
    hit :
        (i : ℕ) (cluster : String) (spec : Spec) (allowed : Bool)
        → s.phase i ≡ asking cluster spec
        → get s.checker s.clock (cache_key d cluster spec) ≡ (allowed, true)
        → Step s (record s {
          phase = update s.phase i (done (ok allowed));
          log = result s.clock cluster spec allowed ∷ s.log;
        })
    miss :
        (i : ℕ) (cluster : String) (spec : Spec)
        → s.phase i ≡ asking cluster spec
        → (get s.checker s.clock (cache_key d cluster spec)).1 ≡ false
        → Step s (record s { phase = update s.phase i (missed cluster spec) })
    reply :
        (i : ℕ) (cluster : String) (spec : Spec) (allowed : Bool)
        → s.phase i ≡ missed cluster spec
        → Step s (record s {
          phase = update s.phase i (answered cluster spec allowed);
          log = answer s.clock cluster spec allowed ∷ s.log;
        })
    fail :
        (i : ℕ) (cluster : String) (spec : Spec) (cause : Error)
        → s.phase i ≡ missed cluster spec
        → Step s (record s { phase = update s.phase i (done (err (review_failed cluster cause))) })
    save :
        (i : ℕ) (cluster : String) (spec : Spec) (allowed : Bool)
        → s.phase i ≡ answered cluster spec allowed
        → Step s (record {
          checker = put s.checker s.clock (cache_key d cluster spec) allowed;
          clock = s.clock;
          phase = update s.phase i (done (ok allowed));
          log =
              result s.clock cluster spec allowed
              ∷ store s.clock (cache_key d cluster spec) allowed
              ∷ s.log;
        })
    leave :
        (i : ℕ) (r : Result Bool)
        → s.phase i ≡ done r
        → Step s (record s { phase = update s.phase i idle })

  pub data Reach (s : System) : System → Type 0 where
    here : Reach s s
    next : {t u : System} → Reach s t → Step t u → Reach s u
