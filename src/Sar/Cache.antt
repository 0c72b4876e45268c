-- ===== src/Sar/Cache.antt =====
-- What `review` of pkg/sar/sar.go answers, and what it does to the cache.
use kcp_marketplace.Base.{
  ℕ, ◌+◌, ◌≤◌, ◌<◌, String, ◌≡◌, ◌⊎◌, inl, inr, Bool, true, false, arith, is_after, ◌==◌,
  if◌then◌else◌, Bool-cases,
}
use kcp_marketplace.Base.GoMap.{lookup-insert}
use kcp_marketplace.Errors.{Ctx, Error, review_failed, Result, ok, err, Result-cases}
use kcp_marketplace.Sar.{Digest, User, Spec, Checker, with_user, get, put, cache_key, review}

-- What the server says, as the caller of `review` sees it.
abbrev pub reported : String → Result Bool → Result Bool
reported cluster (ok allowed) = ok allowed
reported cluster (err cause) = err (review_failed cluster cause)

-- A decision is found from the moment it is stored until the TTL has passed, and hides no other.
pub get-put :
    (c : Checker) (stored now : ℕ) (key other : String) (allowed : Bool)
    → get (put c stored key allowed) now other ≡ (
        if other == key
        then (if is_after now (stored + c.ttl) then (false, false) else (allowed, true))
        else get c now other)
unfolding get put
get-put c stored now key other allowed = ground (
  arith,
  lookup-insert other key (record { allowed = allowed; expires = stored + c.ttl }) c.cache,
)

module _ (d : Digest) (client : Ctx → String → Spec → Result Bool) (c : Checker) (now later : ℕ)
    (ctx : Ctx) (u : User) (cluster : String) (asked : Spec) where
  abbrev outcome : Result Bool × Checker
  outcome = review d client c (now, later) ctx u cluster asked

  abbrev key : String
  key = cache_key d cluster (with_user u asked)

  -- An error of `review` is the server's, wrapped with the cluster, and leaves the cache as it
  -- was.
  pub review_error :
      (e : Error)
      → outcome.0 ≡ err e
      → (outcome.1 ≡ c)
        × ((cause : Error) × (client ctx cluster (with_user u asked) ≡ err cause)
            × (e ≡ review_failed cluster cause))
  unfolding review
  review_error e h = elim (Bool-cases (get c now key).1) [
    | inl hit ↦ absurd (ground arith)
    | inr missed ↦ elim (Result-cases (client ctx cluster (with_user u asked))) [
      | inl (a, answered) ↦ absurd (ground arith)
      | inr (cause, failed) ↦ (ground arith, (cause, failed, ground arith))
    ]
  ]

  -- A decision that `review` returns is the stored one, with the cache unchanged, or the
  -- server's answer, which is then stored under the key of the spec.
  pub review_answer :
      (allowed : Bool)
      → outcome.0 ≡ ok allowed
      → ((get c now key ≡ (allowed, true)) × (outcome.1 ≡ c))
        ⊎ ((client ctx cluster (with_user u asked) ≡ ok allowed)
            × (outcome.1 ≡ put c later key allowed))
  unfolding review
  review_answer allowed h = elim (Bool-cases (get c now key).1) [
    | inl hit ↦ inl (ground arith, ground arith)
    | inr missed ↦ elim (Result-cases (client ctx cluster (with_user u asked))) [
      | inl (a, answered) ↦ inr (ground arith, ground arith)
      | inr (cause, failed) ↦ absurd (ground arith)
    ]
  ]

  review_asks :
      (allowed : Bool)
      → (get c now key).1 ≡ false
      → client ctx cluster (with_user u asked) ≡ ok allowed
      → outcome ≡ (ok allowed, put c later key allowed)
  unfolding review
  review_asks allowed missed answered = ground arith

  module _ (allowed : Bool) (missed : (get c now key).1 ≡ false)
      (answered : client ctx cluster (with_user u asked) ≡ ok allowed)
      (client' : Ctx → String → Spec → Result Bool) (ctx' : Ctx) (now' later' : ℕ) where
    abbrev next : Result Bool × Checker
    next = review d client' outcome.1 (now', later') ctx' u cluster asked

    -- Once the server has answered a review that was not cached, the same review gets that
    -- answer up to and including the moment at which the TTL ends, whatever the server would say
    -- by then, and the cache is not written again.
    pub review_again_fresh : now' ≤ later + c.ttl → next ≡ (ok allowed, outcome.1)
    unfolding review
    review_again_fresh fresh =
        rw (review_asks allowed missed answered)
          (ground (arith, get-put c later now' key key allowed))

    -- After the TTL has passed, the same review asks the server again, and its result is what
    -- the server says then.
    pub review_again_expired :
        later + c.ttl < now' → next.0 ≡ reported cluster (client' ctx' cluster (with_user u asked))
    unfolding review
    review_again_expired expired =
        rw (review_asks allowed missed answered)
          (ground (arith, get-put c later now' key key allowed))
