-- ===== src/Sar/Policy.antt =====
-- The cache of pkg/sar/sar.go against a server that decides by a fixed policy.
use kcp_marketplace.Base.{
  ℕ, ◌+◌, String, ◌≡◌, inl, inr, sym, ◌∙◌, ap, Bool, true, some, arith, String-discrete,
  Option-cases,
}
use kcp_marketplace.Base.GoMap.{lookup, lookup-insert}
use kcp_marketplace.Errors.{Ctx, Result, ok}
use kcp_marketplace.Sar.{
  Digest, User, Spec, Entry, Checker, new, get, put, digest_of, cache_key, with_user, review,
}
use kcp_marketplace.Sar.Cache.{review_answer}
use kcp_marketplace.Sar.Keys.{HasSixtyFourDigits, cache_key_inj}

-- The server's decision depends on the cluster and on what is asked.
abbrev pub Policy : Type 0
Policy = String → Spec → Bool

-- No two questions that the server decides differently share a digest.
abbrev pub HasNoCollision : Digest → Policy → Type 0
HasNoCollision d policy =
    (cluster : String) (s t : Spec)
    → digest_of d s ≡ digest_of d t
    → policy cluster s ≡ policy cluster t

-- A decision that the server returns is the policy's.
abbrev pub IsHonest : (Ctx → String → Spec → Result Bool) → Policy → Type 0
IsHonest client policy =
    (ctx : Ctx) (cluster : String) (spec : Spec) (b : Bool)
    → client ctx cluster spec ≡ ok b
    → b ≡ policy cluster spec

-- Every decision in the cache is the policy's.
unfoldable pub FollowsPolicy : Digest → Policy → Checker → Type 0
FollowsPolicy d policy c =
    (cluster : String) (spec : Spec) (e : Entry)
    → lookup (cache_key d cluster spec) c.cache ≡ some e
    → e.allowed ≡ policy cluster spec

module _ (d : Digest) (policy : Policy) where
  pub new-FollowsPolicy : (ttl : ℕ) → FollowsPolicy d policy (new ttl)
  unfolding FollowsPolicy new lookup
  new-FollowsPolicy ttl cluster spec e h = absurd (cc)

  pub get_cached :
      (c : Checker) (now : ℕ) (key : String) (allowed : Bool)
      → get c now key ≡ (allowed, true)
      → (e : Entry) × (lookup key c.cache ≡ some e) × (e.allowed ≡ allowed)
  unfolding get
  get_cached c now key allowed h = elim (Option-cases (lookup key c.cache)) [
    | inl missing ↦ absurd (ground arith)
    | inr (e, found) ↦ (e, found, ground arith)
  ]

  pub cached_right :
      (c : Checker) (cluster : String) (spec : Spec) (e : Entry)
      → FollowsPolicy d policy c
      → lookup (cache_key d cluster spec) c.cache ≡ some e
      → e.allowed ≡ policy cluster spec
  unfolding FollowsPolicy
  cached_right c cluster spec e v found = v cluster spec e found

  module _ (digits : HasSixtyFourDigits d) (apart : HasNoCollision d policy) where
    pub put-FollowsPolicy :
        (c : Checker) (now : ℕ) (cluster : String) (spec : Spec) (allowed : Bool)
        → FollowsPolicy d policy c
        → allowed ≡ policy cluster spec
        → FollowsPolicy d policy (put c now (cache_key d cluster spec) allowed)
    unfolding FollowsPolicy put
    put-FollowsPolicy c now cluster spec allowed v right other asked e h =
        elim (String-discrete (cache_key d other asked) (cache_key d cluster spec)) [
          | yes same ↦
              let (clusters, digests) = cache_key_inj d digits other cluster asked spec same in
              let stored : e.allowed ≡ allowed = ground (
                arith,
                lookup-insert (cache_key d other asked) (cache_key d cluster spec)
                    (record { allowed = allowed; expires = now + c.ttl }) c.cache,
              ) in
              stored
              ∙ right
              ∙ ap (λ k. policy k spec) (sym clusters)
              ∙ sym (apart other asked spec digests)
          | no differ ↦ v other asked e (
              ground (
                arith,
                lookup-insert (cache_key d other asked) (cache_key d cluster spec)
                    (record { allowed = allowed; expires = now + c.ttl }) c.cache,
              ))
        ]

    module _ (client : Ctx → String → Spec → Result Bool) (honest : IsHonest client policy) where
      -- If digests have 64 digits, the policy decides alike what shares a digest, and the server
      -- answers by the policy, then `review` on a cache of the policy's decisions gives, when it
      -- succeeds, the policy's decision for the user, and leaves such a cache.
      pub review-FollowsPolicy :
          (c : Checker) (now later : ℕ) (ctx : Ctx) (u : User) (cluster : String) (asked : Spec)
          (allowed : Bool)
          → FollowsPolicy d policy c
          → (review d client c (now, later) ctx u cluster asked).0 ≡ ok allowed
          → (allowed ≡ policy cluster (with_user u asked))
            × FollowsPolicy d policy ((review d client c (now, later) ctx u cluster asked).1)
      review-FollowsPolicy c now later ctx u cluster asked allowed v h =
          elim (review_answer d client c now later ctx u cluster asked allowed h) [
            | inl (hit, same) ↦
                let (e, found, is) =
                  get_cached c now (cache_key d cluster (with_user u asked)) allowed hit in
                (sym is ∙ cached_right c cluster (with_user u asked) e v found, rw same v)
            | inr (answered, stored) ↦
                let right = honest ctx cluster (with_user u asked) allowed answered in
                (
                  right,
                  rw stored (put-FollowsPolicy c later cluster (with_user u asked) allowed v right),
                )
          ]
