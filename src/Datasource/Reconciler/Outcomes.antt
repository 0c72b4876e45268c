-- ===== src/Datasource/Reconciler/Outcomes.antt =====
-- What one run of `Reconcile` in pkg/datasource/shardcontroller.go achieves.
use kcp_marketplace.Base.{
  ap, subst, ℕ, String, ◌≡◌, ◌≢◌, inl, inr, refl, sym, ◌∙◌, Bool, true, none, some, arith,
  Option-cases,
}
use kcp_marketplace.Base.GoMap.{lookup, lookup-insert, lookup-erase}
use kcp_marketplace.Errors.{Error, Result, ok, err, Result-cases}
use kcp_marketplace.Datasource.ShardConfig.{Config, Shard, shard_config}
use kcp_marketplace.Datasource.ShardCaches.{
  Aggregate, Caches, Wake, remove, ensure, stop, with_cancel,
}
use kcp_marketplace.Datasource.ShardCaches.Invariant.{IsCoherent}
use kcp_marketplace.Datasource.Reconciler.{Found, shard, not_found, failed, Course, reconcile}
use kcp_marketplace.Datasource.Reconciler.Cases.{
  IsUntouched, IsUntouched-refl, ensure_cases, IsNamed, IsSameOn, remove-IsSameOn, ensure-IsSameOn,
}

module _ (A : Aggregate) where
  -- After a successful `ensure` the shard has a cache, and the latch is set.
  ensure_registers :
      (wake : Wake) (id : String) (build : Result (Unit {0})) (sync : Bool) (s : Caches A)
      → IsCoherent A s
      → (ensure A wake id build sync s).0 ≡ ok tt
      → let t = (ensure A wake id build sync s).1 in
        (c : ℕ) × (lookup id t.active ≡ some c)
        × (A.registered id t.agg ≡ some c)
        × (t.first_synced ≡ true)
  unfolding with_cancel
  ensure_registers wake id build sync s v done = elim (ensure_cases A wake id build sync s) [
    | inl (e, bad, _) ↦ absurd (cc)
    | inr (inl (c, _, there, e)) ↦ rw e (c, there, v.agree id ∙ there, v.latched id c there)
    | inr (inr (_, _, e)) ↦ rw e (
      s.contexts,
      ground (arith, lookup-insert id id s.contexts s.active),
      ground (arith, A.registered-add id id s.contexts s.agg),
      refl,
    )
  ]

  -- A second `ensure` for a shard that has a cache does nothing.
  ensure_again :
      (id : String) (build : Result (Unit {0})) (sync : Bool) (s : Caches A) (c : ℕ)
      → lookup id s.active ≡ some c
      → ensure A Wake.started id build sync s ≡ (ok tt, s)
  unfolding ensure
  ensure_again id build sync s c there = ground arith

  remove_again : (name : String) (s : Caches A) → remove A name (remove A name s) ≡ remove A name s
  unfolding remove stop
  remove_again name s = elim (Option-cases (lookup name s.active)) [
    | inl free ↦ ground arith
    | inr (c, there) ↦ ground (arith, lookup-erase name name s.active)
  ]

  module _ (hostname : String → Result String) (base : Config) (gateway_url : String) where
    -- The run of `Reconcile`.
    abbrev run_of : String → Found → Course → Caches A → Result (Unit {0}) × Caches A
    run_of = reconcile A hostname base gateway_url

    -- A run that finds a shard of a usable configuration is `ensure`.
    reconcile_shard :
        (name : String) (found : Shard) (course : Course) (s : Caches A) (cfg : Config)
        → shard_config hostname base gateway_url found ≡ ok cfg
        → run_of name (shard found) course s
          ≡ ensure A course.wake found.name (course.build cfg) course.sync s
    unfolding reconcile
    reconcile_shard name found course s cfg made = ground arith

    reconcile_no_config :
        (name : String) (found : Shard) (course : Course) (s : Caches A) (e : Error)
        → shard_config hostname base gateway_url found ≡ err e
        → run_of name (shard found) course s ≡ (err e, s)
    unfolding reconcile
    reconcile_no_config name found course s e made = ground arith

    -- In a coherent state, a run of `Reconcile` that finds a shard and succeeds leaves the shard
    -- active and registered with one cache, and readiness reported.
    pub reconcile_adds :
        (name : String) (found : Shard) (course : Course) (s : Caches A)
        → IsCoherent A s
        → (run_of name (shard found) course s).0 ≡ ok tt
        → let t = (run_of name (shard found) course s).1 in
          (c : ℕ) × (lookup found.name t.active ≡ some c)
          × (A.registered found.name t.agg ≡ some c)
          × (t.first_synced ≡ true)
    reconcile_adds name found course s v done =
        elim (Result-cases (shard_config hostname base gateway_url found)) [
          | inl (cfg, made) ↦
              let e = reconcile_shard name found course s cfg made in
              rw e (
                ensure_registers course.wake found.name (course.build cfg) course.sync s v
                  (sym (ap (λ p. p.0) e) ∙ done))
          | inr (e, bad) ↦
              let none_made = reconcile_no_config name found course s e bad in absurd (cc)
        ]

    -- In a coherent state, a run for an active shard that no longer exists leaves it neither
    -- active nor registered, its context cancelled, and readiness as it was.
    pub reconcile_removes :
        (name : String) (course : Course) (s : Caches A) (c : ℕ)
        → IsCoherent A s
        → lookup name s.active ≡ some c
        → let t = (run_of name not_found course s).1 in
          (lookup name t.active ≡ none)
          × (A.registered name t.agg ≡ none)
          × (t.is_cancelled c ≡ true)
          × (t.first_synced ≡ s.first_synced)
    unfolding reconcile remove stop
    reconcile_removes name course s c v there = (
      ground (arith, lookup-erase name name s.active),
      ground (arith, A.registered-remove name name s.agg),
      ground arith,
      ground arith,
    )

    -- A run of `Reconcile` that fails leaves the active shards, the registered caches and the
    -- readiness as they were, and cancels any context that it made.
    pub reconcile_fails :
        (name : String) (found : Found) (course : Course) (s : Caches A) (e : Error)
        → (run_of name found course s).0 ≡ err e
        → IsUntouched A s ((run_of name found course s).1)
    unfolding reconcile
    reconcile_fails name not_found course s e bad = absurd (cc)
    reconcile_fails name (failed _) course s e bad = IsUntouched-refl A s
    reconcile_fails name (shard found) course s e bad =
        elim (Result-cases (shard_config hostname base gateway_url found)) [
          | inl (cfg, made) ↦
              let same = reconcile_shard name found course s cfg made in
              elim (ensure_cases A course.wake found.name (course.build cfg) course.sync s) [
                | inl (_, _, u) ↦ subst (λ p. IsUntouched A s p.1) (sym same) u
                | inr (inl (_, fine, _, _)) ↦ absurd (cc)
                | inr (inr (fine, _, _)) ↦ absurd (cc)
              ]
          | inr (e', no_config) ↦
              subst (λ p. IsUntouched A s p.1)
                (sym (reconcile_no_config name found course s e' no_config)) (IsUntouched-refl A s)
        ]

    -- A run for one shard leaves the active entry and the registered cache of every other shard
    -- as they were.
    pub reconcile_local :
        (name other : String) (found : Found) (course : Course) (s : Caches A)
        → IsNamed A name found
        → other ≢ name
        → IsSameOn A other s ((run_of name found course s).1)
    unfolding reconcile IsNamed IsSameOn
    reconcile_local name other not_found course s named apart = remove-IsSameOn A name other s apart
    reconcile_local name other (failed _) course s named apart = (refl, refl)
    reconcile_local name other (shard found) course s named apart =
        elim (Result-cases (shard_config hostname base gateway_url found)) [
          | inl (cfg, made) ↦
              subst (λ p. IsSameOn A other s p.1)
                (sym (reconcile_shard name found course s cfg made))
                (ensure-IsSameOn A course.wake found.name other (course.build cfg) course.sync s
                  (λ e. apart (e ∙ named)))
          | inr (e', no_config) ↦
              subst (λ p. IsSameOn A other s p.1)
                (sym (reconcile_no_config name found course s e' no_config)) (refl, refl)
        ]

    -- In a coherent state, after `Start`, a run that has succeeded succeeds again and changes
    -- nothing.
    pub reconcile_again :
        (name : String) (found : Found) (course : Course) (s : Caches A)
        → IsCoherent A s
        → course.wake ≡ Wake.started
        → (run_of name found course s).0 ≡ ok tt
        → let t = (run_of name found course s).1 in run_of name found course t ≡ (ok tt, t)
    unfolding reconcile
    reconcile_again name not_found course s v awake done =
        ap (λ t. (ok tt, t)) (remove_again name s)
    reconcile_again name (failed _) course s v awake done = absurd (cc)
    reconcile_again name (shard found) course s v awake done =
        elim (Result-cases (shard_config hostname base gateway_url found)) [
          | inl (cfg, made) ↦
              let t = (run_of name (shard found) course s).1 in
              let (c, there, _, _) = reconcile_adds name found course s v done in
              reconcile_shard name found course t cfg made
              ∙ ap (λ wake. ensure A wake found.name (course.build cfg) course.sync t) awake
              ∙ ensure_again found.name (course.build cfg) course.sync t c there
          | inr (e, bad) ↦
              let none_made = reconcile_no_config name found course s e bad in absurd (cc)
        ]
