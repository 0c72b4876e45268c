-- ===== src/Datasource/ShardCaches/Invariant.antt =====
-- What the critical sections of pkg/datasource/shardcaches.go keep true of the caches.
use mathlib.Core.Logic.{if_neg}
use kcp_marketplace.Base.{
  ℕ, ◌<◌, String, ◌≡◌, ◌≢◌, refl, sym, ◌∙◌, ap, ◌⊎◌, inl, inr, true, false, none, some, arith,
  Option-cases, ℕ_discrete,
}
use kcp_marketplace.Base.GoMap.{
  lookup, insert, NodupKeys, lookup-insert, lookup-erase, insert-NodupKeys, erase-NodupKeys,
}
use kcp_marketplace.Datasource.ShardCaches.{
  Aggregate, Caches, new_shard_caches, stop, with_cancel, cancel, commit,
}

module _ (A : Aggregate) where
  abbrev pub IsActive : Caches A → String → ℕ → Type 0
  IsActive s id c = lookup id s.active ≡ some c

  -- The aggregate cache has the active shards registered, each shard its own context, which is not
  -- cancelled; and some cache has synced if there is one.
  pub record IsCoherent (s : Caches A) : Type 0 where
    pub nodup : NodupKeys s.active
    pub agree : (id : String) → A.registered id s.agg ≡ lookup id s.active
    pub one_each : (id other : String) (c : ℕ) → IsActive s id c → IsActive s other c → id ≡ other
    pub running : (id : String) (c : ℕ) → IsActive s id c → s.is_cancelled c ≡ false
    pub made : (id : String) (c : ℕ) → IsActive s id c → c < s.contexts
    pub latched : (id : String) (c : ℕ) → IsActive s id c → s.first_synced ≡ true

  pub new_shard_caches-IsCoherent : IsCoherent (new_shard_caches A)
  unfolding new_shard_caches lookup
  new_shard_caches-IsCoherent = record {
    nodup = tt;
    agree = A.registered-empty;
    one_each = λ id other c h k. absurd (cc);
    running = λ id c h. absurd (cc);
    made = λ id c h. absurd (cc);
    latched = λ id c h. absurd (cc);
  }

  pub IsActive-stop :
      (s : Caches A) (id other : String) (c k : ℕ)
      → IsActive (stop A id c s) other k
      → (other ≢ id) × IsActive s other k
  unfolding stop
  IsActive-stop s id other c k h = ground (arith, lookup-erase other id s.active)

  pub stop-IsCoherent :
      (s : Caches A) (id : String) (c : ℕ)
      → IsActive s id c
      → IsCoherent s
      → IsCoherent (stop A id c s)
  unfolding stop
  stop-IsCoherent s id c at v = record {
    nodup = erase-NodupKeys id s.active v.nodup;
    agree = λ other.
        A.registered-remove other id s.agg
        ∙ ground (arith, v.agree other, lookup-erase other id s.active);
    one_each =
        λ a b k h j. v.one_each a b k (IsActive-stop s id a c k h).1 (IsActive-stop s id b c k j).1;
    running = λ a k h.
        let (differ, was) = IsActive-stop s id a c k h in
        if_neg (ℕ_discrete c k) (λ e. differ (v.one_each a id k was (at ∙ ap some e))) true
          (s.is_cancelled k)
        ∙ v.running a k was;
    made = λ a k h. v.made a k (IsActive-stop s id a c k h).1;
    latched = λ a k h. v.latched a k (IsActive-stop s id a c k h).1;
  }

  pub with_cancel-IsCoherent : (s : Caches A) → IsCoherent s → IsCoherent (with_cancel A s)
  unfolding with_cancel
  with_cancel-IsCoherent s v = record {
    nodup = v.nodup;
    agree = v.agree;
    one_each = v.one_each;
    running = v.running;
    made = λ id c h. omega (arith, v.made id c h);
    latched = v.latched;
  }

  pub cancel-IsCoherent :
      (s : Caches A) (c : ℕ)
      → ((id : String) → ¬ IsActive s id c)
      → IsCoherent s
      → IsCoherent (cancel A c s)
  unfolding cancel
  cancel-IsCoherent s c apart v = record {
    nodup = v.nodup;
    agree = v.agree;
    one_each = v.one_each;
    running = λ id k h.
        if_neg (ℕ_discrete c k) (λ e. apart id (h ∙ ap some (sym e))) true (s.is_cancelled k)
        ∙ v.running id k h;
    made = v.made;
    latched = v.latched;
  }

  -- What is active after the last section of `ensure` for a shard with no cache.
  abbrev pub added : String → ℕ → Caches A → Caches A
  added id c s = record s {
    agg = A.add_cache id c s.agg;
    active = insert id c s.active;
    first_synced = true;
  }

  pub IsActive-added :
      (s : Caches A) (id other : String) (c k : ℕ)
      → IsActive (added id c s) other k
      → ((other ≡ id) × (k ≡ c)) ⊎ ((other ≢ id) × IsActive s other k)
  IsActive-added s id other c k h = ground (arith, lookup-insert other id c s.active)

  pub added-IsCoherent :
      (s : Caches A) (id : String) (c : ℕ)
      → c < s.contexts
      → s.is_cancelled c ≡ false
      → ((other : String) → ¬ IsActive s other c)
      → IsCoherent s
      → IsCoherent (added id c s)
  added-IsCoherent s id c below alive apart v = record {
    nodup = insert-NodupKeys id c s.active v.nodup;
    agree = λ other.
        A.registered-add other id c s.agg
        ∙ ground (arith, v.agree other, lookup-insert other id c s.active);
    one_each = λ a b k h j. elim (IsActive-added s id a c k h) [
      | inl (ea, ka) ↦ elim (IsActive-added s id b c k j) [
        | inl (eb, _) ↦ ea ∙ sym eb
        | inr (_, was) ↦ absurd (apart b (was ∙ ap some ka))
      ]
      | inr (_, was_a) ↦ elim (IsActive-added s id b c k j) [
        | inl (_, kb) ↦ absurd (apart a (was_a ∙ ap some kb))
        | inr (_, was_b) ↦ v.one_each a b k was_a was_b
      ]
    ];
    running = λ a k h. elim (IsActive-added s id a c k h) [
      | inl (_, e) ↦ ap s.is_cancelled e ∙ alive
      | inr (_, was) ↦ v.running a k was
    ];
    made = λ a k h. elim (IsActive-added s id a c k h) [
      | inl (_, e) ↦ omega arith
      | inr (_, was) ↦ v.made a k was
    ];
    latched = λ a k h. refl;
  }

  -- The last section of `ensure` either finds a cache and cancels its own context, or adds it.
  pub commit_cases :
      (s : Caches A) (id : String) (c : ℕ)
      → ((k : ℕ) × IsActive s id k × (commit A id c s ≡ cancel A c s))
        ⊎ ((lookup id s.active ≡ none) × (commit A id c s ≡ added id c s))
  unfolding commit
  commit_cases s id c = elim (Option-cases (lookup id s.active)) [
    | inl none_there ↦ inr (none_there, ground arith)
    | inr (k, there) ↦ inl (k, there, ground arith)
  ]

  pub commit-IsCoherent :
      (s : Caches A) (id : String) (c : ℕ)
      → c < s.contexts
      → s.is_cancelled c ≡ false
      → ((other : String) → ¬ IsActive s other c)
      → IsCoherent s
      → IsCoherent (commit A id c s)
  commit-IsCoherent s id c below alive apart v = elim (commit_cases s id c) [
    | inl (_, _, e) ↦ rw e (cancel-IsCoherent s c apart v)
    | inr (_, e) ↦ rw e (added-IsCoherent s id c below alive apart v)
  ]
