-- ===== src/Datasource/ShardCaches/Ownership.antt =====
-- Every context that `ensure` of pkg/datasource/shardcaches.go makes has one owner until it is
-- cancelled, whatever the goroutines do.
use kcp_marketplace.Base.{
  ℕ, ◌<◌, String, ◌≡◌, refl, sym, ◌∙◌, subst, inl, inr, true, false, none, some, arith, update,
  Bool-cases,
}
use kcp_marketplace.Base.GoMap.{lookup}
use kcp_marketplace.Base.Sort.{RangeOrder}
use kcp_marketplace.Errors.{context_cancelled, cache_not_built, ok, err}
use kcp_marketplace.Datasource.ShardCaches.{
  Aggregate, Caches, new_shard_caches, is_done, end_base, open_start, close_start,
}
use kcp_marketplace.Datasource.ShardCaches.Steps.{
  Phase, idle, waiting, building, ready, returned, Holds, World, Step, start, expire, shut, drop,
  call, give_up, found, absent, not_built, built, in_sync, not_in_sync, finish, leave, Reach, here,
  next,
}
use kcp_marketplace.Datasource.ShardCaches.Invariant.{new_shard_caches-IsCoherent}
use kcp_marketplace.Datasource.ShardCaches.Moves.{IsSafe, Owned, phase-IsSafe}
use kcp_marketplace.Datasource.ShardCaches.Transfers.{
  cancel-IsSafe, commit-IsSafe, with_cancel-IsSafe,
}
use kcp_marketplace.Datasource.ShardCaches.Shutdown.{
  close_start-IsSafe, remove-IsSafe, close_start_empties, close_start-contexts,
}

module _ (A : Aggregate) where
  abbrev pub new_world : World A
  new_world = record { caches = new_shard_caches A; phase = λ _. idle }

  new_world-IsSafe : IsSafe A (new_shard_caches A) (λ _. idle)
  unfolding new_shard_caches
  new_world-IsSafe = record {
    coherent = new_shard_caches-IsCoherent A;
    held = λ i c h. absurd h;
    apart = λ i c h. absurd h;
    alone = λ i j c h. absurd h;
    unmade = λ c above. refl;
    no_leak = λ c below. absurd (omega arith);
  }

  open_start-IsSafe : (s : Caches A) (f : ℕ → Phase) → IsSafe A s f → IsSafe A (open_start A s) f
  unfolding open_start
  open_start-IsSafe s f v = record {
    coherent = record {
      nodup = v.coherent.nodup;
      agree = v.coherent.agree;
      one_each = v.coherent.one_each;
      running = v.coherent.running;
      made = v.coherent.made;
      latched = v.coherent.latched;
    };
    held = v.held;
    apart = v.apart;
    alone = v.alone;
    unmade = v.unmade;
    no_leak = v.no_leak;
  }

  end_base-IsSafe : (s : Caches A) (f : ℕ → Phase) → IsSafe A s f → IsSafe A (end_base A s) f
  unfolding end_base
  end_base-IsSafe s f v = record {
    coherent = record {
      nodup = v.coherent.nodup;
      agree = v.coherent.agree;
      one_each = v.coherent.one_each;
      running = v.coherent.running;
      made = v.coherent.made;
      latched = v.coherent.latched;
    };
    held = v.held;
    apart = v.apart;
    alone = v.alone;
    unmade = v.unmade;
    no_leak = v.no_leak;
  }

  -- A move between two phases that hold nothing.
  quiet :
      (s : Caches A) (f : ℕ → Phase) (i : ℕ) (q : Phase) {p : Phase}
      → f i ≡ p
      → ((c : ℕ) → ¬ Holds p c)
      → ((c : ℕ) → ¬ Holds q c)
      → IsSafe A s f
      → IsSafe A s (update f i q)
  quiet s f i q at empty empty' v =
      phase-IsSafe A s f i q (λ c h. absurd (empty' c h))
        (λ c h. absurd (empty c (subst (λ p. Holds p c) at h))) v

  Step-IsSafe : {w u : World A} → Step A w u → IsSafe A w.caches w.phase → IsSafe A u.caches u.phase
  Step-IsSafe {w} start v = open_start-IsSafe w.caches w.phase v
  Step-IsSafe {w} expire v = end_base-IsSafe w.caches w.phase v
  Step-IsSafe {w} (shut order run ended) v = close_start-IsSafe A order w.caches w.phase v
  Step-IsSafe {w} (drop id) v = remove-IsSafe A id w.caches w.phase v
  Step-IsSafe {w} (call i id at) v =
      quiet w.caches w.phase i (waiting id) at (λ c h. h) (λ c h. h) v
  Step-IsSafe {w} (give_up i id at) v =
      quiet w.caches w.phase i (returned (err context_cancelled)) at (λ c h. h) (λ c h. h) v
  Step-IsSafe {w} (found i id c at run there) v =
      quiet w.caches w.phase i (returned (ok tt)) at (λ c h. h) (λ c h. h) v
  Step-IsSafe {w} (absent i id at run none_there) v =
      quiet w.caches w.phase i (building id) at (λ c h. h) (λ c h. h) v
  Step-IsSafe {w} (not_built i id e at) v =
      quiet w.caches w.phase i (returned (err (cache_not_built id e))) at (λ c h. h) (λ c h. h) v
  Step-IsSafe {w} (built i id at) v =
      with_cancel-IsSafe A w.caches w.phase v i id (λ k h. subst (λ p. Holds p k) at h)
  Step-IsSafe {w} (in_sync i id c at) v =
      phase-IsSafe A w.caches w.phase i (ready id c) (λ k h. subst (λ p. Holds p k) (sym at) h)
        (λ k h. subst (λ p. Holds p k) at h) v
  Step-IsSafe {w} (not_in_sync i id c at) v =
      cancel-IsSafe A w.caches w.phase v i c (subst (λ p. Holds p c) (sym at) refl) _ (λ k h. h)
  Step-IsSafe {w} (finish i id c at) v =
      commit-IsSafe A w.caches w.phase v i c (subst (λ p. Holds p c) (sym at) refl)
        (returned (ok tt)) (λ k h. h) id
  Step-IsSafe {w} (leave i r at) v = quiet w.caches w.phase i idle at (λ c h. h) (λ c h. h) v

  pub Reach-IsSafe : {w : World A} → Reach A new_world w → IsSafe A w.caches w.phase
  Reach-IsSafe here = new_world-IsSafe
  Reach-IsSafe (next r st) = Step-IsSafe st (Reach-IsSafe r)

  -- In every reachable state the aggregate cache has, for each shard, the cache of its active
  -- entry and no other.
  pub registered_active :
      {w : World A}
      → Reach A new_world w
      → (id : String) → A.registered id w.caches.agg ≡ lookup id w.caches.active
  registered_active r = (Reach-IsSafe r).coherent.agree

  -- In every reachable state a registered cache runs for as long as the manager's context lasts:
  -- its own context is done exactly if that one has ended, no other shard has it, and readiness
  -- is reported.
  pub registered_runs :
      {w : World A}
      → Reach A new_world w
      → (id other : String) (c : ℕ) → A.registered id w.caches.agg ≡ some c
      → A.registered other w.caches.agg ≡ some c
      → (is_done A w.caches c ≡ w.caches.base_ended) × (id ≡ other) × (w.caches.first_synced ≡ true)
  unfolding is_done
  registered_runs {w} r id other c h k =
      let v = Reach-IsSafe r in
      let at = sym (v.coherent.agree id) ∙ h in
      (
        (let alive = v.coherent.running id c at in ground (arith, Bool-cases w.caches.base_ended)),
        v.coherent.one_each id other c at (sym (v.coherent.agree other) ∙ k),
        v.coherent.latched id c at,
      )

  -- In every reachable state a context that `ensure` made and that is not cancelled belongs to
  -- an active shard, or to a goroutine that is still in `ensure`.
  pub contexts-Owned :
      {w : World A}
      → Reach A new_world w
      → (c : ℕ) → c < w.caches.contexts
      → w.caches.is_cancelled c ≡ false
      → Owned A w.caches w.phase c
  contexts-Owned r = (Reach-IsSafe r).no_leak

  -- When `Start` ends in a reachable state in which no goroutine has a context in `ensure`, no
  -- cache is registered and every context that was made is cancelled.
  pub close_start_clean :
      {w : World A}
      → Reach A new_world w
      → ((i c : ℕ) → ¬ Holds (w.phase i) c)
      → (order : RangeOrder (String × ℕ)) (id : String) (c : ℕ) → c < w.caches.contexts
      → (A.registered id (close_start A order w.caches).agg ≡ none)
        × ((close_start A order w.caches).is_cancelled c ≡ true)
  close_start_clean {w} r no_holder order id c below =
      let v = close_start-IsSafe A order w.caches w.phase (Reach-IsSafe r) in
      (
        v.coherent.agree id ∙ close_start_empties A order w.caches id,
        elim (Bool-cases ((close_start A order w.caches).is_cancelled c)) [
          | inl done ↦ done
          | inr alive ↦
              elim (v.no_leak c
                (subst (λ n. c < n) (sym (close_start-contexts A order w.caches)) below) alive) [
                  | inl (other, at) ↦
                      let free = close_start_empties A order w.caches other in absurd (cc)
                  | inr (i, h) ↦ absurd (no_holder i c h)
                ]
        ],
      )
