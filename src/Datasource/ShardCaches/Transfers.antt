-- ===== src/Datasource/ShardCaches/Transfers.antt =====
-- How the critical sections of pkg/datasource/shardcaches.go pass the contexts on.
use mathlib.Core.Logic.{if_neg}
use kcp_marketplace.Base.{
  ℕ, String, ◌≡◌, ◌≢◌, sym, ◌∙◌, ap, subst, ◌⊎◌, inl, inr, true, false, none, some, arith, update,
  ℕ_discrete,
}
use kcp_marketplace.Base.GoMap.{lookup, lookup-erase, lookup-insert}
use kcp_marketplace.Datasource.ShardCaches.{Aggregate, Caches, stop, with_cancel, cancel, commit}
use kcp_marketplace.Datasource.ShardCaches.Steps.{Phase, syncing, Holds}
use kcp_marketplace.Datasource.ShardCaches.Invariant.{
  IsActive, IsActive-stop, stop-IsCoherent, with_cancel-IsCoherent, cancel-IsCoherent, added,
  IsActive-added, commit_cases, added-IsCoherent,
}
use kcp_marketplace.Datasource.ShardCaches.Moves.{
  Holds-update, Holds-update_self, Holds-update_ne, Holds-inj, IsSafe, Owned,
}

module _ (A : Aggregate) (s : Caches A) (f : ℕ → Phase) (v : IsSafe A s f) where
  -- A context other than the one that is cancelled is as it was.
  still_alive :
      (c k : ℕ) → c ≢ k → s.is_cancelled k ≡ false → update s.is_cancelled c true k ≡ false
  still_alive c k differ alive = if_neg (ℕ_discrete c k) differ true (s.is_cancelled k) ∙ alive

  was_alive :
      (c k : ℕ) → update s.is_cancelled c true k ≡ false → (c ≢ k) × (s.is_cancelled k ≡ false)
  was_alive c k alive = ground arith

  module _ (id : String) (c : ℕ) (at : IsActive A s id c) where
    unowned : (i k : ℕ) → Holds (f i) k → c ≢ k
    unowned i k h e = v.apart i k h id (at ∙ ap some e)

    stop-Owned : (k : ℕ) → c ≢ k → Owned A s f k → Owned A (stop A id c s) f k
    unfolding stop
    stop-Owned k differ (inr held) = inr held
    stop-Owned k differ (inl (other, was)) =
        inl (other, ground (arith, lookup-erase other id s.active))

    -- `remove`, and each round of the loop in `Start`, cancel the context of the shard's cache.
    pub stop-IsSafe : IsSafe A (stop A id c s) f
    unfolding stop
    stop-IsSafe = record {
      coherent = stop-IsCoherent A s id c at v.coherent;
      held = λ i k h.
          let (below, alive) = v.held i k h in (below, still_alive c k (unowned i k h) alive);
      apart = λ i k h other now. v.apart i k h other (IsActive-stop A s id other c k now).1;
      alone = v.alone;
      unmade = λ k above.
          still_alive c k (λ e. absurd (omega (arith, v.coherent.made id c at))) (v.unmade k above);
      no_leak = λ k below alive.
          let (differ, was) = was_alive c k alive in stop-Owned k differ (v.no_leak k below was);
    }

  module _ (i : ℕ) (c : ℕ) (mine : Holds (f i) c) (p : Phase) (empty : (k : ℕ) → ¬ Holds p k) where
    others : (j k : ℕ) → Holds (update f i p j) k → (i ≢ j) × Holds (f j) k
    others j k h = elim (Holds-update f i p j k h) [
      | inl (_, none_there) ↦ absurd (empty k none_there)
      | inr kept ↦ kept
    ]

    not_mine : (j k : ℕ) → i ≢ j → Holds (f j) k → c ≢ k
    not_mine j k differ h e = differ (v.alone i j c mine (subst (Holds (f j)) (sym e) h))

    kept_or_mine :
        (k : ℕ)
        → Owned A s f k
        → ((id : String) × IsActive A s id k) ⊎ ((j : ℕ) × Holds (update f i p j) k) ⊎ (c ≡ k)
    kept_or_mine k (inl active) = inl active
    kept_or_mine k (inr (j, h)) = elim (ℕ_discrete i j) [
      | yes e ↦ inr (inr (Holds-inj (f i) c k mine (subst (λ l. Holds (f l) k) (sym e) h)))
      | no e ↦ inr (inl (j, Holds-update_ne f i p j k e h))
    ]

    -- A goroutine that cancels the context that it holds, and holds none after.
    pub cancel-IsSafe : IsSafe A (cancel A c s) (update f i p)
    unfolding cancel
    cancel-IsSafe = record {
      coherent = cancel-IsCoherent A s c (v.apart i c mine) v.coherent;
      held = λ j k h.
          let (differ, was) = others j k h in
          let (below, alive) = v.held j k was in
          (below, still_alive c k (not_mine j k differ was) alive);
      apart = λ j k h. v.apart j k (others j k h).1;
      alone = λ j l k h g. v.alone j l k (others j k h).1 (others l k g).1;
      unmade = λ k above.
          still_alive c k (λ e. absurd (omega (arith, (v.held i c mine).0))) (v.unmade k above);
      no_leak = λ k below alive.
          let (differ, was) = was_alive c k alive in
          elim (kept_or_mine k (v.no_leak k below was)) [
            | inl active ↦ inl active
            | inr (inl holder) ↦ inr holder
            | inr (inr same) ↦ absurd (differ same)
          ];
    }

    -- A goroutine that registers its cache hands the context over to the shard.
    added-IsSafe :
        (id : String) → lookup id s.active ≡ none → IsSafe A (added A id c s) (update f i p)
    added-IsSafe id free = record {
      coherent =
          let (below, alive) = v.held i c mine in
          added-IsCoherent A s id c below alive (v.apart i c mine) v.coherent;
      held = λ j k h. v.held j k (others j k h).1;
      apart = λ j k h other now.
          let (differ, was) = others j k h in
          elim (IsActive-added A s id other c k now) [
            | inl (_, same) ↦ not_mine j k differ was (sym same)
            | inr (_, active) ↦ v.apart j k was other active
          ];
      alone = λ j l k h g. v.alone j l k (others j k h).1 (others l k g).1;
      unmade = v.unmade;
      no_leak = λ k below alive. elim (kept_or_mine k (v.no_leak k below alive)) [
        | inl (other, was) ↦ inl (other, ground (arith, lookup-insert other id c s.active))
        | inr (inl holder) ↦ inr holder
        | inr (inr same) ↦ inl (id, ground (arith, lookup-insert id id c s.active))
      ];
    }

    pub commit-IsSafe : (id : String) → IsSafe A (commit A id c s) (update f i p)
    commit-IsSafe id = elim (commit_cases A s id c) [
      | inl (_, _, e) ↦ rw e cancel-IsSafe
      | inr (free, e) ↦ rw e (added-IsSafe id free)
    ]

  -- A goroutine that holds no context makes one.
  pub with_cancel-IsSafe :
      (i : ℕ) (id : String)
      → ((k : ℕ) → ¬ Holds (f i) k)
      → IsSafe A (with_cancel A s) (update f i (syncing id s.contexts))
  unfolding with_cancel
  with_cancel-IsSafe i id empty = record {
    coherent = with_cancel-IsCoherent A s v.coherent;
    held = λ j k h. elim (Holds-update f i (syncing id s.contexts) j k h) [
      | inl (_, e) ↦ (omega (arith, e), v.unmade k (omega (arith, e)))
      | inr (_, was) ↦ let (below, alive) = v.held j k was in (omega arith, alive)
    ];
    apart = λ j k h other now. elim (Holds-update f i (syncing id s.contexts) j k h) [
      | inl (_, e) ↦ absurd (omega (arith, v.coherent.made other k now, e))
      | inr (_, was) ↦ v.apart j k was other now
    ];
    alone = λ j l k h g. elim (Holds-update f i (syncing id s.contexts) j k h) [
      | inl (ej, new) ↦ elim (Holds-update f i (syncing id s.contexts) l k g) [
        | inl (el, _) ↦ sym ej ∙ el
        | inr (_, was) ↦ absurd (omega (arith, new, (v.held l k was).0))
      ]
      | inr (_, was_j) ↦ elim (Holds-update f i (syncing id s.contexts) l k g) [
        | inl (_, new) ↦ absurd (omega (arith, new, (v.held j k was_j).0))
        | inr (_, was_l) ↦ v.alone j l k was_j was_l
      ]
    ];
    unmade = λ k above. v.unmade k (omega arith);
    no_leak = λ k below alive. elim (ℕ_discrete s.contexts k) [
      | yes e ↦ inr (i, Holds-update_self f i (syncing id s.contexts) k e)
      | no e ↦ elim (v.no_leak k (omega arith) alive) [
        | inl active ↦ inl active
        | inr (j, h) ↦ inr (
          j,
          Holds-update_ne f i (syncing id s.contexts) j k
              (λ same. empty k (subst (λ l. Holds (f l) k) (sym same) h)) h,
        )
      ]
    ];
  }
