-- ===== src/Main/Readiness.antt =====
-- The readiness check `shards-synced` of `run` in cmd/marketplace-vws/main.go.
use kcp_marketplace.Base.{
  ℕ, String, ◌≡◌, inl, inr, refl, ◌∙◌, ◌↔◌, true, some, arith, List, [], ◌∷◌, if◌then◌else◌,
  Option-cases,
}
use kcp_marketplace.Base.GoMap.{lookup}
use kcp_marketplace.Errors.{shards_not_synced, Result, ok, err}
use kcp_marketplace.Datasource.ShardCaches.{
  Aggregate, Caches, synced, with_cancel, cancel, commit, remove, stop, stop_each, close_start,
  open_start, end_base,
}
use kcp_marketplace.Datasource.ShardCaches.Steps.{
  World, Step, Reach, start, expire, shut, drop, call, give_up, found, absent, not_built, built,
  in_sync, not_in_sync, finish, leave, here, next,
}
use kcp_marketplace.Datasource.ShardCaches.Ownership.{new_world, registered_runs}

-- The check that gates readiness.
unfoldable pub shards_synced_check : (A : Aggregate) → Caches A → Result (Unit {0})
shards_synced_check A caches = if synced A caches then ok tt else err shards_not_synced

module _ (A : Aggregate) where
  abbrev IsReady : World A → Type 0
  IsReady w = shards_synced_check A w.caches ≡ ok tt

  IsReady_iff : (s : Caches A) → (shards_synced_check A s ≡ ok tt) ↔ (s.first_synced ≡ true)
  unfolding shards_synced_check synced
  IsReady_iff s = (λ h. ground arith, λ h. ground arith)

  stop_each-synced :
      (active : List (String × ℕ)) (s : Caches A)
      → (stop_each A active s).first_synced ≡ s.first_synced
  unfolding stop_each stop
  stop_each-synced [] s = refl
  stop_each-synced ((id, c) ∷ rest) s = stop_each-synced rest (stop A id c s)

  Step-synced :
      {w v : World A} → Step A w v → w.caches.first_synced ≡ true → v.caches.first_synced ≡ true
  unfolding open_start end_base close_start remove stop with_cancel cancel commit
  Step-synced {w} start h = h
  Step-synced {w} expire h = h
  Step-synced {w} (shut order _ _) h = stop_each-synced (order.visit w.caches.active) w.caches ∙ h
  Step-synced {w} (drop id) h = elim (Option-cases (lookup id w.caches.active)) [
    | inl free ↦ ground arith
    | inr (c, there) ↦ ground arith
  ]
  Step-synced {w} (call _ _ _) h = h
  Step-synced {w} (give_up _ _ _) h = h
  Step-synced {w} (found _ _ _ _ _ _) h = h
  Step-synced {w} (absent _ _ _ _ _) h = h
  Step-synced {w} (not_built _ _ _ _) h = h
  Step-synced {w} (built _ _ _) h = h
  Step-synced {w} (in_sync _ _ _ _) h = h
  Step-synced {w} (not_in_sync _ _ _ _) h = h
  Step-synced {w} (finish i id c _) h = elim (Option-cases (lookup id w.caches.active)) [
    | inl free ↦ ground arith
    | inr (k, there) ↦ ground arith
  ]
  Step-synced {w} (leave _ _ _) h = h

  Reach-synced :
      {w v : World A} → Reach A w v → w.caches.first_synced ≡ true → v.caches.first_synced ≡ true
  Reach-synced here h = h
  Reach-synced (next r st) h = Step-synced st (Reach-synced r h)

  -- Once the readiness check passes it passes in every later state, whatever the goroutines do,
  -- removed shards and the end of `Start` included.
  pub readiness_stays : {w v : World A} → Reach A w v → IsReady w → IsReady v
  readiness_stays {w} {v} r h =
      (IsReady_iff v.caches).1 (Reach-synced r ((IsReady_iff w.caches).0 h))

  -- In every reachable state with a registered cache the readiness check passes.
  pub registered-IsReady :
      {w : World A} (id : String) (c : ℕ)
      → Reach A (new_world A) w
      → A.registered id w.caches.agg ≡ some c
      → IsReady w
  registered-IsReady {w} id c r h = (IsReady_iff w.caches).1 ((registered_runs A r id id c h h).2)
