-- ===== src/Datasource/ShardCaches.antt =====
-- pkg/datasource/shardcaches.go: one cache for each shard, registered on the aggregate cache.
pub mod Steps
pub mod Invariant
pub mod Moves
pub mod Transfers
pub mod Shutdown
pub mod Ownership
use kcp_marketplace.Base.{
  ℕ, suc, String, ◌≡◌, Bool, true, false, Option, none, some, List, [], ◌∷◌, ◌==◌, ◌||◌,
  if◌then◌else◌, update,
}
use kcp_marketplace.Base.GoMap.{GoMap, lookup, insert, erase}
use kcp_marketplace.Base.Sort.{RangeOrder}
use kcp_marketplace.Errors.{
  Error, context_cancelled, cache_not_built, cache_not_synced, Result, ok, err,
}

-- The aggregate cache of multicluster-provider: caches, here numbers, registered by shard.
pub record Aggregate : Type 1 where
  pub State : Type 0
  pub empty : State
  pub add_cache : String → ℕ → State → State
  pub remove_cache : String → State → State
  pub registered : String → State → Option ℕ
  pub registered-empty : (id : String) → registered id empty ≡ none
  pub registered-add :
      (id shard : String) (cache : ℕ) (s : State)
      → registered id (add_cache shard cache s)
        ≡ (if id == shard then some cache else registered id s)
  pub registered-remove :
      (id shard : String) (s : State)
      → registered id (remove_cache shard s) ≡ (if id == shard then none else registered id s)

-- Which case of the `select` in `ensure` is taken.
pub data Wake : Type 0 where
  started cancelled : Wake

module _ (A : Aggregate) where
  -- `ShardCaches`, with what its methods act on. A call of `context.WithCancel` makes the context
  -- `contexts`, and one cache runs under it; both go by that number. It is a child of the manager's
  -- context, which ends on its own.
  pub record Caches : Type 0 where
    pub running : Bool  -- `started` is closed
    pub active : GoMap ℕ  -- shard id → context
    pub first_synced : Bool
    pub agg : A.State
    pub contexts : ℕ
    pub is_cancelled : ℕ → Bool  -- its own `cancel` was called
    pub base_ended : Bool  -- the manager's context is done

  unfoldable pub new_shard_caches : Caches
  new_shard_caches = record {
    running = false;
    active = [];
    first_synced = false;
    agg = A.empty;
    contexts = 0;
    is_cancelled = λ _. false;
    base_ended = false;
  }

  -- A context is done when its own `cancel` was called, or when its parent is done.
  unfoldable pub is_done : Caches → ℕ → Bool
  is_done s context = s.base_ended || s.is_cancelled context

  -- The end of the manager's context, and so of every context that is made from it.
  unfoldable pub end_base : Caches → Caches
  end_base s = record s { base_ended = true }

  -- The first part of `Start`, before it waits for the end of the manager's context.
  unfoldable pub open_start : Caches → Caches
  open_start s = record s { running = true }

  -- The body of the loops in `Start` and of the `if` in `remove`.
  unfoldable pub stop : String → ℕ → Caches → Caches
  stop id context s = record s {
    agg = A.remove_cache id s.agg;
    is_cancelled = update s.is_cancelled context true;
    active = erase id s.active;
  }

  unfoldable pub stop_each : List (String × ℕ) → Caches → Caches
  stop_each [] s = s
  stop_each ((id, context) ∷ rest) s = stop_each rest (stop id context s)

  -- The last part of `Start`. The `range` visits the map in any order.
  unfoldable pub close_start : RangeOrder (String × ℕ) → Caches → Caches
  unfolding stop_each stop
  close_start order s = stop_each (order.visit s.active) s

  unfoldable pub remove : String → Caches → Caches
  unfolding stop
  remove id s = elim (lookup id s.active) [ none ↦ s | some context ↦ stop id context s ]

  unfoldable pub synced : Caches → Bool
  synced s = s.first_synced

  -- `context.WithCancel(base)`: the new context is done at once if the base is.
  unfoldable pub with_cancel : Caches → Caches
  with_cancel s = record s { contexts = suc s.contexts }

  unfoldable pub cancel : ℕ → Caches → Caches
  cancel context s = record s { is_cancelled = update s.is_cancelled context true }

  -- The last critical section of `ensure`.
  unfoldable pub commit : String → ℕ → Caches → Caches
  unfolding cancel
  commit id context s = elim (lookup id s.active) [
    | some _ ↦ cancel context s
    | none ↦ record s {
      agg = A.add_cache id context s.agg;
      active = insert id context s.active;
      first_synced = true;
    }
  ]

  -- `ensure`, with nothing in between: `built` is what `NewWildcardCache` returns, `sync` what
  -- `WaitForCacheSync` does.
  unfoldable pub ensure :
      Wake → String → Result (Unit {0}) → Bool → Caches → Result (Unit {0}) × Caches
  unfolding with_cancel cancel commit
  ensure Wake.cancelled id built sync s = (err context_cancelled, s)
  ensure Wake.started id built sync s = elim (lookup id s.active) [
    | some _ ↦ (ok tt, s)
    | none ↦ elim built [
      | err e ↦ (err (cache_not_built id e), s)
      | ok _ ↦
          let context = s.contexts in
          let s' = with_cancel s in
          if sync
          then (ok tt, commit id context s')
          else (err (cache_not_synced id), cancel context s')
    ]
  ]
