-- ===== src/Datasource/ShardCaches/Steps.antt =====
-- Any number of goroutines in `ensure` and `remove` of pkg/datasource/shardcaches.go, and `Start`.
-- The mutex makes each critical section one step. The manager's context may end at any time, and
-- the last part of `Start` follows that.
use kcp_marketplace.Base.{ℕ, String, ◌≡◌, true, none, some, update}
use kcp_marketplace.Base.GoMap.{lookup}
use kcp_marketplace.Base.Sort.{RangeOrder}
use kcp_marketplace.Errors.{
  Error, context_cancelled, cache_not_built, cache_not_synced, Result, ok, err,
}
use kcp_marketplace.Datasource.ShardCaches.{
  Aggregate, Caches, end_base, open_start, close_start, remove, with_cancel, cancel, commit,
}

-- Where a goroutine stands in `ensure`.
pub data Phase : Type 0 where
  idle : Phase
  waiting : String → Phase  -- in the `select`
  building : String → Phase  -- the shard has no cache
  syncing : String → ℕ → Phase  -- the cache runs under the context
  ready : String → ℕ → Phase  -- before the last critical section
  returned : Result (Unit {0}) → Phase

-- The context that a goroutine has made and not yet handed over or cancelled.
abbrev pub Holds : Phase → ℕ → Type 0
Holds (syncing _ c) h = c ≡ h
Holds (ready _ c) h = c ≡ h
Holds _ h = ⊥

module _ (A : Aggregate) where
  pub record World : Type 0 where
    pub caches : Caches A
    pub phase : ℕ → Phase

  pub data Step (w : World) : World → Type 0 where
    start : Step w (record w { caches = open_start A w.caches })
    expire : Step w (record w { caches = end_base A w.caches })
    shut :
        (order : RangeOrder (String × ℕ))
        → w.caches.running ≡ true
        → w.caches.base_ended ≡ true
        → Step w (record w { caches = close_start A order w.caches })
    drop : (id : String) → Step w (record w { caches = remove A id w.caches })
    call :
        (i : ℕ) (id : String)
        → w.phase i ≡ idle
        → Step w (record w { phase = update w.phase i (waiting id) })
    give_up :
        (i : ℕ) (id : String)
        → w.phase i ≡ waiting id
        → Step w (record w { phase = update w.phase i (returned (err context_cancelled)) })
    found :
        (i : ℕ) (id : String) (c : ℕ)
        → w.phase i ≡ waiting id
        → w.caches.running ≡ true
        → lookup id w.caches.active ≡ some c
        → Step w (record w { phase = update w.phase i (returned (ok tt)) })
    absent :
        (i : ℕ) (id : String)
        → w.phase i ≡ waiting id
        → w.caches.running ≡ true
        → lookup id w.caches.active ≡ none
        → Step w (record w { phase = update w.phase i (building id) })
    not_built :
        (i : ℕ) (id : String) (e : Error)
        → w.phase i ≡ building id
        → Step w (record w { phase = update w.phase i (returned (err (cache_not_built id e))) })
    built :
        (i : ℕ) (id : String)
        → w.phase i ≡ building id
        → Step w (record {
          caches = with_cancel A w.caches;
          phase = update w.phase i (syncing id w.caches.contexts);
        })
    in_sync :
        (i : ℕ) (id : String) (c : ℕ)
        → w.phase i ≡ syncing id c
        → Step w (record w { phase = update w.phase i (ready id c) })
    not_in_sync :
        (i : ℕ) (id : String) (c : ℕ)
        → w.phase i ≡ syncing id c
        → Step w (record {
          caches = cancel A c w.caches;
          phase = update w.phase i (returned (err (cache_not_synced id)));
        })
    finish :
        (i : ℕ) (id : String) (c : ℕ)
        → w.phase i ≡ ready id c
        → Step w (record {
          caches = commit A id c w.caches;
          phase = update w.phase i (returned (ok tt));
        })
    leave :
        (i : ℕ) (r : Result (Unit {0}))
        → w.phase i ≡ returned r
        → Step w (record w { phase = update w.phase i idle })

  pub data Reach (w : World) : World → Type 0 where
    here : Reach w w
    next : {v u : World} → Reach w v → Step v u → Reach w u
