-- ===== src/Datasource/Reconciler.antt =====
-- `Reconcile` of pkg/datasource/shardcontroller.go: a change of a Shard reaches its cache.
pub mod Cases
pub mod Outcomes
use kcp_marketplace.Base.{
  String, ◌≡◌, ◌≢◌, ◌⊎◌, inl, inr, refl, sym, ◌∙◌, Bool, true, false, none, some, arith, ◌==◌,
  if◌then◌else◌, String-discrete, Option-cases,
}
use kcp_marketplace.Base.GoMap.{lookup, lookup-insert, lookup-erase}
use kcp_marketplace.Errors.{Error, Result, ok, err, ◌>>=◌}
use kcp_marketplace.Datasource.ShardConfig.{Config, Shard, shard_config}
use kcp_marketplace.Datasource.ShardCaches.{
  Aggregate, Caches, Wake, remove, ensure, commit, stop, cancel, with_cancel,
}

-- What `client.Get` finds under the name of the request.
pub data Found : Type 0 where
  shard : Shard → Found
  not_found : Found
  failed : Error → Found

-- What `ensure` meets: the case of its `select`, the result of `NewWildcardCache`, and whether the
-- cache syncs.
pub record Course : Type 0 where
  pub wake : Wake
  pub build : Config → Result (Unit {0})
  pub sync : Bool

module _ (A : Aggregate) (hostname : String → Result String) (base : Config)
    (gateway_url : String) where
  unfoldable pub reconcile : String → Found → Course → Caches A → Result (Unit {0}) × Caches A
  reconcile name not_found course s = (ok tt, remove A name s)
  reconcile name (failed e) course s = (err e, s)
  reconcile name (shard found) course s = elim (shard_config hostname base gateway_url found) [
    | err e ↦ (err e, s)
    | ok cfg ↦ ensure A course.wake found.name (course.build cfg) course.sync s
  ]
