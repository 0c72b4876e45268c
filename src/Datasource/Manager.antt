-- ===== src/Datasource/Manager.antt =====
-- pkg/datasource/manager.go: the manager that runs the shard caches and the reconciler. What `new`
-- and the constructors of shared objects return is an address, so that sharing shows.
use kcp_marketplace.Base.{ℕ, suc, String, ◌≡◌, refl, subst, Bool, false}
use kcp_marketplace.Errors.{Result, ok, ◌>>=◌, bind-ok}
use kcp_marketplace.Datasource.ShardConfig.{Config}

-- `ShardCaches` at an address, with the address of its aggregate cache, and the `Reader`.
pub record CachesRef : Type 0 where
  pub address : ℕ
  pub agg : ℕ

pub record ReaderRef : Type 0 where
  pub agg : ℕ

-- `shardReconciler`; its client is the manager's own.
pub record ReconcilerRef : Type 0 where
  pub caches : CachesRef
  pub base : Config
  pub gateway_url : String

-- `ctrlmanager.Options`, but for the scheme of kcp's types.
pub record ManagerOptions : Type 0 where
  pub leader_election : Bool
  pub metrics_address : String
  pub health_probe_address : String

-- The managers of multicluster-runtime and controller-runtime: their construction, `Add`, and a
-- controller for Shards that calls a reconciler, and `Start`.
pub record ManagerLibrary : Type 1 where
  pub Mgr : Type 0
  pub new : Config → ManagerOptions → Result Mgr
  pub add : CachesRef → Mgr → Result Mgr
  pub complete : ReconcilerRef → Mgr → Result Mgr
  pub start : Mgr → Result (Unit {0})

abbrev pub manager_options : ManagerOptions
manager_options = record {
  leader_election = false;
  metrics_address = "0";
  health_probe_address = "0";
}

module _ (lib : ManagerLibrary) where
  pub record Manager : Type 0 where
    pub mgr : lib.Mgr
    pub caches : CachesRef
    pub reader : ReaderRef

  unfoldable pub start : Manager → Result (Unit {0})
  start m = lib.start m.mgr

  unfoldable pub reader_of : Manager → ReaderRef
  reader_of m = m.reader

  -- `synced` is the answer of `ShardCaches.Synced` at some moment.
  unfoldable pub is_synced : (CachesRef → Bool) → Manager → Bool
  is_synced synced m = synced m.caches

  -- `next` is the first address that is free.
  unfoldable pub new_manager : ℕ → Config → Config → String → Result Manager
  new_manager next root base gateway_url =
      let agg = next in
      let caches : CachesRef = record { address = suc next; agg = agg } in
      lib.new root manager_options >>= λ made. lib.add caches made >>= λ running.
      lib.complete (record { caches = caches; base = base; gateway_url = gateway_url }) running
      >>= λ mgr. ok (record { mgr = mgr; caches = caches; reader = record { agg = agg } })

  -- What a manager runs, fills, and reads.
  pub record IsAssembled (root base : Config) (gateway_url : String) (m : Manager) : Type 0 where
    pub made : lib.Mgr
    pub running : lib.Mgr
    pub made_for_root : lib.new root manager_options ≡ ok made
    pub runs_caches : lib.add m.caches made ≡ ok running
    pub fills_caches :
        lib.complete (record { caches = m.caches; base = base; gateway_url = gateway_url }) running
        ≡ ok m.mgr
    pub reads_caches : (reader_of m).agg ≡ m.caches.agg

  -- A manager that `NewManager` returns was made for the root configuration, runs the caches
  -- that its reconciler fills, and has a reader of the aggregate cache of the same caches.
  pub new_manager-IsAssembled :
      (next : ℕ) (root base : Config) (gateway_url : String) (m : Manager)
      → new_manager next root base gateway_url ≡ ok m
      → IsAssembled root base gateway_url m
  unfolding new_manager reader_of
  new_manager-IsAssembled next root base gateway_url m built =
      let caches : CachesRef = record { address = suc next; agg = next } in
      let (made, new, with_new) = bind-ok (lib.new root manager_options) _ m built in
      let (running, added, with_caches) = bind-ok (lib.add caches made) _ m with_new in
      let (mgr, completed, last) =
        bind-ok
          (lib.complete (record { caches = caches; base = base; gateway_url = gateway_url })
            running)
          _ m with_caches in
      let whole : record { mgr = mgr; caches = caches; reader = record { agg = next } } ≡ m = cc in
      subst (λ k. IsAssembled root base gateway_url k) whole
        (record {
          made = made;
          running = running;
          made_for_root = new;
          runs_caches = added;
          fills_caches = completed;
          reads_caches = refl;
        })
