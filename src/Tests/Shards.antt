-- ===== src/Tests/Shards.antt =====
-- Caches of one shard, for pkg/datasource/shardcaches.go and shardcontroller.go.
use mathlib.Core.Bool.{true≢false}
use kcp_marketplace.Base.{
  subst, ℕ, String, ◌≡◌, ◌≢◌, ◌⊎◌, refl, ◌∙◌, ap, true, false, none, some, arith, [], ◌==◌,
  if◌then◌else◌, String-discrete, ℕ_discrete, update,
}
use kcp_marketplace.Base.GoMap.{GoMap, lookup, insert, erase, lookup-insert, lookup-erase}
use kcp_marketplace.Base.Sort.{in_order}
use kcp_marketplace.Errors.{external, cache_not_built, Result, ok, err}
use kcp_marketplace.Datasource.ShardConfig.{Config, Shard, shard_config, shard_config_dials}
use kcp_marketplace.Datasource.ShardCaches.{
  Aggregate, Caches, is_done, end_base, started, new_shard_caches, open_start, close_start,
  with_cancel, commit, ensure,
}
use kcp_marketplace.Datasource.ShardCaches.Steps.{
  idle, returned, Phase, World, Reach, start, call, absent, built, in_sync, finish, here, next,
  Holds,
}
use kcp_marketplace.Datasource.ShardCaches.Moves.{Owned}
use kcp_marketplace.Datasource.ShardCaches.Invariant.{IsCoherent, new_shard_caches-IsCoherent}
use kcp_marketplace.Datasource.ShardCaches.Ownership.{
  new_world, Reach-IsSafe, registered_active, registered_runs, contexts-Owned, close_start_clean,
}
use kcp_marketplace.Datasource.Reconciler.{Found, shard, not_found, Course, reconcile}
use kcp_marketplace.Datasource.Reconciler.Cases.{IsUntouched, IsSameOn, IsNamed}
use kcp_marketplace.Datasource.Reconciler.Outcomes.{
  reconcile_adds, reconcile_removes, reconcile_fails, reconcile_local, reconcile_again,
}
use kcp_marketplace.Main.Readiness.{shards_synced_check, readiness_stays, registered-IsReady}

abbrev aggregate : Aggregate
unfolding lookup
aggregate = record {
  State = GoMap ℕ;
  empty = [];
  add_cache = insert;
  remove_cache = erase;
  registered = lookup;
  registered-empty = λ id. refl;
  registered-add = λ id shard c s. lookup-insert id shard c s;
  registered-remove = λ id shard s. lookup-erase id shard s;
}

-- A goroutine that has returned holds no context, and neither do those that have not moved.
none-Holds :
    (p q r o : Phase) (x : Result (Unit {0})) (i c : ℕ)
    → ¬ Holds
        (update (update (update (update (update (λ _. idle) 0 p) 0 q) 0 r) 0 o) 0 (returned x) i)
        c
none-Holds p q r o x i c h = elim (ℕ_discrete 0 i) [
  | yes e ↦
      let at : update (update (update (update (update (λ _. idle) 0 p) 0 q) 0 r) 0 o) 0 (returned x)
            i
          ≡ returned x =
        ground arith in
      subst (λ z. Holds z c) at h
  | no e ↦
      let at : update (update (update (update (update (λ _. idle) 0 p) 0 q) 0 r) 0 o) 0 (returned x)
            i
          ≡ idle =
        ground arith in
      subst (λ z. Holds z c) at h
]

-- One goroutine runs `ensure` for the shard "a" to its end.
added_one :
    (w : World aggregate) × Reach aggregate (new_world aggregate) w
    × (lookup "a" w.caches.active ≡ some 0)
    × (w.caches.contexts ≡ 1)
    × (w.caches.is_cancelled 0 ≡ false)
    × ((i c : ℕ) → ¬ Holds (w.phase i) c)
unfolding open_start with_cancel commit lookup insert new_shard_caches String-discrete ℕ_discrete
added_one = (
  _,
  next
      (next
        (next (next (next (next here start) (call 0 "a" refl)) (absent 0 "a" refl refl refl))
          (built 0 "a" refl))
        (in_sync 0 "a" 0 refl))
      (finish 0 "a" 0 refl),
  refl,
  refl,
  refl,
  none-Holds _ _ _ _ _,
)

abbrev a : String
a = "a"

abbrev b : String
b = "b"

abbrev gateway : String
gateway = "https://gateway"

abbrev world : World aggregate
world = added_one.0

abbrev caches : Caches aggregate
caches = world.caches

coherent : IsCoherent aggregate caches
coherent = (Reach-IsSafe aggregate added_one.1).coherent

there : lookup "a" caches.active ≡ some 0
there = added_one.2

at : aggregate.registered "a" caches.agg ≡ some 0
at = registered_active aggregate added_one.1 "a" ∙ there

registered_active_example : aggregate.registered "a" caches.agg ≡ lookup "a" caches.active
registered_active_example = registered_active aggregate added_one.1 "a"

registered_runs_example :
    (is_done aggregate caches 0 ≡ caches.base_ended) × (a ≡ a) × (caches.first_synced ≡ true)
registered_runs_example = registered_runs aggregate added_one.1 "a" "a" 0 at at

-- The end of the manager's context ends a cache that stays registered until `Start` goes on.
test_expire :
    (is_done aggregate caches 0 ≡ false)
    × (is_done aggregate (end_base aggregate caches) 0 ≡ true)
    × (aggregate.registered "a" (end_base aggregate caches).agg ≡ some 0)
    × (is_done aggregate (close_start aggregate in_order (end_base aggregate caches)) 0 ≡ true)
    × (aggregate.registered "a" (close_start aggregate in_order (end_base aggregate caches)).agg
        ≡ none)
unfolding is_done end_base close_start lookup ℕ_discrete String-discrete added_one erase
test_expire = (refl, refl, refl, refl, refl)

contexts-Owned_example : Owned aggregate caches world.phase 0
contexts-Owned_example =
    contexts-Owned aggregate added_one.1 0 (omega (arith, added_one.3)) added_one.4

close_start_clean_example :
    (aggregate.registered "a" (close_start aggregate in_order caches).agg ≡ none)
    × ((close_start aggregate in_order caches).is_cancelled 0 ≡ true)
close_start_clean_example =
    close_start_clean aggregate added_one.1 added_one.5 in_order "a" 0 (omega (arith, added_one.3))

test_registered-IsReady : shards_synced_check aggregate caches ≡ ok tt
test_registered-IsReady = registered-IsReady aggregate "a" 0 added_one.1 at

readiness_stays_example : shards_synced_check aggregate (open_start aggregate caches) ≡ ok tt
readiness_stays_example =
    readiness_stays aggregate {w = world} (next here start) test_registered-IsReady

abbrev hostname : String → Result String
hostname = λ url. if url == "https://a" then ok "a" else err (external url)

abbrev base : Config
base = record { host = "https://front"; server_name = ""; credentials = "key" }

abbrev shard_a : Shard
shard_a = record { name = "a"; base_url = "https://a" }

abbrev course : Course
course = record { wake = started; build = λ _. ok tt; sync = true }

abbrev fresh : Caches aggregate
fresh = new_shard_caches aggregate

abbrev run : Found → Course → Caches aggregate → Result (Unit {0}) × Caches aggregate
run = reconcile aggregate hostname base gateway "a"

runs : (run (shard shard_a) course fresh).0 ≡ ok tt
unfolding reconcile shard_config ensure lookup new_shard_caches String-discrete
runs = refl

reconcile_adds_example :
    (c : ℕ) × (lookup "a" (run (shard shard_a) course fresh).1.active ≡ some c)
    × (aggregate.registered "a" (run (shard shard_a) course fresh).1.agg ≡ some c)
    × ((run (shard shard_a) course fresh).1.first_synced ≡ true)
reconcile_adds_example =
    reconcile_adds aggregate hostname base gateway "a" shard_a course fresh
      (new_shard_caches-IsCoherent aggregate) runs

reconcile_again_example :
    run (shard shard_a) course (run (shard shard_a) course fresh).1
    ≡ (ok tt, (run (shard shard_a) course fresh).1)
reconcile_again_example =
    reconcile_again aggregate hostname base gateway "a" (shard shard_a) course fresh
      (new_shard_caches-IsCoherent aggregate) refl runs

reconcile_removes_example :
    (lookup "a" (run not_found course caches).1.active ≡ none)
    × (aggregate.registered "a" (run not_found course caches).1.agg ≡ none)
    × ((run not_found course caches).1.is_cancelled 0 ≡ true)
    × ((run not_found course caches).1.first_synced ≡ caches.first_synced)
reconcile_removes_example =
    reconcile_removes aggregate hostname base gateway "a" course caches 0 coherent there

abbrev bad_course : Course
bad_course = record { wake = started; build = λ _. err (external "no route"); sync = true }

fails : (run (shard shard_a) bad_course fresh).0 ≡ err (cache_not_built "a" (external "no route"))
unfolding reconcile shard_config ensure lookup new_shard_caches String-discrete
fails = refl

reconcile_fails_example : IsUntouched aggregate fresh (run (shard shard_a) bad_course fresh).1
reconcile_fails_example =
    reconcile_fails aggregate hostname base gateway "a" (shard shard_a) bad_course fresh
      (cache_not_built "a" (external "no route")) fails

b_is_another : b ≢ a
unfolding String-discrete
b_is_another e = true≢false (ap (λ s. s == b) e)

is_named : IsNamed aggregate "a" (shard shard_a)
unfolding IsNamed
is_named = refl

reconcile_local_example : IsSameOn aggregate "b" fresh (run (shard shard_a) course fresh).1
reconcile_local_example =
    reconcile_local aggregate hostname base gateway "a" "b" (shard shard_a) course fresh is_named
      b_is_another

abbrev dialed_config : Config
dialed_config = record { host = gateway; server_name = "a"; credentials = "key" }

dialed : shard_config hostname base gateway shard_a ≡ ok dialed_config
unfolding shard_config String-discrete
dialed = refl

shard_config_dials_example :
    (dialed_config.credentials ≡ base.credentials)
    × (shard_a.base_url ≢ "")
    × (((gateway ≡ "")
          × (dialed_config.host ≡ shard_a.base_url)
          × (dialed_config.server_name ≡ base.server_name))
        ⊎ ((gateway ≢ "")
            × (dialed_config.host ≡ gateway)
            × (hostname shard_a.base_url ≡ ok dialed_config.server_name)))
shard_config_dials_example = shard_config_dials hostname base gateway shard_a dialed_config dialed
