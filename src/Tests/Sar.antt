-- ===== src/Tests/Sar.antt =====
-- Reviews of pkg/sar/sar.go, alone and by a goroutine.
use kcp_marketplace.Base.{
  ◌+◌, String, ◌≡◌, ◌⊎◌, refl, Bool, true, false, arith, [], ◌==◌, String-discrete, ℕ_discrete,
}
use kcp_marketplace.Base.GoMap.{lookup, insert}
use kcp_marketplace.Errors.{Ctx, live, Error, external, review_failed, Result, ok, err}
use kcp_marketplace.Sar.{
  User, Digest, Spec, Checker, new, get, put, review, with_user, access_spec, cache_key,
}
use kcp_marketplace.Sar.Keys.{HasSixtyFourDigits, cache_key_identifies}
use kcp_marketplace.Sar.Cache.{
  reported, review_error, review_answer, review_again_fresh, review_again_expired,
}
use kcp_marketplace.Sar.Policy.{
  Policy, HasNoCollision, IsHonest, FollowsPolicy, new-FollowsPolicy, review-FollowsPolicy,
}
use kcp_marketplace.Sar.Interleaving.Honest.{
  IsAnsweredByPolicy, HasPolicyResults, interleaved-FollowsPolicy,
}
use kcp_marketplace.Sar.Interleaving.{
  System, asking, done, Reach, here, next, start, tick, begin, miss, reply, save,
}
use kcp_marketplace.Sar.Interleaving.Log.{IsJustified}
use kcp_marketplace.Sar.Interleaving.Audit.{results-IsJustified}
use kcp_marketplace.Sar.Interleaving.Sequential.{RunsAlone, review-Reach}

abbrev digest : Digest
digest = record {
  marshal = λ s. s.user;
  sha256_hex = λ _. "0123456789abcdef0123456789abcdef0123456789abcdef0123456789abcdef";
}

digits : HasSixtyFourDigits digest
digits = λ _. refl

abbrev policy : Policy
policy = λ cluster _. cluster == "root"

abbrev client : Ctx → String → Spec → Result Bool
client = λ _ cluster _. ok (cluster == "root")

apart : HasNoCollision digest policy
apart = λ _ _ _ _. refl

honest : IsHonest client policy
honest = λ _ _ _ _ h. ground arith

abbrev failing_client : Ctx → String → Spec → Result Bool
failing_client = λ _ _ _. err (external "down")

abbrev ann : User
ann = record { name = "ann"; uid = "1"; groups = []; extra = [] }

abbrev root : String
root = "root"

cache_key_identifies_example :
    (root ≡ root)
    × (ann.name ≡ ann.name)
    × (ann.uid ≡ ann.uid)
    × (ann.groups ≡ ann.groups)
    × (access_spec.resource_attributes ≡ access_spec.resource_attributes)
    × (access_spec.non_resource_attributes ≡ access_spec.non_resource_attributes)
cache_key_identifies_example =
    cache_key_identifies digest digits ann ann root root access_spec access_spec (λ _. refl) refl

failed :
    (review digest failing_client (new 30) (0, 1) live ann root access_spec).0
    ≡ err (review_failed root (external "down"))
unfolding review get lookup new
failed = refl

test_review_error :
    ((review digest failing_client (new 30) (0, 1) live ann root access_spec).1 ≡ new 30)
    × ((cause : Error) × (failing_client live root (with_user ann access_spec) ≡ err cause)
        × (review_failed root (external "down") ≡ review_failed root cause))
test_review_error =
    review_error digest failing_client (new 30) 0 1 live ann root access_spec
      (review_failed root (external "down")) failed

granted : (review digest client (new 30) (0, 1) live ann root access_spec).0 ≡ ok true
unfolding review get lookup new String-discrete
granted = refl

test_review_answer :
    ((get (new 30) 0 (cache_key digest root (with_user ann access_spec)) ≡ (true, true))
      × ((review digest client (new 30) (0, 1) live ann root access_spec).1 ≡ new 30))
    ⊎ ((client live root (with_user ann access_spec) ≡ ok true)
        × ((review digest client (new 30) (0, 1) live ann root access_spec).1
            ≡ put (new 30) 1 (cache_key digest root (with_user ann access_spec)) true))
test_review_answer = review_answer digest client (new 30) 0 1 live ann root access_spec true granted

missed : (get (new 30) 0 (cache_key digest root (with_user ann access_spec))).1 ≡ false
unfolding get lookup new
missed = refl

answered_yes : client live root (with_user ann access_spec) ≡ ok true
unfolding String-discrete
answered_yes = refl

new_ttl : (new 30).ttl ≡ 30
unfolding new
new_ttl = refl

abbrev after : Checker
after = (review digest client (new 30) (0, 1) live ann root access_spec).1

review_again_fresh_example :
    review digest failing_client after (31, 32) live ann root access_spec ≡ (ok true, after)
review_again_fresh_example =
    review_again_fresh digest client (new 30) 0 1 live ann root access_spec true missed answered_yes
      failing_client live 31 32 (omega (arith, new_ttl))

review_again_expired_example :
    (review digest failing_client after (32, 33) live ann root access_spec).0
    ≡ reported root (failing_client live root (with_user ann access_spec))
review_again_expired_example =
    review_again_expired digest client (new 30) 0 1 live ann root access_spec true missed
      answered_yes failing_client live 32 33 (omega (arith, new_ttl))

review-FollowsPolicy_example :
    (true ≡ policy root (with_user ann access_spec)) × FollowsPolicy digest policy after
review-FollowsPolicy_example =
    review-FollowsPolicy digest policy digits apart client honest (new 30) 0 1 live ann root
      access_spec true (new-FollowsPolicy digest policy 30) granted

-- A goroutine asks and stores the answer.
logged : (s : System) × Reach digest (start 30) s × (s.phase 0 ≡ done (ok true))
unfolding get put new lookup insert ℕ_discrete
logged = (
  _,
  next
      (next
        (next (next (next here (tick 5)) (begin 0 ann "root" access_spec refl))
          (miss 0 "root" (with_user ann access_spec) refl refl))
        (reply 0 "root" (with_user ann access_spec) true refl))
      (save 0 "root" (with_user ann access_spec) true refl),
  refl,
)

results-IsJustified_example : IsJustified digest 30 logged.0.log
results-IsJustified_example = results-IsJustified digest 30 logged.1

logged_honest : IsAnsweredByPolicy policy logged.0.log
unfolding logged get put new lookup insert ℕ_discrete String-discrete
logged_honest = (refl, tt)

interleaved-FollowsPolicy_example :
    FollowsPolicy digest policy logged.0.checker × HasPolicyResults policy logged.0.log
interleaved-FollowsPolicy_example =
    interleaved-FollowsPolicy policy digest digits apart 30 logged.0 logged.1 logged_honest

abbrev asked : System
asked = record (start 30) { phase = λ _. asking "root" (with_user ann access_spec) }

review-Reach_example :
    (t : System) × (run : Reach digest asked t) × RunsAlone digest client live 0 run
    × (t.phase 0 ≡ done (review digest client asked.checker (0, 0 + 7) live ann root access_spec).0)
    × (t.checker ≡ (review digest client asked.checker (0, 0 + 7) live ann root access_spec).1)
review-Reach_example = review-Reach digest client live ann root access_spec asked 0 7 refl
