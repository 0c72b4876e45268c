-- ===== src/Tests/Lists.antt =====
-- The lists of cmd/marketplace-vws/main.go on two workspaces and one export.
use mathlib.Core.List.{mem-cons, not-mem-nil}
use mathlib.Core.List.Perm
use mathlib.Core.Logic.Or
use kcp_marketplace.Base.{
  ℕ_discrete, ℕ, String, ◌≡◌, ◌⊎◌, refl, sym, ap, subst, Bool, some, arith, List, [], ◌∷◌, map, Mem,
  Perm, ◌==◌, String-discrete, Any,
}
use kcp_marketplace.Base.GoMap.{lookup, insert}
use kcp_marketplace.Errors.{Ctx, live, external, review_failed, Result, ok, err}
use kcp_marketplace.Sar.{
  User, Digest, Spec, Checker, new, get, put, review, with_user, access_spec, bind_spec, cache_key,
  can_access_workspace, can_bind_api_export,
}
use kcp_marketplace.Sar.Keys.{HasSixtyFourDigits}
use kcp_marketplace.Sar.Policy.{Policy, HasNoCollision, IsHonest, FollowsPolicy, new-FollowsPolicy}
use kcp_marketplace.Datasource.{Workspace, ApiExport, Interface}
use kcp_marketplace.Api.{AccessibleWorkspace, BindableApiExport}
use kcp_marketplace.Main.Filter.{
  sar_reviewer, indices, Call, Schedule, filter_by, get_elem?, kept, complete_all, complete, finish,
  filter_workspaces, filter_api_exports,
}
use kcp_marketplace.Main.Filter.Exact.{filter}
use kcp_marketplace.Main.Lists.{
  reviewed, accessible_workspace, bindable_api_export, list_accessible_workspaces,
  list_bindable_api_exports,
}
use kcp_marketplace.Main.Lists.Answered.{list_accessible_workspaces_answered}
use kcp_marketplace.Main.Lists.Visible.{
  list_accessible_workspaces-policy, list_bindable_api_exports-policy,
  list_accessible_workspaces_error, list_bindable_api_exports_error,
}

abbrev pub digest : Digest
digest = record {
  marshal = λ s. s.user;
  sha256_hex = λ _. "0123456789abcdef0123456789abcdef0123456789abcdef0123456789abcdef";
}

pub digits : HasSixtyFourDigits digest
digits = λ _. refl

abbrev pub policy : Policy
policy = λ cluster _. cluster == "root"

abbrev pub client : Ctx → String → Spec → Result Bool
client = λ _ cluster _. ok (cluster == "root")

pub apart : HasNoCollision digest policy
apart = λ _ _ _ _. refl

honest : IsHonest client policy
honest = λ _ _ _ _ h. ground arith

abbrev pub ann : User
ann = record { name = "ann"; uid = "1"; groups = "system:authenticated" ∷ []; extra = [] }

abbrev source : Interface
source = record {
  workspaces = λ _. ok (
      record { path = "root:team-a"; cluster = "abcd1234" }
      ∷ record { path = "root"; cluster = "root" }
      ∷ []);
  api_exports = λ _. ok (
      record {
        path = "root";
        cluster = "root";
        name = "tenancy.kcp.io";
        identity_hash = "";
        resources = [];
        permission_claims = [];
      }
      ∷ []);
}

-- Every call comes at the same moment, in the order of the elements.
abbrev call_at : {M : Type 0} → M → ℕ → Call M
call_at m i = record { index = i; moment = m; ctx = live }

pub map-call_at : {M : Type 0} (m : M) (is : List ℕ) → map (λ c. c.index) (map (call_at m) is) ≡ is
map-call_at m [] = refl
map-call_at m (i ∷ is) = ap (λ rest. i ∷ rest) (map-call_at m is)

abbrev pub in_turn : {A M : Type 0} → M → (items : List A) → Schedule M items
in_turn m items = record {
  calls = map (call_at m) (indices 0 items);
  each_once =
      subst (λ l. Perm l (indices 0 items)) (sym (map-call_at m (indices 0 items))) Perm.rfl;
}

abbrev pub moment : Checker × (ℕ × ℕ)
moment = (new 30, (0, 1))

FollowsPolicy-prop : (c : Checker) → IsProp (FollowsPolicy digest policy c)
unfolding FollowsPolicy
FollowsPolicy-prop c = hlevel

pub in_turn-FollowsPolicy :
    (is : List ℕ) (c : Call (Checker × (ℕ × ℕ)))
    → Mem c (map (call_at moment) is)
    → FollowsPolicy digest policy c.moment.0
in_turn-FollowsPolicy [] c m = absurd (not-mem-nil m)
in_turn-FollowsPolicy (i ∷ is) c m =
    Or.elim (FollowsPolicy-prop c.moment.0) (mem-cons.0 m)
      (λ e.
        subst (λ k. FollowsPolicy digest policy k.moment.0) (sym e)
          (new-FollowsPolicy digest policy 30))
      (in_turn-FollowsPolicy is c)

abbrev seen : List AccessibleWorkspace
seen = record { name = "root"; spec = record { path = "root"; cluster = "root" } } ∷ []

listed :
    list_accessible_workspaces source
      (reviewed (sar_reviewer digest client) (in_turn moment))
      live
      ann
    ≡ ok seen
unfolding list_accessible_workspaces filter_workspaces filter_by complete_all complete finish kept
    get_elem? can_access_workspace review get put with_user new lookup insert cache_key
    accessible_workspace String-discrete indices ℕ_discrete
listed = refl

list_accessible_workspaces-policy_example :
    seen
    ≡ map accessible_workspace (
        filter
          (λ w. policy w.cluster (with_user ann access_spec))
          (record { path = "root:team-a"; cluster = "abcd1234" }
            ∷ record { path = "root"; cluster = "root" }
            ∷ []))
list_accessible_workspaces-policy_example =
    list_accessible_workspaces-policy source live ann digest policy digits apart client honest
      (in_turn moment) _ seen (in_turn-FollowsPolicy _) refl listed

test_list_accessible_workspaces_answered :
    list_accessible_workspaces source
      (reviewed (sar_reviewer digest client) (in_turn moment))
      live
      ann
    ≡ ok (
        map accessible_workspace (
          filter
            (λ w. policy w.cluster (with_user ann access_spec))
            (record { path = "root:team-a"; cluster = "abcd1234" }
              ∷ record { path = "root"; cluster = "root" }
              ∷ [])))
test_list_accessible_workspaces_answered =
    list_accessible_workspaces_answered digest policy digits apart client (λ _ _ _. refl) source
      live ann (in_turn moment) _ (in_turn-FollowsPolicy _) refl

abbrev bindable_exports : List BindableApiExport
bindable_exports =
    record {
      name = "tenancy.kcp.io";
      spec = record {
        path = "root";
        cluster = "root";
        export_name = "tenancy.kcp.io";
        identity_hash = "";
        resources = [];
        permission_claims = [];
      };
    }
    ∷ []

exports_listed :
    list_bindable_api_exports source
      (reviewed (sar_reviewer digest client) (in_turn moment))
      live
      ann
    ≡ ok bindable_exports
unfolding list_bindable_api_exports filter_api_exports filter_by complete_all complete finish kept
    get_elem? can_bind_api_export review get put with_user new lookup insert cache_key
    bindable_api_export String-discrete indices ℕ_discrete
exports_listed = refl

abbrev root_export : ApiExport
root_export = record {
  path = "root";
  cluster = "root";
  name = "tenancy.kcp.io";
  identity_hash = "";
  resources = [];
  permission_claims = [];
}

test_list_bindable_api_exports-policy :
    bindable_exports
    ≡ map bindable_api_export
        (filter (λ a. policy a.cluster (with_user ann (bind_spec a.name))) (root_export ∷ []))
test_list_bindable_api_exports-policy =
    list_bindable_api_exports-policy source live ann digest policy digits apart client honest
      (in_turn moment) _ bindable_exports (in_turn-FollowsPolicy _) refl exports_listed

-- A server that answers no review.
abbrev failing_client : Ctx → String → Spec → Result Bool
failing_client = λ _ _ _. err (external "down")

not_listed :
    list_accessible_workspaces source
      (reviewed (sar_reviewer digest failing_client) (in_turn moment))
      live
      ann
    ≡ err (review_failed "abcd1234" (external "down"))
unfolding list_accessible_workspaces filter_workspaces filter_by complete_all complete finish kept
    get_elem? can_access_workspace review get put with_user new lookup insert cache_key
    String-discrete indices
not_listed = refl

list_accessible_workspaces_error_example :
    (source.workspaces live ≡ err (review_failed "abcd1234" (external "down")))
    ⊎ ((ws : List Workspace) × (source.workspaces live ≡ ok ws)
        × Any
            (λ c.
              (w : Workspace) × (get_elem? ws c.index ≡ some w)
              × ((can_access_workspace digest failing_client c.moment.0 c.moment.1 c.ctx ann
                    w.cluster).0
                  ≡ err (review_failed "abcd1234" (external "down"))))
            (in_turn moment ws).calls)
list_accessible_workspaces_error_example =
    list_accessible_workspaces_error source live ann (sar_reviewer digest failing_client)
      (in_turn moment) (review_failed "abcd1234" (external "down")) not_listed

exports_not_listed :
    list_bindable_api_exports source
      (reviewed (sar_reviewer digest failing_client) (in_turn moment))
      live
      ann
    ≡ err (review_failed "root" (external "down"))
unfolding list_bindable_api_exports filter_api_exports filter_by complete_all complete finish kept
    get_elem? can_bind_api_export review get put with_user new lookup insert cache_key
    String-discrete indices
exports_not_listed = refl

test_list_bindable_api_exports_error :
    (source.api_exports live ≡ err (review_failed "root" (external "down")))
    ⊎ ((axs : List ApiExport) × (source.api_exports live ≡ ok axs)
        × Any
            (λ c.
              (a : ApiExport) × (get_elem? axs c.index ≡ some a)
              × ((can_bind_api_export digest failing_client c.moment.0 c.moment.1 c.ctx ann
                    a.cluster a.name).0
                  ≡ err (review_failed "root" (external "down"))))
            (in_turn moment axs).calls)
test_list_bindable_api_exports_error =
    list_bindable_api_exports_error source live ann (sar_reviewer digest failing_client)
      (in_turn moment) (review_failed "root" (external "down")) exports_not_listed
