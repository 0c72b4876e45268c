-- ===== src/Main/Lists/EndToEnd.antt =====
-- The lists of cmd/marketplace-vws/main.go over the reader of pkg/datasource: from what
-- the shards hold to what a user is shown.
use mathlib.Core.List.{mem-map_of_mem}
use kcp_marketplace.Base.{ℕ, String, ◌≡◌, refl, subst, ◌↔◌, Bool, true, List, [], ◌∷◌, map, Mem}
use kcp_marketplace.Base.Sort.{RangeOrder}
use kcp_marketplace.Errors.{Ctx, Result, ok}
use kcp_marketplace.Sar.{Digest, User, Spec, Checker, access_spec, bind_spec, with_user}
use kcp_marketplace.Sar.Keys.{HasSixtyFourDigits}
use kcp_marketplace.Sar.Policy.{Policy, HasNoCollision, FollowsPolicy}
use kcp_marketplace.Datasource.{Workspace, Resource, PermissionClaim, ApiExport}
use kcp_marketplace.Datasource.Mappers.{
  Kcp, LogicalCluster, KcpApiExport, map_workspaces, map_api_exports,
}
use kcp_marketplace.Datasource.Mappers.Collect.{LastListed}
use kcp_marketplace.Datasource.Mappers.Workspaces.{Lists, mem-map_workspaces}
use kcp_marketplace.Datasource.Reader.{AggregateList, reader}
use kcp_marketplace.Api.{
  AccessibleWorkspace, BindableResource, BindablePermissionClaim, BindableApiExport,
}
use kcp_marketplace.Main.Filter.{sar_reviewer, Call, Schedule}
use kcp_marketplace.Main.Filter.Exact.{filter}
use kcp_marketplace.Main.Filter.Members.{mem-filter}
use kcp_marketplace.Datasource.Mappers.Exports.{AllHaveNoSlash, LastNamed, mem-map_api_exports}
use kcp_marketplace.Main.Lists.{
  reviewed, accessible_workspace, bindable_resource, bindable_claim, bindable_api_export,
  list_accessible_workspaces, list_bindable_api_exports,
}
use kcp_marketplace.Main.Lists.Answered.{
  list_accessible_workspaces_answered, list_bindable_api_exports_answered,
}

-- A function that can be undone keeps what is in a list.
module _ {A B : Type 0} (f : A → B) (back : B → A) (undoes : (a : A) → back (f a) ≡ a) where
  map_back : (xs : List A) → map back (map f xs) ≡ xs
  map_back [] = refl
  map_back (x ∷ xs) = cc (undoes x, map_back xs)

  mem-map_back : (a : A) (xs : List A) → Mem (f a) (map f xs) ↔ Mem a xs
  mem-map_back a xs = (
    λ m.
        subst (λ b. Mem b xs) (undoes a)
          (subst (λ l. Mem (back (f a)) l) (map_back xs) (mem-map_of_mem back m)),
    λ m. mem-map_of_mem f m,
  )

-- The objects that the lists hold show all of a workspace or an export.
abbrev shown_workspace : AccessibleWorkspace → Workspace
shown_workspace o = record { path = o.spec.path; cluster = o.spec.cluster }

shown_workspace_back : (w : Workspace) → shown_workspace (accessible_workspace w) ≡ w
unfolding accessible_workspace
shown_workspace_back w = refl

abbrev shown_resource : BindableResource → Resource
shown_resource r = record { group = r.group; resource = r.resource }

abbrev shown_claim : BindablePermissionClaim → PermissionClaim
shown_claim c = record {
  group = c.group;
  resource = c.resource;
  verbs = c.verbs;
  identity_hash = c.identity_hash;
}

abbrev shown_export : BindableApiExport → ApiExport
shown_export o = record {
  path = o.spec.path;
  cluster = o.spec.cluster;
  name = o.name;
  identity_hash = o.spec.identity_hash;
  resources = map shown_resource o.spec.resources;
  permission_claims = map shown_claim o.spec.permission_claims;
}

shown_export_back : (a : ApiExport) → shown_export (bindable_api_export a) ≡ a
unfolding bindable_api_export bindable_resource bindable_claim
shown_export_back a =
    let resources = map_back bindable_resource shown_resource (λ r. refl) a.resources in
    let claims = map_back bindable_claim shown_claim (λ c. refl) a.permission_claims in cc

module _ (d : Digest) (policy : Policy) (digits : HasSixtyFourDigits d)
    (apart : HasNoCollision d policy) (client : Ctx → String → Spec → Result Bool)
    (answers : (ctx : Ctx) (cluster : String) (spec : Spec)
      → client ctx cluster spec ≡ ok (policy cluster spec))
    (kcp : Kcp) (ws_order : RangeOrder Workspace) (ax_order : RangeOrder ApiExport) where
  -- If kcp answers every review by a fixed policy and the aggregate cache lists its logical
  -- clusters, the list for a user is returned without an error and shows exactly the workspaces
  -- that are, of the ready logical clusters with a path that the shards have under one cluster
  -- name, the last, and that the policy lets the user access. It supposes 64-digit digests, none
  -- shared by specs that the policy decides differently, and at every call a cache that holds
  -- only the policy's decisions.
  pub user_sees :
      (agg : AggregateList) (ctx : Ctx) (u : User) (items : List LogicalCluster)
      (schedule : (ws : List Workspace) → Schedule (Checker × (ℕ × ℕ)) ws)
      → ((c : Call (Checker × (ℕ × ℕ)))
          → Mem c (schedule (map_workspaces kcp ws_order items)).calls
          → FollowsPolicy d policy c.moment.0)
      → agg.logical_clusters ctx ≡ ok items
      → (out : List AccessibleWorkspace) × (list_accessible_workspaces
            (reader kcp ws_order ax_order agg)
            (reviewed (sar_reviewer d client) schedule)
            ctx
            u
          ≡ ok out)
        × ((w : Workspace)
            → Mem (accessible_workspace w) out ↔ (
                LastListed (λ v. v.cluster) (Lists kcp) w items
                × (policy w.cluster (with_user u access_spec) ≡ true)))
  unfolding reader
  user_sees agg ctx u items schedule sound found =
      let ws = map_workspaces kcp ws_order items in
      let allowed : Workspace → Bool = λ w. policy w.cluster (with_user u access_spec) in
      (
        map accessible_workspace (filter allowed ws),
        list_accessible_workspaces_answered d policy digits apart client answers
            (reader kcp ws_order ax_order agg) ctx u schedule ws sound (rw found refl),
        λ w.
            let shown =
              mem-map_back accessible_workspace shown_workspace shown_workspace_back w
                (filter allowed ws) in
            let kept = mem-filter allowed w ws in
            let listed = mem-map_workspaces kcp items ws_order w in
            (
              λ m. let (inside, holds) = kept.0 (shown.0 m) in (listed.0 inside, holds),
              λ (last, holds). shown.1 (kept.1 (listed.1 last, holds)),
            ),
      )

  -- If kcp answers every review by a fixed policy, the aggregate cache lists its exports, and no
  -- name of an export holds a slash, the list for a user is returned without an error and shows
  -- exactly the exports that are, of those that the shards have with their path and name, the
  -- last, and that the policy lets the user bind. It supposes 64-digit digests, none shared by
  -- specs that the policy decides differently, and at every call a cache that holds only the
  -- policy's decisions.
  pub user_can_bind :
      (agg : AggregateList) (ctx : Ctx) (u : User) (items : List KcpApiExport)
      (schedule : (axs : List ApiExport) → Schedule (Checker × (ℕ × ℕ)) axs)
      → AllHaveNoSlash kcp items
      → ((c : Call (Checker × (ℕ × ℕ)))
          → Mem c (schedule (map_api_exports kcp ax_order items)).calls
          → FollowsPolicy d policy c.moment.0)
      → agg.api_exports ctx ≡ ok items
      → (out : List BindableApiExport) × (list_bindable_api_exports
            (reader kcp ws_order ax_order agg)
            (reviewed (sar_reviewer d client) schedule)
            ctx
            u
          ≡ ok out)
        × ((a : ApiExport)
            → Mem (bindable_api_export a) out ↔ (
                LastNamed kcp a items × (policy a.cluster (with_user u (bind_spec a.name)) ≡ true)))
  unfolding reader
  user_can_bind agg ctx u items schedule clean sound found =
      let axs = map_api_exports kcp ax_order items in
      let allowed : ApiExport → Bool = λ a. policy a.cluster (with_user u (bind_spec a.name)) in
      (
        map bindable_api_export (filter allowed axs),
        list_bindable_api_exports_answered d policy digits apart client answers
            (reader kcp ws_order ax_order agg) ctx u schedule axs sound (rw found refl),
        λ a.
            let shown =
              mem-map_back bindable_api_export shown_export shown_export_back a
                (filter allowed axs) in
            let kept = mem-filter allowed a axs in
            let named = mem-map_api_exports kcp items clean ax_order a in
            (
              λ m. let (inside, holds) = kept.0 (shown.0 m) in (named.0 inside, holds),
              λ (last, holds). shown.1 (kept.1 (named.1 last, holds)),
            ),
      )
