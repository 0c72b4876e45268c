-- ===== src/Main/Lists/Visible.antt =====
-- Which objects a user sees in the lists of cmd/marketplace-vws/main.go.
use kcp_marketplace.Base.{
  ℕ, ◌⊎◌, inl, inr, some, String, ◌≡◌, refl, ◌∙◌, ap, Bool, arith, List, map, Mem, Any,
}
use kcp_marketplace.Errors.{Ctx, Error, Result, ok, err, Result-cases}
use kcp_marketplace.Sar.{
  Digest, User, Spec, Checker, access_spec, bind_spec, with_user, can_access_workspace,
  can_bind_api_export,
}
use kcp_marketplace.Sar.Keys.{HasSixtyFourDigits}
use kcp_marketplace.Sar.Policy.{
  Policy, HasNoCollision, IsHonest, FollowsPolicy, review-FollowsPolicy,
}
use kcp_marketplace.Datasource.{Workspace, ApiExport, Interface}
use kcp_marketplace.Api.{AccessibleWorkspace, BindableApiExport}
use kcp_marketplace.Main.Filter.{
  Reviewer, sar_reviewer, Call, Schedule, get_elem?, filter_workspaces, filter_api_exports,
}
use kcp_marketplace.Main.Filter.Exact.{filter, filter_by-filter, filter_by_error}
use kcp_marketplace.Main.Lists.{
  open_to_all, reviewed, accessible_workspace, bindable_api_export, list_accessible_workspaces,
  list_bindable_api_exports,
}

module _ (ds : Interface) (ctx : Ctx) (u : User) where
  pub list_accessible_workspaces_open :
      (ws : List Workspace)
      → ds.workspaces ctx ≡ ok ws
      → list_accessible_workspaces ds open_to_all ctx u ≡ ok (map accessible_workspace ws)
  unfolding list_accessible_workspaces
  list_accessible_workspaces_open ws found = rw found refl

  workspaces_cases :
      (r : Reviewer) (schedule : (items : List Workspace) → Schedule r.Moment items)
      (ws : List Workspace) (out : List AccessibleWorkspace)
      → ds.workspaces ctx ≡ ok ws
      → list_accessible_workspaces ds (reviewed r schedule) ctx u ≡ ok out
      → (seen : List Workspace) × (filter_workspaces r u ws (schedule ws) ≡ ok seen)
        × (out ≡ map accessible_workspace seen)
  unfolding list_accessible_workspaces
  workspaces_cases r schedule ws out found made =
      elim (Result-cases (filter_workspaces r u ws (schedule ws))) [
        | inl (seen, fine) ↦ (seen, fine, ground arith)
        | inr (e, bad) ↦ absurd (ground arith)
      ]

  exports_cases :
      (r : Reviewer) (schedule : (items : List ApiExport) → Schedule r.Moment items)
      (axs : List ApiExport) (out : List BindableApiExport)
      → ds.api_exports ctx ≡ ok axs
      → list_bindable_api_exports ds (reviewed r schedule) ctx u ≡ ok out
      → (seen : List ApiExport) × (filter_api_exports r u axs (schedule axs) ≡ ok seen)
        × (out ≡ map bindable_api_export seen)
  unfolding list_bindable_api_exports
  exports_cases r schedule axs out found made =
      elim (Result-cases (filter_api_exports r u axs (schedule axs))) [
        | inl (seen, fine) ↦ (seen, fine, ground arith)
        | inr (e, bad) ↦ absurd (ground arith)
      ]

  -- A call of a filter's group that fails, for an element of the list.
  abbrev Fails {ℓ} :
      {A : Type ℓ} {M : Type 0} → (M → Ctx → A → Result Bool) → List A → Error → Call M → Type ℓ
  Fails {A = A} check items e c =
      (a : A) × (get_elem? items c.index ≡ some a) × (check c.moment c.ctx a ≡ err e)

  -- An error of the reviewed list of workspaces is the datasource's, or that of a review of one
  -- of its workspaces.
  pub list_accessible_workspaces_error :
      (r : Reviewer) (schedule : (items : List Workspace) → Schedule r.Moment items) (e : Error)
      → list_accessible_workspaces ds (reviewed r schedule) ctx u ≡ err e
      → (ds.workspaces ctx ≡ err e)
        ⊎ ((ws : List Workspace) × (ds.workspaces ctx ≡ ok ws)
            × Any
                (Fails (λ m gctx w. r.can_access_workspace m gctx u w.cluster) ws e)
                (schedule ws).calls)
  unfolding list_accessible_workspaces filter_workspaces
  list_accessible_workspaces_error r schedule e h = elim (Result-cases (ds.workspaces ctx)) [
    | inr (cause, bad) ↦ inl (ground arith)
    | inl (ws, found) ↦ elim (Result-cases (filter_workspaces r u ws (schedule ws))) [
      | inl (seen, fine) ↦ absurd (ground arith)
      | inr (cause, bad) ↦
          let same : filter_workspaces r u ws (schedule ws) ≡ err e = ground arith in
          inr (ws, found, filter_by_error _ ws (schedule ws) e same)
    ]
  ]

  -- An error of the reviewed list of exports is the datasource's, or that of a review of one of
  -- its exports.
  pub list_bindable_api_exports_error :
      (r : Reviewer) (schedule : (items : List ApiExport) → Schedule r.Moment items) (e : Error)
      → list_bindable_api_exports ds (reviewed r schedule) ctx u ≡ err e
      → (ds.api_exports ctx ≡ err e)
        ⊎ ((axs : List ApiExport) × (ds.api_exports ctx ≡ ok axs)
            × Any
                (Fails (λ m gctx a. r.can_bind_api_export m gctx u a.cluster a.name) axs e)
                (schedule axs).calls)
  unfolding list_bindable_api_exports filter_api_exports
  list_bindable_api_exports_error r schedule e h = elim (Result-cases (ds.api_exports ctx)) [
    | inr (cause, bad) ↦ inl (ground arith)
    | inl (axs, found) ↦ elim (Result-cases (filter_api_exports r u axs (schedule axs))) [
      | inl (seen, fine) ↦ absurd (ground arith)
      | inr (cause, bad) ↦
          let same : filter_api_exports r u axs (schedule axs) ≡ err e = ground arith in
          inr (axs, found, filter_by_error _ axs (schedule axs) e same)
    ]
  ]

  module _ (d : Digest) (policy : Policy) (digits : HasSixtyFourDigits d)
      (apart : HasNoCollision d policy) (client : Ctx → String → Spec → Result Bool)
      (honest : IsHonest client policy) where
    -- With a checker against a server that decides by a fixed policy, a list that is returned
    -- holds exactly the workspaces of the datasource that the policy lets the user access, in
    -- their order, whatever the order and the moments of the concurrent reviews. It supposes
    -- 64-digit digests, none shared by specs that the policy decides differently, and at every
    -- call a cache that holds only the policy's decisions.
    pub list_accessible_workspaces-policy :
        (schedule : (items : List Workspace) → Schedule (Checker × (ℕ × ℕ)) items)
        (ws : List Workspace) (out : List AccessibleWorkspace)
        → ((c : Call (Checker × (ℕ × ℕ)))
            → Mem c (schedule ws).calls
            → FollowsPolicy d policy c.moment.0)
        → ds.workspaces ctx ≡ ok ws
        → list_accessible_workspaces ds (reviewed (sar_reviewer d client) schedule) ctx u ≡ ok out
        → out
          ≡ map accessible_workspace (filter (λ w. policy w.cluster (with_user u access_spec)) ws)
    unfolding filter_workspaces can_access_workspace
    list_accessible_workspaces-policy schedule ws out sound found made =
        let (seen, fine, built) =
          workspaces_cases (sar_reviewer d client) schedule ws out found made in
        built
        ∙ ap (map accessible_workspace) (
            filter_by-filter _ ws (schedule ws) _ seen
              (λ c w b m said.
                (review-FollowsPolicy d policy digits apart client honest c.moment.0 c.moment.1.0
                  c.moment.1.1 c.ctx u w.cluster access_spec b (sound c m) said).0)
              fine)

    -- With a checker against a server that decides by a fixed policy, a list of exports that is
    -- returned holds exactly the exports of the datasource that the policy lets the user bind,
    -- by cluster and name, in their order, whatever the order and the moments of the concurrent
    -- reviews. It supposes 64-digit digests, none shared by specs that the policy decides
    -- differently, and at every call a cache that holds only the policy's decisions.
    pub list_bindable_api_exports-policy :
        (schedule : (items : List ApiExport) → Schedule (Checker × (ℕ × ℕ)) items)
        (axs : List ApiExport) (out : List BindableApiExport)
        → ((c : Call (Checker × (ℕ × ℕ)))
            → Mem c (schedule axs).calls
            → FollowsPolicy d policy c.moment.0)
        → ds.api_exports ctx ≡ ok axs
        → list_bindable_api_exports ds (reviewed (sar_reviewer d client) schedule) ctx u ≡ ok out
        → out
          ≡ map bindable_api_export
              (filter (λ a. policy a.cluster (with_user u (bind_spec a.name))) axs)
    unfolding filter_api_exports can_bind_api_export
    list_bindable_api_exports-policy schedule axs out sound found made =
        let (seen, fine, built) =
          exports_cases (sar_reviewer d client) schedule axs out found made in
        built
        ∙ ap (map bindable_api_export) (
            filter_by-filter _ axs (schedule axs) _ seen
              (λ c a b m said.
                (review-FollowsPolicy d policy digits apart client honest c.moment.0 c.moment.1.0
                  c.moment.1.1 c.ctx u a.cluster (bind_spec a.name) b (sound c m) said).0)
              fine)
