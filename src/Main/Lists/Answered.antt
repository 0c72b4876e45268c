-- ===== src/Main/Lists/Answered.antt =====
-- The lists of cmd/marketplace-vws/main.go when the server answers every review.
use kcp_marketplace.Base.{ℕ, String, ◌≡◌, ◌∙◌, ap, inl, inr, Bool, List, map, Mem}
use kcp_marketplace.Errors.{Ctx, Error, Result, ok, err, Result-cases}
use kcp_marketplace.Sar.{
  Digest, User, Spec, Checker, access_spec, bind_spec, with_user, can_access_workspace,
  can_bind_api_export,
}
use kcp_marketplace.Sar.Keys.{HasSixtyFourDigits}
use kcp_marketplace.Sar.Cache.{review_error}
use kcp_marketplace.Sar.Policy.{Policy, HasNoCollision, FollowsPolicy}
use kcp_marketplace.Datasource.{Workspace, ApiExport, Interface}
use kcp_marketplace.Main.Filter.{sar_reviewer, Call, Schedule}
use kcp_marketplace.Main.Filter.Exact.{filter, Any-use}
use kcp_marketplace.Main.Lists.{
  reviewed, accessible_workspace, bindable_api_export, list_accessible_workspaces,
  list_bindable_api_exports,
}
use kcp_marketplace.Main.Lists.Visible.{
  list_accessible_workspaces-policy, list_accessible_workspaces_error,
  list_bindable_api_exports-policy, list_bindable_api_exports_error,
}

module _ (d : Digest) (policy : Policy) (digits : HasSixtyFourDigits d)
    (apart : HasNoCollision d policy) (client : Ctx → String → Spec → Result Bool)
    (answers : (ctx : Ctx) (cluster : String) (spec : Spec)
      → client ctx cluster spec ≡ ok (policy cluster spec)) where
  -- Such a server lets no review fail.
  access_never_fails :
      (c : Checker) (times : ℕ × ℕ) (ctx : Ctx) (u : User) (cluster : String) (e : Error)
      → ¬ ((can_access_workspace d client c times ctx u cluster).0 ≡ err e)
  unfolding can_access_workspace
  access_never_fails c (now, later) ctx u cluster e h =
      let (_, (cause, refused, _)) =
        review_error d client c now later ctx u cluster access_spec e h in
      let answered = answers ctx cluster (with_user u access_spec) in absurd (cc)

  -- If the server answers every review by a fixed policy and the datasource lists its
  -- workspaces, the reviewed list is returned, without an error, and holds exactly the
  -- workspaces that the policy lets the user access, in their order, whatever the order of the
  -- concurrent reviews. It supposes 64-digit digests, none shared by specs that the policy
  -- decides differently, and at every call a cache that holds only the policy's decisions.
  pub list_accessible_workspaces_answered :
      (ds : Interface) (ctx : Ctx) (u : User)
      (schedule : (items : List Workspace) → Schedule (Checker × (ℕ × ℕ)) items)
      (ws : List Workspace)
      → ((c : Call (Checker × (ℕ × ℕ)))
          → Mem c (schedule ws).calls
          → FollowsPolicy d policy c.moment.0)
      → ds.workspaces ctx ≡ ok ws
      → list_accessible_workspaces ds (reviewed (sar_reviewer d client) schedule) ctx u
        ≡ ok
            (map accessible_workspace (filter (λ w. policy w.cluster (with_user u access_spec)) ws))
  list_accessible_workspaces_answered ds ctx u schedule ws sound found =
      elim (Result-cases
        (list_accessible_workspaces ds (reviewed (sar_reviewer d client) schedule) ctx u)) [
          | inl (out, made) ↦
              made
              ∙ ap ok (
                  list_accessible_workspaces-policy ds ctx u d policy digits apart client
                    (λ k cluster spec b said. let answered = answers k cluster spec in cc) schedule
                    ws out sound found made)
          | inr (e, fails) ↦
              elim (list_accessible_workspaces_error ds ctx u (sar_reviewer d client) schedule e
                fails) [
                  | inl bad ↦ absurd (cc)
                  | inr (items, _, failing) ↦ absurd (
                      Any-use (schedule items).calls failing (λ c _ (w, _, refused).
                        access_never_fails c.moment.0 c.moment.1 c.ctx u w.cluster e refused))
                ]
        ]

  bind_never_fails :
      (c : Checker) (times : ℕ × ℕ) (ctx : Ctx) (u : User) (cluster name : String) (e : Error)
      → ¬ ((can_bind_api_export d client c times ctx u cluster name).0 ≡ err e)
  unfolding can_bind_api_export
  bind_never_fails c (now, later) ctx u cluster name e h =
      let (_, (cause, refused, _)) =
        review_error d client c now later ctx u cluster (bind_spec name) e h in
      let answered = answers ctx cluster (with_user u (bind_spec name)) in absurd (cc)

  -- The same of the list of exports, by the cluster and the name of each.
  pub list_bindable_api_exports_answered :
      (ds : Interface) (ctx : Ctx) (u : User)
      (schedule : (items : List ApiExport) → Schedule (Checker × (ℕ × ℕ)) items)
      (axs : List ApiExport)
      → ((c : Call (Checker × (ℕ × ℕ)))
          → Mem c (schedule axs).calls
          → FollowsPolicy d policy c.moment.0)
      → ds.api_exports ctx ≡ ok axs
      → list_bindable_api_exports ds (reviewed (sar_reviewer d client) schedule) ctx u
        ≡ ok (
            map bindable_api_export
              (filter (λ a. policy a.cluster (with_user u (bind_spec a.name))) axs))
  list_bindable_api_exports_answered ds ctx u schedule axs sound found =
      elim (Result-cases
        (list_bindable_api_exports ds (reviewed (sar_reviewer d client) schedule) ctx u)) [
          | inl (out, made) ↦
              made
              ∙ ap ok (
                  list_bindable_api_exports-policy ds ctx u d policy digits apart client
                    (λ k cluster spec b said. let answered = answers k cluster spec in cc) schedule
                    axs out sound found made)
          | inr (e, fails) ↦
              elim (list_bindable_api_exports_error ds ctx u (sar_reviewer d client) schedule e
                fails) [
                  | inl bad ↦ absurd (cc)
                  | inr (items, _, failing) ↦ absurd (
                      Any-use (schedule items).calls failing (λ c _ (a, _, refused).
                        bind_never_fails c.moment.0 c.moment.1 c.ctx u a.cluster a.name e refused))
                ]
        ]
