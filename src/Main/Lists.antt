-- ===== src/Main/Lists.antt =====
-- `listAccessibleWorkspaces` and `listBindableAPIExports` of cmd/marketplace-vws/main.go.
pub mod Visible
pub mod Answered
pub mod EndToEnd
use kcp_marketplace.Base.{Option, none, some, List, [], ◌∷◌, map}
use kcp_marketplace.Errors.{Ctx, Error, Result, ok, err, ◌>>=◌}
use kcp_marketplace.Sar.{User}
use kcp_marketplace.Datasource.{Workspace, Resource, PermissionClaim, ApiExport, Interface}
use kcp_marketplace.Api.{
  AccessibleWorkspace, BindableResource, BindablePermissionClaim, BindableApiExport,
}
use kcp_marketplace.Main.Filter.{Reviewer, Schedule, filter_workspaces, filter_api_exports}

-- The bodies of the loops that build the objects.
unfoldable pub accessible_workspace : Workspace → AccessibleWorkspace
accessible_workspace w = record {
  name = w.cluster;
  spec = record { path = w.path; cluster = w.cluster };
}

unfoldable pub bindable_resource : Resource → BindableResource
bindable_resource r = record { group = r.group; resource = r.resource }

unfoldable pub bindable_claim : PermissionClaim → BindablePermissionClaim
bindable_claim c = record {
  group = c.group;
  resource = c.resource;
  verbs = c.verbs;
  identity_hash = c.identity_hash;
}

unfoldable pub bindable_api_export : ApiExport → BindableApiExport
bindable_api_export a = record {
  name = a.name;
  spec = record {
    path = a.path;
    cluster = a.cluster;
    export_name = a.name;
    identity_hash = a.identity_hash;
    resources = map bindable_resource a.resources;
    permission_claims = map bindable_claim a.permission_claims;
  };
}

-- A `checker` that may be `nil`, with the course of the group for each list that it may get.
pub data Gate (T : Type 0) : Type 1 where
  open_to_all : Gate T
  reviewed : (r : Reviewer) → ((items : List T) → Schedule r.Moment items) → Gate T

module _ (ds : Interface) where
  unfoldable pub list_accessible_workspaces :
      Gate Workspace → Ctx → User → Result (List AccessibleWorkspace)
  list_accessible_workspaces gate ctx u = ds.workspaces ctx >>= λ ws.
      elim gate [
        | open_to_all ↦ ok ws
        | reviewed r schedule ↦ filter_workspaces r u ws (schedule ws)
      ]
      >>= λ kept. ok (map accessible_workspace kept)

  unfoldable pub list_bindable_api_exports :
      Gate ApiExport → Ctx → User → Result (List BindableApiExport)
  list_bindable_api_exports gate ctx u = ds.api_exports ctx >>= λ axs.
      elim gate [
        | open_to_all ↦ ok axs
        | reviewed r schedule ↦ filter_api_exports r u axs (schedule axs)
      ]
      >>= λ kept. ok (map bindable_api_export kept)
