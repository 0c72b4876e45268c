-- ===== src/Datasource/Mappers.antt =====
-- pkg/datasource/mappers.go: kcp's objects become workspaces and exports, one for a key, sorted.
pub mod Collect
pub mod ExportKey
pub mod Workspaces
pub mod Exports
use mathlib.Core.List.{foldl}
use kcp_marketplace.Base.{
  String, ◌<>◌, Bool, ◌||◌, not, none, some, List, [], map, if◌then◌else◌, ◌==◌,
}
use kcp_marketplace.Base.Text.{text_less}
use kcp_marketplace.Base.GoMap.{GoMap, lookup, insert, values}
use kcp_marketplace.Base.Sort.{RangeOrder, sort_slice}
use kcp_marketplace.Datasource.{Workspace, Resource, PermissionClaim, ApiExport}

-- Of kcp's API types, the fields that the mappers read.
pub record ObjectMeta : Type 0 where
  pub name : String
  pub annotations : GoMap String

pub record LogicalCluster : Type 0 where
  pub meta : ObjectMeta
  pub phase : String

pub record ResourceSchema : Type 0 where
  pub group : String
  pub name : String

pub record ClaimSchema : Type 0 where
  pub group : String
  pub resource : String
  pub verbs : List String
  pub identity_hash : String

pub record KcpApiExport : Type 0 where
  pub meta : ObjectMeta
  pub resources : List ResourceSchema
  pub permission_claims : List ClaimSchema
  pub identity_hash : String

abbrev pub path_annotation : String
path_annotation = "kcp.io/path"

-- A map answers a missing key with the zero value.
unfoldable pub annotation : ObjectMeta → String → String
annotation meta key = elim (lookup key meta.annotations) [ none ↦ "" | some text ↦ text ]

unfoldable pub path_of : ObjectMeta → String
path_of meta = annotation meta path_annotation

-- What kcp defines: `logicalcluster.From(item).String()`, and `LogicalClusterPhaseReady`.
pub record Kcp : Type 0 where
  pub cluster_of : ObjectMeta → String
  pub phase_ready : String

abbrev pub workspace_less : Workspace → Workspace → Bool
workspace_less v w = text_less v.path w.path

abbrev pub export_less : ApiExport → ApiExport → Bool
export_less a b =
    if not (a.path == b.path) then text_less a.path b.path else text_less a.name b.name

abbrev pub export_key : String → String → String
export_key path name = path <> "/" <> name

unfoldable pub resource_of : ResourceSchema → Resource
resource_of r = record { group = r.group; resource = r.name }

unfoldable pub claim_of : ClaimSchema → PermissionClaim
claim_of c = record {
  group = c.group;
  resource = c.resource;
  verbs = c.verbs;
  identity_hash = c.identity_hash;
}

module _ (kcp : Kcp) where
  open kcp use {cluster_of, phase_ready}

  -- The body of the loop over `list.Items` in `mapWorkspaces`.
  add_workspace : GoMap Workspace → LogicalCluster → GoMap Workspace
  add_workspace by_cluster item =
      let path = path_of item.meta in
      let cluster = cluster_of item.meta in
      if path == "" || cluster == ""
      then by_cluster
      else if not (item.phase == phase_ready)
      then by_cluster
      else insert cluster (record { path = path; cluster = cluster }) by_cluster

  unfoldable pub map_workspaces : RangeOrder Workspace → List LogicalCluster → List Workspace
  unfolding add_workspace path_of annotation
  map_workspaces order items =
      sort_slice workspace_less (order.visit (values (foldl add_workspace [] items)))

  -- The body of the loop in `mapAPIExports`.
  add_export : GoMap ApiExport → KcpApiExport → GoMap ApiExport
  add_export by_key item =
      let path = path_of item.meta in
      let cluster = cluster_of item.meta in
      if path == "" || item.meta.name == ""
      then by_key
      else insert (export_key path item.meta.name)
          (record {
            path = path;
            cluster = cluster;
            name = item.meta.name;
            identity_hash = item.identity_hash;
            resources = map resource_of item.resources;
            permission_claims = map claim_of item.permission_claims;
          })
          by_key

  unfoldable pub map_api_exports : RangeOrder ApiExport → List KcpApiExport → List ApiExport
  unfolding add_export path_of annotation resource_of claim_of
  map_api_exports order items =
      sort_slice export_less (order.visit (values (foldl add_export [] items)))
