-- ===== src/Datasource.antt =====
-- pkg/datasource/datasource.go: the views of the kcp objects, and where they are read from.
pub mod Mappers
pub mod ShardConfig
pub mod ShardCaches
pub mod Reconciler
pub mod Reader
pub mod Manager
use kcp_marketplace.Base.{String, List}
use kcp_marketplace.Errors.{Ctx, Result, ok}

pub record Workspace : Type 0 where
  pub path : String
  pub cluster : String

pub record Resource : Type 0 where
  pub group : String
  pub resource : String

pub record PermissionClaim : Type 0 where
  pub group : String
  pub resource : String
  pub verbs : List String
  pub identity_hash : String

pub record ApiExport : Type 0 where
  pub path : String
  pub cluster : String
  pub name : String
  pub identity_hash : String
  pub resources : List Resource
  pub permission_claims : List PermissionClaim

-- `Interface`, as it answers at one moment.
pub record Interface : Type 0 where
  pub workspaces : Ctx → Result (List Workspace)
  pub api_exports : Ctx → Result (List ApiExport)

pub record Static : Type 0 where
  pub ws : List Workspace
  pub ax : List ApiExport

-- The two methods of `Static`.
unfoldable pub static_source : Static → Interface
static_source s = record { workspaces = λ _. ok s.ws; api_exports = λ _. ok s.ax }
