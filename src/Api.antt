-- ===== src/Api.antt =====
-- apis/marketplace/v1alpha1: the objects that the API serves. Of the metadata, the name is modelled,
-- the only field that the program sets; type metadata and the lists' metadata stay empty. A slice is
-- its elements, so that a nil one and an empty one are the same here; Api/DeepCopy tells them apart.
pub mod Json
pub mod Decode
pub mod RoundTrip
pub mod DeepCopy
use kcp_marketplace.Base.{String, List}

-- `AccessibleWorkspaceSpec`
pub record WorkspaceSpec : Type 0 where
  pub path : String
  pub cluster : String

pub record AccessibleWorkspace : Type 0 where
  pub name : String
  pub spec : WorkspaceSpec

pub record BindableResource : Type 0 where
  pub group : String
  pub resource : String

pub record BindablePermissionClaim : Type 0 where
  pub group : String
  pub resource : String
  pub verbs : List String
  pub identity_hash : String

pub record BindableApiExportSpec : Type 0 where
  pub path : String
  pub cluster : String
  pub export_name : String
  pub identity_hash : String
  pub resources : List BindableResource
  pub permission_claims : List BindablePermissionClaim

pub record BindableApiExport : Type 0 where
  pub name : String
  pub spec : BindableApiExportSpec

-- The types of the API, as the scheme knows them; `other` is any other object of the server.
pub data Object : Type 0 where
  workspace : AccessibleWorkspace → Object
  workspace_list : List AccessibleWorkspace → Object
  bindable : BindableApiExport → Object
  bindable_list : List BindableApiExport → Object
  other : Object
