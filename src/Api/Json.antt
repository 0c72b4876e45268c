-- ===== src/Api/Json.antt =====
-- How `encoding/json` writes the types of apis/marketplace/v1alpha1, by the tags of their fields:
-- with `omitempty` a field is left out at an empty text or slice, but never at a struct. So a slice
-- with `omitempty` is written alike if it is nil and if it is empty, and is a list here.
use kcp_marketplace.Base.{String, Option, none, some, List, [], ◌∷◌, ◌==◌, if◌then◌else◌}
use kcp_marketplace.Api.{
  WorkspaceSpec, AccessibleWorkspace, BindableResource, BindablePermissionClaim,
  BindableApiExportSpec, BindableApiExport,
}

mutual
  pub data Json : Type 0 where
    null : Json
    str : String → Json
    array : Elements → Json
    object : Fields → Json

  pub data Elements : Type 0 where
    no_elements : Elements
    item : Json → Elements → Elements

  pub data Fields : Type 0 where
    no_fields : Fields
    field : String → Json → Fields → Fields

-- `metav1.TypeMeta`. The codec sets it on the object that it writes; an item of a list keeps the
-- empty one that it has.
pub record TypeMeta : Type 0 where
  pub kind : String
  pub api_version : String

abbrev pub untyped : TypeMeta
untyped = record { kind = ""; api_version = "" }

-- What k8s writes for an `ObjectMeta` of which only the name is set, and for the metadata of a list.
pub record Metadata : Type 0 where
  pub object_meta : String → Json
  pub list_meta : Json

-- A text with `omitempty`.
unfoldable pub optional : String → String → Fields → Fields
optional name value rest = if value == "" then rest else field name (str value) rest

-- A slice that was `nil` before each element of a list was appended to it: still `nil` without one.
unfoldable pub appended {ℓ} : {A : Type ℓ} → List A → Option (List A)
appended [] = none
appended (x ∷ xs) = some (x ∷ xs)

unfoldable pub elements_of {ℓ} : {A : Type ℓ} → (A → Json) → List A → Elements
elements_of encode [] = no_elements
elements_of encode (x ∷ xs) = item (encode x) (elements_of encode xs)

-- A slice with `omitempty`.
unfoldable pub optional_array {ℓ} : {A : Type ℓ} → String → (A → Json) → List A → Fields → Fields
optional_array name encode [] rest = rest
optional_array name encode (x ∷ xs) rest = field name (array (elements_of encode (x ∷ xs))) rest

unfoldable pub encode_workspace_spec : WorkspaceSpec → Json
encode_workspace_spec s = object (optional "path" s.path (optional "cluster" s.cluster no_fields))

unfoldable pub encode_resource : BindableResource → Json
encode_resource r = object (optional "group" r.group (optional "resource" r.resource no_fields))

unfoldable pub encode_claim : BindablePermissionClaim → Json
encode_claim c = object (
    optional "group" c.group (
      optional "resource" c.resource
        (optional_array "verbs" str c.verbs (optional "identityHash" c.identity_hash no_fields))))

unfoldable pub encode_export_spec : BindableApiExportSpec → Json
encode_export_spec s = object (
    optional "path" s.path (
      optional "cluster" s.cluster (
        optional "exportName" s.export_name (
          optional "identityHash" s.identity_hash (
            optional_array "resources" encode_resource s.resources
              (optional_array "permissionClaims" encode_claim s.permission_claims no_fields))))))

module _ (m : Metadata) where
  abbrev pub with_type : TypeMeta → Fields → Json
  with_type t rest = object (optional "kind" t.kind (optional "apiVersion" t.api_version rest))

  unfoldable pub encode_workspace : TypeMeta → AccessibleWorkspace → Json
  encode_workspace t w = with_type t (
      field "metadata" (m.object_meta w.name)
        (field "spec" (encode_workspace_spec w.spec) no_fields))

  unfoldable pub encode_export : TypeMeta → BindableApiExport → Json
  encode_export t e =
      with_type t (
        field "metadata" (m.object_meta e.name)
          (field "spec" (encode_export_spec e.spec) no_fields))

  -- `items` has no `omitempty`. A slice that nothing was appended to is `nil`, here `none`.
  unfoldable pub encode_items {ℓ} : {A : Type ℓ} → (A → Json) → Option (List A) → Json
  encode_items encode none = null
  encode_items encode (some xs) = array (elements_of encode xs)

  unfoldable pub encode_workspace_list : TypeMeta → Option (List AccessibleWorkspace) → Json
  encode_workspace_list t items = with_type t (
      field "metadata" m.list_meta
        (field "items" (encode_items (encode_workspace untyped) items) no_fields))

  unfoldable pub encode_export_list : TypeMeta → Option (List BindableApiExport) → Json
  encode_export_list t items = with_type t (
      field "metadata" m.list_meta
        (field "items" (encode_items (encode_export untyped) items) no_fields))
