-- ===== src/OpenApi/Served.antt =====
-- Whether what the server writes is as the schemas that it publishes say.
use kcp_marketplace.Base.{String, ◌≡◌, refl, Bool, true, false, List, [], ◌∷◌, not, String-discrete}
use kcp_marketplace.Api.{
  WorkspaceSpec, AccessibleWorkspace, BindableResource, BindablePermissionClaim,
  BindableApiExportSpec, BindableApiExport,
}
use kcp_marketplace.Api.Json.{
  Json, str, no_fields, field, TypeMeta, untyped, Metadata, optional, appended,
  encode_workspace_spec, encode_resource, encode_claim, encode_export_spec, encode_workspace,
  encode_export, encode_items, encode_workspace_list, encode_export_list,
}
use kcp_marketplace.OpenApi.{
  marketplace, model, refers_to, text_schema, with_default, empty_object, ModelName-discrete,
}
use kcp_marketplace.OpenApi.Definitions.{get_open_api_definitions}
use kcp_marketplace.OpenApi.Closed.{find}
use kcp_marketplace.OpenApi.Validate.{
  property_of, field_of, items_of, required_of, is_of, has_field, has_all, has_all-optional,
  resolve, conforms,
}
use kcp_marketplace.OpenApi.Fields.{
  IsValid, no_fields-AreValid, object-IsValid, field-AreValid, optional-AreValid, array-IsValid,
  optional_array-AreValid, same_reference, null-AreRefused, field-AreRefused, optional-AreRefused,
  object_refused,
}

workspace_spec-IsValid :
    (s : WorkspaceSpec)
    → IsValid (encode_workspace_spec s) (refers_to (marketplace "AccessibleWorkspaceSpec"))
unfolding encode_workspace_spec resolve find ModelName-discrete String-discrete is_of has_all
    required_of field_of property_of
workspace_spec-IsValid s = object-IsValid refl refl (
    optional-AreValid "path" s.path refl refl
      (optional-AreValid "cluster" s.cluster refl refl no_fields-AreValid))

resource-IsValid :
    (r : BindableResource)
    → IsValid (encode_resource r) (refers_to (marketplace "BindableResource"))
unfolding encode_resource resolve find ModelName-discrete String-discrete is_of has_all required_of
    field_of property_of
resource-IsValid r = object-IsValid refl refl (
    optional-AreValid "group" r.group refl refl
      (optional-AreValid "resource" r.resource refl refl no_fields-AreValid))

text-IsValid : (value : String) → IsValid (str value) text_schema
unfolding conforms is_of resolve String-discrete
text-IsValid value = record { valid = refl }

claim-IsValid :
    (c : BindablePermissionClaim)
    → IsValid (encode_claim c) (refers_to (marketplace "BindablePermissionClaim"))
unfolding items_of encode_claim resolve find ModelName-discrete String-discrete is_of has_all
    required_of field_of property_of
claim-IsValid c = object-IsValid refl refl (
    optional-AreValid "group" c.group refl refl (
      optional-AreValid "resource" c.resource refl refl (
        optional_array-AreValid "verbs" str c.verbs refl refl refl text-IsValid
          (optional-AreValid "identityHash" c.identity_hash refl refl no_fields-AreValid))))

export_spec-IsValid :
    (s : BindableApiExportSpec)
    → IsValid (encode_export_spec s) (refers_to (marketplace "BindableAPIExportSpec"))
unfolding items_of encode_export_spec resolve find ModelName-discrete String-discrete is_of has_all
    required_of field_of property_of
export_spec-IsValid s = object-IsValid refl refl (
    optional-AreValid "path" s.path refl refl (
      optional-AreValid "cluster" s.cluster refl refl (
        optional-AreValid "exportName" s.export_name refl refl (
          optional-AreValid "identityHash" s.identity_hash refl refl (
            optional_array-AreValid "resources" encode_resource s.resources refl refl refl
              resource-IsValid
              (optional_array-AreValid "permissionClaims" encode_claim s.permission_claims refl refl
                refl claim-IsValid no_fields-AreValid))))))

-- What is relied on for k8s types: their values are as the schemas of their own definitions.
pub record MetadataIsValid (m : Metadata) : Type 0 where
  pub of_object :
      (name : String)
      → IsValid
          (m.object_meta name)
          (with_default empty_object (refers_to (model "v1" "ObjectMeta")))
  pub of_list : IsValid m.list_meta (with_default empty_object (refers_to (model "v1" "ListMeta")))

typed-has_items :
    (kind version : String) (metadata items : Json)
    → has_all ("items" ∷ []) (
        optional "kind" kind (
          optional "apiVersion" version
            (field "metadata" metadata (field "items" items no_fields))))
      ≡ true
unfolding has_all has_field String-discrete
typed-has_items kind version metadata items =
    has_all-optional ("items" ∷ []) "kind" kind _
      (has_all-optional ("items" ∷ []) "apiVersion" version _ refl)

abbrev pub is_empty {ℓ} : {A : Type ℓ} → List A → Bool
is_empty [] = true
is_empty (_ ∷ _) = false

module _ (m : Metadata) (meta : MetadataIsValid m) where
  workspace-IsValid :
      (t : TypeMeta) (w : AccessibleWorkspace)
      → IsValid (encode_workspace m t w) (refers_to (marketplace "AccessibleWorkspace"))
  unfolding encode_workspace resolve find ModelName-discrete String-discrete is_of has_all
      required_of field_of property_of conforms
  workspace-IsValid t w = object-IsValid refl refl (
      optional-AreValid "kind" t.kind refl refl (
        optional-AreValid "apiVersion" t.api_version refl refl (
          field-AreValid refl (meta.of_object w.name) (
            field-AreValid refl (same_reference refl (workspace_spec-IsValid w.spec))
              no_fields-AreValid))))

  export-IsValid :
      (t : TypeMeta) (e : BindableApiExport)
      → IsValid (encode_export m t e) (refers_to (marketplace "BindableAPIExport"))
  unfolding encode_export resolve find ModelName-discrete String-discrete is_of has_all required_of
      field_of property_of
  export-IsValid t e = object-IsValid refl refl (
      optional-AreValid "kind" t.kind refl refl (
        optional-AreValid "apiVersion" t.api_version refl refl (
          field-AreValid refl (meta.of_object e.name) (
            field-AreValid refl (same_reference refl (export_spec-IsValid e.spec))
              no_fields-AreValid))))

  pub workspace_list-conforms :
      (t : TypeMeta) (xs : List AccessibleWorkspace)
      → conforms get_open_api_definitions
          (encode_workspace_list m t (appended xs))
          (refers_to (marketplace "AccessibleWorkspaceList"))
        ≡ not (is_empty xs)
  unfolding appended encode_items items_of encode_workspace_list resolve find ModelName-discrete
      String-discrete is_of has_all required_of field_of property_of
  workspace_list-conforms t [] = object_refused _ _ (
      optional-AreRefused "kind" t.kind (
        optional-AreRefused "apiVersion" t.api_version
          (field-AreRefused "metadata" m.list_meta (null-AreRefused "items" refl))))
  workspace_list-conforms t (x ∷ xs) =
      (object-IsValid refl (typed-has_items t.kind t.api_version m.list_meta _) (
        optional-AreValid "kind" t.kind refl refl (
          optional-AreValid "apiVersion" t.api_version refl refl (
            field-AreValid refl meta.of_list (
              field-AreValid refl
                (array-IsValid (encode_workspace m untyped) (x ∷ xs) refl refl
                  (workspace-IsValid untyped))
                no_fields-AreValid))))).valid

  -- If the metadata that are written conform to the schemas of their types, the JSON that
  -- `encoding/json` writes of a list of exports whose items were appended one by one to a nil
  -- slice conforms to the published schema of the list exactly if it has an item.
  pub export_list-conforms :
      (t : TypeMeta) (xs : List BindableApiExport)
      → conforms get_open_api_definitions
          (encode_export_list m t (appended xs))
          (refers_to (marketplace "BindableAPIExportList"))
        ≡ not (is_empty xs)
  unfolding appended encode_items items_of encode_export_list resolve find ModelName-discrete
      String-discrete is_of has_all required_of field_of property_of
  export_list-conforms t [] = object_refused _ _ (
      optional-AreRefused "kind" t.kind (
        optional-AreRefused "apiVersion" t.api_version
          (field-AreRefused "metadata" m.list_meta (null-AreRefused "items" refl))))
  export_list-conforms t (x ∷ xs) =
      (object-IsValid refl (typed-has_items t.kind t.api_version m.list_meta _) (
        optional-AreValid "kind" t.kind refl refl (
          optional-AreValid "apiVersion" t.api_version refl refl (
            field-AreValid refl meta.of_list (
              field-AreValid refl
                (array-IsValid (encode_export m untyped) (x ∷ xs) refl refl
                  (export-IsValid untyped))
                no_fields-AreValid))))).valid
