-- ===== src/OpenApi/Schemas/Marketplace.antt =====
-- The schemas of pkg/generated/openapi/zz_generated.openapi.go for the types of apis/marketplace/v1alpha1.
use kcp_marketplace.Base.{[], ◌∷◌}
use kcp_marketplace.OpenApi.{
  text_schema, refers_to, array_of, object_of, with_default, marketplace, model, empty_object,
  Definition,
}

abbrev pub schema_accessible_workspace : Definition
schema_accessible_workspace = record {
  schema =
      object_of
        (("kind", text_schema)
          ∷ ("apiVersion", text_schema)
          ∷ ("metadata", with_default empty_object (refers_to (model "v1" "ObjectMeta")))
          ∷ ("spec", with_default empty_object (refers_to (marketplace "AccessibleWorkspaceSpec")))
          ∷ [])
        [];
  dependencies = marketplace "AccessibleWorkspaceSpec" ∷ model "v1" "ObjectMeta" ∷ [];
}

abbrev pub schema_accessible_workspace_list : Definition
schema_accessible_workspace_list = record {
  schema =
      object_of
        (("kind", text_schema)
          ∷ ("apiVersion", text_schema)
          ∷ ("metadata", with_default empty_object (refers_to (model "v1" "ListMeta")))
          ∷ ("items", array_of (refers_to (marketplace "AccessibleWorkspace")))
          ∷ [])
        ("items" ∷ []);
  dependencies = marketplace "AccessibleWorkspace" ∷ model "v1" "ListMeta" ∷ [];
}

abbrev pub schema_accessible_workspace_spec : Definition
schema_accessible_workspace_spec = record {
  schema = object_of (("path", text_schema) ∷ ("cluster", text_schema) ∷ []) [];
  dependencies = [];
}

abbrev pub schema_bindable_api_export : Definition
schema_bindable_api_export = record {
  schema =
      object_of
        (("kind", text_schema)
          ∷ ("apiVersion", text_schema)
          ∷ ("metadata", with_default empty_object (refers_to (model "v1" "ObjectMeta")))
          ∷ ("spec", with_default empty_object (refers_to (marketplace "BindableAPIExportSpec")))
          ∷ [])
        [];
  dependencies = marketplace "BindableAPIExportSpec" ∷ model "v1" "ObjectMeta" ∷ [];
}

abbrev pub schema_bindable_api_export_list : Definition
schema_bindable_api_export_list = record {
  schema =
      object_of
        (("kind", text_schema)
          ∷ ("apiVersion", text_schema)
          ∷ ("metadata", with_default empty_object (refers_to (model "v1" "ListMeta")))
          ∷ ("items", array_of (refers_to (marketplace "BindableAPIExport")))
          ∷ [])
        ("items" ∷ []);
  dependencies = marketplace "BindableAPIExport" ∷ model "v1" "ListMeta" ∷ [];
}

abbrev pub schema_bindable_api_export_spec : Definition
schema_bindable_api_export_spec = record {
  schema =
      object_of
        (("path", text_schema)
          ∷ ("cluster", text_schema)
          ∷ ("exportName", text_schema)
          ∷ ("identityHash", text_schema)
          ∷ ("resources", array_of (refers_to (marketplace "BindableResource")))
          ∷ ("permissionClaims", array_of (refers_to (marketplace "BindablePermissionClaim")))
          ∷ [])
        [];
  dependencies = marketplace "BindablePermissionClaim" ∷ marketplace "BindableResource" ∷ [];
}

abbrev pub schema_bindable_permission_claim : Definition
schema_bindable_permission_claim = record {
  schema =
      object_of
        (("group", text_schema)
          ∷ ("resource", text_schema)
          ∷ ("verbs", array_of text_schema)
          ∷ ("identityHash", text_schema)
          ∷ [])
        [];
  dependencies = [];
}

abbrev pub schema_bindable_resource : Definition
schema_bindable_resource = record {
  schema = object_of (("group", text_schema) ∷ ("resource", text_schema) ∷ []) [];
  dependencies = [];
}
