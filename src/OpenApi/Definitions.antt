-- ===== src/OpenApi/Definitions.antt =====
-- `GetOpenAPIDefinitions` of pkg/generated/openapi/zz_generated.openapi.go.
use kcp_marketplace.Base.{List, [], ◌∷◌}
use kcp_marketplace.OpenApi.{ModelName, marketplace, model, Definition}
use kcp_marketplace.OpenApi.Schemas.Discovery.{
  schema_api_group, schema_api_group_list, schema_api_resource, schema_api_resource_list,
  schema_api_versions, schema_group_kind, schema_group_resource, schema_group_version,
  schema_group_version_for_discovery, schema_group_version_kind, schema_group_version_resource,
  schema_root_paths, schema_server_address_by_client_cidr, schema_version_info,
}
use kcp_marketplace.OpenApi.Schemas.Marketplace.{
  schema_accessible_workspace, schema_accessible_workspace_list, schema_accessible_workspace_spec,
  schema_bindable_api_export, schema_bindable_api_export_list, schema_bindable_api_export_spec,
  schema_bindable_permission_claim, schema_bindable_resource,
}
use kcp_marketplace.OpenApi.Schemas.Objects.{
  schema_fields_v1, schema_list, schema_list_meta, schema_managed_fields_entry, schema_object_meta,
  schema_owner_reference, schema_partial_object_metadata, schema_partial_object_metadata_list,
  schema_runtime_raw_extension, schema_runtime_type_meta, schema_runtime_unknown, schema_shard_info,
  schema_type_meta,
}
use kcp_marketplace.OpenApi.Schemas.Replies.{
  schema_condition, schema_duration, schema_internal_event, schema_micro_time, schema_status,
  schema_status_cause, schema_status_details, schema_table, schema_table_column_definition,
  schema_table_row, schema_table_row_condition, schema_time, schema_timestamp, schema_watch_event,
}
use kcp_marketplace.OpenApi.Schemas.Requests.{
  schema_apply_options, schema_create_options, schema_delete_options,
  schema_field_selector_requirement, schema_get_options, schema_label_selector,
  schema_label_selector_requirement, schema_list_options, schema_patch, schema_patch_options,
  schema_preconditions, schema_table_options, schema_update_options,
}

abbrev pub get_open_api_definitions : List (ModelName × Definition)
get_open_api_definitions =
    (marketplace "AccessibleWorkspace", schema_accessible_workspace)
    ∷ (marketplace "AccessibleWorkspaceList", schema_accessible_workspace_list)
    ∷ (marketplace "AccessibleWorkspaceSpec", schema_accessible_workspace_spec)
    ∷ (marketplace "BindableAPIExport", schema_bindable_api_export)
    ∷ (marketplace "BindableAPIExportList", schema_bindable_api_export_list)
    ∷ (marketplace "BindableAPIExportSpec", schema_bindable_api_export_spec)
    ∷ (marketplace "BindablePermissionClaim", schema_bindable_permission_claim)
    ∷ (marketplace "BindableResource", schema_bindable_resource)
    ∷ (model "v1" "APIGroup", schema_api_group)
    ∷ (model "v1" "APIGroupList", schema_api_group_list)
    ∷ (model "v1" "APIResource", schema_api_resource)
    ∷ (model "v1" "APIResourceList", schema_api_resource_list)
    ∷ (model "v1" "APIVersions", schema_api_versions)
    ∷ (model "v1" "ApplyOptions", schema_apply_options)
    ∷ (model "v1" "Condition", schema_condition)
    ∷ (model "v1" "CreateOptions", schema_create_options)
    ∷ (model "v1" "DeleteOptions", schema_delete_options)
    ∷ (model "v1" "Duration", schema_duration)
    ∷ (model "v1" "FieldSelectorRequirement", schema_field_selector_requirement)
    ∷ (model "v1" "FieldsV1", schema_fields_v1)
    ∷ (model "v1" "GetOptions", schema_get_options)
    ∷ (model "v1" "GroupKind", schema_group_kind)
    ∷ (model "v1" "GroupResource", schema_group_resource)
    ∷ (model "v1" "GroupVersion", schema_group_version)
    ∷ (model "v1" "GroupVersionForDiscovery", schema_group_version_for_discovery)
    ∷ (model "v1" "GroupVersionKind", schema_group_version_kind)
    ∷ (model "v1" "GroupVersionResource", schema_group_version_resource)
    ∷ (model "v1" "InternalEvent", schema_internal_event)
    ∷ (model "v1" "LabelSelector", schema_label_selector)
    ∷ (model "v1" "LabelSelectorRequirement", schema_label_selector_requirement)
    ∷ (model "v1" "List", schema_list)
    ∷ (model "v1" "ListMeta", schema_list_meta)
    ∷ (model "v1" "ListOptions", schema_list_options)
    ∷ (model "v1" "ManagedFieldsEntry", schema_managed_fields_entry)
    ∷ (model "v1" "MicroTime", schema_micro_time)
    ∷ (model "v1" "ObjectMeta", schema_object_meta)
    ∷ (model "v1" "OwnerReference", schema_owner_reference)
    ∷ (model "v1" "PartialObjectMetadata", schema_partial_object_metadata)
    ∷ (model "v1" "PartialObjectMetadataList", schema_partial_object_metadata_list)
    ∷ (model "v1" "Patch", schema_patch)
    ∷ (model "v1" "PatchOptions", schema_patch_options)
    ∷ (model "v1" "Preconditions", schema_preconditions)
    ∷ (model "v1" "RootPaths", schema_root_paths)
    ∷ (model "v1" "ServerAddressByClientCIDR", schema_server_address_by_client_cidr)
    ∷ (model "v1" "ShardInfo", schema_shard_info)
    ∷ (model "v1" "Status", schema_status)
    ∷ (model "v1" "StatusCause", schema_status_cause)
    ∷ (model "v1" "StatusDetails", schema_status_details)
    ∷ (model "v1" "Table", schema_table)
    ∷ (model "v1" "TableColumnDefinition", schema_table_column_definition)
    ∷ (model "v1" "TableOptions", schema_table_options)
    ∷ (model "v1" "TableRow", schema_table_row)
    ∷ (model "v1" "TableRowCondition", schema_table_row_condition)
    ∷ (model "v1" "Time", schema_time)
    ∷ (model "v1" "Timestamp", schema_timestamp)
    ∷ (model "v1" "TypeMeta", schema_type_meta)
    ∷ (model "v1" "UpdateOptions", schema_update_options)
    ∷ (model "v1" "WatchEvent", schema_watch_event)
    ∷ (model "runtime" "RawExtension", schema_runtime_raw_extension)
    ∷ (model "runtime" "TypeMeta", schema_runtime_type_meta)
    ∷ (model "runtime" "Unknown", schema_runtime_unknown)
    ∷ (model "version" "Info", schema_version_info)
    ∷ []
