-- ===== src/OpenApi/Schemas/Objects.antt =====
-- The schemas of pkg/generated/openapi/zz_generated.openapi.go for the metadata of objects and lists.
use kcp_marketplace.Base.{[], ◌∷◌}
use kcp_marketplace.OpenApi.{
  scalar, text_schema, refers_to, array_of, map_of, object_of, with_default, with_extensions, model,
  given, empty_object, text, texts, Definition,
}

abbrev pub schema_fields_v1 : Definition
schema_fields_v1 = record { schema = scalar "object" ""; dependencies = [] }

abbrev pub schema_list : Definition
schema_list = record {
  schema =
      object_of
        (("kind", text_schema)
          ∷ ("apiVersion", text_schema)
          ∷ ("metadata", with_default empty_object (refers_to (model "v1" "ListMeta")))
          ∷ ("items", array_of (refers_to (model "runtime" "RawExtension")))
          ∷ [])
        ("items" ∷ []);
  dependencies = model "v1" "ListMeta" ∷ model "runtime" "RawExtension" ∷ [];
}

abbrev pub schema_list_meta : Definition
schema_list_meta = record {
  schema =
      object_of
        (("selfLink", text_schema)
          ∷ ("resourceVersion", text_schema)
          ∷ ("continue", text_schema)
          ∷ ("remainingItemCount", scalar "integer" "int64")
          ∷ ("shardInfo", refers_to (model "v1" "ShardInfo"))
          ∷ [])
        [];
  dependencies = model "v1" "ShardInfo" ∷ [];
}

abbrev pub schema_managed_fields_entry : Definition
schema_managed_fields_entry = record {
  schema =
      object_of
        (("manager", text_schema)
          ∷ ("operation", text_schema)
          ∷ ("apiVersion", text_schema)
          ∷ ("time", refers_to (model "v1" "Time"))
          ∷ ("fieldsType", text_schema)
          ∷ ("fieldsV1", refers_to (model "v1" "FieldsV1"))
          ∷ ("subresource", text_schema)
          ∷ [])
        [];
  dependencies = model "v1" "FieldsV1" ∷ model "v1" "Time" ∷ [];
}

abbrev pub schema_object_meta : Definition
schema_object_meta = record {
  schema =
      object_of
        (("name", text_schema)
          ∷ ("generateName", text_schema)
          ∷ ("namespace", text_schema)
          ∷ ("selfLink", text_schema)
          ∷ ("uid", text_schema)
          ∷ ("resourceVersion", text_schema)
          ∷ ("generation", scalar "integer" "int64")
          ∷ ("creationTimestamp", refers_to (model "v1" "Time"))
          ∷ ("deletionTimestamp", refers_to (model "v1" "Time"))
          ∷ ("deletionGracePeriodSeconds", scalar "integer" "int64")
          ∷ ("labels", map_of text_schema)
          ∷ ("annotations", map_of text_schema)
          ∷ (
            "ownerReferences",
            with_extensions
                (("x-kubernetes-list-map-keys", texts ("uid" ∷ []))
                  ∷ ("x-kubernetes-list-type", text "map")
                  ∷ ("x-kubernetes-patch-merge-key", text "uid")
                  ∷ ("x-kubernetes-patch-strategy", text "merge")
                  ∷ [])
                (array_of (refers_to (model "v1" "OwnerReference"))),
          )
          ∷ (
            "finalizers",
            with_extensions
                (("x-kubernetes-list-type", text "set")
                  ∷ ("x-kubernetes-patch-strategy", text "merge")
                  ∷ [])
                (array_of text_schema),
          )
          ∷ (
            "managedFields",
            with_extensions (("x-kubernetes-list-type", text "atomic") ∷ [])
                (array_of (refers_to (model "v1" "ManagedFieldsEntry"))),
          )
          ∷ [])
        [];
  dependencies =
      model "v1" "ManagedFieldsEntry" ∷ model "v1" "OwnerReference" ∷ model "v1" "Time" ∷ [];
}

abbrev pub schema_owner_reference : Definition
schema_owner_reference = record {
  schema = with_extensions (("x-kubernetes-map-type", text "atomic") ∷ []) (
      object_of
        (("apiVersion", with_default (given "") text_schema)
          ∷ ("kind", with_default (given "") text_schema)
          ∷ ("name", with_default (given "") text_schema)
          ∷ ("uid", with_default (given "") text_schema)
          ∷ ("controller", scalar "boolean" "")
          ∷ ("blockOwnerDeletion", scalar "boolean" "")
          ∷ [])
        ("apiVersion" ∷ "kind" ∷ "name" ∷ "uid" ∷ []));
  dependencies = [];
}

abbrev pub schema_partial_object_metadata : Definition
schema_partial_object_metadata = record {
  schema =
      object_of
        (("kind", text_schema)
          ∷ ("apiVersion", text_schema)
          ∷ ("metadata", with_default empty_object (refers_to (model "v1" "ObjectMeta")))
          ∷ [])
        [];
  dependencies = model "v1" "ObjectMeta" ∷ [];
}

abbrev pub schema_partial_object_metadata_list : Definition
schema_partial_object_metadata_list = record {
  schema =
      object_of
        (("kind", text_schema)
          ∷ ("apiVersion", text_schema)
          ∷ ("metadata", with_default empty_object (refers_to (model "v1" "ListMeta")))
          ∷ ("items", array_of (refers_to (model "v1" "PartialObjectMetadata")))
          ∷ [])
        ("items" ∷ []);
  dependencies = model "v1" "ListMeta" ∷ model "v1" "PartialObjectMetadata" ∷ [];
}

abbrev pub schema_shard_info : Definition
schema_shard_info = record {
  schema = object_of (("selector", with_default (given "") text_schema) ∷ []) ("selector" ∷ []);
  dependencies = [];
}

abbrev pub schema_type_meta : Definition
schema_type_meta = record {
  schema = object_of (("kind", text_schema) ∷ ("apiVersion", text_schema) ∷ []) [];
  dependencies = [];
}

abbrev pub schema_runtime_raw_extension : Definition
schema_runtime_raw_extension = record { schema = scalar "object" ""; dependencies = [] }

abbrev pub schema_runtime_type_meta : Definition
schema_runtime_type_meta = record {
  schema = object_of (("apiVersion", text_schema) ∷ ("kind", text_schema) ∷ []) [];
  dependencies = [];
}

abbrev pub schema_runtime_unknown : Definition
schema_runtime_unknown = record {
  schema =
      object_of
        (("apiVersion", text_schema)
          ∷ ("kind", text_schema)
          ∷ ("ContentEncoding", with_default (given "") text_schema)
          ∷ ("ContentType", with_default (given "") text_schema)
          ∷ [])
        ("ContentEncoding" ∷ "ContentType" ∷ []);
  dependencies = [];
}
