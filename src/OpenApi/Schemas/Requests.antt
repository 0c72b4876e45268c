-- ===== src/OpenApi/Schemas/Requests.antt =====
-- The schemas of pkg/generated/openapi/zz_generated.openapi.go for the options and selectors of requests.
use kcp_marketplace.Base.{[], ◌∷◌, false}
use kcp_marketplace.OpenApi.{
  scalar, text_schema, refers_to, array_of, map_of, object_of, with_default, with_extensions, model,
  given, boolean, text, Definition,
}

abbrev pub schema_apply_options : Definition
schema_apply_options = record {
  schema =
      object_of
        (("kind", text_schema)
          ∷ ("apiVersion", text_schema)
          ∷ (
            "dryRun",
            with_extensions (("x-kubernetes-list-type", text "atomic") ∷ []) (array_of text_schema),
          )
          ∷ ("force", with_default (boolean false) (scalar "boolean" ""))
          ∷ ("fieldManager", with_default (given "") text_schema)
          ∷ [])
        ("force" ∷ "fieldManager" ∷ []);
  dependencies = [];
}

abbrev pub schema_create_options : Definition
schema_create_options = record {
  schema =
      object_of
        (("kind", text_schema)
          ∷ ("apiVersion", text_schema)
          ∷ (
            "dryRun",
            with_extensions (("x-kubernetes-list-type", text "atomic") ∷ []) (array_of text_schema),
          )
          ∷ ("fieldManager", text_schema)
          ∷ ("fieldValidation", text_schema)
          ∷ [])
        [];
  dependencies = [];
}

abbrev pub schema_delete_options : Definition
schema_delete_options = record {
  schema =
      object_of
        (("kind", text_schema)
          ∷ ("apiVersion", text_schema)
          ∷ ("gracePeriodSeconds", scalar "integer" "int64")
          ∷ ("preconditions", refers_to (model "v1" "Preconditions"))
          ∷ ("orphanDependents", scalar "boolean" "")
          ∷ ("propagationPolicy", text_schema)
          ∷ (
            "dryRun",
            with_extensions (("x-kubernetes-list-type", text "atomic") ∷ []) (array_of text_schema),
          )
          ∷ ("ignoreStoreReadErrorWithClusterBreakingPotential", scalar "boolean" "")
          ∷ [])
        [];
  dependencies = model "v1" "Preconditions" ∷ [];
}

abbrev pub schema_field_selector_requirement : Definition
schema_field_selector_requirement = record {
  schema =
      object_of
        (("key", with_default (given "") text_schema)
          ∷ ("operator", with_default (given "") text_schema)
          ∷ (
            "values",
            with_extensions (("x-kubernetes-list-type", text "atomic") ∷ []) (array_of text_schema),
          )
          ∷ [])
        ("key" ∷ "operator" ∷ []);
  dependencies = [];
}

abbrev pub schema_get_options : Definition
schema_get_options = record {
  schema =
      object_of
        (("kind", text_schema)
          ∷ ("apiVersion", text_schema)
          ∷ ("resourceVersion", text_schema)
          ∷ [])
        [];
  dependencies = [];
}

abbrev pub schema_label_selector : Definition
schema_label_selector = record {
  schema = with_extensions (("x-kubernetes-map-type", text "atomic") ∷ []) (
      object_of
        (("matchLabels", map_of text_schema)
          ∷ (
            "matchExpressions",
            with_extensions (("x-kubernetes-list-type", text "atomic") ∷ [])
                (array_of (refers_to (model "v1" "LabelSelectorRequirement"))),
          )
          ∷ [])
        []);
  dependencies = model "v1" "LabelSelectorRequirement" ∷ [];
}

abbrev pub schema_label_selector_requirement : Definition
schema_label_selector_requirement = record {
  schema =
      object_of
        (("key", with_default (given "") text_schema)
          ∷ ("operator", with_default (given "") text_schema)
          ∷ (
            "values",
            with_extensions (("x-kubernetes-list-type", text "atomic") ∷ []) (array_of text_schema),
          )
          ∷ [])
        ("key" ∷ "operator" ∷ []);
  dependencies = [];
}

abbrev pub schema_list_options : Definition
schema_list_options = record {
  schema =
      object_of
        (("kind", text_schema)
          ∷ ("apiVersion", text_schema)
          ∷ ("labelSelector", text_schema)
          ∷ ("fieldSelector", text_schema)
          ∷ ("watch", scalar "boolean" "")
          ∷ ("allowWatchBookmarks", scalar "boolean" "")
          ∷ ("resourceVersion", text_schema)
          ∷ ("resourceVersionMatch", text_schema)
          ∷ ("timeoutSeconds", scalar "integer" "int64")
          ∷ ("limit", scalar "integer" "int64")
          ∷ ("continue", text_schema)
          ∷ ("sendInitialEvents", scalar "boolean" "")
          ∷ ("shardSelector", text_schema)
          ∷ [])
        [];
  dependencies = [];
}

abbrev pub schema_patch : Definition
schema_patch = record { schema = scalar "object" ""; dependencies = [] }

abbrev pub schema_patch_options : Definition
schema_patch_options = record {
  schema =
      object_of
        (("kind", text_schema)
          ∷ ("apiVersion", text_schema)
          ∷ (
            "dryRun",
            with_extensions (("x-kubernetes-list-type", text "atomic") ∷ []) (array_of text_schema),
          )
          ∷ ("force", scalar "boolean" "")
          ∷ ("fieldManager", text_schema)
          ∷ ("fieldValidation", text_schema)
          ∷ [])
        [];
  dependencies = [];
}

abbrev pub schema_preconditions : Definition
schema_preconditions = record {
  schema = object_of (("uid", text_schema) ∷ ("resourceVersion", text_schema) ∷ []) [];
  dependencies = [];
}

abbrev pub schema_table_options : Definition
schema_table_options = record {
  schema =
      object_of
        (("kind", text_schema) ∷ ("apiVersion", text_schema) ∷ ("includeObject", text_schema) ∷ [])
        [];
  dependencies = [];
}

abbrev pub schema_update_options : Definition
schema_update_options = record {
  schema =
      object_of
        (("kind", text_schema)
          ∷ ("apiVersion", text_schema)
          ∷ (
            "dryRun",
            with_extensions (("x-kubernetes-list-type", text "atomic") ∷ []) (array_of text_schema),
          )
          ∷ ("fieldManager", text_schema)
          ∷ ("fieldValidation", text_schema)
          ∷ [])
        [];
  dependencies = [];
}
