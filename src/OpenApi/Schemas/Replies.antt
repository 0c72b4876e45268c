-- ===== src/OpenApi/Schemas/Replies.antt =====
-- The schemas of pkg/generated/openapi/zz_generated.openapi.go for statuses, tables, times and events.
use kcp_marketplace.Base.{[], ◌∷◌}
use kcp_marketplace.OpenApi.{
  anything, scalar, text_schema, told_by, refers_to, array_of, object_of, with_default,
  with_extensions, model, given, number, empty_object, text, Definition,
}

abbrev pub schema_condition : Definition
schema_condition = record {
  schema =
      object_of
        (("type", with_default (given "") text_schema)
          ∷ ("status", with_default (given "") text_schema)
          ∷ ("observedGeneration", scalar "integer" "int64")
          ∷ ("lastTransitionTime", refers_to (model "v1" "Time"))
          ∷ ("reason", with_default (given "") text_schema)
          ∷ ("message", with_default (given "") text_schema)
          ∷ [])
        ("type" ∷ "status" ∷ "lastTransitionTime" ∷ "reason" ∷ "message" ∷ []);
  dependencies = model "v1" "Time" ∷ [];
}

abbrev pub schema_duration : Definition
schema_duration = record { schema = told_by (model "v1" "Duration"); dependencies = [] }

abbrev pub schema_internal_event : Definition
schema_internal_event = record {
  schema =
      object_of (("Type", with_default (given "") text_schema) ∷ ("Object", anything) ∷ [])
        ("Type" ∷ "Object" ∷ []);
  dependencies = [];
}

abbrev pub schema_micro_time : Definition
schema_micro_time = record { schema = told_by (model "v1" "MicroTime"); dependencies = [] }

abbrev pub schema_status : Definition
schema_status = record {
  schema =
      object_of
        (("kind", text_schema)
          ∷ ("apiVersion", text_schema)
          ∷ ("metadata", with_default empty_object (refers_to (model "v1" "ListMeta")))
          ∷ ("status", text_schema)
          ∷ ("message", text_schema)
          ∷ ("reason", text_schema)
          ∷ ("details", refers_to (model "v1" "StatusDetails"))
          ∷ ("code", scalar "integer" "int32")
          ∷ [])
        [];
  dependencies = model "v1" "ListMeta" ∷ model "v1" "StatusDetails" ∷ [];
}

abbrev pub schema_status_cause : Definition
schema_status_cause = record {
  schema =
      object_of (("reason", text_schema) ∷ ("message", text_schema) ∷ ("field", text_schema) ∷ [])
        [];
  dependencies = [];
}

abbrev pub schema_status_details : Definition
schema_status_details = record {
  schema =
      object_of
        (("name", text_schema)
          ∷ ("group", text_schema)
          ∷ ("kind", text_schema)
          ∷ ("uid", text_schema)
          ∷ (
            "causes",
            with_extensions (("x-kubernetes-list-type", text "atomic") ∷ [])
                (array_of (refers_to (model "v1" "StatusCause"))),
          )
          ∷ ("retryAfterSeconds", scalar "integer" "int32")
          ∷ [])
        [];
  dependencies = model "v1" "StatusCause" ∷ [];
}

abbrev pub schema_table : Definition
schema_table = record {
  schema =
      object_of
        (("kind", text_schema)
          ∷ ("apiVersion", text_schema)
          ∷ ("metadata", with_default empty_object (refers_to (model "v1" "ListMeta")))
          ∷ (
            "columnDefinitions",
            with_extensions (("x-kubernetes-list-type", text "atomic") ∷ [])
                (array_of (refers_to (model "v1" "TableColumnDefinition"))),
          )
          ∷ (
            "rows",
            with_extensions (("x-kubernetes-list-type", text "atomic") ∷ [])
                (array_of (refers_to (model "v1" "TableRow"))),
          )
          ∷ [])
        ("columnDefinitions" ∷ "rows" ∷ []);
  dependencies =
      model "v1" "ListMeta" ∷ model "v1" "TableColumnDefinition" ∷ model "v1" "TableRow" ∷ [];
}

abbrev pub schema_table_column_definition : Definition
schema_table_column_definition = record {
  schema =
      object_of
        (("name", with_default (given "") text_schema)
          ∷ ("type", with_default (given "") text_schema)
          ∷ ("format", with_default (given "") text_schema)
          ∷ ("description", with_default (given "") text_schema)
          ∷ ("priority", with_default (number 0) (scalar "integer" "int32"))
          ∷ [])
        ("name" ∷ "type" ∷ "format" ∷ "description" ∷ "priority" ∷ []);
  dependencies = [];
}

abbrev pub schema_table_row : Definition
schema_table_row = record {
  schema =
      object_of
        ((
          "cells",
          with_extensions (("x-kubernetes-list-type", text "atomic") ∷ [])
              (array_of (scalar "object" "")),
        )
          ∷ (
            "conditions",
            with_extensions (("x-kubernetes-list-type", text "atomic") ∷ [])
                (array_of (refers_to (model "v1" "TableRowCondition"))),
          )
          ∷ ("object", refers_to (model "runtime" "RawExtension"))
          ∷ [])
        ("cells" ∷ []);
  dependencies = model "v1" "TableRowCondition" ∷ model "runtime" "RawExtension" ∷ [];
}

abbrev pub schema_table_row_condition : Definition
schema_table_row_condition = record {
  schema =
      object_of
        (("type", with_default (given "") text_schema)
          ∷ ("status", with_default (given "") text_schema)
          ∷ ("reason", text_schema)
          ∷ ("message", text_schema)
          ∷ [])
        ("type" ∷ "status" ∷ []);
  dependencies = [];
}

abbrev pub schema_time : Definition
schema_time = record { schema = told_by (model "v1" "Time"); dependencies = [] }

abbrev pub schema_timestamp : Definition
schema_timestamp = record {
  schema =
      object_of
        (("seconds", with_default (number 0) (scalar "integer" "int64"))
          ∷ ("nanos", with_default (number 0) (scalar "integer" "int32"))
          ∷ [])
        ("seconds" ∷ "nanos" ∷ []);
  dependencies = [];
}

abbrev pub schema_watch_event : Definition
schema_watch_event = record {
  schema =
      object_of
        (("type", with_default (given "") text_schema)
          ∷ ("object", refers_to (model "runtime" "RawExtension"))
          ∷ [])
        ("type" ∷ "object" ∷ []);
  dependencies = model "runtime" "RawExtension" ∷ [];
}
