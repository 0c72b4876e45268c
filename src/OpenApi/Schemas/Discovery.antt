-- ===== src/OpenApi/Schemas/Discovery.antt =====
-- The schemas of pkg/generated/openapi/zz_generated.openapi.go for how the API is found.
use kcp_marketplace.Base.{[], ◌∷◌, false}
use kcp_marketplace.OpenApi.{
  scalar, text_schema, refers_to, array_of, object_of, with_default, with_extensions, model, given,
  boolean, empty_object, text, Definition,
}

abbrev pub schema_api_group : Definition
schema_api_group = record {
  schema =
      object_of
        (("kind", text_schema)
          ∷ ("apiVersion", text_schema)
          ∷ ("name", with_default (given "") text_schema)
          ∷ (
            "versions",
            with_extensions (("x-kubernetes-list-type", text "atomic") ∷ [])
                (array_of (refers_to (model "v1" "GroupVersionForDiscovery"))),
          )
          ∷ (
            "preferredVersion",
            with_default empty_object (refers_to (model "v1" "GroupVersionForDiscovery")),
          )
          ∷ (
            "serverAddressByClientCIDRs",
            with_extensions (("x-kubernetes-list-type", text "atomic") ∷ [])
                (array_of (refers_to (model "v1" "ServerAddressByClientCIDR"))),
          )
          ∷ [])
        ("name" ∷ "versions" ∷ []);
  dependencies =
      model "v1" "GroupVersionForDiscovery" ∷ model "v1" "ServerAddressByClientCIDR" ∷ [];
}

abbrev pub schema_api_group_list : Definition
schema_api_group_list = record {
  schema =
      object_of
        (("kind", text_schema)
          ∷ ("apiVersion", text_schema)
          ∷ (
            "groups",
            with_extensions (("x-kubernetes-list-type", text "atomic") ∷ [])
                (array_of (refers_to (model "v1" "APIGroup"))),
          )
          ∷ [])
        ("groups" ∷ []);
  dependencies = model "v1" "APIGroup" ∷ [];
}

abbrev pub schema_api_resource : Definition
schema_api_resource = record {
  schema =
      object_of
        (("name", with_default (given "") text_schema)
          ∷ ("singularName", with_default (given "") text_schema)
          ∷ ("namespaced", with_default (boolean false) (scalar "boolean" ""))
          ∷ ("group", text_schema)
          ∷ ("version", text_schema)
          ∷ ("kind", with_default (given "") text_schema)
          ∷ ("verbs", array_of text_schema)
          ∷ (
            "shortNames",
            with_extensions (("x-kubernetes-list-type", text "atomic") ∷ []) (array_of text_schema),
          )
          ∷ (
            "categories",
            with_extensions (("x-kubernetes-list-type", text "atomic") ∷ []) (array_of text_schema),
          )
          ∷ ("storageVersionHash", text_schema)
          ∷ [])
        ("name" ∷ "singularName" ∷ "namespaced" ∷ "kind" ∷ "verbs" ∷ []);
  dependencies = [];
}

abbrev pub schema_api_resource_list : Definition
schema_api_resource_list = record {
  schema =
      object_of
        (("kind", text_schema)
          ∷ ("apiVersion", text_schema)
          ∷ ("groupVersion", with_default (given "") text_schema)
          ∷ (
            "resources",
            with_extensions (("x-kubernetes-list-type", text "atomic") ∷ [])
                (array_of (refers_to (model "v1" "APIResource"))),
          )
          ∷ [])
        ("groupVersion" ∷ "resources" ∷ []);
  dependencies = model "v1" "APIResource" ∷ [];
}

abbrev pub schema_api_versions : Definition
schema_api_versions = record {
  schema =
      object_of
        (("kind", text_schema)
          ∷ ("apiVersion", text_schema)
          ∷ (
            "versions",
            with_extensions (("x-kubernetes-list-type", text "atomic") ∷ []) (array_of text_schema),
          )
          ∷ (
            "serverAddressByClientCIDRs",
            with_extensions (("x-kubernetes-list-type", text "atomic") ∷ [])
                (array_of (refers_to (model "v1" "ServerAddressByClientCIDR"))),
          )
          ∷ [])
        ("versions" ∷ "serverAddressByClientCIDRs" ∷ []);
  dependencies = model "v1" "ServerAddressByClientCIDR" ∷ [];
}

abbrev pub schema_group_kind : Definition
schema_group_kind = record {
  schema =
      object_of
        (("group", with_default (given "") text_schema)
          ∷ ("kind", with_default (given "") text_schema)
          ∷ [])
        ("group" ∷ "kind" ∷ []);
  dependencies = [];
}

abbrev pub schema_group_resource : Definition
schema_group_resource = record {
  schema =
      object_of
        (("group", with_default (given "") text_schema)
          ∷ ("resource", with_default (given "") text_schema)
          ∷ [])
        ("group" ∷ "resource" ∷ []);
  dependencies = [];
}

abbrev pub schema_group_version : Definition
schema_group_version = record {
  schema =
      object_of
        (("group", with_default (given "") text_schema)
          ∷ ("version", with_default (given "") text_schema)
          ∷ [])
        ("group" ∷ "version" ∷ []);
  dependencies = [];
}

abbrev pub schema_group_version_for_discovery : Definition
schema_group_version_for_discovery = record {
  schema =
      object_of
        (("groupVersion", with_default (given "") text_schema)
          ∷ ("version", with_default (given "") text_schema)
          ∷ [])
        ("groupVersion" ∷ "version" ∷ []);
  dependencies = [];
}

abbrev pub schema_group_version_kind : Definition
schema_group_version_kind = record {
  schema =
      object_of
        (("group", with_default (given "") text_schema)
          ∷ ("version", with_default (given "") text_schema)
          ∷ ("kind", with_default (given "") text_schema)
          ∷ [])
        ("group" ∷ "version" ∷ "kind" ∷ []);
  dependencies = [];
}

abbrev pub schema_group_version_resource : Definition
schema_group_version_resource = record {
  schema =
      object_of
        (("group", with_default (given "") text_schema)
          ∷ ("version", with_default (given "") text_schema)
          ∷ ("resource", with_default (given "") text_schema)
          ∷ [])
        ("group" ∷ "version" ∷ "resource" ∷ []);
  dependencies = [];
}

abbrev pub schema_root_paths : Definition
schema_root_paths = record {
  schema =
      object_of
        ((
          "paths",
          with_extensions (("x-kubernetes-list-type", text "atomic") ∷ []) (array_of text_schema),
        )
          ∷ [])
        ("paths" ∷ []);
  dependencies = [];
}

abbrev pub schema_server_address_by_client_cidr : Definition
schema_server_address_by_client_cidr = record {
  schema =
      object_of
        (("clientCIDR", with_default (given "") text_schema)
          ∷ ("serverAddress", with_default (given "") text_schema)
          ∷ [])
        ("clientCIDR" ∷ "serverAddress" ∷ []);
  dependencies = [];
}

abbrev pub schema_version_info : Definition
schema_version_info = record {
  schema =
      object_of
        (("major", with_default (given "") text_schema)
          ∷ ("minor", with_default (given "") text_schema)
          ∷ ("emulationMajor", text_schema)
          ∷ ("emulationMinor", text_schema)
          ∷ ("minCompatibilityMajor", text_schema)
          ∷ ("minCompatibilityMinor", text_schema)
          ∷ ("gitVersion", with_default (given "") text_schema)
          ∷ ("gitCommit", with_default (given "") text_schema)
          ∷ ("gitTreeState", with_default (given "") text_schema)
          ∷ ("buildDate", with_default (given "") text_schema)
          ∷ ("goVersion", with_default (given "") text_schema)
          ∷ ("compiler", with_default (given "") text_schema)
          ∷ ("platform", with_default (given "") text_schema)
          ∷ [])
        ("major" ∷ "minor" ∷ "gitVersion" ∷ "gitCommit" ∷ "gitTreeState" ∷ "buildDate" ∷ "goVersion"
          ∷ "compiler" ∷ "platform" ∷ []);
  dependencies = [];
}
