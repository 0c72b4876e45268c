-- ===== src/Tests/OpenApi.antt =====
-- The published schemas against values that the server writes.
use mathlib.Core.List.{mem-cons_self, mem-cons_of_mem}
use kcp_marketplace.Base.{
  String, Option, none, ◌≡◌, refl, true, some, [], ◌∷◌, Mem, String-discrete,
}
use kcp_marketplace.Api.{AccessibleWorkspace, BindableApiExport}
use kcp_marketplace.Api.Json.{
  Json, encode_export, str, object, no_fields, field, TypeMeta, untyped, Metadata, appended,
  encode_workspace_list, encode_export_list,
}
use kcp_marketplace.Api.Decode.{decode_export}
use kcp_marketplace.Api.RoundTrip.{decode-encode_export}
use kcp_marketplace.OpenApi.{
  Definition, ModelName, ModelName-discrete, marketplace, refers_to, references,
}
use kcp_marketplace.OpenApi.Schemas.Marketplace.{schema_accessible_workspace_list}
use kcp_marketplace.OpenApi.Definitions.{get_open_api_definitions}
use kcp_marketplace.OpenApi.Closed.{find, references_resolve}
use kcp_marketplace.OpenApi.Validate.{
  property_of, field_of, required_of, is_of, has_all, resolve, conforms,
}
use kcp_marketplace.OpenApi.Served.{MetadataIsValid, workspace_list-conforms, export_list-conforms}

abbrev list_name : ModelName
list_name = marketplace "AccessibleWorkspaceList"

abbrev element_name : ModelName
element_name = marketplace "AccessibleWorkspace"

published : find list_name get_open_api_definitions ≡ some schema_accessible_workspace_list
unfolding find ModelName-discrete String-discrete
published = refl

refers : Mem element_name (references schema_accessible_workspace_list.schema)
unfolding references
refers = mem-cons_of_mem _ mem-cons_self

references_resolve_example :
    Mem element_name schema_accessible_workspace_list.dependencies
    × ((target : Definition) × (find element_name get_open_api_definitions ≡ some target))
references_resolve_example =
    references_resolve list_name element_name schema_accessible_workspace_list published refers

-- The metadata of an object with a name, and of a list.
abbrev metadata : Metadata
metadata = record {
  object_meta = λ name. object (field "name" (str name) no_fields);
  list_meta = object no_fields;
}

abbrev version : String
version = "marketplace.kcp.io/v1alpha1"

abbrev workspaces : TypeMeta
workspaces = record { kind = "AccessibleWorkspaceList"; api_version = version }

abbrev exports : TypeMeta
exports = record { kind = "BindableAPIExportList"; api_version = version }

metadata-IsValid : MetadataIsValid metadata
unfolding conforms resolve find ModelName-discrete String-discrete is_of has_all required_of
    field_of property_of
metadata-IsValid = record {
  of_object = λ name. record { valid = refl };
  of_list = record { valid = refl };
}

abbrev team : AccessibleWorkspace
team = record { name = "abcd1234"; spec = record { path = "root:team-a"; cluster = "" } }

abbrev tenancy : BindableApiExport
tenancy = record {
  name = "tenancy.kcp.io";
  spec = record {
    path = "root";
    cluster = "root";
    export_name = "tenancy.kcp.io";
    identity_hash = "";
    resources = record { group = "tenancy.kcp.io"; resource = "workspaces" } ∷ [];
    permission_claims =
        record { group = ""; resource = "secrets"; verbs = "get" ∷ []; identity_hash = "" } ∷ [];
  };
}

test_workspace_list-conforms :
    conforms get_open_api_definitions
      (encode_workspace_list metadata workspaces (appended (team ∷ [])))
      (refers_to (marketplace "AccessibleWorkspaceList"))
    ≡ true
test_workspace_list-conforms =
    workspace_list-conforms metadata metadata-IsValid workspaces (team ∷ [])

export_list-conforms_example :
    conforms get_open_api_definitions
      (encode_export_list metadata exports (appended (tenancy ∷ [])))
      (refers_to (marketplace "BindableAPIExportList"))
    ≡ true
export_list-conforms_example = export_list-conforms metadata metadata-IsValid exports (tenancy ∷ [])

-- The name is the only field.
abbrev name_of : Json → Option String
name_of (object (field _ (str name) _)) = some name
name_of _ = none

decode-encode_export_example :
    decode_export name_of (encode_export metadata untyped tenancy) ≡ some tenancy
decode-encode_export_example = decode-encode_export metadata name_of (λ name. refl) untyped tenancy
