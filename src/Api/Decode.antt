-- ===== src/Api/Decode.antt =====
-- How `encoding/json` reads the types of apis/marketplace/v1alpha1 back: the field of each tag, or
-- the zero value if it is missing.
use kcp_marketplace.Base.{String, Option, none, some, List, [], ◌∷◌, ◌==◌, if◌then◌else◌}
use kcp_marketplace.Api.{
  WorkspaceSpec, AccessibleWorkspace, BindableResource, BindablePermissionClaim,
  BindableApiExportSpec, BindableApiExport,
}
use kcp_marketplace.Api.Json.{
  Json, str, array, object, Elements, no_elements, item, Fields, no_fields, field,
}

unfoldable pub look : String → Fields → Option Json
look name no_fields = none
look name (field n j rest) = let later = look name rest in if name == n then some j else later

unfoldable pub decode_text : Option Json → Option String
decode_text none = some ""
decode_text (some (str s)) = some s
decode_text (some _) = none

infixl 5 ◌>>=◌
abbrev pub ◌>>=◌ {ℓ κ} : {A : Type ℓ} {B : Type κ} → Option A → (A → Option B) → Option B
none >>= f = none
some a >>= f = f a

unfoldable pub decode_elements {ℓ} : {A : Type ℓ} → (Json → Option A) → Elements → Option (List A)
decode_elements decode no_elements = some []
decode_elements decode (item j js) = do x ← decode j; xs ← decode_elements decode js; some (x ∷ xs)

unfoldable pub decode_array {ℓ} : {A : Type ℓ} → (Json → Option A) → Option Json → Option (List A)
decode_array decode none = some []
decode_array decode (some (array xs)) = decode_elements decode xs
decode_array decode (some _) = none

unfoldable pub fields_of : Json → Option Fields
fields_of (object fs) = some fs
fields_of _ = none

unfoldable pub decode_resource : Json → Option BindableResource
decode_resource j = do
  fs ← fields_of j
  group ← decode_text (look "group" fs)
  resource ← decode_text (look "resource" fs)
  some (record { group = group; resource = resource })

unfoldable pub decode_string : Json → Option String
decode_string j = decode_text (some j)

unfoldable pub decode_claim : Json → Option BindablePermissionClaim
decode_claim j = do
  fs ← fields_of j
  group ← decode_text (look "group" fs)
  resource ← decode_text (look "resource" fs)
  verbs ← decode_array decode_string (look "verbs" fs)
  identity_hash ← decode_text (look "identityHash" fs)
  some (record { group = group; resource = resource; verbs = verbs; identity_hash = identity_hash })

unfoldable pub decode_workspace_spec : Json → Option WorkspaceSpec
decode_workspace_spec j = do
  fs ← fields_of j
  path ← decode_text (look "path" fs)
  cluster ← decode_text (look "cluster" fs)
  some (record { path = path; cluster = cluster })

unfoldable pub decode_export_spec : Json → Option BindableApiExportSpec
decode_export_spec j = do
  fs ← fields_of j
  path ← decode_text (look "path" fs)
  cluster ← decode_text (look "cluster" fs)
  export_name ← decode_text (look "exportName" fs)
  identity_hash ← decode_text (look "identityHash" fs)
  resources ← decode_array decode_resource (look "resources" fs)
  permission_claims ← decode_array decode_claim (look "permissionClaims" fs)
  some (record {
    path = path;
    cluster = cluster;
    export_name = export_name;
    identity_hash = identity_hash;
    resources = resources;
    permission_claims = permission_claims;
  })

-- `name_of` reads the name out of the metadata of an object.
module _ (name_of : Json → Option String) where
  unfoldable pub decode_workspace : Json → Option AccessibleWorkspace
  decode_workspace j = do
    fs ← fields_of j
    meta ← look "metadata" fs
    name ← name_of meta
    inside ← look "spec" fs
    spec ← decode_workspace_spec inside
    some (record { name = name; spec = spec })

  unfoldable pub decode_export : Json → Option BindableApiExport
  decode_export j = do
    fs ← fields_of j
    meta ← look "metadata" fs
    name ← name_of meta
    inside ← look "spec" fs
    spec ← decode_export_spec inside
    some (record { name = name; spec = spec })
