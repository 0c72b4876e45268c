-- ===== src/Apiserver/Scheme.antt =====
-- pkg/apiserver/scheme.go and apis/marketplace/v1alpha1/register.go: the types that the scheme knows.
-- A panic of `init` is an error here; the codecs and the group's default version are left out.
use kcp_marketplace.Base.{String, ◌≡◌, List, [], ◌∷◌, Mem}
use kcp_marketplace.Errors.{Result, ok, ◌>>=◌}
use kcp_marketplace.Api.{Object, workspace, workspace_list, bindable, bindable_list, other}
use kcp_marketplace.Apiserver.Server.{group_name}

pub record GroupVersion : Type 0 where
  pub group : String
  pub version : String

-- The name of the Go type, under which `AddKnownTypes` registers an object.
unfoldable pub type_name : Object → String
type_name (workspace _) = "AccessibleWorkspace"
type_name (workspace_list _) = "AccessibleWorkspaceList"
type_name (bindable _) = "BindableAPIExport"
type_name (bindable_list _) = "BindableAPIExportList"
type_name other = ""

-- `runtime.Scheme`, with what registration promises: it adds the types by their names and forgets
-- none.
pub record SchemeLibrary : Type 1 where
  pub Scheme : Type 0
  pub new : Scheme
  pub add_known_types : GroupVersion → List String → Scheme → Scheme
  pub add_unversioned_types : GroupVersion → List String → Scheme → Scheme
  pub add_to_group_version : GroupVersion → Scheme → Scheme
  pub add_internal_meta : Scheme → Result Scheme
  pub Knows : Scheme → GroupVersion → String → Type 0
  pub known-added :
      (gv : GroupVersion) (names : List String) (s : Scheme) (name : String)
      → Mem name names
      → Knows (add_known_types gv names s) gv name
  pub unversioned-keeps :
      (v gv : GroupVersion) (names : List String) (s : Scheme) (name : String)
      → Knows s gv name
      → Knows (add_unversioned_types v names s) gv name
  pub group_version-keeps :
      (v gv : GroupVersion) (s : Scheme) (name : String)
      → Knows s gv name
      → Knows (add_to_group_version v s) gv name
  pub internal-keeps :
      (gv : GroupVersion) (s t : Scheme) (name : String)
      → add_internal_meta s ≡ ok t
      → Knows s gv name
      → Knows t gv name

abbrev pub scheme_group_version : GroupVersion
scheme_group_version = record { group = group_name; version = "v1alpha1" }

-- `&AccessibleWorkspace{}` and the others, by their types.
abbrev pub known_types : List String
known_types =
    "AccessibleWorkspace" ∷ "AccessibleWorkspaceList" ∷ "BindableAPIExport"
    ∷ "BindableAPIExportList" ∷ []

module _ (lib : SchemeLibrary) where
  unfoldable pub add_known_types : lib.Scheme → Result lib.Scheme
  add_known_types s = ok (
      lib.add_to_group_version scheme_group_version
        (lib.add_known_types scheme_group_version known_types s))

  -- `init` of pkg/apiserver/scheme.go.
  unfoldable pub init : Result lib.Scheme
  init = add_known_types lib.new >>= λ s. lib.add_internal_meta (
      lib.add_unversioned_types (record { group = ""; version = "v1" })
        ("Status" ∷ "APIVersions" ∷ "APIGroupList" ∷ "APIGroup" ∷ [])
        (lib.add_to_group_version (record { group = ""; version = "v1" }) s))

  pub init_knows :
      (scheme : lib.Scheme) (name : String)
      → init ≡ ok scheme
      → Mem name known_types
      → lib.Knows scheme scheme_group_version name
  unfolding init add_known_types
  init_knows scheme name made m = lib.internal-keeps scheme_group_version _ scheme name made (
      lib.unversioned-keeps _ scheme_group_version _ _ name (
        lib.group_version-keeps _ scheme_group_version _ name (
          lib.group_version-keeps _ scheme_group_version _ name
            (lib.known-added scheme_group_version _ _ name m))))
