-- ===== src/Main/Registered.antt =====
-- The objects of the storages of cmd/marketplace-vws/main.go in the scheme of pkg/apiserver/scheme.go.
use mathlib.Core.List.{mem-cons_self, mem-cons_of_mem}
use kcp_marketplace.Base.{String, ◌≡◌, refl, subst, some, arith, String-discrete}
use kcp_marketplace.Base.GoMap.{lookup}
use kcp_marketplace.Errors.{ok}
use kcp_marketplace.Datasource.{Workspace, ApiExport, Interface}
use kcp_marketplace.Apiserver.Storage.{Storage, new_storage}
use kcp_marketplace.Apiserver.Scheme.{
  SchemeLibrary, scheme_group_version, type_name, init, init_knows,
}
use kcp_marketplace.OpenApi.{Definition, marketplace, ModelName-discrete}
use kcp_marketplace.OpenApi.Definitions.{get_open_api_definitions}
use kcp_marketplace.OpenApi.Closed.{find}
use kcp_marketplace.Main.Lists.{Gate}
use kcp_marketplace.Main.Storages.{storages, workspaces_config, exports_config}

-- The kind that a storage names is the type of its objects; the scheme knows that type and the type
-- of its lists, and the OpenAPI document has a schema for each.
pub record IsRegistered (lib : SchemeLibrary) (scheme : lib.Scheme) (s : Storage) : Type 0 where
  pub named : type_name s.cfg.new ≡ s.cfg.kind
  pub known : lib.Knows scheme scheme_group_version s.cfg.kind
  pub list_known : lib.Knows scheme scheme_group_version (type_name s.cfg.new_list)
  pub published :
      (d : Definition) × (find (marketplace s.cfg.kind) get_open_api_definitions ≡ some d)
  pub list_published :
      (d : Definition) × (find (marketplace (type_name s.cfg.new_list)) get_open_api_definitions
        ≡ some d)

module _ (lib : SchemeLibrary) (scheme : lib.Scheme) (ds : Interface) (ws_gate : Gate Workspace)
    (ax_gate : Gate ApiExport) where
  workspaces-IsRegistered :
      init lib ≡ ok scheme
      → IsRegistered lib scheme (new_storage (workspaces_config ds ws_gate ax_gate))
  unfolding new_storage workspaces_config type_name find ModelName-discrete String-discrete
  workspaces-IsRegistered made = record {
    named = refl;
    known = init_knows lib scheme _ made mem-cons_self;
    list_known = init_knows lib scheme _ made (mem-cons_of_mem _ mem-cons_self);
    published = (_, refl);
    list_published = (_, refl);
  }

  exports-IsRegistered :
      init lib ≡ ok scheme
      → IsRegistered lib scheme (new_storage (exports_config ds ws_gate ax_gate))
  unfolding new_storage exports_config type_name find ModelName-discrete String-discrete
  exports-IsRegistered made = record {
    named = refl;
    known = init_knows lib scheme _ made (mem-cons_of_mem _ (mem-cons_of_mem _ mem-cons_self));
    list_known =
        init_knows lib scheme _ made
          (mem-cons_of_mem _ (mem-cons_of_mem _ (mem-cons_of_mem _ mem-cons_self)));
    published = (_, refl);
    list_published = (_, refl);
  }

  -- If the scheme's `init` succeeds, then for each storage that the server has, the kind that it
  -- names is the type of its objects, the scheme knows that type and the type of its lists, and
  -- the OpenAPI definitions have a schema for each.
  pub storages-IsRegistered :
      (name : String) (s : Storage)
      → init lib ≡ ok scheme
      → lookup name (storages ds ws_gate ax_gate) ≡ some s
      → IsRegistered lib scheme s
  unfolding storages lookup
  storages-IsRegistered name s made found = elim (String-discrete name "accessibleworkspaces") [
    | yes first ↦
        let same : new_storage (workspaces_config ds ws_gate ax_gate) ≡ s = ground arith in
        subst (λ k. IsRegistered lib scheme k) same (workspaces-IsRegistered made)
    | no other ↦ elim (String-discrete name "bindableapiexports") [
      | yes second ↦
          let same : new_storage (exports_config ds ws_gate ax_gate) ≡ s = ground arith in
          subst (λ k. IsRegistered lib scheme k) same (exports-IsRegistered made)
      | no neither ↦ absurd (ground arith)
    ]
  ]
