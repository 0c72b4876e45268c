-- ===== src/Main/Storages.antt =====
-- `storages` of cmd/marketplace-vws/main.go: the two resources that the server has.
use kcp_marketplace.Base.{
  String-discrete, if◌then◌else◌, arith, ℕ, suc, String, ◌≡◌, ◌⊎◌, inl, inr, refl, ◌∙◌, ap, true,
  none, some, List, [], ◌∷◌, map,
}
use kcp_marketplace.Base.GoMap.{GoMap, lookup}
use kcp_marketplace.Errors.{ok, ◌>>=◌}
use kcp_marketplace.Datasource.{Workspace, ApiExport, Interface}
use kcp_marketplace.Api.{
  AccessibleWorkspace, BindableApiExport, Object, workspace, workspace_list, bindable,
  bindable_list, other,
}
use kcp_marketplace.Apiserver.Storage.{
  Column, StorageConfig, Storage, new_storage, Meta, TableRow, Table, convert_to_table,
  convert_to_table_cases, table_row, shown,
}
use kcp_marketplace.Main.Lists.{Gate, list_accessible_workspaces, list_bindable_api_exports}

abbrev pub blank_workspace : AccessibleWorkspace
blank_workspace = record { name = ""; spec = record { path = ""; cluster = "" } }

abbrev pub blank_export : BindableApiExport
blank_export = record {
  name = "";
  spec = record {
    path = "";
    cluster = "";
    export_name = "";
    identity_hash = "";
    resources = [];
    permission_claims = [];
  };
}

abbrev pub workspace_columns : List Column
workspace_columns =
    record { name = "Name"; type = "string"; format = "name" }
    ∷ record { name = "Path"; type = "string"; format = "" }
    ∷ record { name = "Cluster"; type = "string"; format = "" }
    ∷ []

unfoldable pub workspace_row : Object → List String
workspace_row (workspace aw) = aw.name ∷ aw.spec.path ∷ aw.spec.cluster ∷ []
workspace_row _ = "" ∷ "" ∷ "" ∷ []

abbrev pub export_columns : List Column
export_columns =
    record { name = "Name"; type = "string"; format = "name" }
    ∷ record { name = "Path"; type = "string"; format = "" }
    ∷ record { name = "Export"; type = "string"; format = "" }
    ∷ record { name = "Cluster"; type = "string"; format = "" }
    ∷ []

unfoldable pub export_row : Object → List String
export_row (bindable be) = be.name ∷ be.spec.path ∷ be.spec.export_name ∷ be.spec.cluster ∷ []
export_row _ = "" ∷ "" ∷ "" ∷ "" ∷ []

module _ (ds : Interface) (ws_gate : Gate Workspace) (ax_gate : Gate ApiExport) where
  unfoldable pub workspaces_config : StorageConfig
  workspaces_config = record {
    singular = "accessibleworkspace";
    kind = "AccessibleWorkspace";
    new = workspace blank_workspace;
    new_list = workspace_list [];
    list =
        λ ctx u. list_accessible_workspaces ds ws_gate ctx u >>= λ items. ok (workspace_list items);
    columns = workspace_columns;
    row = workspace_row;
  }

  unfoldable pub exports_config : StorageConfig
  exports_config = record {
    singular = "bindableapiexport";
    kind = "BindableAPIExport";
    new = bindable blank_export;
    new_list = bindable_list [];
    list =
        λ ctx u. list_bindable_api_exports ds ax_gate ctx u >>= λ items. ok (bindable_list items);
    columns = export_columns;
    row = export_row;
  }

  unfoldable pub storages : GoMap Storage
  storages =
      ("accessibleworkspaces", new_storage workspaces_config)
      ∷ ("bindableapiexports", new_storage exports_config)
      ∷ []

pub length {ℓ} : {A : Type ℓ} → List A → ℕ
length [] = 0
length (_ ∷ xs) = suc (length xs)

workspace_row-length : (object : Object) → length (workspace_row object) ≡ 3
unfolding workspace_row length
workspace_row-length (workspace _) = refl
workspace_row-length (workspace_list _) = refl
workspace_row-length (bindable _) = refl
workspace_row-length (bindable_list _) = refl
workspace_row-length other = refl

export_row-length : (object : Object) → length (export_row object) ≡ 4
unfolding export_row length
export_row-length (workspace _) = refl
export_row-length (workspace_list _) = refl
export_row-length (bindable _) = refl
export_row-length (bindable_list _) = refl
export_row-length other = refl

-- The storage found under a name is one of the two.
storages_cases :
    (ds : Interface) (ws_gate : Gate Workspace) (ax_gate : Gate ApiExport) (name : String)
    (s : Storage)
    → lookup name (storages ds ws_gate ax_gate) ≡ some s
    → (s.cfg ≡ workspaces_config ds ws_gate ax_gate) ⊎ (s.cfg ≡ exports_config ds ws_gate ax_gate)
unfolding storages lookup new_storage
storages_cases ds ws_gate ax_gate name s found =
    elim (String-discrete name "accessibleworkspaces") [
      | yes ws ↦ inl (ground arith)
      | no not_ws ↦ elim (String-discrete name "bindableapiexports") [
        | yes ax ↦ inr (ground arith)
        | no not_ax ↦ absurd (ground arith)
      ]
    ]

-- Whatever the object, a row of a storage found under a resource name has as many cells as the
-- storage has columns.
pub storages_cells :
    (ds : Interface) (ws_gate : Gate Workspace) (ax_gate : Gate ApiExport) (name : String)
    (s : Storage) (object : Object)
    → lookup name (storages ds ws_gate ax_gate) ≡ some s
    → length (s.cfg.row object) ≡ length s.cfg.columns
unfolding workspaces_config exports_config length
storages_cells ds ws_gate ax_gate name s object found =
    elim (storages_cases ds ws_gate ax_gate name s found) [
      | inl e ↦ rw e (workspace_row-length object)
      | inr e ↦ rw e (export_row-length object)
    ]

-- What `meta` knows of the two list types.
pub record IsMeta (m : Meta) : Type 0 where
  pub workspaces_listed :
      (ws : List AccessibleWorkspace) → m.is_list_type (workspace_list ws) ≡ true
  pub workspaces_each :
      (ws : List AccessibleWorkspace)
      → m.each_list_item (workspace_list ws) ≡ (map workspace ws, none)

abbrev shown_row : AccessibleWorkspace → TableRow
shown_row w = record { cells = w.name ∷ w.spec.path ∷ w.spec.cluster ∷ []; object = workspace w }

map-workspace :
    (ds : Interface) (ws_gate : Gate Workspace) (ax_gate : Gate ApiExport)
    (ws : List AccessibleWorkspace)
    → map (table_row (workspaces_config ds ws_gate ax_gate)) (map workspace ws) ≡ map shown_row ws
unfolding workspaces_config table_row workspace_row
map-workspace ds ws_gate ax_gate [] = refl
map-workspace ds ws_gate ax_gate (w ∷ ws) =
    ap (λ rest. shown_row w ∷ rest) (map-workspace ds ws_gate ax_gate ws)

-- If the metadata package lists the items of a list of workspaces, its table shows the name, the
-- path and the cluster of each, in order.
pub workspaces_config_table :
    (ds : Interface) (ws_gate : Gate Workspace) (ax_gate : Gate ApiExport) (m : Meta)
    (ws : List AccessibleWorkspace)
    → IsMeta m
    → (t : Table) × (convert_to_table m
          (new_storage (workspaces_config ds ws_gate ax_gate))
          (workspace_list ws)
        ≡ ok t)
      × (t.rows ≡ map shown_row ws)
unfolding shown new_storage
workspaces_config_table ds ws_gate ax_gate m ws known =
    elim (convert_to_table_cases m (new_storage (workspaces_config ds ws_gate ax_gate))
      (workspace_list ws)) [
        | inr (e, _, _, failed) ↦ let fine = ap (λ p. p.1) (known.workspaces_each ws) in absurd (cc)
        | inl (t, made, _, rows) ↦ (
          t,
          made,
          rows
              ∙ ap (map (table_row (workspaces_config ds ws_gate ax_gate))) (
                  ap
                    (λ b.
                      if b
                      then (m.each_list_item (workspace_list ws)).0
                      else workspace_list ws ∷ [])
                    (known.workspaces_listed ws)
                  ∙ ap (λ p. p.0) (known.workspaces_each ws))
              ∙ map-workspace ds ws_gate ax_gate ws,
        )
      ]
