-- ===== src/Tests/Server.antt =====
-- The server of pkg/apiserver and the setup of cmd/marketplace-vws/main.go at concrete inputs.
use text.Mathlib.TextBridge.{IsPrefix}
use kcp_marketplace.Base.{
  String, ◌<>◌, ◌≡◌, ◌≢◌, ◌⊎◌, refl, true, false, none, some, [], ◌∷◌, map, String-discrete,
}
use kcp_marketplace.Errors.{Error, external, Result, ok, err}
use kcp_marketplace.Sar.{new}
use kcp_marketplace.Datasource.{Interface, static_source}
use kcp_marketplace.Datasource.ShardConfig.{Config}
use kcp_marketplace.Api.{AccessibleWorkspace, workspace, workspace_list}
use kcp_marketplace.Apiserver.Prefix.{
  Url, Stripped, trim_prefix, trim_right_slashes, strip_prefix, handle, served_url,
  served_url_cases,
}
use kcp_marketplace.Apiserver.Storage.{
  Storage, new_storage, Meta, Table, table_row, convert_to_table, convert_to_table_cases, shown,
}
use kcp_marketplace.Main.Lists.{open_to_all}
use kcp_marketplace.Main.Storages.{workspaces_config, IsMeta, workspaces_config_table}
use kcp_marketplace.Main.Setup.{
  Outside, Parts, connect, placeholder, review_ttl, client_configs, build_datasource,
  client_configs_dial, build_datasource_pairs,
}

abbrev option : String
option = "/services/marketplace/"

abbrev request : Url
request = record { path = "/services/marketplace/apis"; raw_path = "" }

served_url_cases_example :
    ((rest : String) × (trim_right_slashes option ≢ "")
      × (request.path ≡ trim_right_slashes option <> rest)
      × ((rest ≡ "") ⊎ ((below : String) × (rest ≡ "/" <> below)))
      × Stripped (trim_right_slashes option) rest request.raw_path (served_url option request))
    ⊎ (((trim_right_slashes option ≡ "")
          ⊎ ((request.path ≢ trim_right_slashes option)
              × ¬ IsPrefix (trim_right_slashes option <> "/") request.path))
        × (served_url option request ≡ some request))
served_url_cases_example = served_url_cases option request

-- A prefix that is written with an escaped slash decodes to the prefix, but is not stripped.
test_served_url :
    (served_url option request ≡ some (record { path = "/apis"; raw_path = "" }))
    × (served_url option (record request { raw_path = "/services/marketplace/%61pis" })
        ≡ some (record { path = "/apis"; raw_path = "/%61pis" }))
    × (served_url option (record request { raw_path = "/services%2Fmarketplace/apis" }) ≡ none)
    × (served_url option (record { path = "/healthz"; raw_path = "" })
        ≡ some (record { path = "/healthz"; raw_path = "" }))
unfolding served_url handle strip_prefix trim_prefix trim_right_slashes String-discrete
test_served_url = (refl, refl, refl, refl)

abbrev pub source : Interface
source = static_source placeholder

abbrev list_meta : Meta
list_meta = record {
  is_list_type = λ o. elim o [ workspace_list _ ↦ true | _ ↦ false ];
  list_accessor = λ _. some ("", "");
  each_list_item = λ o. elim o [
    | workspace_list ws ↦ (map workspace ws, none)
    | _ ↦ ([], some (external "no list"))
  ];
  accessor = λ _. some "";
}

list_meta-IsMeta : IsMeta list_meta
list_meta-IsMeta = record { workspaces_listed = λ _. refl; workspaces_each = λ _. refl }

abbrev storage : Storage
storage = new_storage (workspaces_config source open_to_all open_to_all)

abbrev team : AccessibleWorkspace
team = record { name = "abcd1234"; spec = record { path = "root:team-a"; cluster = "abcd1234" } }

test_convert_to_table_cases :
    ((t : Table) × (convert_to_table list_meta storage (workspace team) ≡ ok t)
      × (t.columns ≡ storage.cfg.columns)
      × (t.rows ≡ map (table_row storage.cfg) (shown list_meta (workspace team))))
    ⊎ ((e : Error) × (convert_to_table list_meta storage (workspace team) ≡ err e)
        × (list_meta.is_list_type (workspace team) ≡ true)
        × ((list_meta.each_list_item (workspace team)).1 ≡ some e))
test_convert_to_table_cases = convert_to_table_cases list_meta storage (workspace team)

test_workspaces_config_table :
    (t : Table) × (convert_to_table list_meta storage (workspace_list (team ∷ [])) ≡ ok t)
    × (t.rows
        ≡ record { cells = "abcd1234" ∷ "root:team-a" ∷ "abcd1234" ∷ []; object = workspace team }
          ∷ [])
test_workspaces_config_table =
    workspaces_config_table source open_to_all open_to_all list_meta (team ∷ []) list_meta-IsMeta

abbrev pub base : Config
base = record { host = "https://front/"; server_name = ""; credentials = "key" }

abbrev pub front : Result String
front = ok "front"

abbrev pub gateway : String
gateway = "https://gateway/"

abbrev root_config : Config
root_config = record {
  host = "https://gateway/clusters/root";
  server_name = "front";
  credentials = "key";
}

abbrev sar_config : Config
sar_config = record { host = "https://gateway"; server_name = "front"; credentials = "key" }

configured : client_configs (λ _. front) base gateway ≡ ok (root_config, sar_config)
unfolding client_configs trim_right_slashes String-discrete
configured = refl

test_client_configs_dial :
    (root_config.credentials ≡ base.credentials)
    × (sar_config.credentials ≡ base.credentials)
    × (((gateway ≡ "")
          × (sar_config ≡ base)
          × (root_config.server_name ≡ base.server_name)
          × (root_config.host ≡ trim_right_slashes base.host <> "/clusters/root"))
        ⊎ ((gateway ≢ "")
            × (sar_config.host ≡ trim_right_slashes gateway)
            × (root_config.host ≡ sar_config.host <> "/clusters/root")
            × (front ≡ ok sar_config.server_name)
            × (root_config.server_name ≡ sar_config.server_name)))
test_client_configs_dial =
    client_configs_dial (λ _. front) base gateway root_config sar_config configured

abbrev pub outside : Outside
outside = record {
  load = λ _. ok base;
  hostname = λ _. front;
  Manager = Unit {0};
  new_manager = λ _ _ _. ok tt;
  reader_of = λ _. source;
  Client = Unit {0};
  new_client = λ _. ok tt;
}

abbrev pub kubeconfig : String
kubeconfig = "/etc/kubeconfig"

abbrev pub parts : Parts outside
parts = record { mgr = some tt; ds = source; checker = some (tt, new review_ttl) }

pub connected : build_datasource outside kubeconfig gateway ≡ ok parts
unfolding build_datasource connect client_configs trim_right_slashes String-discrete
connected = refl

test_build_datasource_pairs :
    ((kubeconfig ≡ "")
      × (parts.mgr ≡ none)
      × (parts.checker ≡ none)
      × (parts.ds ≡ static_source placeholder))
    ⊎ ((kubeconfig ≢ "")
        × ((mgr : Unit {0}) × (client : Unit {0}) × (parts.mgr ≡ some mgr)
            × (parts.ds ≡ source)
            × (parts.checker ≡ some (client, new review_ttl))))
test_build_datasource_pairs = build_datasource_pairs outside kubeconfig gateway parts connected
