-- ===== src/Tests/Startup.antt =====
-- The start of the server, with libraries that always succeed.
use kcp_marketplace.Base.{
  ℕ, String, ◌≡◌, ◌≢◌, ◌⊎◌, refl, true, some, List, [], ◌∷◌, String-discrete,
}
use kcp_marketplace.Base.GoMap.{GoMap, lookup}
use kcp_marketplace.Errors.{ok}
use kcp_marketplace.Sar.{User}
use kcp_marketplace.Datasource.{static_source}
use kcp_marketplace.Datasource.Manager.{
  ManagerLibrary, Manager, new_manager, IsAssembled, new_manager-IsAssembled,
}
use kcp_marketplace.Apiserver.Options.{new_options, validate, utilerrors}
use kcp_marketplace.Apiserver.Authorizer.{new_authorizer}
use kcp_marketplace.Apiserver.Authenticator.{add_group, anonymous_user, headers, IsUnidentified}
use kcp_marketplace.Apiserver.Authenticator.Gates.{decide_unidentified, decide_identified}
use kcp_marketplace.Apiserver.Flags.{
  FlagValue, text, add_flags, text_var, texts_var, set_options, set_options-add_flags,
}
use kcp_marketplace.Apiserver.Storage.{Storage}
use kcp_marketplace.Apiserver.Server.{
  Kinds, ServerConfig, GenericLibrary, new_server, api_group_info, server_config, IsBuilt,
  new_server-IsBuilt, server_config_gates,
}
use kcp_marketplace.Apiserver.Prefix.{trim_right_slashes}
use kcp_marketplace.Main.Lists.{open_to_all}
use kcp_marketplace.Main.Storages.{storages}
use kcp_marketplace.Main.Setup.{placeholder, build_datasource, connect, client_configs}
use kcp_marketplace.Main.Run.{
  Host, default_options, run_flags, read_flags, gate_of, parts_storages, add_manager, prepare,
  IsConnected, prepare_guarded,
}
use kcp_marketplace.Tests.Lists.{in_turn, digest}
use kcp_marketplace.Tests.Door.{requests, authorizers, ann, lists, ann_let_in, door, door_made}
use kcp_marketplace.Tests.Server.{outside, base, kubeconfig, gateway}

-- A server is the resources that it has.
abbrev kinds : Kinds
kinds = record {
  Serving = Unit {0};
  Loopback = Unit {0};
  Pool = String;
  ClientCa = String;
  Server = GoMap Storage;
  authenticators = λ _. requests;
}

abbrev generic : GenericLibrary kinds
generic = record {
  apply_to = ok (tt, tt);
  new_pool = λ file. ok file;
  new_client_ca = λ _ file. ok file;
  authorizers = authorizers;
  complete_new = λ _ _. ok [];
  install_api_group = λ info _. ok info.storages;
}

abbrev server_name : String
server_name = "marketplace-vws"

abbrev no_storages : GoMap Storage
no_storages = []

server_made : new_server kinds generic new_options server_name no_storages ≡ ok no_storages
unfolding new_server api_group_info new_authorizer
server_made = refl

test_new_server-IsBuilt : IsBuilt kinds generic new_options server_name no_storages no_storages
test_new_server-IsBuilt =
    new_server-IsBuilt kinds generic new_options server_name no_storages no_storages server_made

abbrev config : ServerConfig kinds
config = server_config kinds generic new_options (tt, tt) "ca.crt" "ca.crt" door

let_in_config : config.authenticate (some ann) ≡ ok (some (add_group ann))
let_in_config = ann_let_in

server_config_gates_example :
    ((u : User) × (headers requests new_options (some ann) ≡ ok (some u))
      × ((u.name ≡ anonymous_user.name) ⊎ (config.authorize lists ≡ decide_identified u lists)))
    ⊎ (IsUnidentified requests new_options (some ann)
        × (config.authorize lists ≡ decide_unidentified lists))
server_config_gates_example =
    server_config_gates kinds generic new_options (tt, tt) "ca.crt" "ca.crt" door (some ann)
      (add_group ann) lists door_made let_in_config refl

-- A manager is what was added to it.
abbrev managers : ManagerLibrary
managers = record {
  Mgr = List ℕ;
  new = λ _ _. ok [];
  add = λ caches added. ok (caches.address ∷ added);
  complete = λ reconciler added. ok (reconciler.caches.address ∷ added);
  start = λ _. ok tt;
}

abbrev manager : Manager managers
manager = record {
  mgr = 8 ∷ 8 ∷ [];
  caches = record { address = 8; agg = 7 };
  reader = record { agg = 7 };
}

manager_made : new_manager managers 7 base base gateway ≡ ok manager
unfolding new_manager
manager_made = refl

test_new_manager-IsAssembled : IsAssembled managers base base gateway manager
test_new_manager-IsAssembled =
    new_manager-IsAssembled managers 7 base base gateway manager manager_made

abbrev settings : GoMap FlagValue
settings =
    ("requestheader-client-ca-file", text "ca.crt")
    ∷ ("shard-kubeconfig", text kubeconfig)
    ∷ ("gateway-url", text gateway)
    ∷ []

-- A server is the names of its hooks and checks.
abbrev host : Host outside
host = record {
  Server = List String;
  Moment = Unit {0};
  parse = λ _ _. ok settings;
  complete = λ _. ok tt;
  serving_errors = λ _. [];
  new_server = λ _ _ _. ok [];
  add_post_start_hook = λ name _ server. ok (name ∷ server);
  add_readyz_check = λ name _ server. ok (name ∷ server);
  synced = λ _ _. true;
  digest = digest;
  client = λ _ _ _ _. ok true;
  schedule = λ checker items. in_turn (checker, (0, 1)) items;
  run_with_context = λ _. ok tt;
}

abbrev hooked : List String
hooked = "shards-synced" ∷ "shard-manager" ∷ []

abbrev arguments : List String
arguments = []

prepared : prepare outside host arguments ≡ ok hooked
unfolding prepare read_flags text_var texts_var set_options lookup parts_storages gate_of
    add_manager build_datasource connect client_configs trim_right_slashes validate utilerrors
    String-discrete new_options
prepared = refl

prepare_guarded_example :
    (set : GoMap FlagValue) × (host.parse run_flags arguments ≡ ok set)
    × ((read_flags set).options.client_ca_file ≢ "")
    × (host.serving_errors (read_flags set).options ≡ [])
    × ((((read_flags set).shard_kubeconfig ≡ "")
          × (host.new_server "marketplace-vws"
                (read_flags set).options
                (storages (static_source placeholder) open_to_all open_to_all)
              ≡ ok hooked))
        ⊎ (((read_flags set).shard_kubeconfig ≢ "")
            × IsConnected outside host (read_flags set) hooked))
prepare_guarded_example = prepare_guarded outside host arguments hooked prepared

set_options-add_flags_example :
    set_options (add_flags default_options) new_options
    ≡ record default_options { bind_port = new_options.bind_port }
set_options-add_flags_example = set_options-add_flags default_options new_options
