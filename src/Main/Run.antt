-- ===== src/Main/Run.antt =====
-- `run` of cmd/marketplace-vws/main.go: the server from its flags up to the call that serves.
use kcp_marketplace.Base.{
  ℕ, String, ◌≡◌, ◌≢◌, ◌⊎◌, inl, inr, sym, ◌∙◌, ap, Bool, Option, none, some, List, [], ◌∷◌, ◌++◌,
  if◌then◌else◌,
}
use kcp_marketplace.Base.GoMap.{GoMap}
use kcp_marketplace.Errors.{Ctx, Error, shards_not_synced, Result, ok, err, ◌>>=◌, bind-ok}
use kcp_marketplace.Sar.{Checker, Digest, Spec, new}
use kcp_marketplace.Datasource.{Interface, static_source}
use kcp_marketplace.Apiserver.Options.{Options, new_options, validate, validate_iff}
use kcp_marketplace.Apiserver.Flags.{FlagValue, text, FlagSet, add_flags, text_var, set_options}
use kcp_marketplace.Apiserver.Storage.{Storage}
use kcp_marketplace.Main.Filter.{Schedule, sar_reviewer}
use kcp_marketplace.Main.Lists.{Gate, open_to_all, reviewed}
use kcp_marketplace.Main.Storages.{storages}
use kcp_marketplace.Main.Setup.{
  Outside, Parts, build_datasource, build_datasource_pairs, placeholder, review_ttl,
}

-- What the flags say.
pub record Flags : Type 0 where
  pub options : Options
  pub shard_kubeconfig : String
  pub gateway_url : String

-- The rest of what `run` calls: the parsing of the arguments, which gives the flags that are set with
-- their last values, the defaults of the certificates with what `SecureServing.Validate` then
-- reports, `apiserver.New`, and the hooks, checks and the serving of a server. The function of a
-- hook starts what it is given; a check is run at some moment.
pub record Host (out : Outside) : Type 1 where
  pub Server : Type 0
  pub Moment : Type 0
  pub parse : FlagSet → List String → Result (GoMap FlagValue)
  pub complete : Options → Result (Unit {0})
  pub serving_errors : Options → List Error
  pub new_server : String → Options → GoMap Storage → Result Server
  pub add_post_start_hook : String → out.Manager → Server → Result Server
  pub add_readyz_check : String → (Moment → Result (Unit {0})) → Server → Result Server
  pub synced : out.Manager → Moment → Bool
  pub digest : Digest
  pub client : out.Client → Ctx → String → Spec → Result Bool
  -- How the groups of the filters run, for a checker that starts as it is given.
  pub schedule : {A : Type 0} → Checker → (items : List A) → Schedule (Checker × (ℕ × ℕ)) items
  pub run_with_context : Server → Result (Unit {0})

abbrev pub default_options : Options
default_options = record new_options { path_prefix = "/services/marketplace" }

-- The flags of `run`, and the variables after the parsing.
unfoldable pub run_flags : FlagSet
run_flags =
    add_flags default_options ++ (("shard-kubeconfig", text "") ∷ ("gateway-url", text "") ∷ [])

unfoldable pub read_flags : GoMap FlagValue → Flags
read_flags settings = record {
  options = set_options settings default_options;
  shard_kubeconfig = text_var "shard-kubeconfig" "" settings;
  gateway_url = text_var "gateway-url" "" settings;
}

module _ (out : Outside) (h : Host out) where
  -- A checker that is not `nil` reviews.
  unfoldable pub gate_of : {T : Type 0} → Option (out.Client × Checker) → Gate T
  gate_of none = open_to_all
  gate_of (some (client, checker)) =
      reviewed (sar_reviewer h.digest (h.client client)) (h.schedule checker)

  unfoldable pub shards_synced : out.Manager → h.Moment → Result (Unit {0})
  shards_synced mgr t = if h.synced mgr t then ok tt else err shards_not_synced

  unfoldable pub parts_storages : Parts out → GoMap Storage
  parts_storages parts = storages parts.ds (gate_of parts.checker) (gate_of parts.checker)

  -- The `if mgr != nil`.
  unfoldable pub add_manager : Option out.Manager → h.Server → Result h.Server
  add_manager none server = ok server
  add_manager (some mgr) server = h.add_post_start_hook "shard-manager" mgr server >>= λ hooked.
      h.add_readyz_check "shards-synced" (shards_synced mgr) hooked

  -- `run`, up to the call that serves.
  unfoldable pub prepare : List String → Result h.Server
  prepare args = h.parse run_flags args >>= λ settings.
      let flags = read_flags settings in
      h.complete flags.options >>= λ _.
      validate (h.serving_errors flags.options) flags.options >>= λ _.
      build_datasource out flags.shard_kubeconfig flags.gateway_url >>= λ parts.
      h.new_server "marketplace-vws" flags.options (parts_storages parts) >>= λ server.
      add_manager parts.mgr server

  unfoldable pub run : List String → Result (Unit {0})
  run args = prepare args >>= h.run_with_context

  -- A server with a kubeconfig: its storages list from the manager's reader and review each object,
  -- a hook starts that manager, and the check of its caches gates readiness.
  pub record IsConnected (flags : Flags) (server : h.Server) : Type 0 where
    pub mgr : out.Manager
    pub client : out.Client
    pub bare : h.Server
    pub hooked : h.Server
    pub built :
        h.new_server "marketplace-vws" flags.options (
          storages
            (out.reader_of mgr)
            (reviewed (sar_reviewer h.digest (h.client client)) (h.schedule (new review_ttl)))
            (reviewed (sar_reviewer h.digest (h.client client)) (h.schedule (new review_ttl))))
        ≡ ok bare
    pub starts : h.add_post_start_hook "shard-manager" mgr bare ≡ ok hooked
    pub waits : h.add_readyz_check "shards-synced" (shards_synced mgr) hooked ≡ ok server

  new_server_storages :
      (flags : Flags) (parts : Parts out) (ds : Interface) (checker : Option (out.Client × Checker))
      → parts.ds ≡ ds
      → parts.checker ≡ checker
      → h.new_server "marketplace-vws" flags.options
          (storages ds (gate_of checker) (gate_of checker))
        ≡ h.new_server "marketplace-vws" flags.options (parts_storages parts)
  unfolding parts_storages
  new_server_storages flags parts ds checker same_ds same_checker = cc

  connected :
      (flags : Flags) (parts : Parts out) (mgr : out.Manager) (client : out.Client)
      (bare server : h.Server)
      → parts.mgr ≡ some mgr
      → parts.ds ≡ out.reader_of mgr
      → parts.checker ≡ some (client, new review_ttl)
      → h.new_server "marketplace-vws" flags.options (parts_storages parts) ≡ ok bare
      → add_manager parts.mgr bare ≡ ok server
      → IsConnected flags server
  unfolding add_manager parts_storages gate_of
  connected flags parts mgr client bare server has_mgr has_ds has_checker built done =
      let added : add_manager (some mgr) bare ≡ ok server =
        ap (λ k. add_manager k bare) (sym has_mgr) ∙ done in
      let (hooked, hook, check) =
        bind-ok (h.add_post_start_hook "shard-manager" mgr bare) _ server added in
      record {
        mgr = mgr;
        client = client;
        bare = bare;
        hooked = hooked;
        built =
            new_server_storages flags parts (out.reader_of mgr) (some (client, new review_ttl))
              has_ds has_checker
            ∙ built;
        starts = hook;
        waits = check;
      }

  -- A server that `run` is about to serve has a client CA and serving options without an error.
  -- Without a kubeconfig it serves the placeholder; with one, its storages list from the reader
  -- of a manager and review every object with a new checker of a TTL of 30 seconds, a hook
  -- starts that manager, and the check that its caches have synced gates readiness.
  pub prepare_guarded :
      (args : List String) (server : h.Server)
      → prepare args ≡ ok server
      → (settings : GoMap FlagValue) × (h.parse run_flags args ≡ ok settings)
        × ((read_flags settings).options.client_ca_file ≢ "")
        × (h.serving_errors (read_flags settings).options ≡ [])
        × ((((read_flags settings).shard_kubeconfig ≡ "")
              × (h.new_server "marketplace-vws"
                    (read_flags settings).options
                    (storages (static_source placeholder) open_to_all open_to_all)
                  ≡ ok server))
            ⊎ (((read_flags settings).shard_kubeconfig ≢ "")
                × IsConnected (read_flags settings) server))
  unfolding prepare add_manager parts_storages gate_of
  prepare_guarded args server made =
      let (settings, parsed, after_parse) = bind-ok (h.parse run_flags args) _ server made in
      let flags = read_flags settings in
      let (_, completed, after_complete) =
        bind-ok (h.complete flags.options) _ server after_parse in
      let (_, valid, after_validate) =
        bind-ok (validate (h.serving_errors flags.options) flags.options) _ server after_complete in
      let usable = (validate_iff (h.serving_errors flags.options) flags.options).0 valid in
      let (parts, wired, after_build) =
        bind-ok (build_datasource out flags.shard_kubeconfig flags.gateway_url) _ server
          after_validate in
      let (bare, built, done) =
        bind-ok (h.new_server "marketplace-vws" flags.options (parts_storages parts)) _ server
          after_build in
      (
        settings,
        parsed,
        usable.0,
        usable.1,
        elim (build_datasource_pairs out flags.shard_kubeconfig flags.gateway_url parts wired) [
          | inl (unset, no_mgr, no_checker, is_static) ↦ inl (
            unset,
            new_server_storages flags parts (static_source placeholder) none is_static no_checker
                ∙ (built ∙ (sym (ap (λ k. add_manager k bare) no_mgr) ∙ done)),
          )
          | inr (set, (mgr, client, has_mgr, has_ds, has_checker)) ↦ inr (
            set,
            connected flags parts mgr client bare server has_mgr has_ds has_checker built done,
          )
        ],
      )
