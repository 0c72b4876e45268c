-- ===== src/Main/Setup.antt =====
-- `buildDatasource` and the readiness check of cmd/marketplace-vws/main.go, with `NewManager` of
-- pkg/datasource/manager.go as the parts that it is made of.
use kcp_marketplace.Base.{
  ℕ, String, ◌<>◌, ◌≡◌, ◌≢◌, ◌⊎◌, inl, inr, sym, ap, Option, none, some, arith, [], ◌∷◌, ◌==◌,
  if◌then◌else◌, String-discrete,
}
use kcp_marketplace.Errors.{
  failing, kubeconfig_not_loaded, bad_front_proxy_url, review_client_not_built, Result, ok, err,
  ◌>>=◌, Result-cases, bind-ok,
}
use kcp_marketplace.Sar.{Checker, new}
use kcp_marketplace.Datasource.{Interface, Static, static_source}
use kcp_marketplace.Datasource.ShardConfig.{Config, copy_config}
use kcp_marketplace.Apiserver.Prefix.{trim_right_slashes}

-- What `buildDatasource` calls: the loading of the context `base` of a kubeconfig, the host name of
-- a URL, `datasource.NewManager` with its reader, and the client for the reviews.
pub record Outside : Type 1 where
  pub load : String → Result Config
  pub hostname : String → Result String
  pub Manager : Type 0
  pub new_manager : Config → Config → String → Result Manager
  pub reader_of : Manager → Interface
  pub Client : Type 0
  pub new_client : Config → Result Client

abbrev pub placeholder : Static
placeholder = record {
  ws =
      record { path = "root"; cluster = "root" }
      ∷ record { path = "root:team-a"; cluster = "abcd1234" }
      ∷ [];
  ax =
      record {
        path = "root";
        cluster = "root";
        name = "tenancy.kcp.io";
        identity_hash = "";
        resources = record { group = "tenancy.kcp.io"; resource = "workspaces" } ∷ [];
        permission_claims = [];
      }
      ∷ [];
}

-- 30 seconds, in nanoseconds.
abbrev pub review_ttl : ℕ
review_ttl = 30000000000

-- `rootCfg` and `sarCfg`, for the base configuration.
unfoldable pub client_configs :
    (String → Result String) → Config → String → Result (Config × Config)
client_configs hostname base gateway_url =
    let root = copy_config base in
    let sar = copy_config base in
    if gateway_url == ""
    then ok (record root { host = trim_right_slashes base.host <> "/clusters/root" }, sar)
    else elim (hostname base.host) [
      | err e ↦ err (bad_front_proxy_url base.host e)
      | ok name ↦
          let origin = trim_right_slashes gateway_url in
          ok (
            record root { host = origin <> "/clusters/root"; server_name = name },
            record sar { host = origin; server_name = name },
          )
    ]

-- The manager, the datasource, and the checker with its client.
pub record Parts (out : Outside) : Type 0 where
  pub mgr : Option out.Manager
  pub ds : Interface
  pub checker : Option (out.Client × Checker)

-- The part of `buildDatasource` after its first `if`.
unfoldable pub connect : (out : Outside) → String → String → Result (Parts out)
connect out kubeconfig gateway_url = failing kubeconfig_not_loaded (out.load kubeconfig) >>= λ base.
    client_configs out.hostname base gateway_url >>= λ (root, sar).
    out.new_manager root base gateway_url >>= λ mgr.
    failing review_client_not_built (out.new_client sar) >>= λ client.
    ok (record { mgr = some mgr; ds = out.reader_of mgr; checker = some (client, new review_ttl) })

abbrev static_parts : (out : Outside) → Parts out
static_parts out = record { mgr = none; ds = static_source placeholder; checker = none }

unfoldable pub build_datasource : (out : Outside) → String → String → Result (Parts out)
build_datasource out kubeconfig gateway_url =
    if kubeconfig == "" then ok (static_parts out) else connect out kubeconfig gateway_url

-- The configurations for the root workspace and for the reviews have the base credentials.
-- Without a gateway the first dials `/clusters/root` at the base host and the second is the
-- base; with one, both dial the gateway under the host name of the base, the first at
-- `/clusters/root`.
pub client_configs_dial :
    (hostname : String → Result String) (base : Config) (gateway_url : String) (root sar : Config)
    → client_configs hostname base gateway_url ≡ ok (root, sar)
    → (root.credentials ≡ base.credentials)
      × (sar.credentials ≡ base.credentials)
      × (((gateway_url ≡ "")
            × (sar ≡ base)
            × (root.server_name ≡ base.server_name)
            × (root.host ≡ trim_right_slashes base.host <> "/clusters/root"))
          ⊎ ((gateway_url ≢ "")
              × (sar.host ≡ trim_right_slashes gateway_url)
              × (root.host ≡ sar.host <> "/clusters/root")
              × (hostname base.host ≡ ok sar.server_name)
              × (root.server_name ≡ sar.server_name)))
unfolding client_configs
client_configs_dial hostname base gateway_url root sar made =
    elim (String-discrete gateway_url "") [
      | yes direct ↦
          (ground arith, ground arith, inl (direct, ground arith, ground arith, ground arith))
      | no via ↦ elim (Result-cases (hostname base.host)) [
        | inl (name, found) ↦ (
          ground arith,
          ground arith,
          inr (via, ground arith, ground arith, ground arith, ground arith),
        )
        | inr (e, bad) ↦ absurd (ground arith)
      ]
    ]

connect_parts :
    (out : Outside) (kubeconfig gateway_url : String) (parts : Parts out)
    → connect out kubeconfig gateway_url ≡ ok parts
    → (mgr : out.Manager) × (client : out.Client) × (parts ≡ record {
      mgr = some mgr;
      ds = out.reader_of mgr;
      checker = some (client, new review_ttl);
    })
unfolding connect
connect_parts out kubeconfig gateway_url parts made =
    let (base, _, after_load) =
      bind-ok (failing kubeconfig_not_loaded (out.load kubeconfig)) _ parts made in
    let ((root, sar), _, after_configs) =
      bind-ok (client_configs out.hostname base gateway_url) _ parts after_load in
    let (mgr, _, after_manager) =
      bind-ok (out.new_manager root base gateway_url) _ parts after_configs in
    let (client, _, built) =
      bind-ok (failing review_client_not_built (out.new_client sar)) _ parts after_manager in
    (mgr, client, cc)

-- A server with a kubeconfig that is built has a manager, whose reader it lists from, and a
-- checker with an empty cache and a TTL of 30 seconds; without a kubeconfig it has the
-- placeholder, no manager and no checker.
pub build_datasource_pairs :
    (out : Outside) (kubeconfig gateway_url : String) (parts : Parts out)
    → build_datasource out kubeconfig gateway_url ≡ ok parts
    → ((kubeconfig ≡ "")
        × (parts.mgr ≡ none)
        × (parts.checker ≡ none)
        × (parts.ds ≡ static_source placeholder))
      ⊎ ((kubeconfig ≢ "")
          × ((mgr : out.Manager) × (client : out.Client) × (parts.mgr ≡ some mgr)
              × (parts.ds ≡ out.reader_of mgr)
              × (parts.checker ≡ some (client, new review_ttl))))
unfolding build_datasource
build_datasource_pairs out kubeconfig gateway_url parts made =
    elim (String-discrete kubeconfig "") [
      | yes unset ↦
          let same : static_parts out ≡ parts = ground arith in
          inl (
            unset,
            ap (λ p. p.mgr) (sym same),
            ap (λ p. p.checker) (sym same),
            ap (λ p. p.ds) (sym same),
          )
      | no set ↦
          let connected : connect out kubeconfig gateway_url ≡ ok parts = ground arith in
          let (mgr, client, same) = connect_parts out kubeconfig gateway_url parts connected in
          inr (
            set,
            (mgr, client, ap (λ p. p.mgr) same, ap (λ p. p.ds) same, ap (λ p. p.checker) same),
          )
    ]
