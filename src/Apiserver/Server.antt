-- ===== src/Apiserver/Server.antt =====
-- `New` of pkg/apiserver/apiserver.go: what the generic server is built of. Left out are the
-- codecs and the scheme that names the definitions, the versions, the titles of the documents and
-- the address.
use kcp_marketplace.Base.{String, ◌≡◌, ◌⊎◌, refl, Option, some}
use kcp_marketplace.Base.GoMap.{GoMap}
use kcp_marketplace.Errors.{client_ca_not_loaded, Result, ok, failing, failing-ok, ◌>>=◌, bind-ok}
use kcp_marketplace.Sar.{User}
use kcp_marketplace.Apiserver.Options.{Options}
use kcp_marketplace.Apiserver.Authorizer.{Attributes, Authorizer, AuthorizerLibrary, new_authorizer}
use kcp_marketplace.Apiserver.Authenticator.{
  AuthenticatorLibrary, authenticator, headers, anonymous_user, IsUnidentified,
}
use kcp_marketplace.Apiserver.Authenticator.Gates.{
  decide_unidentified, decide_identified, authenticator_gates,
}
use kcp_marketplace.Apiserver.Prefix.{Url, served_url}
use kcp_marketplace.Apiserver.Storage.{Storage}
use kcp_marketplace.OpenApi.Closed.{Definitions}
use kcp_marketplace.OpenApi.Definitions.{get_open_api_definitions}

-- `genericapiserver.APIGroupInfo`
pub record ApiGroupInfo : Type 0 where
  pub group : String
  pub version : String
  pub storages : GoMap Storage

-- What the parts of k8s.io/apiserver that the generic server is made with are.
pub record Kinds : Type 1 where
  pub Serving : Type 0
  pub Loopback : Type 0
  pub Pool : Type 0
  pub ClientCa : Type 0
  pub Server : Type 0
  pub authenticators : Pool → AuthenticatorLibrary  -- with the roots that certificates are verified by

-- `genericapiserver.Config`, as far as `New` sets it. The chain of handlers serves a request under
-- a URL, or not at all.
pub record ServerConfig (K : Kinds) : Type 1 where
  pub definitions : Definitions
  pub serving : K.Serving
  pub loopback : K.Loopback
  pub client_ca : K.ClientCa
  pub pool : K.Pool
  pub authenticate : (K.authenticators pool).Request → Result (Option User)
  pub authorize : Authorizer
  pub url_served : Url → Option Url

-- What `New` calls: `SecureServing.ApplyTo`, the readers of the CA's file, the generic server's own
-- construction, and `InstallAPIGroup`.
pub record GenericLibrary (K : Kinds) : Type 1 where
  pub apply_to : Result (K.Serving × K.Loopback)
  pub new_pool : String → Result K.Pool
  pub new_client_ca : String → String → Result K.ClientCa
  pub authorizers : AuthorizerLibrary
  pub complete_new : String → ServerConfig K → Result K.Server
  pub install_api_group : ApiGroupInfo → K.Server → Result K.Server

abbrev pub group_name : String
group_name = "marketplace.kcp.io"

unfoldable pub api_group_info : GoMap Storage → ApiGroupInfo
api_group_info storages = record { group = group_name; version = "v1alpha1"; storages = storages }

module _ (K : Kinds) (lib : GenericLibrary K) (o : Options) where
  abbrev pub server_config :
      K.Serving × K.Loopback → K.Pool → K.ClientCa → Authorizer → ServerConfig K
  server_config (serving, loopback) pool client_ca authz = record {
    definitions = get_open_api_definitions;
    serving = serving;
    loopback = loopback;
    client_ca = client_ca;
    pool = pool;
    authenticate = authenticator (K.authenticators pool) o;
    authorize = authz;
    url_served = served_url o.path_prefix;
  }

  unfoldable pub new_server : String → GoMap Storage → Result K.Server
  new_server name storages = lib.apply_to >>= λ secure.
      failing (client_ca_not_loaded o.client_ca_file) (lib.new_pool o.client_ca_file) >>= λ pool.
      lib.new_client_ca "requestheader-client-ca" o.client_ca_file >>= λ client_ca.
      new_authorizer lib.authorizers >>= λ authz.
      lib.complete_new name (server_config secure pool client_ca authz) >>= λ server.
      lib.install_api_group (api_group_info storages) server

  -- What a server that is built was built of.
  pub record IsBuilt (name : String) (storages : GoMap Storage) (server : K.Server) : Type 1 where
    pub config : ServerConfig K
    pub pool : lib.new_pool o.client_ca_file ≡ ok config.pool
    pub client_ca :
        lib.new_client_ca "requestheader-client-ca" o.client_ca_file ≡ ok config.client_ca
    pub authenticate : config.authenticate ≡ authenticator (K.authenticators config.pool) o
    pub authorize : new_authorizer lib.authorizers ≡ ok config.authorize
    pub url_served : config.url_served ≡ served_url o.path_prefix
    pub definitions : config.definitions ≡ get_open_api_definitions
    pub bare : K.Server
    pub complete : lib.complete_new name config ≡ ok bare
    pub installed : lib.install_api_group (api_group_info storages) bare ≡ ok server

  -- A server that `New` returns was completed from a configuration whose pool and client CA come
  -- of the CA file of the options, whose authenticator verifies by that pool, whose authorizer
  -- is the one of `newAuthorizer`, which serves paths without the prefix and publishes the
  -- generated definitions; then the API group was installed on it with the storages.
  pub new_server-IsBuilt :
      (name : String) (storages : GoMap Storage) (server : K.Server)
      → new_server name storages ≡ ok server
      → IsBuilt name storages server
  unfolding new_server
  new_server-IsBuilt name storages server made =
      let (secure, _, with_serving) = bind-ok lib.apply_to _ server made in
      let (pool, pooled, with_pool) =
        bind-ok (failing (client_ca_not_loaded o.client_ca_file) (lib.new_pool o.client_ca_file)) _
          server with_serving in
      let (client_ca, ca, with_ca) =
        bind-ok (lib.new_client_ca "requestheader-client-ca" o.client_ca_file) _ server with_pool in
      let (authz, authorized, with_authz) =
        bind-ok (new_authorizer lib.authorizers) _ server with_ca in
      let (bare, built, done) =
        bind-ok (lib.complete_new name (server_config secure pool client_ca authz)) _ server
          with_authz in
      record {
        config = server_config secure pool client_ca authz;
        pool = failing-ok _ _ pool pooled;
        client_ca = ca;
        authenticate = refl;
        authorize = authorized;
        url_served = refl;
        definitions = refl;
        bare = bare;
        complete = built;
        installed = done;
      }

  -- With the authorizer of `newAuthorizer` in the configuration that `New` builds the server of,
  -- a request whose headers give no user, because they are missing or refused, is allowed for a
  -- health path and no resource only. One whose headers give a user is allowed everything,
  -- unless they put that user into the unauthenticated group and not into the authenticated one,
  -- who is allowed no more than the former; nothing is said of a user named as the anonymous
  -- one.
  pub server_config_gates :
      (secure : K.Serving × K.Loopback) (pool : K.Pool) (client_ca : K.ClientCa)
      (authz : Authorizer) (r : (K.authenticators pool).Request) (v : User) (attrs : Attributes)
      → new_authorizer lib.authorizers ≡ ok authz
      → (server_config secure pool client_ca authz).authenticate r ≡ ok (some v)
      → attrs.user ≡ v
      → ((u : User) × (headers (K.authenticators pool) o r ≡ ok (some u))
          × ((u.name ≡ anonymous_user.name)
              ⊎ ((server_config secure pool client_ca authz).authorize attrs
                  ≡ decide_identified u attrs)))
        ⊎ (IsUnidentified (K.authenticators pool) o r
            × ((server_config secure pool client_ca authz).authorize attrs
                ≡ decide_unidentified attrs))
  server_config_gates secure pool client_ca authz r v attrs made got same =
      authenticator_gates (K.authenticators pool) lib.authorizers o r v authz attrs got same made
