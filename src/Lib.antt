-- ===== src/Lib.antt =====
-- The marketplace virtual workspace of kcp: a read-only API server that lists, for each user, the
-- workspaces that the user may enter and the API exports that the user may bind.
--
-- The program has these parts. cmd/marketplace-vws/main.go builds the rest and holds the list
-- functions: each asks the datasource for all objects, fans out one access review for each
-- object, and keeps what the reviews allow. pkg/datasource watches the Shard objects of kcp,
-- keeps one cache for each shard, registers the caches on an aggregate, and turns what the
-- aggregate lists into workspaces and exports. pkg/sar asks kcp whether a user may do something
-- in a logical cluster, and caches the decisions. pkg/apiserver has the options, the authorizer,
-- the path prefix and the storages of the server. apis/marketplace/v1alpha1 has the types that
-- are served.
--
-- Base holds the shared names: strings with decidable equality and Go's order on them
-- (Base/Text), Go's maps as association lists (Base/GoMap), `sort.Slice` and the order in which
-- `range` visits a map (Base/Sort). Errors has the errors as values, one constructor for each
-- message of the program.
--
-- Datasource models pkg/datasource/datasource.go; Datasource/Mappers models mappers.go
-- (mapWorkspaces is map_workspaces, mapAPIExports is map_api_exports, the bodies of their loops
-- are add_workspace and add_export); Datasource/Reader models reader.go. Datasource/ShardCaches
-- models shardcaches.go: its state is the record Caches, in which a context and the cache that
-- runs under it go by one number, beside the manager's context, of which each is a child; Start is
-- open_start and close_start, around its wait for the end of that context.
-- Datasource/ShardCaches/Steps lets any number of goroutines be in ensure and remove at once, and
-- the manager's context end at any time: each critical section is a step, and so is each return. Datasource/Reconciler and
-- Datasource/ShardConfig model shardcontroller.go, and Datasource/Manager models manager.go, with
-- addresses for the objects that are shared.
--
-- Sar models pkg/sar/sar.go, with the clock as an argument. Sar/Interleaving lets any number of
-- goroutines be in review at once, and logs what the server answers, what is stored and what is
-- returned. Apiserver/Options, Apiserver/Flags, Apiserver/Authenticator, Apiserver/Authorizer,
-- Apiserver/Prefix and Apiserver/Server model pkg/apiserver/apiserver.go (New is new_server),
-- Apiserver/Storage models storage.go, and Apiserver/Scheme models scheme.go with register.go of
-- the types. Main/Filter, Main/Lists, Main/Storages, Main/Setup, Main/Readiness and Main/Run
-- model cmd/marketplace-vws/main.go; run is cut at the call that serves, of which prepare is the
-- part before.
--
-- Api models the types of apis/marketplace/v1alpha1: as values in Api, where a nil slice and an
-- empty one are the same, as the JSON that their tags make of them in Api/Json and Api/Decode, and in Api/DeepCopy as they lie in memory, where
-- a slice is nil or an array at an address and each DeepCopyInto returns the copy and the memory
-- after it. OpenApi models pkg/generated/openapi/zz_generated.openapi.go: every schema, but for
-- the descriptions, with its references and dependencies. OpenApi/Validate says when a JSON value
-- conforms to a schema: `null` to none, and an object only with declared fields. Tests has runs
-- at concrete inputs and instances of the theorems.
--
-- No fuel is used: every loop is over a list. Times and indices are natural numbers without a
-- bound; the program's are far from the limits of Go's types. Libraries are parameters: the
-- aggregate cache, net/url, the JSON and SHA-256 of a cache key, the client for the reviews,
-- errgroup (a schedule, in which each call runs once, in any order and under any context), the
-- authenticators, the authorizers and the generic server of k8s.io/apiserver, the controller
-- manager, the scheme, the metadata of k8s objects and its JSON, and the order in which Go visits
-- a map. What is relied on is a field of their record: of the authorizer of paths, for one, how the
-- paths of its list match, and of the group adder, to whom it gives the group. http.StripPrefix is
-- written out over the decoded path and the path as the request wrote it. In Main/Filter a call of the checker is
-- one event, at the moment of which it finds some state of the cache; Sar/Interleaving opens
-- these calls.
--
-- Not modelled: the parsing of arguments by pflag, the TLS set-up with its flags, the handling of
-- requests within the generic server and the manager's loop, both of which are libraries,
-- logging, the user interface in ui, and the manifests and scripts in config and hack.
pub mod Api
pub mod Apiserver
pub mod Base
pub mod Datasource
pub mod Errors
pub mod Main
pub mod OpenApi
pub mod Sar
pub mod Tests
