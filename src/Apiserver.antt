-- ===== src/Apiserver.antt =====
-- pkg/apiserver: the options of the server, its authorizer and its storages.
pub mod Options
pub mod Flags
pub mod Authorizer
pub mod Authenticator
pub mod Prefix
pub mod Storage
pub mod Server
pub mod Scheme
