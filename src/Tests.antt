-- ===== src/Tests.antt =====
-- Runs and instances of the theorems at concrete inputs.
mod Copies
mod Door
mod EndToEnd
mod Filters
mod Lists
mod Mappers
mod OpenApi
mod Sar
mod Scheme
mod Server
mod Shards
mod Startup
