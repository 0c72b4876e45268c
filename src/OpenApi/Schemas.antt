-- ===== src/OpenApi/Schemas.antt =====
-- One schema for each type, as openapi-gen has written them.
pub mod Discovery
pub mod Marketplace
pub mod Objects
pub mod Replies
pub mod Requests
