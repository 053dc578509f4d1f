-- ===== src/Gateway.antt =====
-- apps/gateway: tokens and their store, the authentication service, its controllers and guards.
pub mod TokenStore
pub mod Tokens
pub mod Session
pub mod Revocation
pub mod Flows
pub mod OAuth
pub mod Linking
pub mod Profile
pub mod Health
pub mod Platforms
