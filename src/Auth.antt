-- ===== src/Auth.antt =====
-- The package `auth`: tokens, their store, the verification of JWTs, and the handlers around them.
pub mod Session
pub mod Types
pub mod Jwt
pub mod Reader
pub mod Writer
pub mod TokenStore
pub mod Handler
pub mod Rest
pub mod Login
