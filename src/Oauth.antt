-- ===== src/Oauth.antt =====
-- POST /token, the exchange of refresh tokens (internal/server/oauth/oauth.go).
pub mod Records
pub mod Exchange
pub mod Response
pub mod Handler
pub mod Upstream
pub mod Errors
pub mod Lifetimes
pub mod Rotation
