-- ===== src/Proxy.antt =====
-- The data plane: the handler of proxied requests (internal/server/proxy.go).
pub mod Headers
pub mod Credentials
pub mod Connection
pub mod Outbound
pub mod Body
pub mod Target
pub mod Records
pub mod Handler
pub mod Authenticate
pub mod Forwarding
pub mod Permitted
