-- ===== src/Auth.antt =====
-- The two kinds of tokens (internal/auth/auth.go): their payloads and claims. The operations on them
-- stand in the children.
pub mod Records
pub mod Library
pub mod Keys
pub mod Sealing
pub mod Issue
pub mod Verify
pub mod Sealed
pub mod RoundTrip
pub mod Refusals
pub mod Issued
pub mod Callers
