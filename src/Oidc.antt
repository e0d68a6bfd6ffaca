-- ===== src/Oidc.antt =====
-- internal/oidc: scopes and PKCE.
pub mod Scope
pub mod Pkce
