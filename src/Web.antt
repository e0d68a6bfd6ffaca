-- ===== src/Web.antt =====
-- internal/web: the HTTP handlers of the token endpoint and of its neighbours.
pub mod RateLimit
pub mod Server
pub mod Handler
pub mod ClientAuth
pub mod Issue
pub mod Devices
pub mod Dpop
pub mod Grants
pub mod CodeGrant
pub mod RefreshGrant
pub mod Codes
pub mod DeviceGrant
pub mod DeviceFlow
pub mod Introspect
pub mod Landing
pub mod Sessions
pub mod Authorize
pub mod Consent
pub mod Mfa
pub mod Login
pub mod SetPassword
pub mod TokenExchange
pub mod Userinfo
pub mod Logout
