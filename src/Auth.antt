-- ===== src/Auth.antt =====
-- internal/auth: what the browser handlers need of passwords and second factors. Child modules:
-- Policy for the rules on new passwords, Totp for one-time codes.
pub mod Policy
pub mod Totp
