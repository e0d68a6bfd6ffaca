-- ===== src/Lib.antt =====
-- Omni Identity: an OpenID Connect and OAuth 2.0 server with device identity. This library models the
-- part that signs users in and that issues, binds, rotates and revokes tokens, and proves what it
-- guarantees.
--
-- The program's parts and their files. A handler (internal/web) reads a parsed request, asks the store
-- (internal/store) and the token issuer (internal/tokens), and changes the store, the counters and
-- the rate limiters.
-- + Prelude: numbers, lists as tables (Rows: find, update_where, delete_where, count_where are
--   SELECT, UPDATE, DELETE and count), Go's functions on texts (Text, Urls, Digits).
-- + Model: internal/model/model.go, the records of users, clients, codes, tokens and devices.
-- + Oidc: internal/oidc/scope.go (Scope) and internal/oidc/pkce.go (Pkce).
-- + Auth: internal/auth/policy.go (Policy) and internal/auth/totp.go (Totp).
-- + Store: internal/store, one function for each operation, on a record `Db` of tables. AuthCodes
--   is auth_codes.go, RefreshTokens is refresh_tokens.go, Devices, DeviceCodes and Jtis are
--   devices.go, Sessions is sessions.go, Pats is personal_access_tokens.go, AuthRequests is
--   auth_requests.go, Sweep is sweep.go, Users is users.go and users_security.go, PasswordTokens is
--   password_tokens.go, Mfa is mfa.go, Clients the lookups by id of clients.go and users.go and the
--   append of audit.go. Io has the tables, the results and the environment.
-- + Tokens: internal/tokens/jwt.go, the claims that are signed and what verification reads of them.
-- + Pop: internal/pop/dpop.go, the checks of a DPoP proof.
-- + Web: internal/web. RateLimit is ratelimit.go; ClientAuth, Issue, Grants, CodeGrant and
--   RefreshGrant are token_handler.go; Dpop is its verifyDPoP with the authentication of
--   device_api.go; DeviceGrant, DeviceFlow and Codes are device_grant_handler.go; Introspect is
--   introspect_handler.go and revoke_handler.go; TokenExchange is token_exchange_handler.go and
--   Userinfo is userinfo_handler.go and Logout is logout_handler.go. Sessions is
--   internal/auth/session.go and the check of csrf.go; Authorize is authorize_handler.go, Consent
--   is consent_handler.go, Login and Landing are auth_handlers.go with the logout in SetPassword,
--   Mfa is mfa_handler.go, SetPassword is password_reset_handler.go. A browser is sent from
--   Authorize to Login or Consent with the id of a parked request, and from Login to Mfa with a
--   challenge; Login, Mfa and Consent end by issuing the code. Server has the state, Handler the
--   monad in which the handlers are written.
-- + Tests: a small server, runs on it, and the theorems at concrete inputs.
--
-- How the code is read.
-- + A time is the number of nanoseconds since Go's zero time, so that IsZero, and NULL in a column,
--   is 0; a duration is a number of nanoseconds. An operation reads the clock once: the source
--   reads it more than once, some instants apart.
-- + A table is a list of rows. An operation of the store that is one statement or one transaction
--   either runs or fails as a whole, as `Io.fails` says, and changes nothing where it fails. Those
--   of more statements without a transaction (such as consume_jti, record_failed_login,
--   consume_password_token, set_user_disabled, delete_user) fail at each of them, and keep what the
--   earlier ones have written. Operations run one after another: two that overlap, as the SELECT
--   and the UPDATE in the transaction of ConsumeAuthCode can under a weak isolation, are not
--   modelled. Unique columns are checked where rows are inserted.
-- + A handler is an action on `State` that ends in a value or in the error that it answers. Changes
--   before an error stay. Bodies that cannot be parsed as a form, response headers, and what a page
--   shows are not modelled, nor are the CSRF checks of the device pages. A browser that is sent
--   away is an address with the parameters added to it, not their encoding.
-- + Parameters stand for code outside the repository: the JWT library (the fields of `Jwt` and
--   `Pop.parse`), SHA-256 (`Env.hash`, `Env.s256` and the hashes of `Pop`), HMAC-SHA1, AES-GCM,
--   Argon2 with the format of its hashes, base32, the JSON of a posture document, the tables of
--   `unicode`, `url.Parse`, the answers of the directories, random values. The theorems ask nothing
--   of them but what they state.
-- + There is no fuel: every loop of the modelled code runs over a list.
--
-- Not modelled: the set-up of the first administrator, enrollment and the rest of the device API,
-- the jwt-bearer grant and the dispatch to the grants, personal access tokens, administration,
-- WebAuthn, the client-side agent, configuration, mail, LDAP, log shipping, migrations and web
-- pages.
pub mod Prelude
pub mod Oidc
pub mod Model
pub mod Auth
pub mod Store
pub mod Tokens
pub mod Pop
pub mod Web
pub mod Tests
