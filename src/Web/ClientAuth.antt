-- ===== src/Web/ClientAuth.antt =====
-- internal/web/token_handler.go, authenticateClient, with SecretMatches of internal/auth/tokens.go.
use omni_identity.Prelude.{String, Bool, not, ◌&&◌, ◌||◌, Option, none, some, ◌==◌, if◌then◌else◌}
use omni_identity.Model.{Client, client_type_confidential}
use omni_identity.Store.Io.{Db, Result, ok, err}
use omni_identity.Store.Clients.{get_client_row}
use omni_identity.Web.Server.{Env, Request}
use omni_identity.Web.Handler.{HttpError, oauth_error}

unfoldable pub secret_matches : Env → String → String → Bool
secret_matches env presented stored = env.hash presented == stored

-- The client id and the secret: of Basic auth, or else of the form.
abbrev credentials_of : Request → Option (String × String) → String × String
credentials_of req (some c) = c
credentials_of req none = (req.form "client_id", req.form "client_secret")

unfoldable pub credentials : Request → String × String
credentials req = credentials_of req req.basic_auth

abbrev pub bad_secret : Env → String → Client → Bool
bad_secret env secret c =
    c.client_type == client_type_confidential
    && (secret == "" || not (secret_matches env secret c.client_secret_hash))

abbrev accept_client : Env → String → Result Client → Option Client
accept_client env secret (err e) = none
accept_client env secret (ok c) = if c.disabled || bad_secret env secret c then none else some c

unfoldable pub authenticate_client : Env → Request → Db → Option Client
unfolding credentials
authenticate_client env req db =
    let (client_id, secret) = credentials req in
    if client_id == "" then none else accept_client env secret (get_client_row env.io client_id db)

abbrev pub invalid_client : HttpError
invalid_client = oauth_error 401 "invalid_client" "client authentication failed"
