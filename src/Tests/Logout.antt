-- ===== src/Tests/Logout.antt =====
-- A logout that a client starts, on the small server.
use omni_identity.Prelude.{◌≡◌, ◌==◌, true, false, some, [], ◌∷◌, refl, any}
use omni_identity.Model.{Client}
use omni_identity.Store.Clients.{get_client_row}
use omni_identity.Store.Io.{ok}
use omni_identity.Tests.Fixtures.{db, env, state, request, start, app, form_of}
use omni_identity.Tests.Opened.{runs}
use omni_identity.Tokens.{Claims, VerifiedToken, str, parse_id_token_hint}
use omni_identity.Web.Authorize.{post_logout_redirect_allowed}
use omni_identity.Web.Handler.{done}
use omni_identity.Web.Logout.{back_to_client, handle_logout_page}
use omni_identity.Web.Logout.Ended.{live_pair, handle_logout_page-ended}
use omni_identity.Web.Logout.Ends.{Identified, handle_logout_page-Identified}
use omni_identity.Web.Server.{Env, Request, State}
use omni_identity.Web.Sessions.{session_cookie}

abbrev returning : Client
returning = record app { post_logout_redirect_uris = "https://app/bye" ∷ [] }

abbrev before : State
before = record state { db = record db { clients = returning ∷ [] } }

abbrev hint_claims : Claims
hint_claims = ("iss", str "https://id") ∷ ("sub", str "u1") ∷ ("aud", str "app") ∷ []

abbrev hint : VerifiedToken
hint = record {
  subject = "u1";
  audience = "app";
  scope = "";
  email = "";
  preferred_username = "";
  device_id = "";
  device_trust = "";
  jkt = "";
  claims = hint_claims;
}

abbrev hint_env : Env
hint_env = record env {
  issuer = record {
    jwt = record {
      sign = λ _. some "jwt";
      parse = λ _ _. some hint_claims;
      parse_signed = λ _. some hint_claims;
    };
    name = "https://id";
    access_ttl = env.issuer.access_ttl;
    id_ttl = env.issuer.id_ttl;
    now = start;
  };
}

abbrev logout : Request
logout = record (request []) {
  query_param = form_of (
      ("id_token_hint", "jwt")
      ∷ ("client_id", "app")
      ∷ ("post_logout_redirect_uri", "https://app/bye")
      ∷ ("state", "st")
      ∷ []);
  cookie = form_of ((session_cookie, "sess1") ∷ []);
}

sent_back :
    (handle_logout_page hint_env logout before).0 ≡ done (back_to_client "https://app/bye" "st")
unfolding runs
sent_back = refl

handle_logout_page-Identified_example :
    (logout.query_param "post_logout_redirect_uri" ≡ "https://app/bye")
    × ((c : Client) × Identified hint_env logout before.db c
        × (post_logout_redirect_allowed c "https://app/bye" ≡ true))
handle_logout_page-Identified_example =
    handle_logout_page-Identified hint_env logout before sent_back

hint_read : parse_id_token_hint hint_env.issuer "jwt" ≡ some hint
unfolding runs
hint_read = refl

client_here : get_client_row hint_env.io "app" before.db ≡ ok returning
unfolding runs
client_here = refl

handle_logout_page-ended_example :
    (any (λ x. x.id == "sess1") (handle_logout_page hint_env logout before).1.db.sessions ≡ false)
    × (any (live_pair "u1" "app") (handle_logout_page hint_env logout before).1.db.refresh_tokens
        ≡ false)
handle_logout_page-ended_example =
    handle_logout_page-ended hint_env logout before hint returning refl hint_read refl client_here
      refl refl refl refl
