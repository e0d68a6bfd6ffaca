-- ===== src/Web/Logout.antt =====
-- internal/web/logout_handler.go: the logout that a client starts.
pub mod Ends
pub mod Ended
use omni_identity.Prelude.{
  String, Bool, true, false, not, ◌&&◌, ◌||◌, Option, none, some, ◌==◌, if◌then◌else◌,
}
use omni_identity.Model.{Client, is_nil}
use omni_identity.Store.Io.{Db, Result, ok, err}
use omni_identity.Store.Clients.{get_client_row}
use omni_identity.Store.RefreshTokens.{revoke_refresh_tokens_for_user_client}
use omni_identity.Tokens.{VerifiedToken, parse_id_token_hint}
use omni_identity.Web.Authorize.{post_logout_redirect_allowed}
use omni_identity.Web.Handler.{Handler, Reply, done, page, attempt, pure, ◌>>=◌, ◌>>◌}
use omni_identity.Web.Server.{Env, Request, State}
use omni_identity.Web.Sessions.{destroy}

-- A redirect to an address of the client, with a state where one is added, or the signed-out page
-- with the reason why there is no redirect.
pub data LogoutAnswer : Type 0 where
  back_to_client : String → String → LogoutAnswer
  signed_out : String → LogoutAnswer

-- userID and client: who asks to be logged out, as far as they are known.
pub record Party : Type 0 where
  pub user_id : String
  pub client : Option Client

abbrev pub nobody : Party
nobody = record { user_id = ""; client = none }

abbrev pub known_client : Result Client → Option Client
known_client (err e) = none
known_client (ok c) = some c

abbrev pub party_of_hint : Env → String → Db → Option VerifiedToken → Party
party_of_hint env client_id db none = nobody
party_of_hint env client_id db (some vt) =
    if not (client_id == "") && not (client_id == vt.audience) then nobody else (record {
      user_id = vt.subject;
      client = known_client (get_client_row env.io vt.audience db);
    })

unfoldable pub identify : Env → Request → Db → Party
identify env req db =
    let hint = req.query_param "id_token_hint" in
    let client_id = req.query_param "client_id" in
    if not (hint == "")
    then party_of_hint env client_id db (parse_id_token_hint env.issuer hint)
    else if not (client_id == "")
    then (record { user_id = ""; client = known_client (get_client_row env.io client_id db) })
    else nobody

abbrev pub revoke_pair : Env → String → Option Client → Db → Db
revoke_pair env user_id none db = db
revoke_pair env user_id (some c) db =
    if user_id == ""
    then db
    else revoke_refresh_tokens_for_user_client env.io user_id c.client_id db

-- The state is added where there is one and the address parses.
abbrev added_state : Env → Request → String
added_state env req =
    if is_nil (env.pop.parse_url (req.query_param "post_logout_redirect_uri"))
    then ""
    else req.query_param "state"

abbrev reason : Request → Option Client → String
reason req (some c) =
    "The application asked to be returned to an address that is not on its post-logout redirect list, so the request was ignored."
reason req none =
    if req.query_param "id_token_hint" == "" && req.query_param "client_id" == ""
    then "The application asked to be returned to, but did not identify itself (no id_token_hint or client_id), so the request was ignored."
    else "The application asked to be returned to, but could not be identified, so the request was ignored."

abbrev pub honoured : Option Client → String → Bool
honoured none uri = false
honoured (some c) uri = post_logout_redirect_allowed c uri

unfoldable pub logout_answer : Env → Request → Party → LogoutAnswer
logout_answer env req party =
    let uri = req.query_param "post_logout_redirect_uri" in
    if not (uri == "") && honoured party.client uri
    then back_to_client uri (added_state env req)
    else signed_out (if uri == "" then "" else reason req party.client)

-- An error is logged, and the handler goes on.
unfoldable pub destroy_anyway : Env → Request → State → State
destroy_anyway env req s = (destroy env req (page 500 "") s).1

unfoldable pub handle_logout_page : Env → Request → Handler LogoutAnswer
handle_logout_page env req s =
    let party = identify env req s.db in
    let s1 = destroy_anyway env req s in
    (
      done (logout_answer env req party),
      record s1 { db = revoke_pair env party.user_id party.client s1.db },
    )
