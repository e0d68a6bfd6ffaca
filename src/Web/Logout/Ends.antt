-- ===== src/Web/Logout/Ends.antt =====
-- Where a logout sends the browser.
use omni_identity.Prelude.{
  String, true, false, not, ◌&&◌, Option, none, some, ◌≡◌, refl, sym, ap, ◌∙◌, ◌==◌, arith, eq_iff,
  Bool-cases, inl, inr, ◌⊎◌,
}
use omni_identity.Model.{Client}
use omni_identity.Store.Io.{Db, Result, ok, err}
use omni_identity.Store.Clients.{get_client_row}
use omni_identity.Tokens.{VerifiedToken, parse_id_token_hint}
use omni_identity.Web.Authorize.{post_logout_redirect_allowed}
use omni_identity.Web.Handler.{done}
use omni_identity.Web.Logout.{
  LogoutAnswer, back_to_client, signed_out, Party, party_of_hint, known_client, identify, honoured,
  logout_answer, handle_logout_page,
}
use omni_identity.Web.Server.{Env, Request, State}

-- The client is the audience of a hint that was signed here, and of the id that is given besides, if
-- any; or, without a hint, it is the one that is named.
abbrev pub Identified : Env → Request → Db → Client → Type 0
Identified env req db c =
    ((vt : VerifiedToken) × (parse_id_token_hint env.issuer (req.query_param "id_token_hint")
        ≡ some vt)
      × ((req.query_param "client_id" ≡ "") ⊎ (req.query_param "client_id" ≡ vt.audience))
      × (get_client_row env.io vt.audience db ≡ ok c))
    ⊎ ((req.query_param "id_token_hint" ≡ "")
        × (get_client_row env.io (req.query_param "client_id") db ≡ ok c))

known_client-ok : (r : Result Client) {c : Client} → known_client r ≡ some c → r ≡ ok c
known_client-ok (err e) h = absurd (cc)
known_client-ok (ok d) h = cc

agreed : (a b : String) → (not (a == "") && not (a == b)) ≡ false → (a ≡ "") ⊎ (a ≡ b)
agreed a b h = elim (Bool-cases (a == "")) [
  | inl e ↦ inl ((eq_iff a "").0 e)
  | inr e ↦ inr (ground (arith, eq_iff a b))
]

party_of_hint-client :
    (env : Env) (client_id : String) (db : Db) (o : Option VerifiedToken) {c : Client}
    → (party_of_hint env client_id db o).client ≡ some c
    → (vt : VerifiedToken) × (o ≡ some vt)
      × ((client_id ≡ "") ⊎ (client_id ≡ vt.audience))
      × (get_client_row env.io vt.audience db ≡ ok c)
party_of_hint-client env client_id db none h = absurd (cc)
party_of_hint-client env client_id db (some vt) h =
    elim (Bool-cases (not (client_id == "") && not (client_id == vt.audience))) [
      | inl differ ↦ absurd (none_not_some (rw differ at h))
      | inr same ↦ (
        vt,
        refl,
        agreed client_id vt.audience same,
        known_client-ok (get_client_row env.io vt.audience db) (rw same at h),
      )
    ]
  where
    none_not_some : {x : Client} → ◌≡◌ {A = Option Client} none (some x) → ⊥
    none_not_some h = cc

identify-Identified :
    (env : Env) (req : Request) (db : Db) {c : Client}
    → (identify env req db).client ≡ some c
    → Identified env req db c
unfolding identify
identify-Identified env req db h = elim (Bool-cases (req.query_param "id_token_hint" == "")) [
  | inl blank ↦ elim (Bool-cases (req.query_param "client_id" == "")) [
    | inl unnamed ↦ absurd (none_not_some (rw (blank, unnamed) at h))
    | inr named ↦ inr (
      (eq_iff (req.query_param "id_token_hint") "").0 blank,
      known_client-ok (get_client_row env.io (req.query_param "client_id") db)
          (rw (blank, named) at h),
    )
  ]
  | inr hinted ↦ inl (party_of_hint-client env _ db _ (rw hinted at h))
]
  where
    none_not_some : {x : Client} → ◌≡◌ {A = Option Client} none (some x) → ⊥
    none_not_some h = cc

honoured-allowed :
    (o : Option Client) (uri : String)
    → honoured o uri ≡ true
    → (c : Client) × (o ≡ some c) × (post_logout_redirect_allowed c uri ≡ true)
honoured-allowed none uri h = absurd (cc)
honoured-allowed (some c) uri h = (c, refl, h)

answer-honoured :
    (env : Env) (req : Request) (party : Party) {uri st : String}
    → logout_answer env req party ≡ back_to_client uri st
    → (honoured party.client (req.query_param "post_logout_redirect_uri") ≡ true)
      × (req.query_param "post_logout_redirect_uri" ≡ uri)
unfolding logout_answer
answer-honoured env req party {uri} {st} h =
    elim (Bool-cases (
      not (req.query_param "post_logout_redirect_uri" == "")
      && honoured party.client (req.query_param "post_logout_redirect_uri"))) [
        | inl sent ↦ (ground arith, same (rw sent at h))
        | inr shown ↦ absurd (not_shown (rw shown at h))
      ]
  where
    same : {a b : String} → back_to_client a b ≡ back_to_client uri st → a ≡ uri
    same h = cc

    not_shown : {a : String} → signed_out a ≡ back_to_client uri st → ⊥
    not_shown h = cc

reply_answer : {a b : LogoutAnswer} → done a ≡ done b → a ≡ b
reply_answer h = cc

-- Where the logout page sends a browser back, the address is the one that was asked for, and it is
-- registered as a return address of the client of the request: the audience of a hint that this
-- server signed, which a client id that is given besides must equal, or without a hint the client
-- that is named.
pub handle_logout_page-Identified :
    (env : Env) (req : Request) (s : State) {uri st : String}
    → (handle_logout_page env req s).0 ≡ done (back_to_client uri st)
    → (req.query_param "post_logout_redirect_uri" ≡ uri)
      × ((c : Client) × Identified env req s.db c × (post_logout_redirect_allowed c uri ≡ true))
unfolding handle_logout_page
handle_logout_page-Identified env req s h =
    let (good, asked) = answer-honoured env req (identify env req s.db) (reply_answer h) in
    let (c, found, allowed) = honoured-allowed _ _ good in
    (
      asked,
      (
        c,
        identify-Identified env req s.db found,
        ap (post_logout_redirect_allowed c) (sym asked) ∙ allowed,
      ),
    )
