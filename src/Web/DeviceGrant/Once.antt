-- ===== src/Web/DeviceGrant/Once.antt =====
-- What the device_code grant has checked when it answers with tokens, and that it spends the code.
use mathlib.Core.Path.{subst}
use omni_identity.Prelude.{
  ◌≤◌, String, false, Option, none, some, ◌≡◌, ◌≢◌, refl, sym, ap, arith, List, eq_iff, ltb→le,
}
use omni_identity.Model.{Client, DeviceCode, DeviceCodeStatus}
use omni_identity.Store.DeviceCodes.{mark_device_code_polled, consume_device_code_row}
use omni_identity.Store.DeviceCodes.Closed.{
  AllSpareHash, Shut, run-Shut, codes_with_hash, consumed-Shut, Shut-found,
}
use omni_identity.Store.DeviceCodes.Laws.{CodeOp, run}
use omni_identity.Web.Server.{Env, Request, State}
use omni_identity.Web.Handler.{
  Reply, done, after_bind, after_find, after_reject_if, after_reject_some, after_exec, after_query,
  after_unless, after_attempt, record_metric,
}
use omni_identity.Web.ClientAuth.{authenticate_client}
use omni_identity.Web.Issue.{TokenResponse, dpop_jkt}
use omni_identity.Web.Grants.{require_client, require_user}
use omni_identity.Web.DeviceGrant.{
  polled_early, status_error, bound_device, issue_for_device, redeem_device_code, grant_device_code,
}
use omni_identity.Web.DeviceGrant.Redeem.{
  device_code_row, get_device_code_by_hash-row, issue_for_device-Keeps, bound_device-Keeps, RowIs,
  HasRow, polled-RowIs, consumed-RowIs, BoundDevice, bound_device-BoundDevice,
}

status_error-approved :
    (st : DeviceCodeStatus) → status_error st ≡ none → st ≡ DeviceCodeStatus.approved
unfolding status_error
status_error-approved DeviceCodeStatus.pending h = absurd (cc)
status_error-approved DeviceCodeStatus.approved h = refl
status_error-approved DeviceCodeStatus.denied h = absurd (cc)
status_error-approved DeviceCodeStatus.consumed h = absurd (cc)

-- Whatever keeps each row keeps the status.
RowIs-kept :
    (h id : String) (st : DeviceCodeStatus) (s : State) {A : Type 0} (m : State → Reply A × State)
    {r : Reply A} {s' : State}
    → ((row : Option DeviceCode) → HasRow h row s.db → HasRow h row (m s).1.db)
    → m s ≡ (r, s')
    → RowIs h id st s.db
    → RowIs h id st s'.db
RowIs-kept h id st s m keeps e (c, found, same, is) =
    (c, subst (λ p. device_code_row h p.1.db ≡ some c) e (keeps (some c) found), same, is)

-- From the approved code on: the device, the user, and the row afterwards.
redeem_device_code-spent :
    (env : Env) (req : Request) (client : Client) (dc : DeviceCode) (h : String) (s : State)
    {resp : TokenResponse} {s' : State}
    → RowIs h dc.id DeviceCodeStatus.approved s.db
    → redeem_device_code env req client dc s ≡ (done resp, s')
    → BoundDevice env req dc s.db × RowIs h dc.id DeviceCodeStatus.consumed s'.db
unfolding redeem_device_code require_user
redeem_device_code-spent env req client dc h s row e =
    let (dev, found, h1) = after_bind (bound_device env req dc) _ s e in
    let s1 = (bound_device env req dc s).1 in
    let (user, available, h2) = after_find _ _ _ s1 h1 in
    let (consumed, took, h3) = after_exec _ _ _ s1 h2 in
    let (won, h4) = after_reject_if _ _ _ _ h3 in
    let row1 =
      RowIs-kept h dc.id DeviceCodeStatus.approved s (bound_device env req dc)
        (λ o. (bound_device-Keeps h o env req dc).at s) refl row in
    let row2 = consumed-RowIs env.io h dc.id s1.db row1 (ground (arith, took, won)) in
    (
      bound_device-BoundDevice env req dc s {o = dev} {s' = s1} (ap (λ r. (r, s1)) found),
      RowIs-kept h dc.id DeviceCodeStatus.consumed
          (record s1 { db = (consume_device_code_row env.io dc.id s1.db).1 })
          (issue_for_device env req client user dc
            (record { amr = dc.amr; device = dev; jkt = dpop_jkt req }))
          (λ o. (issue_for_device-Keeps h o env req client user dc _).at _) h4 row2,
    )

-- What is true of a poll that answers with tokens. The device authenticates after the poll is
-- recorded.
pub record DeviceRedeemed (env : Env) (req : Request) (s : State) (s' : State) : Type 0 where
  pub client : Client
  pub authenticated : authenticate_client env req s.db ≡ some client
  pub dc : DeviceCode
  pub found : device_code_row (env.hash (req.form "device_code")) s.db ≡ some dc
  pub own : dc.client_id ≡ client.client_id
  pub in_time : env.io.now ≤ dc.expires_at
  pub patient : polled_early env.io.now dc ≡ false
  pub approved : dc.status ≡ DeviceCodeStatus.approved
  pub device : BoundDevice env req dc (mark_device_code_polled env.io dc.id env.io.now s.db)
  pub spent : RowIs (env.hash (req.form "device_code")) dc.id DeviceCodeStatus.consumed s'.db

-- A poll answers with tokens only to the authenticated client that the code was given to, in time,
-- not within the interval of the last poll, after the user's approval, and, where the grant is
-- bound to a device, to that device, authenticated and not closed to the user who approved. The code
-- is then consumed.
pub grant_device_code-DeviceRedeemed :
    (env : Env) (req : Request) (s : State) {resp : TokenResponse} {s' : State}
    → grant_device_code env req s ≡ (done resp, s')
    → DeviceRedeemed env req s s'
unfolding grant_device_code require_client record_metric
grant_device_code-DeviceRedeemed env req s {resp} {s'} e =
    let h = env.hash (req.form "device_code") in
    let (client, auth, h1) = after_find _ _ _ s e in
    let (_, h2) = after_reject_if _ _ _ s h1 in
    let (dc, got, h3) = after_query _ _ _ s h2 in
    let (own, h4) = after_reject_if _ _ _ s h3 in
    let (in_time, h5) = after_unless _ _ _ _ s h4 (λ _. refl) in
    let h6 = after_attempt _ _ s h5 in
    let (patient, h7) = after_reject_if _ _ _ _ h6 in
    let (allowed, h8) = after_reject_some _ _ _ h7 in
    let found = get_device_code_by_hash-row env.io h s.db got in
    let approved = status_error-approved dc.status allowed in
    let (c, row, same, st) = polled-RowIs env.io h dc.id env.io.now s.db found in
    let spent =
      redeem_device_code-spent env req client dc h _ (c, row, same, cc (st, approved)) h8 in
    record {
      client = client;
      authenticated = auth;
      dc = dc;
      found = found;
      own = ground (arith, eq_iff dc.client_id client.client_id);
      in_time = ltb→le dc.expires_at env.io.now in_time;
      patient = patient;
      approved = approved;
      device = spent.0;
      spent = spent.1;
    }

-- After a poll that issued tokens, with at most one row of the
-- code left, and whatever the program then does to the table of codes (creations of other codes,
-- approvals, refusals, consumptions, polls and expiries, whatever fails in them), no poll with the
-- same code is answered with tokens, whatever its client, its other parameters, its time and the
-- failures of the store.
pub device_code_once :
    (env env' : Env) (req req' : Request) (s s' t t' : State) (resp resp' : TokenResponse)
    (ops : List CodeOp)
    → grant_device_code env req s ≡ (done resp, s')
    → codes_with_hash (env.hash (req.form "device_code")) s'.db ≤ 1
    → AllSpareHash (env.hash (req.form "device_code")) ops
    → t.db.device_codes ≡ (run ops s'.db).device_codes
    → env'.hash (req'.form "device_code") ≡ env.hash (req.form "device_code")
    → grant_device_code env' req' t ≢ (done resp', t')
device_code_once env env' req req' s s' t t' resp resp' ops first unique spares reached same
      second =
    let h = env.hash (req.form "device_code") in
    let first_poll = grant_device_code-DeviceRedeemed env req s first in
    let next_poll = grant_device_code-DeviceRedeemed env' req' t second in
    let (c, row, _, st) = first_poll.spent in
    let shut : Shut h t.db.device_codes =
      subst (Shut h) (sym reached)
        (run-Shut h ops s'.db spares (consumed-Shut h s'.db.device_codes unique row st)) in
    let again : device_code_row h t.db ≡ some next_poll.dc = rw same at next_poll.found in
    Shut-found h t.db.device_codes shut again next_poll.approved
