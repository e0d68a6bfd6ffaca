-- ===== src/Tests/Devices.antt =====
-- Proofs, devices and device codes on the small server.
use omni_identity.Prelude.{
  none, ◌≡◌, ◌≢◌, ◌+◌, ◌*◌, true, false, [], ◌∷◌, ◌⊎◌, ◌&&◌, not, any, refl, inr, arith, eq_iff,
}
use omni_identity.Model.{second}
use omni_identity.Pop.{Proof}
use omni_identity.Store.Devices.{fingerprint_in_use, names_key, active_with_id}
use omni_identity.Store.Devices.Forgotten.{NewKey, Rotates, rotate_to, rotated_key-forgotten}
use omni_identity.Store.DeviceCodes.{consume_device_code_row, deny_device_code}
use omni_identity.Store.DeviceCodes.Closed.{codes_with_hash}
use omni_identity.Store.DeviceCodes.Laws.{
  run, approve, poll, codes_with_id, consume_device_code_once, deny_device_code_final,
}
use omni_identity.Store.Devices.{revoke_device_row}
use omni_identity.Store.Devices.Laws.{CutOff, revoke_device_row-CutOff}
use omni_identity.Store.Io.{ok}
use omni_identity.Web.DeviceFlow.{handle_device_confirm}
use omni_identity.Web.DeviceFlow.Decision.{Decided, handle_device_confirm-Decided}
use omni_identity.Store.Jtis.Replay.{consume, sweep, Use, use_once, use_all, consume_jti_once}
use omni_identity.Tests.Fixtures.{env, alice, io, db, state, request, start}
use omni_identity.Tests.Opened.{runs}
use omni_identity.Web.DeviceGrant.{grant_device_code}
use omni_identity.Web.DeviceGrant.Once.{
  DeviceRedeemed, grant_device_code-DeviceRedeemed, device_code_once,
}
use omni_identity.Web.Dpop.{verify_dpop}
use omni_identity.Web.Dpop.Laws.{Fresh, verify_dpop-Fresh, verify_dpop_once}
use omni_identity.Web.Handler.{done}
use omni_identity.Web.Issue.{TokenResponse}
use omni_identity.Web.Server.{Request, State}

abbrev guard : Use
guard = record { io = io; hash = "j1"; device_id = ""; expires_at = start + 600 * second }

guard_accepts : (use_once guard db).0 ≡ ok true
unfolding runs
guard_accepts = refl

consume_jti_once_example :
    (use_once guard (use_all (consume guard ∷ sweep io start ∷ []) (use_once guard db).1)).0
    ≢ ok true
consume_jti_once_example =
    consume_jti_once guard (consume guard ∷ sweep io start ∷ []) guard db guard_accepts
      (ground arith, (ground arith, tt)) (ground arith) refl

abbrev proof : Proof
proof = record {
  jkt = "k1";
  jti = "p1";
  htm = "POST";
  htu = "https://id/oauth2/token";
  ath = "jwt";
  issued_at = start;
}

proof_accepted : (verify_dpop env (request []) "p1" "jwt" db).0 ≡ inr proof
unfolding runs
proof_accepted = refl

verify_dpop-Fresh_example : Fresh env (request []) "p1" "jwt" db proof
verify_dpop-Fresh_example = verify_dpop-Fresh env (request []) "p1" "jwt" db proof_accepted

verify_dpop_once_example :
    (verify_dpop env (request []) "p1" "" (
      use_all
        (consume guard ∷ sweep io start ∷ [])
        (verify_dpop env (request []) "p1" "jwt" db).1)).0
    ≢ inr proof
verify_dpop_once_example =
    verify_dpop_once env env (request []) (request []) "p1" "jwt" ""
      (consume guard ∷ sweep io start ∷ []) db proof refl proof_accepted
      (ground arith, (ground arith, tt)) proof

code_taken : (consume_device_code_row io "d1" db).0 ≡ ok true
unfolding runs
code_taken = refl

one_code : codes_with_id "d1" db ≡ 1
unfolding runs
one_code = refl

consume_device_code_once_example :
    (consume_device_code_row io "d1"
      (run (approve io "d1" "u1" "pwd" start ∷ []) (consume_device_code_row io "d1" db).1)).0
    ≢ ok true
consume_device_code_once_example =
    consume_device_code_once io io "d1" (approve io "d1" "u1" "pwd" start ∷ []) db
      (ground (arith, one_code)) code_taken (tt, tt)

code_denied : (deny_device_code io "d2" db).0 ≡ ok tt
unfolding runs
code_denied = refl

one_pending : codes_with_id "d2" db ≡ 1
unfolding runs
one_pending = refl

deny_device_code_final_example :
    (consume_device_code_row io "d2"
      (run (approve io "d2" "u1" "pwd" start ∷ []) (deny_device_code io "d2" db).1)).0
    ≢ ok true
deny_device_code_final_example =
    deny_device_code_final io io "d2" (approve io "d2" "u1" "pwd" start ∷ []) db
      (ground (arith, one_pending)) code_denied (tt, tt)

abbrev second_key : NewKey
second_key = record {
  public_key = "key2";
  alg = "ES256";
  fingerprint = "fp2";
  key_backend = "";
  trust = "enrolled";
}

abbrev third_key : NewKey
third_key = record second_key { public_key = "key3"; fingerprint = "fp3" }

first_rotation : Rotates io "dev1" second_key db
unfolding runs
first_rotation = refl

second_rotation : Rotates io "dev1" third_key (rotate_to io "dev1" second_key db)
unfolding runs
second_rotation = refl

no_other_device : any (λ d. names_key "fp1" d && not (active_with_id "dev1" d)) db.devices ≡ false
unfolding runs
no_other_device = refl

rotated_key-forgotten_example :
    fingerprint_in_use io "fp1" (rotate_to io "dev1" third_key (rotate_to io "dev1" second_key db))
    ≡ ok false
rotated_key-forgotten_example =
    rotated_key-forgotten io "fp1" "dev1" second_key third_key db no_other_device
      (ground (arith, eq_iff "fp2" "fp1")) (ground (arith, eq_iff "fp3" "fp1")) first_rotation
      second_rotation refl

abbrev poll_request : Request
poll_request = request (("device_code", "dc") ∷ [])

abbrev polled : State
polled = (grant_device_code env poll_request state).1

abbrev poll_response : TokenResponse
poll_response = record {
  access_token = "jwt";
  token_type = "Bearer";
  expires_in = 900;
  refresh_token = "new-token";
  id_token = "jwt";
  scope = "openid offline_access";
}

poll_runs : grant_device_code env poll_request state ≡ (done poll_response, polled)
unfolding runs
poll_runs = refl

grant_device_code-DeviceRedeemed_example : DeviceRedeemed env poll_request state polled
grant_device_code-DeviceRedeemed_example =
    grant_device_code-DeviceRedeemed env poll_request state poll_runs

abbrev later_polls : State
later_polls = record polled {
  db = run (approve io "d1" "u1" "pwd" start ∷ poll io "d1" start ∷ []) polled.db;
}

one_polled : codes_with_hash (env.hash (poll_request.form "device_code")) polled.db ≡ 1
unfolding runs
one_polled = refl

device_code_once_example :
    grant_device_code env poll_request later_polls ≢ (done poll_response, state)
device_code_once_example =
    device_code_once env env poll_request poll_request state polled later_polls state poll_response
      poll_response (approve io "d1" "u1" "pwd" start ∷ poll io "d1" start ∷ []) poll_runs
      (ground (arith, one_polled)) (tt, (tt, tt)) refl refl

revoke_device_row-CutOff_example :
    (((revoke_device_row io "dev1" start db).0 ≡ ok tt)
      × CutOff "dev1" db (revoke_device_row io "dev1" start db).1)
    ⊎ (((revoke_device_row io "dev1" start db).0 ≢ ok tt)
        × ((revoke_device_row io "dev1" start db).1 ≡ db))
revoke_device_row-CutOff_example = revoke_device_row-CutOff io "dev1" start db

abbrev confirm_request : Request
confirm_request = request (("user_code", "LMNP-QRST") ∷ ("action", "allow") ∷ [])

abbrev confirmed : State
confirmed = (handle_device_confirm env alice none confirm_request state).1

confirm_runs : handle_device_confirm env alice none confirm_request state ≡ (
  done "Approved. You can return to the device — it will finish signing in on its own.",
  confirmed,
)
unfolding runs
confirm_runs = refl

handle_device_confirm-Decided_example : Decided env confirm_request alice none state confirmed
handle_device_confirm-Decided_example =
    handle_device_confirm-Decided env alice none confirm_request state confirm_runs
