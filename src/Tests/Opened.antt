-- ===== src/Tests/Opened.antt =====
-- `runs` opens what the tests run: a test names it alone.
use omni_identity.Prelude.{find, any, update_where, delete_where, count_where}
use omni_identity.Prelude.Text.{byte_len, fields, join, trim_space}
use omni_identity.Model.{is_public, is_active, is_pending, built_in, unix}
use omni_identity.Oidc.Scope.{contains, split_scope, has_scope, scopes_subset}
use omni_identity.Oidc.Pkce.{verify_pkce}
use omni_identity.Tokens.{
  put, claim, access_claims, id_claims, issue_access_token, issue_id_token, amr_list, verify,
  is_access_token, is_device_token,
}
use omni_identity.Store.Clients.{get_client_row, get_user_by_id, append_audit_event}
use omni_identity.Store.AuthCodes.{consume_auth_code}
use omni_identity.Store.RefreshTokens.{
  create_refresh_token, rotate_refresh_token, get_refresh_token_by_hash,
  revoke_refresh_tokens_for_user_client,
}
use omni_identity.Store.Devices.{get_device_row}
use omni_identity.Web.Handler.{
  pure, reject, query, exec, attempt, or_reject, find_or_reject, when, reject_if, record_metric,
  audit, ◌>>=◌,
}
use omni_identity.Web.ClientAuth.{authenticate_client, secret_matches}
use omni_identity.Web.Issue.{
  extra, token_type, dpop_jkt, user_groups, with_groups, profile_from_user, without,
  build_access_and_id, new_refresh_token, record_token_metrics,
}
use omni_identity.Web.Grants.{available_user, require_client, require_user, issue_refresh, issued}
use omni_identity.Web.CodeGrant.{pkce_error, redeem, grant_authorization_code}
use omni_identity.Web.Devices.{active_device}
use omni_identity.Web.RefreshGrant.{narrowed, rotate, refresh, grant_refresh_token}
use omni_identity.Prelude.Urls.{equal_fold, cut_space, trim_slashes, fold_code}
use omni_identity.Pop.{numeric_date, same_htu, verify_proof, is_htu_mismatch}
use omni_identity.Store.Jtis.{consume_jti}
use omni_identity.Store.Devices.{rotate_device_key, fingerprint_in_use}
use omni_identity.Store.DeviceCodes.{
  get_pending_device_code_by_user_code, create_device_code_row, get_device_code_by_hash,
  approve_device_code, deny_device_code, consume_device_code_row, mark_device_code_polled,
}
use omni_identity.Store.RefreshTokens.{revoke_refresh_token}
use omni_identity.Web.RateLimit.{
  window_of, put_window, drop_window, drop_expired, normalize_max, normalize_ttl, reap, allowed,
  fail, reset,
}
use omni_identity.Web.Dpop.{
  server_urls_for, try_urls, check_proof, verify_dpop, authorization_token, resource_token,
  authenticate_device_request,
}
use omni_identity.Web.DeviceGrant.{
  authenticated_device, polled_early, status_error, bound_device, issue_for_device,
  redeem_device_code, grant_device_code,
}
use omni_identity.Web.Codes.{normalize_user_code, format_user_code}
use omni_identity.Web.DeviceFlow.{
  lookup_user_code, owner_forbids, refuse_stranger, deny_grant, approve_grant, decide,
  handle_device_confirm,
}
use omni_identity.Web.Introspect.{
  introspect, handle_introspect, non_open_id_scopes, machine_scope, grant_client_credentials,
  own_token, handle_revoke,
}
use omni_identity.Store.Sessions.{delete_expired_sessions}
use omni_identity.Store.AuthCodes.{delete_expired_auth_codes}
use omni_identity.Store.AuthRequests.{delete_expired_auth_requests}
use omni_identity.Store.DeviceCodes.{delete_expired_device_codes}
use omni_identity.Store.Sweep.{
  sweep_expired, run_steps, delete_expired_challenges, delete_expired_password_tokens,
  delete_expired_ceremonies, delete_expired_jtis,
}
use omni_identity.Prelude.{select_where}
use omni_identity.Prelude.Digits.{to_lower, to_upper, remove_char, atoi_not_negative}
use omni_identity.Auth.Totp.{normalize_secret, truncated, hotp, verify_totp}
use omni_identity.Auth.Policy.{min_length_of, rune_count, has_class, validate_password}
use omni_identity.Model.{is_local, is_locked}
use omni_identity.Store.AuthCodes.{create_auth_code}
use omni_identity.Store.AuthRequests.{create_auth_request, get_auth_request, delete_auth_request}
use omni_identity.Store.Sessions.{
  create_session_row, touch_session_row, get_session_row, delete_session_row,
  delete_sessions_for_user,
}
use omni_identity.Store.Users.{
  get_user_by_username, set_user_password, count_admins, record_failed_login, reset_failed_logins,
}
use omni_identity.Store.PasswordTokens.{
  consume_password_token, get_valid_password_token, delete_password_tokens_for_user,
}
use omni_identity.Store.Mfa.{
  insert_codes, replace_recovery_codes, consume_recovery_code, get_login_challenge,
  delete_login_challenge,
}
use omni_identity.Store.Mfa.CodeSet.{step_codes, spec_run, apply_op, store_run, usable_codes}
use omni_identity.Store.Users.Lockout.{fail_logins}
use omni_identity.Web.Sessions.{
  set_cookie, new_session, drop_prior, issue, current, validate_csrf_token,
}
use omni_identity.Web.Authorize.{
  loopback_redirect_matches, redirect_uri_allowed, redirect_err, max_age_exceeded, enabled_client,
  check_params, validate_authorize, parked_request, park_and_redirect, new_code, issue_code,
  handle_authorize, load_auth_request, peek_auth_request, continue_after_auth,
}
use omni_identity.Web.Landing.{redirect_after_login, has_unsafe_char, safe_next}
use omni_identity.Web.Mfa.{
  current_challenge, normalize_recovery, verify_second_factor, challenge_user, check_mfa_rate,
  reset_mfa_rate, check_factor, resume_after_mfa, finish_mfa, handle_mfa_submit,
}
use omni_identity.Web.Login.{
  check_ip_rate, check_login_rate, reset_rates, acquire_password_verify, release_password_verify,
  local_login, check_credentials, requested_app, open_session, handle_login_submit, needs_setup,
  handle_login_form,
}
use omni_identity.Web.SetPassword.{spend_token, store_password, handle_set_password_submit}
use omni_identity.Web.TokenExchange.{
  intersect_scopes, exchange_scope, check_exchange_form, acting_device, subject_grant,
  parse_posture, delegated_claims, exchange_for, grant_token_exchange,
}
use omni_identity.Web.Userinfo.{bearer_token, user_claims, handle_userinfo}
use omni_identity.Tokens.{parse_id_token_hint}
use omni_identity.Web.Authorize.{post_logout_redirect_allowed}
use omni_identity.Web.Logout.{identify, logout_answer, destroy_anyway, handle_logout_page}
use omni_identity.Web.Sessions.{destroy}

unfoldable pub runs : Unit {0}
unfolding find any update_where delete_where count_where fields join trim_space is_public is_active
    is_pending built_in unix contains split_scope has_scope scopes_subset verify_pkce put claim
    access_claims id_claims issue_access_token issue_id_token amr_list verify is_access_token
    is_device_token get_client_row get_user_by_id append_audit_event consume_auth_code
    create_refresh_token rotate_refresh_token get_refresh_token_by_hash
    revoke_refresh_tokens_for_user_client get_device_row pure reject query exec attempt or_reject
    find_or_reject when reject_if record_metric audit ◌>>=◌ authenticate_client secret_matches extra
    token_type dpop_jkt user_groups with_groups profile_from_user without build_access_and_id
    new_refresh_token record_token_metrics available_user require_client require_user issue_refresh
    issued pkce_error redeem grant_authorization_code active_device narrowed rotate refresh
    grant_refresh_token equal_fold cut_space trim_slashes fold_code numeric_date same_htu
    verify_proof is_htu_mismatch consume_jti rotate_device_key fingerprint_in_use
    create_device_code_row get_device_code_by_hash approve_device_code deny_device_code
    consume_device_code_row mark_device_code_polled revoke_refresh_token window_of put_window
    drop_window drop_expired normalize_max normalize_ttl reap allowed fail reset server_urls_for
    try_urls check_proof verify_dpop authorization_token resource_token authenticate_device_request
    authenticated_device polled_early status_error bound_device issue_for_device redeem_device_code
    grant_device_code introspect handle_introspect non_open_id_scopes machine_scope
    grant_client_credentials own_token handle_revoke normalize_user_code format_user_code
    lookup_user_code owner_forbids refuse_stranger deny_grant approve_grant decide
    handle_device_confirm get_pending_device_code_by_user_code delete_expired_sessions
    delete_expired_auth_codes delete_expired_auth_requests delete_expired_device_codes sweep_expired
    run_steps delete_expired_challenges delete_expired_password_tokens delete_expired_ceremonies
    delete_expired_jtis select_where to_lower to_upper remove_char atoi_not_negative
    normalize_secret truncated hotp verify_totp min_length_of rune_count has_class validate_password
    is_local is_locked create_auth_code create_auth_request get_auth_request delete_auth_request
    create_session_row touch_session_row get_session_row delete_session_row delete_sessions_for_user
    get_user_by_username set_user_password count_admins record_failed_login reset_failed_logins
    consume_password_token get_valid_password_token delete_password_tokens_for_user insert_codes
    replace_recovery_codes consume_recovery_code get_login_challenge delete_login_challenge
    step_codes spec_run apply_op store_run usable_codes fail_logins set_cookie new_session
    drop_prior issue current validate_csrf_token loopback_redirect_matches redirect_uri_allowed
    redirect_err max_age_exceeded enabled_client check_params validate_authorize parked_request
    park_and_redirect new_code issue_code handle_authorize load_auth_request peek_auth_request
    continue_after_auth redirect_after_login has_unsafe_char safe_next current_challenge
    normalize_recovery verify_second_factor challenge_user check_mfa_rate reset_mfa_rate
    check_factor resume_after_mfa finish_mfa handle_mfa_submit check_ip_rate check_login_rate
    reset_rates acquire_password_verify release_password_verify local_login check_credentials
    requested_app open_session handle_login_submit needs_setup handle_login_form spend_token
    store_password handle_set_password_submit intersect_scopes exchange_scope check_exchange_form
    acting_device subject_grant parse_posture delegated_claims exchange_for grant_token_exchange
    bearer_token user_claims handle_userinfo parse_id_token_hint post_logout_redirect_allowed
    identify logout_answer destroy_anyway handle_logout_page destroy byte_len
runs = tt
