-- ===== src/Auth/ResetTests.antt =====
-- Instances of the theorems about links and passwords on the requests of Samples.
use genjishimada.Base.{◌≡◌, ◌≢◌, refl, true, false, none, some, [], ◌∷◌, arith}
use genjishimada.Base.Int.{pos}
use genjishimada.Base.Text.{Text, codes, lower}
use genjishimada.Auth.Tables.{verification, password_reset}
use genjishimada.Auth.Action.{returned, raised, token_already_used}
use genjishimada.Auth.Validation.{
  validate_email, validate_password, validate_username, is_email, is_local_char, is_domain_char,
  is_username_char,
}
use genjishimada.Auth.Limits.{check_client_ip, check_rate_limit, rate_limits_for}
use genjishimada.Auth.Repository.{
  Account, TokenData, fetch_rate_limit_count, record_attempt, check_email_exists, get_user_by_email,
  generate_next_user_id, create_core_user, create_email_auth, insert_email_token,
  get_token_with_user, mark_token_used, invalidate_user_tokens, update_password,
  revoke_remember_tokens,
}
use genjishimada.Auth.Service.{
  EmailLoginRequest, AuthUserVerify, create_account, register_user, register, login, verify_email,
  replace_token, request_link, request_password_reset, confirm_password_reset, login_response,
}
use genjishimada.Auth.Verifications.{verify_email_once}
use genjishimada.Auth.Requests.{request_then_confirm, older_links_refused}
use genjishimada.Auth.Resets.{after_reset, confirm_password_reset_once, login_after_reset}
use genjishimada.Auth.Samples.{
  marks, marks_accept, with_ada, ada_verified, ada_unverified, verified_ada, reset_event, asked,
  newer_event, asked_again, reset_done,
}

abbrev ada_account : Account
ada_account = record {
  user_id = 100000000;
  email = codes "Ada@genji.io";
  password_hash = 1 ∷ codes "Passw0rd!";
  email_verified_at = none;
  nickname = codes "Ada";
  coins = pos 0;
  is_mod = false;
}

abbrev ada_link : TokenData
ada_link = record { expires_at = 86500; used_at = none; account = ada_account }

abbrev ada_reset : TokenData
ada_reset = record { expires_at = 3800; used_at = none; account = ada_account }

link_found : get_token_with_user (2 ∷ codes "link") verification with_ada ≡ some ada_link
unfolding register register_user check_rate_limit rate_limits_for fetch_rate_limit_count
    validate_email is_email is_local_char is_domain_char validate_password validate_username
    is_username_char check_email_exists create_account generate_next_user_id create_core_user
    create_email_auth insert_email_token record_attempt lower get_token_with_user
link_found = refl

ada_verifies :
    verify_email marks 150 150 (codes "link") with_ada ≡ returned ada_verified verified_ada
unfolding register register_user check_rate_limit rate_limits_for fetch_rate_limit_count
    validate_email is_email is_local_char is_domain_char validate_password validate_username
    is_username_char check_email_exists create_account generate_next_user_id create_core_user
    create_email_auth insert_email_token record_attempt lower get_token_with_user verify_email
ada_verifies = refl

verify_email_once_example :
    verify_email marks 160 160 (codes "link") verified_ada
    ≡ raised (token_already_used verification) verified_ada
verify_email_once_example =
    verify_email_once marks 150 150 (codes "link") with_ada verified_ada ada_verified 160 160
      (codes "link") ada_link ada_verifies link_found refl

ada_found : get_user_by_email (codes "Ada@genji.io") with_ada ≡ some ada_account
unfolding register register_user check_rate_limit rate_limits_for fetch_rate_limit_count
    validate_email is_email is_local_char is_domain_char validate_password validate_username
    is_username_char check_email_exists create_account generate_next_user_id create_core_user
    create_email_auth insert_email_token record_attempt lower get_user_by_email
ada_found = refl

ada_asks :
    request_password_reset marks 200 200 (codes "reset") (codes "Ada@genji.io") none with_ada
    ≡ returned (some reset_event) asked
unfolding register register_user check_rate_limit rate_limits_for fetch_rate_limit_count
    validate_email is_email is_local_char is_domain_char validate_password validate_username
    is_username_char check_email_exists create_account generate_next_user_id create_core_user
    create_email_auth insert_email_token record_attempt lower request_password_reset request_link
    replace_token invalidate_user_tokens get_user_by_email
ada_asks = refl

request_then_confirm_example :
    (r : AuthUserVerify) × (confirm_password_reset marks 300 300 []
        (codes "reset")
        (codes "NewPassw0rd!")
        asked
      ≡ returned r (after_reset 300 (2 ∷ codes "reset") 100000000 (1 ∷ codes "NewPassw0rd!") asked))
    × (r.id ≡ 100000000)
unfolding validate_password
request_then_confirm_example =
    request_then_confirm marks 200 200 (codes "reset") (codes "Ada@genji.io") none reset_event
      with_ada asked 300 300 [] (codes "NewPassw0rd!") (1 ∷ codes "NewPassw0rd!") ada_account
      ada_asks ada_found (omega arith) refl refl

ada_asks_again :
    request_password_reset marks 260 260 (codes "newer") (codes "Ada@genji.io") none asked
    ≡ returned (some newer_event) asked_again
unfolding register register_user check_rate_limit rate_limits_for fetch_rate_limit_count
    validate_email is_email is_local_char is_domain_char validate_password validate_username
    is_username_char check_email_exists create_account generate_next_user_id create_core_user
    create_email_auth insert_email_token record_attempt lower request_password_reset request_link
    replace_token invalidate_user_tokens get_user_by_email
ada_asks_again = refl

ada_still_found : get_user_by_email (codes "Ada@genji.io") asked ≡ some ada_account
unfolding register register_user check_rate_limit rate_limits_for fetch_rate_limit_count
    validate_email is_email is_local_char is_domain_char validate_password validate_username
    is_username_char check_email_exists create_account generate_next_user_id create_core_user
    create_email_auth insert_email_token record_attempt lower request_password_reset request_link
    replace_token invalidate_user_tokens get_user_by_email
ada_still_found = refl

reset_found : get_token_with_user (2 ∷ codes "reset") password_reset asked ≡ some ada_reset
unfolding register register_user check_rate_limit rate_limits_for fetch_rate_limit_count
    validate_email is_email is_local_char is_domain_char validate_password validate_username
    is_username_char check_email_exists create_account generate_next_user_id create_core_user
    create_email_auth insert_email_token record_attempt lower request_password_reset request_link
    replace_token invalidate_user_tokens get_user_by_email get_token_with_user
reset_found = refl

newer_apart : ◌≢◌ {A = Text} (2 ∷ codes "newer") (2 ∷ codes "reset")
newer_apart e = ground arith

older_links_refused_example :
    confirm_password_reset marks 300 300 [] (codes "reset") (codes "NewPassw0rd!") asked_again
    ≡ raised (token_already_used password_reset) asked_again
unfolding validate_password
older_links_refused_example =
    older_links_refused marks 260 260 (codes "newer") (codes "Ada@genji.io") none newer_event asked
      asked_again 300 300 [] (codes "reset") (codes "NewPassw0rd!") ada_account ada_reset
      ada_asks_again ada_still_found reset_found refl newer_apart refl

ada_resets :
    confirm_password_reset marks 300 300 [] (codes "reset") (codes "NewPassw0rd!") asked
    ≡ returned ada_unverified reset_done
unfolding register register_user check_rate_limit rate_limits_for fetch_rate_limit_count
    validate_email is_email is_local_char is_domain_char validate_password validate_username
    is_username_char check_email_exists create_account generate_next_user_id create_core_user
    create_email_auth insert_email_token record_attempt lower request_password_reset request_link
    replace_token invalidate_user_tokens get_user_by_email get_token_with_user
    confirm_password_reset revoke_remember_tokens
ada_resets = refl

confirm_password_reset_once_example :
    confirm_password_reset marks 310 310 [] (codes "reset") (codes "Anoth3r!") reset_done
    ≡ raised (token_already_used password_reset) reset_done
unfolding validate_password
confirm_password_reset_once_example =
    confirm_password_reset_once marks 300 300 [] (codes "reset") (codes "NewPassw0rd!") asked
      reset_done ada_unverified 310 310 [] (codes "reset") (codes "Anoth3r!") ada_reset ada_resets
      reset_found refl refl

abbrev new_login : EmailLoginRequest
new_login = record { email = codes "Ada@genji.io"; password = codes "NewPassw0rd!" }

may_log_in :
    check_rate_limit 320 (lower (codes "Ada@genji.io")) (codes "login") reset_done
    ≡ returned tt reset_done
unfolding register register_user check_rate_limit rate_limits_for fetch_rate_limit_count
    validate_email is_email is_local_char is_domain_char validate_password validate_username
    is_username_char check_email_exists create_account generate_next_user_id create_core_user
    create_email_auth insert_email_token record_attempt lower request_password_reset request_link
    replace_token invalidate_user_tokens get_user_by_email get_token_with_user
    confirm_password_reset revoke_remember_tokens mark_token_used update_password
may_log_in = refl

address_may_log_in_too :
    check_client_ip 320 (some (codes "10.0.0.7")) (codes "login") reset_done
    ≡ returned tt reset_done
unfolding register register_user check_rate_limit rate_limits_for fetch_rate_limit_count
    validate_email is_email is_local_char is_domain_char validate_password validate_username
    is_username_char check_email_exists create_account generate_next_user_id create_core_user
    create_email_auth insert_email_token record_attempt lower request_password_reset request_link
    replace_token invalidate_user_tokens get_user_by_email get_token_with_user
    confirm_password_reset revoke_remember_tokens mark_token_used update_password
address_may_log_in_too = refl

login_after_reset_example :
    login marks 320 320 new_login (some (codes "10.0.0.7")) reset_done
    ≡ returned
        (login_response ada_account)
        (record_attempt 320 (lower (codes "Ada@genji.io")) (codes "login") true reset_done)
login_after_reset_example =
    login_after_reset marks 300 300 [] (codes "reset") (codes "NewPassw0rd!") asked reset_done
      ada_unverified 320 320 new_login (some (codes "10.0.0.7")) ada_account marks_accept ada_resets
      refl ada_still_found refl may_log_in address_may_log_in_too
