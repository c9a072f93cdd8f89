-- ===== src/Auth/Tests.antt =====
-- Instances of the theorems about the accounts on the requests of Samples.
use genjishimada.Base.{some, ◌≡◌, refl, true, none, [], ◌∷◌, arith}
use genjishimada.Base.Text.{codes, lower}
use genjishimada.Auth.Action.{returned}
use genjishimada.Auth.Validation.{
  validate_email, validate_password, validate_username, is_email, is_local_char, is_domain_char,
  is_username_char,
}
use genjishimada.Auth.Limits.{check_client_ip, check_rate_limit, rate_limits_for}
use genjishimada.Auth.Repository.{
  fetch_rate_limit_count, record_attempt, check_email_exists, generate_next_user_id,
  create_core_user, create_email_auth, insert_email_token,
}
use genjishimada.Auth.Service.{create_account, register_user, register, login, verify_email}
use genjishimada.Auth.FirstSteps.{first_login, register_then_login, register_then_verify}
use genjishimada.Auth.Verifications.{after_verification}
use genjishimada.Auth.Samples.{
  marks, marks_accept, nobody, ada, ada_again, ada_public, ada_event, with_ada, ada_verified,
}

ada_registers :
    register marks 100 100 [] (codes "link") ada none nobody
    ≡ returned (ada_public, ada_event) with_ada
unfolding register register_user check_rate_limit rate_limits_for fetch_rate_limit_count
    validate_email is_email is_local_char is_domain_char validate_password validate_username
    is_username_char check_email_exists create_account generate_next_user_id create_core_user
    create_email_auth insert_email_token record_attempt lower
ada_registers = refl

ada_may_log_in :
    check_rate_limit 200 (lower (codes "ada@GENJI.io")) (codes "login") with_ada
    ≡ returned tt with_ada
unfolding register register_user check_rate_limit rate_limits_for fetch_rate_limit_count
    validate_email is_email is_local_char is_domain_char validate_password validate_username
    is_username_char check_email_exists create_account generate_next_user_id create_core_user
    create_email_auth insert_email_token record_attempt lower
ada_may_log_in = refl

address_may_log_in :
    check_client_ip 200 (some (codes "10.0.0.7")) (codes "login") with_ada ≡ returned tt with_ada
unfolding register register_user check_rate_limit rate_limits_for fetch_rate_limit_count
    validate_email is_email is_local_char is_domain_char validate_password validate_username
    is_username_char check_email_exists create_account generate_next_user_id create_core_user
    create_email_auth insert_email_token record_attempt lower
address_may_log_in = refl

register_then_login_example :
    login marks 200 200 ada_again (some (codes "10.0.0.7")) with_ada
    ≡ returned
        (first_login ada 100000000)
        (record_attempt 200 (lower (codes "ada@GENJI.io")) (codes "login") true with_ada)
unfolding lower
register_then_login_example =
    register_then_login marks 100 100 [] (codes "link") ada none nobody with_ada ada_public
      ada_event 200 200 ada_again (some (codes "10.0.0.7")) marks_accept ada_registers refl refl
      ada_may_log_in address_may_log_in

register_then_verify_example :
    verify_email marks 150 150 (codes "link") with_ada
    ≡ returned ada_verified (after_verification 150 (2 ∷ codes "link") 100000000 with_ada)
register_then_verify_example =
    register_then_verify marks 100 100 [] (codes "link") ada none nobody with_ada ada_public
      ada_event 150 150 ada_registers (omega arith)
