-- ===== src/Auth/SessionTests.antt =====
-- Instances of the theorems about sessions, remembered logins and emails.
use genjishimada.Base.{◌≡◌, refl, ◌↔◌, false, none, [], ◌∷◌}
use genjishimada.Base.Int.{pos}
use genjishimada.Base.Text.{codes}
use genjishimada.Auth.Tables.{AuthDb}
use genjishimada.Auth.Action.{returned, ok, tables_of}
use genjishimada.Auth.Validation.{validate_email}
use genjishimada.Auth.SessionRepository
use genjishimada.Auth.SessionRepository.{write_session, get_user_sessions, is_exception}
use genjishimada.Auth.SessionService.{session_write, create_remember_token}
use genjishimada.Auth.Emails.{Email, validate_email-Email}
use genjishimada.Auth.Samples.{marks, nobody}

abbrev visited : AuthDb
visited = tables_of (session_write 500 (codes "s1") (codes "data") none none none nobody)

session_written :
    session_write 500 (codes "s1") (codes "data") none none none nobody ≡ returned tt visited
unfolding write_session
session_written = refl

abbrev with_user : AuthDb
with_user = record nobody {
  users = (7, record { nickname = codes "Bo"; coins = pos 0; is_mod = false }) ∷ [];
}

abbrev remembered : AuthDb
remembered = tables_of (create_remember_token marks 500 (codes "keep") 7 none none with_user)

token_made :
    create_remember_token marks 500 (codes "keep") 7 none none with_user
    ≡ returned (codes "keep") remembered
unfolding create_remember_token SessionRepository.create_remember_token
token_made = refl

validate_email-Email_example :
    (validate_email (codes "ada@genji.io") ≡ ok tt) ↔ Email (codes "ada@genji.io")
validate_email-Email_example = validate_email-Email (codes "ada@genji.io")
