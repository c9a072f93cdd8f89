-- ===== src/Auth/SessionRepository.antt =====
-- The statements of apps/api/repository/auth_repository.py on sessions and remember tokens. `now`
-- is the database's clock.
use genjishimada.Base.{
  ℕ, ◌+◌, ◌*◌, Bool, true, false, not, ◌&&◌, Option, none, some, List, [], ◌∷◌, ◌==◌, ltb, leb,
  opt_eq, if◌then◌else◌,
}
use genjishimada.Base.Dict.{Dict, lookup, contains}
use genjishimada.Base.Lists.{filter, any, find?}
use genjishimada.Base.Rows.{update_where, delete_where, count_where}
use genjishimada.Base.Text.{Text, text_eq}
use genjishimada.Auth.Tables.{User, Session, RememberToken, AuthDb}
use genjishimada.Auth.Action.{Action, foreign_key_violation, pure, raise, returned}

abbrev pub has_id : Text → Session → Bool
has_id id s = text_eq s.id id

-- `last_activity > now() - lifetime`
abbrev pub is_active : ℕ → ℕ → Session → Bool
is_active now minutes s = ltb now (s.last_activity + minutes * 60)

-- `last_activity < now() - lifetime`
abbrev pub is_expired : ℕ → ℕ → Session → Bool
is_expired now minutes s = ltb (s.last_activity + minutes * 60) now

abbrev pub is_readable : ℕ → Text → ℕ → Session → Bool
is_readable now id minutes s = has_id id s && is_active now minutes s

abbrev pub payload_of : Option Session → Option Text
payload_of none = none
payload_of (some s) = some s.payload

-- `read_session`, an update that returns the payload
unfoldable pub read_session : ℕ → Text → ℕ → Action (Option Text)
read_session now id minutes db =
    returned (payload_of (find? (is_readable now id minutes) db.sessions)) (record db {
      sessions =
          update_where (is_readable now id minutes) (λ s. record s { last_activity = now })
            db.sessions;
    })

abbrev pub user_exists : Option ℕ → AuthDb → Bool
user_exists none db = true
user_exists (some u) db = contains u db.users

abbrev pub upsert_session : Session → List Session → List Session
upsert_session new rows =
    if any (has_id new.id) rows then update_where (has_id new.id) (λ s. new) rows else new ∷ rows

-- `write_session`, with the foreign key of its table
unfoldable pub write_session :
    ℕ → Text → Text → Option ℕ → Option Text → Option Text → Action (Unit {0})
write_session now id payload u ip_address user_agent db =
    let new : Session = record {
      id = id;
      user_id = u;
      payload = payload;
      last_activity = now;
      ip_address = ip_address;
      user_agent = user_agent;
    } in
    if user_exists u db
    then pure tt (record db { sessions = upsert_session new db.sessions })
    else raise foreign_key_violation db

-- `delete_session`: the command tag is `DELETE 1` where one row had the id.
unfoldable pub delete_session : Text → Action Bool
delete_session id db =
    returned (count_where (has_id id) db.sessions == 1)
      (record db { sessions = delete_where (has_id id) db.sessions })

-- `delete_expired_sessions`
unfoldable pub delete_expired_sessions : ℕ → ℕ → Action ℕ
delete_expired_sessions now minutes db =
    returned (count_where (is_expired now minutes) db.sessions)
      (record db { sessions = delete_where (is_expired now minutes) db.sessions })

abbrev pub insert_latest : Session → List Session → List Session
insert_latest s [] = s ∷ []
insert_latest s (t ∷ ts) =
    if leb t.last_activity s.last_activity then s ∷ t ∷ ts else t ∷ insert_latest s ts

-- `ORDER BY last_activity DESC`
abbrev pub latest_first : List Session → List Session
latest_first [] = []
latest_first (s ∷ ss) = insert_latest s (latest_first ss)

abbrev pub is_users_active : ℕ → ℕ → ℕ → Session → Bool
is_users_active u now minutes s = opt_eq s.user_id (some u) && is_active now minutes s

-- `get_user_sessions`
unfoldable pub get_user_sessions : ℕ → ℕ → ℕ → AuthDb → List Session
get_user_sessions now u minutes db =
    latest_first (filter (is_users_active u now minutes) db.sessions)

abbrev pub is_exception : Option Text → Text → Bool
is_exception none id = false
is_exception (some []) id = false
is_exception (some (c ∷ s)) id = text_eq id (c ∷ s)

abbrev pub is_other_session : ℕ → Option Text → Session → Bool
is_other_session u kept s = opt_eq s.user_id (some u) && not (is_exception kept s.id)

-- `delete_user_sessions`; an empty id to preserve counts as none.
unfoldable pub delete_user_sessions : ℕ → Option Text → Action ℕ
delete_user_sessions u kept db =
    returned (count_where (is_other_session u kept) db.sessions)
      (record db { sessions = delete_where (is_other_session u kept) db.sessions })

-- `create_remember_token`
unfoldable pub create_remember_token : ℕ → Text → ℕ → Option Text → Option Text → Action (Unit {0})
create_remember_token u token_hash expires_at ip_address user_agent db =
    let new : RememberToken = record {
      user_id = u;
      token_hash = token_hash;
      expires_at = expires_at;
      last_used_at = none;
      ip_address = ip_address;
      user_agent = user_agent;
    } in
    if contains u db.users
    then pure tt (record db { remember_tokens = new ∷ db.remember_tokens })
    else raise foreign_key_violation db

abbrev pub has_hash : Text → RememberToken → Bool
has_hash token_hash r = text_eq r.token_hash token_hash

abbrev pub is_valid : ℕ → Text → RememberToken → Bool
is_valid now token_hash r = has_hash token_hash r && ltb now r.expires_at

-- `validate_remember_token`
unfoldable pub validate_remember_token : ℕ → Text → Action (Option ℕ)
validate_remember_token now token_hash db =
    elim (find? (is_valid now token_hash) db.remember_tokens) [
      | none ↦ pure none db
      | some r ↦ pure (some r.user_id) (record db {
        remember_tokens =
            update_where (has_hash token_hash) (λ t. record t { last_used_at = some now })
              db.remember_tokens;
      })
    ]

abbrev pub moderates : Dict User → Option ℕ → Bool
moderates users none = false
moderates users (some u) = elim (lookup u users) [ none ↦ false | some user ↦ user.is_mod ]

abbrev pub session_user : Option Session → Option ℕ
session_user none = none
session_user (some s) = s.user_id

-- `check_is_mod`: the ids of the sessions are a primary key.
unfoldable pub check_is_mod : Text → AuthDb → Bool
check_is_mod id db = moderates db.users (session_user (find? (has_id id) db.sessions))
