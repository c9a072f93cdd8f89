-- ===== src/Auth/Sessions.antt =====
-- Sessions and remembered logins: what is read back, for how long, and what a logout leaves.
use genjishimada.Base.{
  ℕ, ◌+◌, ◌*◌, ◌≡◌, refl, ◌≤◌, Bool, true, false, not, ◌||◌, ◌∙◌, Option, none, some, List, [], ◌∷◌,
  arith, ltb, Option-cases, inl, inr, if◌then◌else◌,
}
use genjishimada.Base.Lists.{filter, any, find?, find?-sound}
use genjishimada.Base.Rows.{update_where, delete_where, find?-delete_others, find?-delete_where}
use genjishimada.Base.Text.{Text, text_eq_refl, text_eq_iff}
use genjishimada.Auth.Tables.{Session, RememberToken, AuthDb}
use genjishimada.Auth.Action.{Outcome, returned, raised, tables_of}
use genjishimada.Auth.SessionRepository
use genjishimada.Auth.SessionRepository.{
  has_id, is_active, is_expired, is_readable, payload_of, read_session, write_session,
  delete_session, delete_expired_sessions, get_user_sessions, delete_user_sessions, upsert_session,
  latest_first, insert_latest, is_exception, is_other_session, is_users_active,
}
use genjishimada.Auth.SessionService.{
  session_lifetime_minutes, SessionReadResponse, session_read, session_write, session_destroy,
  session_gc, session_destroy_all_for_user, create_remember_token, validate_remember_token,
}
use genjishimada.Auth.Service.{Crypto}

-- The payload that a call of `session_read` gives.
abbrev pub payload_read : Outcome SessionReadResponse → Option Text
payload_read (returned r db) = r.payload
payload_read (raised e db) = none

abbrev pub stored_payload : ℕ → Text → AuthDb → Option Text
stored_payload now id db =
    payload_of (find? (is_readable now id session_lifetime_minutes) db.sessions)

session_read-payload :
    (now : ℕ) (id : Text) (db : AuthDb)
    → payload_read (session_read now id db) ≡ stored_payload now id db
unfolding session_read read_session
session_read-payload now id db = ground arith

find_written :
    (now : ℕ) (id : Text) (minutes : ℕ) (new : Session) (rows : List Session)
    → new.id ≡ id
    → is_active now minutes new ≡ true
    → any (has_id id) rows ≡ true
    → find? (is_readable now id minutes) (update_where (has_id id) (λ s. new) rows) ≡ some new
find_written now id minutes new [] same active found = absurd (ground arith)
find_written now id minutes new (s ∷ rows) same active found =
    ground (arith, text_eq_iff new.id id, find_written now id minutes new rows same active)

find_stale :
    (now : ℕ) (id : Text) (minutes : ℕ) (new : Session) (rows : List Session)
    → is_active now minutes new ≡ false
    → find? (is_readable now id minutes) (update_where (has_id id) (λ s. new) rows) ≡ none
find_stale now id minutes new [] stale = refl
find_stale now id minutes new (s ∷ rows) stale =
    ground (arith, find_stale now id minutes new rows stale)

find_missing :
    (now : ℕ) (id : Text) (minutes : ℕ) (rows : List Session)
    → any (has_id id) rows ≡ false
    → find? (is_readable now id minutes) rows ≡ none
find_missing now id minutes [] missing = refl
find_missing now id minutes (s ∷ rows) missing = ground (arith, find_missing now id minutes rows)

find_upserted :
    (now minutes : ℕ) (new : Session) (rows : List Session)
    → find? (is_readable now new.id minutes) (upsert_session new rows)
      ≡ (if is_active now minutes new then some new else none)
find_upserted now minutes new rows = ground (
  arith,
  text_eq_refl new.id,
  find_written now new.id minutes new rows refl,
  find_stale now new.id minutes new rows,
  find_missing now new.id minutes rows,
)

-- A session that has been written is read back with its payload for ninety days and not
-- afterwards, whether or not a session of that id was there before.
pub session_read_after_write :
    (now now' : ℕ) (id payload : Text) (u : Option ℕ) (ip agent : Option Text) (db db' : AuthDb)
    → session_write now id payload u ip agent db ≡ returned tt db'
    → payload_read (session_read now' id db')
      ≡ (if ltb now' (now + 90 * 24 * 3600) then some payload else none)
unfolding write_session
session_read_after_write now now' id payload u ip agent db db' done =
    let new : Session = record {
      id = id;
      user_id = u;
      payload = payload;
      last_activity = now;
      ip_address = ip;
      user_agent = agent;
    } in
    ground (
      arith,
      session_read-payload now' id db',
      find_upserted now' session_lifetime_minutes new db.sessions,
    )

-- Collecting old sessions is not noticed: at the moment of the collection and later, every session
-- reads the same payload as without it.
pub session_read_after_gc :
    (now now' : ℕ) (id : Text) (db : AuthDb)
    → now ≤ now'
    → payload_read (session_read now' id (tables_of (session_gc now db)))
      ≡ payload_read (session_read now' id db)
unfolding delete_expired_sessions
session_read_after_gc now now' id db later = ground (
  arith,
  session_read-payload now' id db,
  session_read-payload now' id (tables_of (session_gc now db)),
  find?-delete_others (is_readable now' id session_lifetime_minutes)
      (is_expired now session_lifetime_minutes) db.sessions (λ s e. ground arith),
)

none_valid :
    (now : ℕ) (k : Text) (rows : List RememberToken)
    → any (SessionRepository.has_hash k) rows ≡ false
    → find? (SessionRepository.is_valid now k) rows ≡ none
none_valid now k [] fresh = refl
none_valid now k (r ∷ rows) fresh = ground (arith, none_valid now k rows)

-- The user that a call of `validate_remember_token` gives.
abbrev pub user_of : Outcome (Option ℕ) → Option ℕ
user_of (returned o db) = o
user_of (raised e db) = none

-- A session that has been destroyed reads nothing.
pub session_read_after_destroy :
    (now : ℕ) (id : Text) (db : AuthDb)
    → payload_read (session_read now id (tables_of (session_destroy id db))) ≡ none
unfolding delete_session
session_read_after_destroy now id db =
    let p = is_readable now id session_lifetime_minutes in
    let rows = delete_where (has_id id) db.sessions in
    elim (Option-cases (find? p rows)) [
      | inl e ↦ ground (arith, session_read-payload now id (tables_of (session_destroy id db)))
      | inr (s, e) ↦
          absurd (
            ground
              (arith, find?-delete_where p (has_id id) db.sessions s e, find?-sound p rows s e))
    ]

any-insert_latest :
    (p : Session → Bool) (s : Session) (rows : List Session)
    → any p (insert_latest s rows) ≡ (p s || any p rows)
any-insert_latest p s [] = ground arith
any-insert_latest p s (x ∷ rows) = ground (arith, any-insert_latest p s rows)

any-latest_first :
    (p : Session → Bool) (rows : List Session) → any p (latest_first rows) ≡ any p rows
any-latest_first p [] = refl
any-latest_first p (s ∷ rows) =
    ground (arith, any-insert_latest p s (latest_first rows), any-latest_first p rows)

none_other_left :
    (u now minutes : ℕ) (kept : Option Text) (rows : List Session)
    → any
        (λ s. not (is_exception kept s.id))
        (filter (is_users_active u now minutes) (delete_where (is_other_session u kept) rows))
      ≡ false
none_other_left u now minutes kept [] = refl
none_other_left u now minutes kept (s ∷ rows) =
    ground (arith, none_other_left u now minutes kept rows)

-- After logging a user out everywhere, but for a session to keep, no session that the user's list
-- shows, at any time, is another than the one to keep; without one to keep the list is empty.
pub session_get_user_sessions_after_logout :
    (u now : ℕ) (kept : Option Text) (db : AuthDb)
    → any
        (λ s. not (is_exception kept s.id))
        (get_user_sessions now u session_lifetime_minutes
          (tables_of (session_destroy_all_for_user u kept db)))
      ≡ false
unfolding get_user_sessions delete_user_sessions
session_get_user_sessions_after_logout u now kept db =
    any-latest_first (λ s. not (is_exception kept s.id))
      (filter (is_users_active u now session_lifetime_minutes)
        (delete_where (is_other_session u kept) db.sessions))
    ∙ none_other_left u now session_lifetime_minutes kept db.sessions

-- A remembered login works for thirty days: the token that was made for a user is valid for that
-- user before then, and for nobody from then on, where no other token has its hash.
pub validate_remember_token_after_create :
    (c : Crypto) (wall now : ℕ) (token sent : Text) (u : ℕ) (ip agent : Option Text)
    (db db' : AuthDb)
    → create_remember_token c wall token u ip agent db ≡ returned sent db'
    → any (SessionRepository.has_hash (c.sha256 token)) db.remember_tokens ≡ false
    → user_of (validate_remember_token c now sent db')
      ≡ (if ltb now (wall + 30 * 86400) then some u else none)
unfolding create_remember_token SessionRepository.create_remember_token validate_remember_token
    SessionRepository.validate_remember_token
validate_remember_token_after_create c wall now token sent u ip agent db db' done fresh =
    ground (
      arith,
      text_eq_refl (c.sha256 token),
      none_valid now (c.sha256 token) db.remember_tokens fresh,
    )
