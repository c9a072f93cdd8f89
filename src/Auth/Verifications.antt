-- ===== src/Auth/Verifications.antt =====
-- Verifying an email, and the tokens that a verification leaves.
use genjishimada.Base.{
  ℕ, ◌≡◌, ◌≤◌, true, false, Option, none, some, is_some, ltb, arith, Option-cases, inl, inr,
  if◌then◌else◌,
}
use mathlib.Core.Option
use genjishimada.Base.Text.{Text, text_eq}
use genjishimada.Auth.Tables.{verification, AuthDb}
use genjishimada.Auth.Action.{
  returned, Outcome, returned, raised, token_already_used, token_invalid, token_expired,
  email_already_verified,
}
use genjishimada.Auth.Repository.{
  TokenData, get_token_with_user, mark_token_used, mark_email_verified, invalidate_user_tokens,
}
use genjishimada.Auth.Service.{Crypto, AuthUserVerify, verify_email, verified_user}
use genjishimada.Auth.Found.{
  with_verified, on_account, use_token, after_invalidation, get_token_with_user-mark_email_verified,
  get_token_with_user-mark_token_used, get_token_with_user-invalidate_user_tokens,
}

-- The tables after a verification with the token of hash `g`.
abbrev pub after_verification : ℕ → Text → ℕ → AuthDb → AuthDb
after_verification now g u db =
    invalidate_user_tokens now u verification (mark_email_verified now u (mark_token_used now g db))

-- How a verification ends, by the row that the token has.
abbrev pub verification_of :
    Crypto → ℕ → ℕ → Text → AuthDb → Option TokenData → Outcome AuthUserVerify
verification_of crypto wall now token db none = raised (token_invalid verification) db
verification_of crypto wall now token db (some t) =
    if is_some t.used_at
    then raised (token_already_used verification) db
    else if ltb t.expires_at wall
    then raised (token_expired verification) db
    else if is_some t.account.email_verified_at
    then raised email_already_verified db
    else returned (verified_user t.account true)
        (after_verification now (crypto.sha256 token) t.account.user_id db)

pub verify_email_lem :
    (crypto : Crypto) (wall now : ℕ) (token : Text) (db : AuthDb)
    → verify_email crypto wall now token db
      ≡ verification_of crypto wall now token db
          (get_token_with_user (crypto.sha256 token) verification db)
unfolding verify_email
verify_email_lem crypto wall now token db = ground arith

get_token_with_user-after_verification :
    (now u : ℕ) (g k : Text) (db : AuthDb)
    → get_token_with_user k verification (after_verification now g u db)
      ≡ Option.map
          (λ t.
            after_invalidation now u verification verification
              (on_account (with_verified now u) (use_token (text_eq k g) now t)))
          (get_token_with_user k verification db)
get_token_with_user-after_verification now u g k db = ground (
  arith,
  get_token_with_user-mark_token_used now g k verification db,
  get_token_with_user-mark_email_verified now u k verification (mark_token_used now g db),
  get_token_with_user-invalidate_user_tokens now u k verification verification
      (mark_email_verified now u (mark_token_used now g db)),
)

used_link_refused :
    (crypto : Crypto) (wall now : ℕ) (token : Text) (db : AuthDb) (t : TokenData)
    → get_token_with_user (crypto.sha256 token) verification db ≡ some t
    → is_some t.used_at ≡ true
    → verify_email crypto wall now token db ≡ raised (token_already_used verification) db
used_link_refused crypto wall now token db t found spent =
    ground (arith, verify_email_lem crypto wall now token db)

verification_done :
    (crypto : Crypto) (wall now : ℕ) (token : Text) (db db' : AuthDb) (r : AuthUserVerify)
    → verify_email crypto wall now token db ≡ returned r db'
    → (t : TokenData) × (get_token_with_user (crypto.sha256 token) verification db ≡ some t)
      × (wall ≤ t.expires_at)
      × (is_some t.account.email_verified_at ≡ false)
      × (r ≡ verified_user t.account true)
      × (db' ≡ after_verification now (crypto.sha256 token) t.account.user_id db)
verification_done crypto wall now token db db' r done =
    let run = verify_email_lem crypto wall now token db in
    elim (Option-cases (get_token_with_user (crypto.sha256 token) verification db)) [
      | inl e ↦ absurd (ground arith)
      | inr (t, e) ↦ (t, e, ground arith, ground arith, ground arith, ground arith)
    ]

-- A verification spends every verification link of its user: after it, the same link and every
-- other verification link that the user had is refused with TokenAlreadyUsedError at any time and
-- changes nothing.
pub verify_email_once :
    (crypto : Crypto) (wall now : ℕ) (token : Text) (db db' : AuthDb) (r : AuthUserVerify)
    (wall' now' : ℕ) (other : Text) (t : TokenData)
    → verify_email crypto wall now token db ≡ returned r db'
    → get_token_with_user (crypto.sha256 other) verification db ≡ some t
    → t.account.user_id ≡ r.id
    → verify_email crypto wall' now' other db' ≡ raised (token_already_used verification) db'
verify_email_once crypto wall now token db db' r wall' now' other t done found same =
    let (t0, _, _, _, response, tables) = verification_done crypto wall now token db db' r done in
    let g = crypto.sha256 token in
    let k = crypto.sha256 other in
    let u = t0.account.user_id in
    used_link_refused crypto wall' now' other db'
      (after_invalidation now u verification verification
        (on_account (with_verified now u) (use_token (text_eq k g) now t)))
      (ground (arith, get_token_with_user-after_verification now u g k db)) (ground arith)
