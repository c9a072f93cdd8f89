-- ===== src/Auth/Samples.antt =====
-- Hashes and requests that the tests of the accounts run on.
use genjishimada.Base.{◌≡◌, true, false, none, some, [], ◌∷◌, arith, ltb, if◌then◌else◌}
use genjishimada.Base.Lists.{length}
use genjishimada.Base.Text.{Text, codes, text_eq, text_eq_refl}
use genjishimada.Auth.Tables.{AuthDb}
use genjishimada.Auth.Action.{tables_of}
use genjishimada.Auth.Service.{
  Crypto, AuthUserPublic, AuthUserVerify, EmailEvent, EmailRegisterRequest, EmailLoginRequest,
  register, verify_email, request_password_reset, confirm_password_reset,
}

-- Hashes that mark their text, of passwords that are not too long for bcrypt.
abbrev pub marks : Crypto
marks = record {
  hashpw = λ p s. if ltb 72 (length p) then none else some (1 ∷ p);
  checkpw = λ p h. if ltb 72 (length p) then none else some (text_eq h (1 ∷ p));
  sha256 = λ t. 2 ∷ t;
}

pub marks_accept : (p s h : Text) → marks.hashpw p s ≡ some h → marks.checkpw p h ≡ some true
marks_accept p s h hashed = ground (arith, text_eq_refl h)

abbrev pub nobody : AuthDb
nobody = record {
  users = [];
  email_auth = [];
  email_tokens = [];
  rate_limits = [];
  sessions = [];
  remember_tokens = [];
  next_user_id = 100000000;
}

abbrev pub ada : EmailRegisterRequest
ada = record { email = codes "Ada@genji.io"; password = codes "Passw0rd!"; username = codes "Ada" }

abbrev pub ada_again : EmailLoginRequest
ada_again = record { email = codes "ada@GENJI.io"; password = codes "Passw0rd!" }

abbrev pub ada_public : AuthUserPublic
ada_public = record {
  id = 100000000;
  email = codes "Ada@genji.io";
  username = codes "Ada";
  email_verified = false;
}

abbrev pub ada_event : EmailEvent
ada_event = record { email = codes "Ada@genji.io"; username = codes "Ada"; token = codes "link" }

-- Ada has registered at moment 100.
abbrev pub with_ada : AuthDb
with_ada = tables_of (register marks 100 100 [] (codes "link") ada none nobody)

abbrev pub ada_verified : AuthUserVerify
ada_verified = record {
  id = 100000000;
  email = codes "Ada@genji.io";
  username = codes "Ada";
  email_verified = true;
  is_mod = false;
}

abbrev pub ada_unverified : AuthUserVerify
ada_unverified = record ada_verified { email_verified = false }

-- She has verified her email at moment 150.
abbrev pub verified_ada : AuthDb
verified_ada = tables_of (verify_email marks 150 150 (codes "link") with_ada)

abbrev pub reset_event : EmailEvent
reset_event = record ada_event { token = codes "reset" }

-- She has asked to reset her password at moment 200, and at 260 once more.
abbrev pub asked : AuthDb
asked =
    tables_of
      (request_password_reset marks 200 200 (codes "reset") (codes "Ada@genji.io") none with_ada)

abbrev pub newer_event : EmailEvent
newer_event = record ada_event { token = codes "newer" }

abbrev pub asked_again : AuthDb
asked_again =
    tables_of
      (request_password_reset marks 260 260 (codes "newer") (codes "Ada@genji.io") none asked)

-- She has reset it at moment 300 with the first link.
abbrev pub reset_done : AuthDb
reset_done =
    tables_of (confirm_password_reset marks 300 300 [] (codes "reset") (codes "NewPassw0rd!") asked)
