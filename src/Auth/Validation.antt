-- ===== src/Auth/Validation.antt =====
-- The checks of an email, a password and a username. `$` in these patterns also matches before a
-- final line feed, which `match` therefore lets through.
use genjishimada.Base.{
  ℕ, Bool, true, false, not, ◌&&◌, ◌||◌, List, [], ◌∷◌, ◌==◌, ltb, leb, if◌then◌else◌,
}
use genjishimada.Base.Lists.{length, any, is_empty}
use genjishimada.Base.Text.{Text, codes}
use genjishimada.Auth.Action.{
  Requirement, lowercase, uppercase, number, special, too_short, missing, bad_length, bad_character,
  only_whitespace, email_validation, password_validation, username_validation, Result, ok, err,
}

abbrev pub is_between : ℕ → ℕ → ℕ → Bool
is_between a b c = leb a c && leb c b

-- `[a-z]`, `[A-Z]`, `[0-9]`
abbrev pub is_lower : ℕ → Bool
is_lower = is_between 97 122

abbrev pub is_upper : ℕ → Bool
is_upper = is_between 65 90

abbrev pub is_number : ℕ → Bool
is_number = is_between 48 57

abbrev pub is_letter : ℕ → Bool
is_letter c = is_lower c || is_upper c

abbrev pub is_one_of : Text → ℕ → Bool
is_one_of s c = any (λ d. c == d) s

-- `[a-zA-Z0-9._%+-]` and `[a-zA-Z0-9.-]`
unfoldable pub is_local_char : ℕ → Bool
is_local_char c = is_letter c || is_number c || is_one_of (codes "._%+-") c

unfoldable pub is_domain_char : ℕ → Bool
is_domain_char c = is_letter c || is_number c || is_one_of (codes ".-") c

-- `[a-zA-Z]*$`
abbrev pub letters_to_end : Text → Bool
letters_to_end [] = true
letters_to_end (c ∷ s) = ((c == 10) && is_empty s) || (is_letter c && letters_to_end s)

-- `[a-zA-Z]{2,}$`
abbrev pub is_top_level : Text → Bool
is_top_level (a ∷ b ∷ s) = is_letter a && is_letter b && letters_to_end s
is_top_level _ = false

-- What follows a character of the domain: `[a-zA-Z0-9.-]*\.[a-zA-Z]{2,}$`.
abbrev pub rest_of_domain : Text → Bool
rest_of_domain [] = false
rest_of_domain (c ∷ s) = ((c == 46) && is_top_level s) || (is_domain_char c && rest_of_domain s)

abbrev pub is_domain : Text → Bool
is_domain [] = false
is_domain (c ∷ s) = is_domain_char c && rest_of_domain s

-- What follows a character of the local part: `[a-zA-Z0-9._%+-]*@` and the domain.
abbrev pub rest_of_email : Text → Bool
rest_of_email [] = false
rest_of_email (c ∷ s) = ((c == 64) && is_domain s) || (is_local_char c && rest_of_email s)

unfoldable pub is_email : Text → Bool
is_email [] = false
is_email (c ∷ s) = is_local_char c && rest_of_email s

unfoldable pub validate_email : Text → Result (Unit {0})
validate_email email = if is_email email then ok tt else err email_validation

abbrev pub special_characters : Text
special_characters = codes "!@#$%^&*(),.?\":{}|<>_-[]\\;'`~+="

abbrev pub in_class : Requirement → ℕ → Bool
in_class lowercase = is_lower
in_class uppercase = is_upper
in_class number = is_number
in_class special = is_one_of special_characters

abbrev pub password_requirements : List Requirement
password_requirements = lowercase ∷ uppercase ∷ number ∷ special ∷ []

-- The requirements that no character of the password in_class.
abbrev pub missing_from : Text → List Requirement → List Requirement
missing_from p [] = []
missing_from p (r ∷ rs) =
    let rest = missing_from p rs in if any (in_class r) p then rest else r ∷ rest

unfoldable pub validate_password : Text → Result (Unit {0})
validate_password p =
    if ltb (length p) 8
    then err (password_validation too_short)
    else elim (missing_from p password_requirements) [
      | [] ↦ ok tt
      | r ∷ rs ↦ err (password_validation (missing (r ∷ rs)))
    ]

-- The class of USERNAME_PATTERN.
unfoldable pub is_username_char : ℕ → Bool
is_username_char c =
    is_between 0x4e00 0x9fff c
    || is_between 0x3400 0x4dbf c
    || is_between 0x3040 0x309f c
    || is_between 0x30a0 0x30ff c
    || is_between 0xac00 0xd7af c
    || is_letter c
    || is_number c
    || is_one_of (codes "_- ") c

abbrev pub username_to_end : Text → Bool
username_to_end [] = true
username_to_end (c ∷ s) = ((c == 10) && is_empty s) || (is_username_char c && username_to_end s)

abbrev pub matches_username : Text → Bool
matches_username [] = false
matches_username (c ∷ s) = is_username_char c && username_to_end s

-- Of the characters that the pattern lets through, `strip` removes the space and the line feed.
abbrev pub is_blank_username : Text → Bool
is_blank_username s = not (any (λ c. not ((c == 32) || (c == 10))) s)

unfoldable pub validate_username : Text → Result (Unit {0})
validate_username s =
    if ltb (length s) 1 || ltb 20 (length s)
    then err (username_validation bad_length)
    else if not (matches_username s)
    then err (username_validation bad_character)
    else if is_blank_username s
    then err (username_validation only_whitespace)
    else ok tt
