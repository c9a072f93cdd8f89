-- ===== src/Auth/Masking.antt =====
-- Masking an email for its owner's status page.
use genjishimada.Base.{ℕ, ◌≡◌, refl, Bool, true, false, List, [], ◌∷◌, ◌==◌, arith, is_some}
use genjishimada.Base.Text.{Text}
use genjishimada.Auth.Validation.{
  is_email, is_local_char, is_domain_char, letters_to_end, is_top_level, rest_of_domain, is_domain,
  rest_of_email,
}
use genjishimada.Auth.SessionService.{split_at, mask_email}

letters_whole : (s : Text) → letters_to_end s ≡ true → split_at s ≡ s ∷ []
letters_whole [] h = refl
letters_whole (c ∷ []) h = ground arith
letters_whole (c ∷ d ∷ s) h = ground (arith, letters_whole (d ∷ s))

top_level_whole : (s : Text) → is_top_level s ≡ true → split_at s ≡ s ∷ []
top_level_whole [] h = refl
top_level_whole (a ∷ []) h = ground arith
top_level_whole (a ∷ b ∷ s) h = ground (arith, letters_whole s)

domain_char_apart : (c : ℕ) → is_domain_char c ≡ true → (c == 64) ≡ false
unfolding is_domain_char
domain_char_apart c h = ground arith

local_char_apart : (c : ℕ) → is_local_char c ≡ true → (c == 64) ≡ false
unfolding is_local_char
local_char_apart c h = ground arith

rest_of_domain_whole : (s : Text) → rest_of_domain s ≡ true → split_at s ≡ s ∷ []
rest_of_domain_whole [] h = refl
rest_of_domain_whole (c ∷ s) h =
    ground (arith, rest_of_domain_whole s, top_level_whole s, domain_char_apart c)

domain_whole : (s : Text) → is_domain s ≡ true → split_at s ≡ s ∷ []
domain_whole [] h = refl
domain_whole (c ∷ s) h = ground (arith, rest_of_domain_whole s, domain_char_apart c)

abbrev two_parts : List Text → Bool
two_parts (a ∷ b ∷ []) = true
two_parts _ = false

rest_of_email_splits : (s : Text) → rest_of_email s ≡ true → two_parts (split_at s) ≡ true
rest_of_email_splits [] h = ground arith
rest_of_email_splits (c ∷ s) h =
    ground (arith, rest_of_email_splits s, domain_whole s, local_char_apart c)

email_splits : (s : Text) → is_email s ≡ true → two_parts (split_at s) ≡ true
unfolding is_email
email_splits [] h = ground arith
email_splits (c ∷ s) h = ground (arith, rest_of_email_splits s, local_char_apart c)

pub mask_email_of_email : (s : Text) → is_email s ≡ true → is_some (mask_email s) ≡ true
unfolding mask_email
mask_email_of_email s h = ground (arith, email_splits s h)
