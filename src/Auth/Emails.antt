-- ===== src/Auth/Emails.antt =====
-- The emails that the validation of apps/api/services/auth_service.py lets through, described as
-- the words of its pattern.
use genjishimada.Base.{
  ℕ, ◌≡◌, refl, ◌≤◌, ◌↔◌, Bool, true, ◌&&◌, [], ◌∷◌, ◌++◌, ◌==◌, arith, Bool-cases, inl, inr,
}
use genjishimada.Base.Lists.{length, is_empty}
use genjishimada.Base.Text.{Text}
use genjishimada.Auth.Validation.{
  is_email, validate_email, is_local_char, is_domain_char, is_letter, letters_to_end, is_top_level,
  rest_of_domain, is_domain, rest_of_email,
}
use genjishimada.Auth.Action.{ok}

-- Every character passes a test.
abbrev pub all_of : (ℕ → Bool) → Text → Bool
all_of p [] = true
all_of p (c ∷ s) = p c && all_of p s

-- `$` lets a final line feed through.
abbrev pub is_end : Text → Bool
is_end [] = true
is_end (c ∷ s) = (c == 10) && is_empty s

-- The letters of a top level domain, and then the end.
abbrev pub TopLevel : Text → Type 0
TopLevel s =
    (word : Text) × (end : Text) × (s ≡ word ++ end)
    × (2 ≤ length word)
    × (all_of is_letter word ≡ true)
    × (is_end end ≡ true)

abbrev pub Letters : Text → Type 0
Letters s =
    (word : Text) × (end : Text) × (s ≡ word ++ end)
    × (all_of is_letter word ≡ true)
    × (is_end end ≡ true)

Letters-sound : (s : Text) → letters_to_end s ≡ true → Letters s
Letters-sound [] h = ([], [], refl, refl, refl)
Letters-sound (c ∷ s) h = elim (Bool-cases ((c == 10) && is_empty s)) [
  | inl e ↦ ([], c ∷ s, refl, refl, e)
  | inr e ↦
      let (word, end, split, letters, ends) = Letters-sound s (ground arith) in
      (c ∷ word, end, cc, ground arith, ends)
]

letters_of_end : (s : Text) → is_end s ≡ true → letters_to_end s ≡ true
letters_of_end [] h = refl
letters_of_end (c ∷ s) h = ground arith

letters_complete :
    (word end : Text)
    → all_of is_letter word ≡ true
    → is_end end ≡ true
    → letters_to_end (word ++ end) ≡ true
letters_complete [] end letters ends = letters_of_end end ends
letters_complete (c ∷ word) end letters ends = ground (arith, letters_complete word end)

TopLevel-sound : (s : Text) → is_top_level s ≡ true → TopLevel s
TopLevel-sound [] h = absurd (ground arith)
TopLevel-sound (a ∷ []) h = absurd (ground arith)
TopLevel-sound (a ∷ b ∷ s) h =
    let (word, end, split, letters, ends) = Letters-sound s (ground arith) in
    (a ∷ b ∷ word, end, cc, omega arith, ground arith, ends)

top_level_complete :
    (word end : Text)
    → 2 ≤ length word
    → all_of is_letter word ≡ true
    → is_end end ≡ true
    → is_top_level (word ++ end) ≡ true
top_level_complete [] end long letters ends = absurd (omega arith)
top_level_complete (a ∷ []) end long letters ends = absurd (omega arith)
top_level_complete (a ∷ b ∷ word) end long letters ends = ground (arith, letters_complete word end)

-- The words of the pattern: a local part, `@`, a domain, a dot, and a top level domain of two
-- letters or more, each part without a character that its class lacks; and perhaps a line feed.
abbrev pub Email : Text → Type 0
Email s =
    (local : Text) × (domain : Text) × (top : Text) × (end : Text) × (s
      ≡ local ++ 64 ∷ (domain ++ 46 ∷ (top ++ end)))
    × (1 ≤ length local)
    × (all_of is_local_char local ≡ true)
    × (1 ≤ length domain)
    × (all_of is_domain_char domain ≡ true)
    × (2 ≤ length top)
    × (all_of is_letter top ≡ true)
    × (is_end end ≡ true)

abbrev Domain : Text → Type 0
Domain s =
    (domain : Text) × (top : Text) × (end : Text) × (s ≡ domain ++ 46 ∷ (top ++ end))
    × (all_of is_domain_char domain ≡ true)
    × (2 ≤ length top)
    × (all_of is_letter top ≡ true)
    × (is_end end ≡ true)

rest_of_domain_sound : (s : Text) → rest_of_domain s ≡ true → Domain s
rest_of_domain_sound [] h = absurd (ground arith)
rest_of_domain_sound (c ∷ s) h = elim (Bool-cases ((c == 46) && is_top_level s)) [
  | inl e ↦
      let (top, end, split, long, letters, ends) = TopLevel-sound s (ground arith) in
      let dot : c ≡ 46 = ground arith in ([], top, end, cc, refl, long, letters, ends)
  | inr e ↦
      let (domain, top, end, split, chars, long, letters, ends) =
        rest_of_domain_sound s (ground arith) in
      (c ∷ domain, top, end, cc, ground arith, long, letters, ends)
]

rest_of_domain_complete :
    (domain top end : Text)
    → all_of is_domain_char domain ≡ true
    → 2 ≤ length top
    → all_of is_letter top ≡ true
    → is_end end ≡ true
    → rest_of_domain (domain ++ 46 ∷ (top ++ end)) ≡ true
rest_of_domain_complete [] top end chars long letters ends =
    ground (arith, top_level_complete top end)
rest_of_domain_complete (c ∷ domain) top end chars long letters ends =
    ground (arith, rest_of_domain_complete domain top end)

rest_of_email_sound :
    (s : Text)
    → rest_of_email s ≡ true
    → (local : Text) × (domain : Text) × (top : Text) × (end : Text) × (s
        ≡ local ++ 64 ∷ (domain ++ 46 ∷ (top ++ end)))
      × (all_of is_local_char local ≡ true)
      × (1 ≤ length domain)
      × (all_of is_domain_char domain ≡ true)
      × (2 ≤ length top)
      × (all_of is_letter top ≡ true)
      × (is_end end ≡ true)
rest_of_email_sound [] h = absurd (ground arith)
rest_of_email_sound (c ∷ []) h = absurd (ground arith)
rest_of_email_sound (c ∷ d ∷ s) h = elim (Bool-cases ((c == 64) && is_domain (d ∷ s))) [
  | inl e ↦
      let (domain, top, end, split, chars, long, letters, ends) =
        rest_of_domain_sound s (ground arith) in
      let mark : c ≡ 64 = ground arith in
      ([], d ∷ domain, top, end, cc, refl, omega arith, ground arith, long, letters, ends)
  | inr e ↦
      let (local, domain, top, end, split, locals, some_domain, chars, long, letters, ends) =
        rest_of_email_sound (d ∷ s) (ground arith) in
      (c ∷ local, domain, top, end, cc, ground arith, some_domain, chars, long, letters, ends)
]

rest_of_email_complete :
    (local domain top end : Text)
    → all_of is_local_char local ≡ true
    → 1 ≤ length domain
    → all_of is_domain_char domain ≡ true
    → 2 ≤ length top
    → all_of is_letter top ≡ true
    → is_end end ≡ true
    → rest_of_email (local ++ 64 ∷ (domain ++ 46 ∷ (top ++ end))) ≡ true
rest_of_email_complete [] [] top end locals some_domain chars long letters ends =
    absurd (omega arith)
rest_of_email_complete [] (d ∷ domain) top end locals some_domain chars long letters ends =
    ground (arith, rest_of_domain_complete domain top end)
rest_of_email_complete (c ∷ local) domain top end locals some_domain chars long letters ends =
    ground (arith, rest_of_email_complete local domain top end)

is_email-Email : (s : Text) → is_email s ≡ true → Email s
unfolding is_email
is_email-Email [] h = absurd (ground arith)
is_email-Email (c ∷ s) h =
    let (local, domain, top, end, split, locals, some_domain, chars, long, letters, ends) =
      rest_of_email_sound s (ground arith) in
    (
      c ∷ local,
      domain,
      top,
      end,
      cc,
      omega arith,
      ground arith,
      some_domain,
      chars,
      long,
      letters,
      ends,
    )

Email-complete :
    (local domain top end : Text)
    → 1 ≤ length local
    → all_of is_local_char local ≡ true
    → 1 ≤ length domain
    → all_of is_domain_char domain ≡ true
    → 2 ≤ length top
    → all_of is_letter top ≡ true
    → is_end end ≡ true
    → is_email (local ++ 64 ∷ (domain ++ 46 ∷ (top ++ end))) ≡ true
unfolding is_email
Email-complete [] domain top end some_local locals some_domain chars long letters ends =
    absurd (omega arith)
Email-complete (c ∷ local) domain top end some_local locals some_domain chars long letters ends =
    ground (arith, rest_of_email_complete local domain top end)

-- `validate_email` lets exactly the words of its pattern through: a local part, `@`, a domain, a
-- dot and a top level domain of two letters or more, of the characters that each allows, and then
-- the end or one line feed.
pub validate_email-Email : (s : Text) → (validate_email s ≡ ok tt) ↔ Email s
unfolding validate_email
validate_email-Email s = (
  λ h. is_email-Email s (ground arith),
  λ (local, domain, top, end, split, h1, h2, h3, h4, h5, h6, h7).
      ground (arith, Email-complete local domain top end h1 h2 h3 h4 h5 h6 h7),
)
