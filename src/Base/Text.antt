-- ===== src/Base/Text.antt =====
-- Texts as lists of code points, with `str.lower()` and `int()` on ASCII text.
use Prim.Native.Nat.{ℕ, zero, suc, ◌+◌, ◌-◌, ◌*◌}
use Prim.Native.Char.{code}
use Prim.Native.String.{String}
use mathlib.Core.Path.{◌≡◌, refl}
use mathlib.Core.Logic.{◌↔◌}
use mathlib.Core.Bool.{Bool, true, false, ◌&&◌, ◌||◌}
use mathlib.Core.Option
use mathlib.Core.Option.{Option, none, some}
use mathlib.Core.List.{List, [], ◌∷◌, reverse}
use native.Mathlib.Omega.{arith}
use genjishimada.Base.Tests.{leb, ◌==◌, if◌then◌else◌}
use genjishimada.Base.Int.{ℤ, pos, negsuc}

abbrev pub Text : Type 0
Text = List ℕ

-- The code points of a literal.
abbrev pub codes : String → Text
codes String.[] = []
codes (String.◌∷◌ c s) = code c ∷ codes s

abbrev pub text_eq : Text → Text → Bool
text_eq [] [] = true
text_eq [] (_ ∷ _) = false
text_eq (_ ∷ _) [] = false
text_eq (a ∷ s) (b ∷ t) = (a == b) && text_eq s t

pub text_eq_iff : (s t : Text) → (text_eq s t ≡ true) ↔ (s ≡ t)
text_eq_iff [] [] = ground arith
text_eq_iff [] (b ∷ t) = ground arith
text_eq_iff (a ∷ s) [] = ground arith
text_eq_iff (a ∷ s) (b ∷ t) = ground (arith, text_eq_iff s t)

pub text_eq_refl : (s : Text) → text_eq s s ≡ true
text_eq_refl s = (text_eq_iff s s).1 refl

-- `str.lower()`
unfoldable pub lower : Text → Text
lower [] = []
lower (c ∷ s) = (if leb 65 c && leb c 90 then c + 32 else c) ∷ lower s

abbrev pub is_digit : ℕ → Bool
is_digit c = leb 48 c && leb c 57

-- The digits of a number, `_` allowed between two of them; `after_digit` says what came before.
abbrev read_digits : Text → ℕ → Bool → Option ℕ
read_digits [] acc after_digit = if after_digit then some acc else none
read_digits (c ∷ s) acc after_digit = elim (is_digit c) [
  | true ↦ read_digits s (acc * 10 + (c - 48)) true
  | false ↦ elim ((c == 95) && after_digit) [ true ↦ read_digits s acc false | false ↦ none ]
]

abbrev is_blank : ℕ → Bool
is_blank c = (c == 32) || (leb 9 c && leb c 13)

abbrev trim_start : Text → Text
trim_start [] = []
trim_start (c ∷ s) = elim (is_blank c) [ true ↦ trim_start s | false ↦ c ∷ s ]

abbrev strip : Text → Text
strip s = reverse (trim_start (reverse (trim_start s)))

abbrev negate : ℕ → ℤ
negate zero = pos 0
negate (suc n) = negsuc n

abbrev read_signed : Text → Option ℤ
read_signed [] = none
read_signed (c ∷ s) =
    if c == 43
    then Option.map pos (read_digits s 0 false)
    else if c == 45
    then Option.map negate (read_digits s 0 false)
    else Option.map pos (read_digits (c ∷ s) 0 false)

-- `int(s)` on ASCII text: `none` is the ValueError.
unfoldable pub int_of_text : Text → Option ℤ
int_of_text s = read_signed (strip s)
