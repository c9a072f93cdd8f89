-- ===== src/Difficulty/Ranges.antt =====
-- The conversions on the two scales of difficulty, and the midpoints of the extended one.
use genjishimada.Base.{ℕ, ◌≡◌, refl, some, arith}
use mathlib.Core.Option
use genjishimada.Base.Lists.{All}
use genjishimada.Base.Text.{Text}
use genjishimada.Difficulty.{midpoints, convert_raw_all, convert_raw_top, convert_extended_to_top}

-- Dropping the sign from the extended difficulty of a number gives its top level difficulty, and
-- the two conversions refuse the same numbers.
pub convert_raw_agree :
    (raw : ℕ) → Option.map convert_extended_to_top (convert_raw_all raw) ≡ convert_raw_top raw
unfolding convert_raw_all convert_raw_top convert_extended_to_top
convert_raw_agree raw = ground arith

-- The midpoint of every extended difficulty converts back to that difficulty.
midpoints_convert : All (λ (e : Text × ℕ). convert_raw_all e.1 ≡ some e.0) midpoints
unfolding convert_raw_all
midpoints_convert = (
  refl,
  (
    refl,
    (
      refl,
      (
        refl,
        (
          refl,
          (
            refl,
            (refl, (refl, (refl, (refl, (refl, (refl, (refl, (refl, (refl, (refl, tt)))))))))),
          ),
        ),
      ),
    ),
  ),
)
