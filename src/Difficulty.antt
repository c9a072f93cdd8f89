-- ===== src/Difficulty.antt =====
-- Map difficulties (libs/sdk/src/genjishimada_sdk/difficulties.py). A raw difficulty is a number of
-- hundredths, the precision of every bound; names are texts.
pub mod Ranges
mod Tests
use genjishimada.Base.{
  ℕ, Bool, true, false, ◌&&◌, Option, none, some, List, [], ◌∷◌, ◌==◌, ltb, leb, if◌then◌else◌,
}
use genjishimada.Base.Text.{Text, codes}

-- A name with the bounds of its range, the upper one excluded.
pub record Range : Type 0 where
  pub name : Text
  pub low : ℕ
  pub high : ℕ

-- `DIFFICULTY_RANGES_ALL`
abbrev pub ranges_all : List Range
ranges_all =
    record { name = codes "Easy -"; low = 0; high = 118 }
    ∷ record { name = codes "Easy"; low = 118; high = 176 }
    ∷ record { name = codes "Easy +"; low = 176; high = 235 }
    ∷ record { name = codes "Medium -"; low = 235; high = 294 }
    ∷ record { name = codes "Medium"; low = 294; high = 353 }
    ∷ record { name = codes "Medium +"; low = 353; high = 412 }
    ∷ record { name = codes "Hard -"; low = 412; high = 471 }
    ∷ record { name = codes "Hard"; low = 471; high = 529 }
    ∷ record { name = codes "Hard +"; low = 529; high = 588 }
    ∷ record { name = codes "Very Hard -"; low = 588; high = 647 }
    ∷ record { name = codes "Very Hard"; low = 647; high = 706 }
    ∷ record { name = codes "Very Hard +"; low = 706; high = 765 }
    ∷ record { name = codes "Extreme -"; low = 765; high = 824 }
    ∷ record { name = codes "Extreme"; low = 824; high = 882 }
    ∷ record { name = codes "Extreme +"; low = 882; high = 941 }
    ∷ record { name = codes "Hell"; low = 941; high = 1000 }
    ∷ []

-- `DIFFICULTY_RANGES_TOP`
abbrev pub ranges_top : List Range
ranges_top =
    record { name = codes "Easy"; low = 0; high = 235 }
    ∷ record { name = codes "Medium"; low = 235; high = 412 }
    ∷ record { name = codes "Hard"; low = 412; high = 588 }
    ∷ record { name = codes "Very Hard"; low = 588; high = 765 }
    ∷ record { name = codes "Extreme"; low = 765; high = 941 }
    ∷ record { name = codes "Hell"; low = 941; high = 1000 }
    ∷ []

-- `DIFFICULTY_MIDPOINTS`
abbrev pub midpoints : List (Text × ℕ)
midpoints =
    (codes "Easy -", 89)
    ∷ (codes "Easy", 147)
    ∷ (codes "Easy +", 206)
    ∷ (codes "Medium -", 265)
    ∷ (codes "Medium", 323)
    ∷ (codes "Medium +", 383)
    ∷ (codes "Hard -", 442)
    ∷ (codes "Hard", 500)
    ∷ (codes "Hard +", 558)
    ∷ (codes "Very Hard -", 617)
    ∷ (codes "Very Hard", 676)
    ∷ (codes "Very Hard +", 736)
    ∷ (codes "Extreme -", 795)
    ∷ (codes "Extreme", 853)
    ∷ (codes "Extreme +", 912)
    ∷ (codes "Hell", 971)
    ∷ []

-- `_convert_raw_difficulty`: the first range that holds the number, then the upper bound of Hell;
-- `none` is the ValueError.
unfoldable pub convert_raw : List Range → ℕ → Option Text
convert_raw [] raw = if raw == 1000 then some (codes "Hell") else none
convert_raw (r ∷ rs) raw =
    if leb r.low raw && ltb raw r.high then some r.name else convert_raw rs raw

-- `convert_raw_difficulty_to_difficulty_all`
unfoldable pub convert_raw_all : ℕ → Option Text
unfolding convert_raw
convert_raw_all = convert_raw ranges_all

-- `convert_raw_difficulty_to_difficulty_top`
unfoldable pub convert_raw_top : ℕ → Option Text
unfolding convert_raw
convert_raw_top = convert_raw ranges_top

-- `s.replace(" x", "")` for a sign `x`: each blank with the sign after it goes.
abbrev pub remove_sign : ℕ → Text → Text
remove_sign x [] = []
remove_sign x (c ∷ []) = c ∷ []
remove_sign x (c ∷ d ∷ s) = elim ((c == 32) && (d == x)) [
  | true ↦ remove_sign x s
  | false ↦ c ∷ remove_sign x (d ∷ s)
]

-- `convert_extended_difficulty_to_top_level`
unfoldable pub convert_extended_to_top : Text → Text
convert_extended_to_top s = remove_sign 45 (remove_sign 43 s)
