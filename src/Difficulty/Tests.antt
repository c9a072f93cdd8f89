-- ===== src/Difficulty/Tests.antt =====
-- Runs of the conversions of difficulties (libs/sdk/src/genjishimada_sdk/difficulties.py), and
-- instances of the theorems about them.
use genjishimada.Base.{◌≡◌, refl, some}
use genjishimada.Base.Text.{codes}
use genjishimada.Difficulty.{convert_raw_all}

very_hard_plus : convert_raw_all 700 ≡ some (codes "Very Hard")
unfolding convert_raw_all
very_hard_plus = refl
