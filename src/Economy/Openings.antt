-- ===== src/Economy/Openings.antt =====
-- Opening a lootbox, and the key that it costs.
use genjishimada.Base.{
  ℕ, ◌≤◌, ◌≡◌, refl, Bool, true, false, ◌&&◌, none, List, [], ◌∷◌, ◌++◌, arith, ◌==◌,
}
use genjishimada.Base.Lists.{length, filter, All}
use genjishimada.Base.Text.{Text}
use genjishimada.Economy.Tables.{Database, KeyRow}
use genjishimada.Economy.Action.{err, insufficient_keys, transaction}
use genjishimada.Economy.LootboxRepository.{key_count, owns_key, oldest}
use genjishimada.Economy.Lootbox.{Draw, get_random_items}

-- A key of the user's of one kind that was earned at a moment.
abbrev pub owned_at : ℕ → Text → ℕ → KeyRow → Bool
owned_at u k t row = owns_key u k row && (t == row.earned_at)

-- No key of the kind is older than the one chosen.
abbrev pub NoneOlder : ℕ → Text → ℕ → List KeyRow → Type 0
NoneOlder u k t rows = All (λ (row : KeyRow). owns_key u k row ≡ true → t ≤ row.earned_at) rows

-- The key that goes: one of the user's keys of the kind, none of which is older, taken out of the
-- rows, which otherwise stay in their order.
abbrev pub Spent : ℕ → Text → KeyRow → List KeyRow → List KeyRow → Type 0
Spent u k spent rows rows' =
    (before : List KeyRow) × (after : List KeyRow) × (rows ≡ before ++ spent ∷ after)
    × (rows' ≡ before ++ after)
    × (owns_key u k spent ≡ true)
    × NoneOlder u k spent.earned_at rows

oldest_of_none :
    (u : ℕ) (k : Text) (rows : List KeyRow)
    → length (filter (owns_key u k) rows) ≡ 0
    → oldest u k rows ≡ none
oldest_of_none u k [] h = refl
oldest_of_none u k (row ∷ rows) h = ground (arith, oldest_of_none u k rows)

-- Without a key of the kind nothing is shown and nothing changes: the error names the lack of keys.
-- In test mode no key is needed and none is spent.
pub get_random_items_without_key :
    (u : ℕ) (k : Text) (d1 d2 d3 : Draw) (db : Database)
    → (key_count u k db ≡ 0
        → transaction (get_random_items u k false d1 d2 d3) db ≡ (err insufficient_keys, db))
      × ((transaction (get_random_items u k true d1 d2 d3) db).1 ≡ db)
unfolding get_random_items
get_random_items_without_key u k d1 d2 d3 db =
    (λ h. ground (arith, oldest_of_none u k db.user_keys h), refl)
