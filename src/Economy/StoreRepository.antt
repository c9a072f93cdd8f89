-- ===== src/Economy/StoreRepository.antt =====
-- The statements of apps/api/repository/store_repository.py on rotations, purchases and quest
-- rows.
use genjishimada.Base.{
  ℕ, Bool, ◌&&◌, Option, none, some, List, [], ◌∷◌, ◌==◌, ltb, leb, if◌then◌else◌,
}
use genjishimada.Base.Dict.{Dict, contains}
use genjishimada.Base.Lists.{filter, find?}
use genjishimada.Base.Text.{Text, text_eq}
use genjishimada.Quest.Types.{QuestProgress}
use genjishimada.Economy.Tables.{Database, RotationItem, Purchase, QuestRow}
use genjishimada.Economy.Action.{Action, foreign_key_violation, pure, raise}
use genjishimada.Economy.LootboxRepository.{key_type_exists}

abbrev pub is_live : ℕ → RotationItem → Bool
is_live now r = leb r.available_from now && ltb now r.available_until

abbrev pub newer : RotationItem → Option RotationItem → RotationItem
newer r none = r
newer r (some s) = if leb s.available_from r.available_from then r else s

-- The item whose rotation is the current one: the newest of those on offer.
abbrev pub newest : ℕ → List RotationItem → Option RotationItem
newest now [] = none
newest now (r ∷ rs) =
    let rest = newest now rs in if is_live now r then some (newer r rest) else rest

abbrev pub is_offer : ℕ → ℕ → Text → Text → Text → RotationItem → Bool
is_offer now rotation n t k r =
    (r.rotation_id == rotation)
    && text_eq n r.item_name
    && text_eq t r.item_type
    && text_eq k r.key_type
    && is_live now r

-- `fetch_rotation_item`
unfoldable pub fetch_rotation_item : ℕ → Text → Text → Text → Database → Option RotationItem
fetch_rotation_item now n t k db = elim (newest now db.rotations) [
  | none ↦ none
  | some r ↦ find? (is_offer now r.rotation_id n t k) db.rotations
]

-- `insert_purchase`, with the foreign keys of its table
unfoldable pub insert_purchase : Purchase → Action (Unit {0})
insert_purchase p db =
    if contains p.user_id db.users && key_type_exists p.key_type db
    then pure tt (record db { purchases = p ∷ db.purchases })
    else raise foreign_key_violation db

-- The rows of `get_active_user_quests`, in the order of their ids.
abbrev pub is_active_quest : ℕ → ℕ → QuestRow → Bool
is_active_quest u rotation row = (u == row.user_id) && (rotation == row.rotation_id)

abbrev pub get_active_user_quests : ℕ → Database → List (ℕ × QuestRow)
get_active_user_quests u db =
    filter (λ (e : ℕ × QuestRow). is_active_quest u db.current_rotation_id e.1) db.quests

-- `UPDATE store.user_quest_progress … WHERE id = $1`: nothing where there is no such row.
abbrev pub update_row : ℕ → (QuestRow → QuestRow) → Dict QuestRow → Dict QuestRow
update_row i f [] = []
update_row i f (e ∷ d) = if i == e.0 then (e.0, f e.1) ∷ d else e ∷ update_row i f d

-- `update_quest_progress`
abbrev pub update_quest_progress : ℕ → QuestProgress → Database → Database
update_quest_progress i p db = record db {
  quests = update_row i (λ row. record row { progress = p }) db.quests;
}

abbrev pub completed_now : ℕ → QuestRow → QuestRow
completed_now now row = elim row.completed_at [
  | none ↦ record row { completed_at = some now }
  | some _ ↦ row
]

-- `mark_quest_complete`
abbrev pub mark_quest_complete : ℕ → ℕ → Database → Database
mark_quest_complete now i db = record db { quests = update_row i (completed_now now) db.quests }
