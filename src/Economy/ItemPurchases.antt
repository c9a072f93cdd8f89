-- ===== src/Economy/ItemPurchases.antt =====
-- Buying an item of the current rotation.
use genjishimada.Base.{
  ℕ, ◌<◌, ◌≤◌, ◌≡◌, ◌≢◌, ◌⊎◌, true, false, none, some, ◌∷◌, arith, Option-cases, inl, inr,
}
use genjishimada.Base.Dict.{lookup, insert, lookup-insert, lookup-insert_ne}
use genjishimada.Base.Int.{ℤ, ◌-ℤ◌, ◌≤ℤ◌}
use genjishimada.Base.Lists.{any, find?, find?-sound}
use genjishimada.Base.Text.{Text, text_eq_refl, text_eq_iff}
use genjishimada.Quest.Types.{is_truthy}
use genjishimada.Economy.Tables.{Database, RotationItem}
use genjishimada.Economy.Action.{ok, err, already_owned, item_not_in_rotation, transaction}
use genjishimada.Economy.LootboxRepository.{is_reward, is_reward_type, rarity_of}
use genjishimada.Economy.StoreRepository.{fetch_rotation_item, is_offer, newest}
use genjishimada.Economy.Store.{PurchaseResponse, item_purchase, purchase_item}

-- The tables after a purchase of an item.
abbrev pub after_item_purchase : ℕ → Text → Text → Text → RotationItem → ℤ → Database → Database
after_item_purchase u n t k offer coins db = record db {
  users = insert u (coins -ℤ offer.price) db.users;
  user_rewards =
      record { user_id = u; reward_name = n; reward_type = t; key_type = k } ∷ db.user_rewards;
  purchases = item_purchase u n t k offer ∷ db.purchases;
}

-- The user does not have the item, or it has no rarity, or an empty one.
abbrev pub Unowned : ℕ → Text → Text → Text → Database → Type 0
Unowned u t k n db =
    (any (is_reward u t k n) db.user_rewards ≡ false)
    ⊎ (is_truthy (rarity_of (find? (is_reward_type t k n) db.reward_types)) ≡ false)

-- What a successful purchase of an item has found and done.
abbrev pub ItemSale :
    ℕ → ℕ → ℕ → Text → Text → Text → Database → PurchaseResponse → Database → Type 0
ItemSale now wall u n t k db r db' =
    (offer : RotationItem) × (coins : ℤ) × (fetch_rotation_item now n t k db ≡ some offer)
    × (wall ≤ offer.available_until)
    × Unowned u t k n db
    × (lookup u db.users ≡ some coins)
    × (offer.price ≤ℤ coins)
    × (r ≡ record { price_paid = offer.price; remaining_coins = coins -ℤ offer.price })
    × (db' ≡ after_item_purchase u n t k offer coins db)
    × ((v : ℕ) → v ≢ u → lookup v db'.users ≡ lookup v db.users)

ItemSale-parts :
    (now wall u : ℕ) (n t k : Text) (db db' : Database) (r : PurchaseResponse)
    (offer : RotationItem) (coins : ℤ)
    → fetch_rotation_item now n t k db ≡ some offer
    → lookup u db.users ≡ some coins
    → purchase_item now wall u n t k db ≡ ok (r, db')
    → (wall ≤ offer.available_until)
      × Unowned u t k n db
      × (offer.price ≤ℤ coins)
      × (r ≡ record { price_paid = offer.price; remaining_coins = coins -ℤ offer.price })
      × (db' ≡ after_item_purchase u n t k offer coins db)
unfolding purchase_item
ItemSale-parts now wall u n t k db db' r offer coins found funds h =
    ground (arith, lookup-insert u u (coins -ℤ offer.price) db.users)

ItemSale_needs_offer :
    (now wall u : ℕ) (n t k : Text) (db : Database)
    → fetch_rotation_item now n t k db ≡ none
    → purchase_item now wall u n t k db ≡ err item_not_in_rotation
unfolding purchase_item
ItemSale_needs_offer now wall u n t k db missing = ground arith

purchase_item_needs_user :
    (now wall u : ℕ) (n t k : Text) (db db' : Database) (r : PurchaseResponse)
    → lookup u db.users ≡ none
    → purchase_item now wall u n t k db ≢ ok (r, db')
unfolding purchase_item
purchase_item_needs_user now wall u n t k db db' r nobody h = ground arith

-- A purchase of an item succeeds only for an offer of the current rotation that has not expired,
-- of an item that the user does not own or whose rarity is missing or empty, at a price that the
-- user can pay. It takes exactly that price from the user's coins and leaves every other balance,
-- adds the item to the user's rewards, records one purchase, and changes nothing else.
pub purchase_item_sound :
    (now wall u : ℕ) (n t k : Text) (db db' : Database) (r : PurchaseResponse)
    → purchase_item now wall u n t k db ≡ ok (r, db')
    → ItemSale now wall u n t k db r db'
purchase_item_sound now wall u n t k db db' r h =
    elim (Option-cases (fetch_rotation_item now n t k db)) [
      | inl missing ↦ cc (ItemSale_needs_offer now wall u n t k db missing)
      | inr (offer, found) ↦ elim (Option-cases (lookup u db.users)) [
        | inl nobody ↦ absurd (purchase_item_needs_user now wall u n t k db db' r nobody h)
        | inr (coins, funds) ↦
            let (fresh, unowned, enough, response, tables) =
              ItemSale-parts now wall u n t k db db' r offer coins found funds h in
            (
              offer,
              coins,
              found,
              fresh,
              unowned,
              funds,
              enough,
              response,
              tables,
              λ v other. rw tables (lookup-insert_ne v u (coins -ℤ offer.price) db.users other),
            )
      ]
    ]

-- An item that the rotation offers bears the name, type and kind asked for, and it is on offer at
-- the database's moment: from its first moment on and before its last.
pub fetch_rotation_item_sound :
    (now : ℕ) (n t k : Text) (db : Database) (offer : RotationItem)
    → fetch_rotation_item now n t k db ≡ some offer
    → (n ≡ offer.item_name)
      × (t ≡ offer.item_type)
      × (k ≡ offer.key_type)
      × (offer.available_from ≤ now)
      × (now < offer.available_until)
unfolding fetch_rotation_item
fetch_rotation_item_sound now n t k db offer h = elim (Option-cases (newest now db.rotations)) [
  | inl closed ↦ absurd (ground arith)
  | inr (top, e) ↦
      let fits =
        find?-sound (is_offer now top.rotation_id n t k) db.rotations offer (ground arith) in
      ground (
        arith,
        fits,
        text_eq_iff n offer.item_name,
        text_eq_iff t offer.item_type,
        text_eq_iff k offer.key_type,
      )
]

owned_refused :
    (now wall u : ℕ) (n t k : Text) (offer : RotationItem) (coins : ℤ) (db : Database)
    (again : RotationItem)
    → fetch_rotation_item now n t k (after_item_purchase u n t k offer coins db) ≡ some again
    → wall ≤ again.available_until
    → is_truthy (rarity_of (find? (is_reward_type t k n) db.reward_types)) ≡ true
    → purchase_item now wall u n t k (after_item_purchase u n t k offer coins db)
      ≡ err already_owned
unfolding purchase_item
owned_refused now wall u n t k offer coins db again found open_still rare =
    ground (arith, text_eq_refl n, text_eq_refl t, text_eq_refl k)

-- An item with a rarity cannot be bought twice: after a sale, while the rotation still offers it,
-- the next purchase by the same user raises AlreadyOwnedError, and in its transaction leaves the
-- tables as they were.
pub purchase_item_once :
    (now wall u : ℕ) (n t k : Text) (db db' : Database) (r : PurchaseResponse) (now' wall' : ℕ)
    (again : RotationItem)
    → purchase_item now wall u n t k db ≡ ok (r, db')
    → fetch_rotation_item now' n t k db' ≡ some again
    → wall' ≤ again.available_until
    → is_truthy (rarity_of (find? (is_reward_type t k n) db.reward_types)) ≡ true
    → transaction (purchase_item now' wall' u n t k) db' ≡ (err already_owned, db')
purchase_item_once now wall u n t k db db' r now' wall' again h found open_still rare =
    let (offer, coins, _, _, _, _, _, _, tables, _) =
      purchase_item_sound now wall u n t k db db' r h in
    ground (
      arith,
      tables,
      owned_refused now' wall' u n t k offer coins db again (rw tables at found) open_still rare,
    )
