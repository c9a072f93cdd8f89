-- ===== src/Economy/Store.antt =====
-- `StoreService` of apps/api/services/store_service.py: prices, purchases, and claiming a quest.
use genjishimada.Base.{
  ℕ, zero, suc, ◌*◌, ◌/◌, Bool, true, false, ◌||◌, Option, none, some, ◌==◌, ltb, if◌then◌else◌,
  not,
}
use genjishimada.Base.Int.{ℤ, pos}
use genjishimada.Base.Text.{Text, text_eq}
use genjishimada.Quest.Types.{is_truthy}
use genjishimada.Economy.Tables.{Purchase, PurchaseType, RotationItem}
use genjishimada.Economy.Action.{
  Action, invalid_quantity, invalid_key_type, insufficient_coins, item_not_in_rotation,
  rotation_expired, already_owned, value_error, pure, gets, or_raise, raise_if, ◌>>=◌, ◌>>◌,
}
use genjishimada.Economy.LootboxRepository.{
  key_type_exists, fetch_user_coins, check_user_has_reward, insert_user_reward, deduct_user_coins,
  insert_user_key,
}
use genjishimada.Economy.StoreRepository.{fetch_rotation_item, insert_purchase}

-- `ACTIVE_KEY_BASE_PRICE` and `INACTIVE_KEY_BASE_PRICE`
abbrev pub base_price : Bool → ℕ
base_price true = 500
base_price false = 1000

-- `_calculate_key_price`: the discounts 0.85 and 0.70 are taken in hundredths, and `int()` rounds
-- down. The default raises.
unfoldable pub calculate_key_price : ℕ → Bool → Option ℕ
calculate_key_price q active =
    if q == 1
    then some (base_price active)
    else if q == 3
    then some (base_price active * 3 * 85 / 100)
    else if q == 5
    then some (base_price active * 5 * 70 / 100)
    else none

abbrev pub is_quantity : ℕ → Bool
is_quantity q = (q == 1) || (q == 3) || (q == 5)

-- `for _ in range(quantity): insert_user_key(…)`
unfoldable pub insert_keys : ℕ → ℕ → ℕ → Text → Action (Unit {0})
insert_keys now zero u k = pure tt
insert_keys now (suc n) u k = do insert_user_key now u k; insert_keys now n u k

-- The balance after the deduction, or the error with what the user has.
abbrev pub pay : ℕ → ℤ → Action ℤ
pay u price = do
  balance ← deduct_user_coins u price
  coins ← gets (fetch_user_coins u)
  or_raise balance (insufficient_coins coins price)

pub record PurchaseResponse : Type 0 where
  pub price_paid : ℤ
  pub remaining_coins : ℤ

abbrev pub key_purchase : ℕ → Text → ℕ → ℤ → Purchase
key_purchase u k q price = record {
  user_id = u;
  purchase_type = PurchaseType.key;
  item_name = none;
  item_type = none;
  key_type = k;
  quantity = q;
  price_paid = price;
  rotation_id = none;
}

-- The transaction of `purchase_keys`, at a price.
unfoldable pub buy_keys : ℕ → ℕ → Text → ℕ → ℤ → Action PurchaseResponse
unfolding deduct_user_coins insert_purchase
buy_keys now u k q price = do
  known ← gets (key_type_exists k)
  raise_if (not known) invalid_key_type
  balance ← pay u price
  insert_keys now q u k
  insert_purchase (key_purchase u k q price)
  pure (record { price_paid = price; remaining_coins = balance })

-- `purchase_keys`; `now` is the moment of the statements.
unfoldable pub purchase_keys : ℕ → ℕ → Text → ℕ → Action PurchaseResponse
unfolding calculate_key_price
purchase_keys now u k q = do
  raise_if (not (is_quantity q)) (invalid_quantity q)
  active ← gets (λ db. text_eq k db.active_key_type)
  price ← or_raise (calculate_key_price q active) value_error
  buy_keys now u k q (pos price)

abbrev pub item_purchase : ℕ → Text → Text → Text → RotationItem → Purchase
item_purchase u n t k offer = record {
  user_id = u;
  purchase_type = PurchaseType.item;
  item_name = some n;
  item_type = some t;
  key_type = k;
  quantity = 1;
  price_paid = offer.price;
  rotation_id = some offer.rotation_id;
}

-- `purchase_item`: `now` is the database's clock and `wall` the service's.
unfoldable pub purchase_item : ℕ → ℕ → ℕ → Text → Text → Text → Action PurchaseResponse
unfolding deduct_user_coins insert_purchase insert_user_reward
purchase_item now wall u n t k = do
  found ← gets (fetch_rotation_item now n t k)
  offer ← or_raise found item_not_in_rotation
  raise_if (ltb offer.available_until wall) rotation_expired
  owned ← gets (check_user_has_reward u t k n)
  raise_if (is_truthy owned) already_owned
  balance ← pay u offer.price
  insert_user_reward u t k n
  insert_purchase (item_purchase u n t k offer)
  pure (record { price_paid = offer.price; remaining_coins = balance })
