-- ===== src/Economy/Tests.antt =====
-- Runs of the lootbox and the store on the tables of Samples, and instances of the theorems about
-- them.
use genjishimada.Base.{◌≡◌, refl, arith}
use genjishimada.Base.Int.{pos, ◌-ℤ◌}
use genjishimada.Base.Text.{codes}
use genjishimada.Economy.Tables.{Database}
use genjishimada.Economy.Action.{ok, err, already_owned, transaction}
use genjishimada.Economy.LootboxRepository.{insert_user_key}
use genjishimada.Economy.StoreRepository.{fetch_rotation_item}
use genjishimada.Economy.Lootbox.{Draw}
use genjishimada.Economy.Store.{
  PurchaseResponse, insert_keys, buy_keys, purchase_keys, purchase_item,
}
use genjishimada.Economy.KeyPurchases.{KeySale, after_key_purchase, purchase_keys_sound}
use genjishimada.Economy.ItemPurchases.{
  ItemSale, after_item_purchase, purchase_item_sound, purchase_item_once,
}
use genjishimada.Economy.Samples.{spray_offer, shop}

abbrev keys_bought : Database
keys_bought = after_key_purchase 50 1 (codes "Classic") 3 (pos 1275) (pos 2000) shop

abbrev keys_receipt : PurchaseResponse
keys_receipt = record { price_paid = pos 1275; remaining_coins = pos 2000 -ℤ pos 1275 }

purchase_keys_sound_example : KeySale 50 1 (codes "Classic") 3 shop keys_receipt keys_bought
unfolding purchase_keys buy_keys insert_keys insert_user_key
purchase_keys_sound_example =
    purchase_keys_sound 50 1 3 (codes "Classic") shop keys_bought keys_receipt refl

abbrev item_bought : Database
item_bought =
    after_item_purchase 1 (codes "Spray") (codes "spray") (codes "Classic") spray_offer (pos 2000)
      shop

abbrev item_receipt : PurchaseResponse
item_receipt = record { price_paid = pos 400; remaining_coins = pos 2000 -ℤ pos 400 }

spray_sold :
    purchase_item 50 51 1 (codes "Spray") (codes "spray") (codes "Classic") shop
    ≡ ok (item_receipt, item_bought)
unfolding purchase_item fetch_rotation_item
spray_sold = refl

purchase_item_sound_example :
    ItemSale 50 51 1 (codes "Spray") (codes "spray") (codes "Classic") shop item_receipt item_bought
purchase_item_sound_example =
    purchase_item_sound 50 51 1 (codes "Spray") (codes "spray") (codes "Classic") shop item_bought
      item_receipt spray_sold

purchase_item_once_example :
    transaction
      (purchase_item 60 61 1 (codes "Spray") (codes "spray") (codes "Classic"))
      item_bought
    ≡ (err already_owned, item_bought)
unfolding fetch_rotation_item
purchase_item_once_example =
    purchase_item_once 50 51 1 (codes "Spray") (codes "spray") (codes "Classic") shop item_bought
      item_receipt 60 61 spray_offer spray_sold refl (omega arith) refl

abbrev draw : Draw
draw = record { roll = 20; pick = 0 }
