-- ===== src/Economy/Prices.antt =====
-- What the prices of keys promise.
use genjishimada.Base.{ℕ, ◌*◌, ◌<◌, ◌≤◌, ◌≡◌, ◌⊎◌, Bool, true, false, some, arith}
use genjishimada.Economy.Store.{base_price, calculate_key_price}

-- A price exists only for one, three or five keys; it is positive and at most as many times the
-- price of one key, and for more than one key it is strictly less.
pub calculate_key_price_bounds :
    (q price : ℕ) (active : Bool)
    → calculate_key_price q active ≡ some price
    → ((q ≡ 1) ⊎ (q ≡ 3) ⊎ (q ≡ 5))
      × (0 < price)
      × (price ≤ q * base_price active)
      × ((q ≡ 1) ⊎ (price < q * base_price active))
unfolding calculate_key_price
calculate_key_price_bounds q price true h = ground arith
calculate_key_price_bounds q price false h = ground arith
