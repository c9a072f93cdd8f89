-- ===== src/Economy/KeyPurchases.antt =====
-- Buying keys: the coins that leave and the keys that arrive.
use genjishimada.Base.{
  ℕ, zero, suc, ◌+◌, ◌≡◌, ◌≢◌, refl, true, false, none, some, List, ◌∷◌, arith, Bool-cases,
  Option-cases, inl, inr,
}
use genjishimada.Base.Dict.{Dict, lookup, insert, contains, lookup-insert, lookup-insert_ne}
use genjishimada.Base.Int.{ℤ, pos, ◌-ℤ◌, ◌≤ℤ◌, leb_ℤ}
use genjishimada.Base.Lists.{length, filter}
use genjishimada.Base.Text.{Text, text_eq, text_eq_refl}
use genjishimada.Economy.Tables.{Database, KeyRow}
use genjishimada.Economy.Action.{ok, err, insufficient_coins, invalid_key_type, transaction}
use genjishimada.Economy.LootboxRepository.{key_type_exists, key_count, owns_key, insert_user_key}
use genjishimada.Economy.Store.{
  PurchaseResponse, insert_keys, key_purchase, buy_keys, purchase_keys, calculate_key_price,
}

-- A user's new keys of one kind, the latest first.
abbrev pub new_keys : ℕ → ℕ → ℕ → Text → List KeyRow → List KeyRow
new_keys now zero u k rows = rows
new_keys now (suc n) u k rows =
    new_keys now n u k (record { user_id = u; key_type = k; earned_at = now } ∷ rows)

insert_keys_ok :
    (now n u : ℕ) (k : Text) (db : Database)
    → contains u db.users ≡ true
    → key_type_exists k db ≡ true
    → insert_keys now n u k db ≡ ok (tt, record db { user_keys = new_keys now n u k db.user_keys })
unfolding insert_keys insert_user_key
insert_keys_ok now zero u k db hu hk = refl
insert_keys_ok now (suc n) u k db hu hk =
    let row : KeyRow = record { user_id = u; key_type = k; earned_at = now } in
    rw (hu, hk) (insert_keys_ok now n u k (record db { user_keys = row ∷ db.user_keys }) hu hk)

owned_new_keys :
    (now n u : ℕ) (k : Text) (rows : List KeyRow)
    → length (filter (owns_key u k) (new_keys now n u k rows))
      ≡ length (filter (owns_key u k) rows) + n
owned_new_keys now zero u k rows = omega arith
owned_new_keys now (suc n) u k rows = ground (
  arith,
  text_eq_refl k,
  owned_new_keys now n u k (record { user_id = u; key_type = k; earned_at = now } ∷ rows),
)

contains-insert :
    (j k : ℕ) (v : ℤ) (d : Dict ℤ) → contains j d ≡ true → contains j (insert k v d) ≡ true
contains-insert j k v d h = ground (arith, lookup-insert j k v d)

-- The tables after a purchase of keys.
abbrev pub after_key_purchase : ℕ → ℕ → Text → ℕ → ℤ → ℤ → Database → Database
after_key_purchase now u k q price coins db = record db {
  users = insert u (coins -ℤ price) db.users;
  user_keys = new_keys now q u k db.user_keys;
  purchases = key_purchase u k q price ∷ db.purchases;
}

-- With a known kind of key and enough coins the transaction succeeds, and these are the tables
-- after it.
buy_keys_ok :
    (now u q : ℕ) (k : Text) (price coins : ℤ) (db : Database)
    → key_type_exists k db ≡ true
    → lookup u db.users ≡ some coins
    → price ≤ℤ coins
    → buy_keys now u k q price db
      ≡ ok (
        record { price_paid = price; remaining_coins = coins -ℤ price },
        after_key_purchase now u k q price coins db,
      )
unfolding buy_keys
buy_keys_ok now u q k price coins db hk hu enough =
    let paid : Database = record db { users = insert u (coins -ℤ price) db.users } in
    ground (arith, lookup-insert u u (coins -ℤ price) db.users, insert_keys_ok now q u k paid)

-- Without enough coins the transaction raises what the user has and what was asked.
buy_keys_short :
    (now u q : ℕ) (k : Text) (price coins : ℤ) (db : Database)
    → key_type_exists k db ≡ true
    → lookup u db.users ≡ some coins
    → ¬ (price ≤ℤ coins)
    → buy_keys now u k q price db ≡ err (insufficient_coins coins price)
unfolding buy_keys
buy_keys_short now u q k price coins db hk hu short = ground arith

buy_keys_unknown_user :
    (now u q : ℕ) (k : Text) (price : ℤ) (db : Database)
    → key_type_exists k db ≡ true
    → lookup u db.users ≡ none
    → buy_keys now u k q price db ≡ err (insufficient_coins (pos 0) price)
unfolding buy_keys
buy_keys_unknown_user now u q k price db hk hu = ground arith

buy_keys_unknown_key :
    (now u q : ℕ) (k : Text) (price : ℤ) (db : Database)
    → key_type_exists k db ≡ false
    → buy_keys now u k q price db ≡ err invalid_key_type
unfolding buy_keys
buy_keys_unknown_key now u q k price db hk = ground arith

-- What a successful purchase of keys has found and done.
abbrev pub KeySale : ℕ → ℕ → Text → ℕ → Database → PurchaseResponse → Database → Type 0
KeySale now u k q db r db' =
    (coins : ℤ) × (price : ℕ) × (lookup u db.users ≡ some coins)
    × (calculate_key_price q (text_eq k db.active_key_type) ≡ some price)
    × (pos price ≤ℤ coins)
    × (key_type_exists k db ≡ true)
    × (r ≡ record { price_paid = pos price; remaining_coins = coins -ℤ pos price })
    × (db' ≡ after_key_purchase now u k q (pos price) coins db)
    × (key_count u k db' ≡ key_count u k db + q)
    × ((v : ℕ) → v ≢ u → lookup v db'.users ≡ lookup v db.users)

buy_keys_sound :
    (now u q : ℕ) (k : Text) (price : ℤ) (db db' : Database) (r : PurchaseResponse)
    → buy_keys now u k q price db ≡ ok (r, db')
    → (coins : ℤ) × (lookup u db.users ≡ some coins)
      × (price ≤ℤ coins)
      × (key_type_exists k db ≡ true)
      × (r ≡ record { price_paid = price; remaining_coins = coins -ℤ price })
      × (db' ≡ after_key_purchase now u k q price coins db)
buy_keys_sound now u q k price db db' r h = elim (Bool-cases (key_type_exists k db)) [
  | inr unknown ↦ cc (buy_keys_unknown_key now u q k price db unknown)
  | inl known ↦ elim (Option-cases (lookup u db.users)) [
    | inl nobody ↦ cc (buy_keys_unknown_user now u q k price db known nobody)
    | inr (coins, e) ↦ elim (Bool-cases (leb_ℤ price coins)) [
      | inr short ↦
          cc (
            buy_keys_short now u q k price coins db known e (λ (le : price ≤ℤ coins). ground arith))
      | inl enough ↦
          let sale = buy_keys_ok now u q k price coins db known e (ground arith) in
          (coins, e, ground arith, known, ground (arith, sale), ground (arith, sale))
    ]
  ]
]

-- A purchase of keys succeeds only for one, three or five keys of a known kind that the user can
-- pay for. It takes exactly the price of that quantity from the user's coins and leaves every
-- other balance, adds exactly that many keys, records one purchase, and changes nothing else.
pub purchase_keys_sound :
    (now u q : ℕ) (k : Text) (db db' : Database) (r : PurchaseResponse)
    → purchase_keys now u k q db ≡ ok (r, db')
    → KeySale now u k q db r db'
unfolding purchase_keys
purchase_keys_sound now u q k db db' r h =
    elim (Option-cases (calculate_key_price q (text_eq k db.active_key_type))) [
      | inl unpriced ↦ absurd (ground arith)
      | inr (price, e) ↦
          let sold : buy_keys now u k q (pos price) db ≡ ok (r, db') = ground arith in
          let (coins, funds, enough, known, response, tables) =
            buy_keys_sound now u q k (pos price) db db' r sold in
          (
            coins,
            price,
            funds,
            e,
            enough,
            known,
            response,
            tables,
            ground (arith, owned_new_keys now q u k db.user_keys),
            λ v other. rw tables (lookup-insert_ne v u (coins -ℤ pos price) db.users other),
          )
    ]

-- A user who cannot pay is told the coins that there are and the price, and a purchase in its
-- transaction then leaves the tables as they were.
pub purchase_keys_short :
    (now u q price : ℕ) (k : Text) (coins : ℤ) (db : Database)
    → calculate_key_price q (text_eq k db.active_key_type) ≡ some price
    → key_type_exists k db ≡ true
    → lookup u db.users ≡ some coins
    → ¬ (pos price ≤ℤ coins)
    → transaction (purchase_keys now u k q) db ≡ (err (insufficient_coins coins (pos price)), db)
unfolding purchase_keys
purchase_keys_short now u q price k coins db hp hk hu short =
    ground (arith, buy_keys_short now u q k (pos price) coins db hk hu short)
