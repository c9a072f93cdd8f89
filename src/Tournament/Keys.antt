-- ===== src/Tournament/Keys.antt =====
-- The idempotency keys of apps/api/services/tournament_outbox_service.py: numbers in decimal, and
-- which messages share a key.
use genjishimada.Base.{
  ℕ, zero, suc, ◌+◌, ◌-◌, ◌*◌, ◌/◌, ◌%◌, ◌<◌, ◌≤◌, ◌≡◌, ◌≢◌, refl, sym, ap, ◌∙◌, arith, [], ◌∷◌,
  ◌++◌, ltb, Bool-cases, inl, inr,
}
use genjishimada.Base.Lists.{All}
use genjishimada.Base.Text.{Text, codes}
use genjishimada.Tournament.Tables.{TransitionType, edition_results, edition_rollover}
use genjishimada.Tournament.Outbox.{decimal, decimal_onto, end_key, idempotency_key}

-- The number that decimal digits stand for, after a number read so far.
abbrev pub read_onto : ℕ → Text → ℕ
read_onto n [] = n
read_onto n (c ∷ cs) = read_onto (n * 10 + (c - 48)) cs

read_onto-decimal_onto :
    (fuel n : ℕ) (digits : Text)
    → n < fuel
    → read_onto 0 (decimal_onto fuel n digits) ≡ read_onto n digits
unfolding decimal_onto
read_onto-decimal_onto zero n digits h = absurd (omega (arith, h))
read_onto-decimal_onto (suc fuel) n digits h = elim (Bool-cases (ltb n 10)) [
  | inl small ↦ rw small (ap (λ x. read_onto x digits) (omega arith))
  | inr large ↦ rw large (
      read_onto-decimal_onto fuel (n / 10) ((48 + n % 10) ∷ digits) (ground arith)
      ∙ ap (λ x. read_onto x digits) (omega arith))
]

-- A number is read back from its decimal digits; the fuel given is enough.
read_onto-decimal : (n : ℕ) → read_onto 0 (decimal n) ≡ n
unfolding decimal
read_onto-decimal n = read_onto-decimal_onto (suc n) n [] (omega arith)

decimal-injective : (i j : ℕ) → decimal i ≡ decimal j → i ≡ j
decimal-injective i j h = sym (read_onto-decimal i) ∙ ap (read_onto 0) h ∙ read_onto-decimal j

append-cancel : (xs : Text) (ys zs : Text) → xs ++ ys ≡ xs ++ zs → ys ≡ zs
append-cancel [] ys zs h = h
append-cancel (x ∷ xs) ys zs h = append-cancel xs ys zs (ground arith)

read_onto-append : (n : ℕ) (xs ys : Text) → read_onto n (xs ++ ys) ≡ read_onto (read_onto n xs) ys
read_onto-append n [] ys = refl
read_onto-append n (x ∷ xs) ys = read_onto-append (n * 10 + (x - 48)) xs ys

-- Every code is that of a digit, or comes before the digits.
abbrev pub UpToNine : Text → Type 0
UpToNine cs = All (λ (c : ℕ). c ≤ 57) cs

UpToNine-decimal_onto :
    (fuel n : ℕ) (digits : Text) → UpToNine digits → UpToNine (decimal_onto fuel n digits)
unfolding decimal_onto
UpToNine-decimal_onto zero n digits h = h
UpToNine-decimal_onto (suc fuel) n digits h = elim (Bool-cases (ltb n 10)) [
  | inl small ↦ rw small (ground arith, h)
  | inr large ↦
      rw large (UpToNine-decimal_onto fuel (n / 10) ((48 + n % 10) ∷ digits) (omega arith, h))
]

UpToNine-append : (xs ys : Text) → UpToNine (xs ++ ys) → UpToNine ys
UpToNine-append [] ys h = h
UpToNine-append (x ∷ xs) ys (_, h) = UpToNine-append xs ys h

not_start : (i j : ℕ) → decimal i ≢ decimal j ++ codes ":start"
unfolding decimal
not_start i j h =
    let digits : UpToNine (decimal i) = UpToNine-decimal_onto (suc i) i [] tt in
    let (colon, _) = UpToNine-append (decimal j) (codes ":start") (rw h at digits) in
    omega (arith, colon)

start_injective : (i j : ℕ) → decimal i ++ codes ":start" ≡ decimal j ++ codes ":start" → i ≡ j
start_injective i j h =
    let start = codes ":start" in
    let value : (n : ℕ) → read_onto 0 (decimal n ++ start) ≡ read_onto n start = λ n.
      read_onto-append 0 (decimal n) start ∙ ap (λ x. read_onto x start) (read_onto-decimal n) in
    let same : read_onto i start ≡ read_onto j start =
      sym (value i) ∙ ap (read_onto 0) h ∙ value j in
    omega (arith, same)

-- Rows of the outbox share an idempotency key only where they announce the same thing of the same
-- edition: the key tells the kind of the row and the edition.
pub idempotency_key-injective :
    (k l : TransitionType) (i j : ℕ) → idempotency_key k i ≡ idempotency_key l j → (k ≡ l) × (i ≡ j)
unfolding idempotency_key
idempotency_key-injective edition_results edition_results i j h = (
  refl,
  decimal-injective i j (append-cancel (codes "tournament:results:") (decimal i) (decimal j) h),
)
idempotency_key-injective edition_rollover edition_rollover i j h = (
  refl,
  start_injective i j (
      append-cancel (codes "tournament:rollover:") (decimal i ++ codes ":start")
        (decimal j ++ codes ":start") h),
)
idempotency_key-injective edition_results edition_rollover i j h = absurd (ground arith)
idempotency_key-injective edition_rollover edition_results i j h = absurd (ground arith)

-- The bot takes no end of an edition for an announcement from the outbox: the key of the message at
-- the end of an edition is the key of no outbox row, of that edition or another.
pub end_key-apart : (l : TransitionType) (i j : ℕ) → end_key i ≢ idempotency_key l j
unfolding idempotency_key end_key
end_key-apart edition_results i j h = ground arith
end_key-apart edition_rollover i j h =
    not_start i j
      (append-cancel (codes "tournament:rollover:") (decimal i) (decimal j ++ codes ":start") h)
