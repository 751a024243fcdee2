-- ===== src/Prelude/Keyed.antt =====
-- Lists whose items have a key, as the client keeps its rules, bookmarks, requests and connections:
-- the item of a key, putting an item in the place of the one with its key or at the end, and leaving
-- the items of a key out.
use mathlib.Core.Path.{◌≡◌, refl}
use mathlib.Core.Logic.{◌≢◌, inl, inr}
use mathlib.Core.Bool.{true, false, not}
use mathlib.Core.List.{List, [], ◌∷◌, ◌++◌, map}
use mathlib.Core.Option.{Option, none, some}
use native.Mathlib.Omega.{arith}
use nats_explorer.Prelude.Tests.{if◌then◌else◌, Bool-cases}
use nats_explorer.Prelude.Lists.{any, find, filter, All, All-append, All-filter}
use nats_explorer.Prelude.Strings.{Text, text_beq, text_beq_iff, text_eq, ◌==◌}

module _ {ℓ} {A : Type ℓ} (key : A → Text) where
  -- The item under a key: the first one.
  abbrev pub item_of : Text → List A → Option A
  item_of k = find (λ x. key x == k)

  replace : A → A → A
  unfolding text_beq
  replace y x = if key x == key y then y else x

  unfoldable pub upsert : A → List A → List A
  unfolding text_beq replace
  upsert y xs = if any (λ x. key x == key y) xs then map (replace y) xs else xs ++ y ∷ []

  unfoldable pub without : Text → List A → List A
  unfolding text_beq
  without k xs = filter (λ x. not (key x == k)) xs

  item_of-map :
      (y : A) (xs : List A)
      → any (λ x. key x == key y) xs ≡ true
      → item_of (key y) (map (replace y) xs) ≡ some y
  unfolding replace
  item_of-map y [] h = cc
  item_of-map y (x ∷ xs) h =
      ground (arith, text_beq_iff (key x) (key y), text_beq_iff (key y) (key y), item_of-map y xs)

  item_of-map_ne :
      (y : A) (k : Text) (xs : List A) → key y ≢ k → item_of k (map (replace y) xs) ≡ item_of k xs
  unfolding replace
  item_of-map_ne y k [] h = refl
  item_of-map_ne y k (x ∷ xs) h = ground (
    arith,
    text_beq_iff (key x) (key y),
    text_beq_iff (key y) k,
    text_beq_iff (key x) k,
    item_of-map_ne y k xs h,
  )

  item_of-append :
      (y : A) (xs : List A)
      → any (λ x. key x == key y) xs ≡ false
      → item_of (key y) (xs ++ y ∷ []) ≡ some y
  item_of-append y [] h = ground (arith, text_beq_iff (key y) (key y))
  item_of-append y (x ∷ xs) h = ground (arith, item_of-append y xs)

  item_of-append_ne :
      (y : A) (k : Text) (xs : List A) → key y ≢ k → item_of k (xs ++ y ∷ []) ≡ item_of k xs
  item_of-append_ne y k [] h = ground (arith, text_beq_iff (key y) k)
  item_of-append_ne y k (x ∷ xs) h = ground (arith, item_of-append_ne y k xs h)

  pub item_of-upsert : (y : A) (xs : List A) → item_of (key y) (upsert y xs) ≡ some y
  unfolding upsert
  item_of-upsert y xs = elim (Bool-cases (any (λ x. key x == key y) xs)) [
    | inl e ↦ rw e (item_of-map y xs e)
    | inr e ↦ rw e (item_of-append y xs e)
  ]

  pub item_of-upsert_ne :
      (y : A) (xs : List A) (k : Text) → key y ≢ k → item_of k (upsert y xs) ≡ item_of k xs
  unfolding upsert
  item_of-upsert_ne y xs k h = elim (Bool-cases (any (λ x. key x == key y) xs)) [
    | inl e ↦ rw e (item_of-map_ne y k xs h)
    | inr e ↦ rw e (item_of-append_ne y k xs h)
  ]

  pub item_of-without : (k : Text) (xs : List A) → item_of k (without k xs) ≡ none
  unfolding without
  item_of-without k [] = refl
  item_of-without k (x ∷ xs) = elim (Bool-cases (key x == k)) [
    | inl e ↦ rw e (item_of-without k xs)
    | inr e ↦ rw (e, e) (item_of-without k xs)
  ]

  pub item_of-without_ne :
      (k j : Text) (xs : List A) → k ≢ j → item_of j (without k xs) ≡ item_of j xs
  unfolding without
  item_of-without_ne k j [] h = refl
  item_of-without_ne k j (x ∷ xs) h =
      ground (arith, text_beq_iff (key x) k, text_beq_iff (key x) j, item_of-without_ne k j xs h)

-- What holds of every item goes on to hold.
module _ {ℓ κ} {A : Type ℓ} (key : A → Text) (P : A → Type κ) where
  map-All : (y : A) (xs : List A) → P y → All P xs → All P (map (replace key y) xs)
  unfolding replace
  map-All y [] h a = tt
  map-All y (x ∷ xs) h a = ground (arith, map-All y xs h a.1)

  pub upsert-All : (y : A) (xs : List A) → P y → All P xs → All P (upsert key y xs)
  unfolding upsert
  upsert-All y xs h a = elim (Bool-cases (any (λ x. key x == key y) xs)) [
    | inl e ↦ rw e (map-All y xs h a)
    | inr e ↦ rw e (All-append P xs (y ∷ []) a (h, tt))
  ]

  pub item_of-All : (k : Text) (x : A) (xs : List A) → item_of key k xs ≡ some x → All P xs → P x
  item_of-All k x [] e a = cc
  item_of-All k x (y ∷ xs) e a = elim (Bool-cases (key y == k)) [
    | inl h ↦ let same : some y ≡ some x = rw h at e in let eq : y ≡ x = cc (same) in rw eq at a.0
    | inr h ↦ item_of-All k x xs (rw h at e) a.1
  ]

  pub without-All : (k : Text) (xs : List A) → All P xs → All P (without key k xs)
  unfolding without
  without-All k xs a = All-filter P _ xs a
