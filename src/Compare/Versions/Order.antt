-- ===== src/Compare/Versions/Order.antt =====
-- `isNewer` as an order of releases.
use nats_explorer.Prelude.{
  ℕ, Text, List, [], ◌∷◌, true, false, ◌≡◌, refl, arith, inl, inr, Bool-cases,
}
use nats_explorer.Compare.Versions.{newer_parts, parse_version, is_newer}

newer_parts_irrefl : (xs : List ℕ) → newer_parts xs xs ≡ false
unfolding newer_parts
newer_parts_irrefl [] = refl
newer_parts_irrefl (x ∷ xs) = ground (arith, newer_parts_irrefl xs)

newer_parts_trans :
    (xs ys zs : List ℕ)
    → newer_parts xs ys ≡ true
    → newer_parts ys zs ≡ true
    → newer_parts xs zs ≡ true
unfolding newer_parts
newer_parts_trans [] [] zs h k = absurd (cc (h))
newer_parts_trans (x ∷ xs) [] [] h k = h
newer_parts_trans [] (y ∷ ys) [] h k = ground (arith, newer_parts_trans [] ys [], h, k)
newer_parts_trans (x ∷ xs) (y ∷ ys) [] h k = ground (arith, newer_parts_trans xs ys [], h, k)
newer_parts_trans (x ∷ xs) [] (z ∷ zs) h k = ground (arith, newer_parts_trans xs [] zs, h, k)
newer_parts_trans [] (y ∷ ys) (z ∷ zs) h k = ground (arith, newer_parts_trans [] ys zs, h, k)
newer_parts_trans (x ∷ xs) (y ∷ ys) (z ∷ zs) h k = ground (arith, newer_parts_trans xs ys zs, h, k)

newer_parts-asym : (xs ys : List ℕ) → newer_parts xs ys ≡ true → newer_parts ys xs ≡ false
newer_parts-asym xs ys h = elim (Bool-cases (newer_parts ys xs)) [
  | inl e ↦ absurd (cc (newer_parts_trans xs ys xs h e, newer_parts_irrefl xs))
  | inr e ↦ e
]

-- The same version, written with or without parts that are 0 at the end.
abbrev pub IsSameVersion : List ℕ → List ℕ → Type 0
IsSameVersion [] [] = Unit
IsSameVersion (x ∷ xs) [] = (x ≡ 0) × IsSameVersion xs []
IsSameVersion [] (y ∷ ys) = (y ≡ 0) × IsSameVersion [] ys
IsSameVersion (x ∷ xs) (y ∷ ys) = (x ≡ y) × IsSameVersion xs ys

newer_parts-total :
    (xs ys : List ℕ) → newer_parts xs ys ≡ false → newer_parts ys xs ≡ false → IsSameVersion xs ys
unfolding newer_parts
newer_parts-total [] [] h k = tt
newer_parts-total (x ∷ xs) [] h k =
    (ground (arith, h, k), newer_parts-total xs [] (ground (arith, h, k)) (ground (arith, h, k)))
newer_parts-total [] (y ∷ ys) h k =
    (ground (arith, h, k), newer_parts-total [] ys (ground (arith, h, k)) (ground (arith, h, k)))
newer_parts-total (x ∷ xs) (y ∷ ys) h k =
    (ground (arith, h, k), newer_parts-total xs ys (ground (arith, h, k)) (ground (arith, h, k)))

-- A version newer than a newer one is newer, and the older one is not newer than it.
is_newer_trans :
    (a b c : Text)
    → is_newer a b ≡ true
    → is_newer b c ≡ true
    → (is_newer a c ≡ true) × (is_newer c a ≡ false)
unfolding is_newer
is_newer_trans a b c h k =
    let longer = newer_parts_trans (parse_version a) (parse_version b) (parse_version c) h k in
    (longer, newer_parts-asym (parse_version a) (parse_version c) longer)

-- Two versions of which neither is newer have the same parts, but for zeros at the end.
is_newer-total :
    (a b : Text)
    → is_newer a b ≡ false
    → is_newer b a ≡ false
    → IsSameVersion (parse_version a) (parse_version b)
unfolding is_newer
is_newer-total a b h k = newer_parts-total (parse_version a) (parse_version b) h k
