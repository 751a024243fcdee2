-- ===== src/Prelude/Sort.antt =====
-- `Array.prototype.sort` with a comparator: stable. Laws over an interface of what a comparator
-- has to satisfy.
use mathlib.Core.Path.{◌≡◌, refl}
use mathlib.Core.Logic.{inl, inr}
use mathlib.Core.Bool.{true, false}
use mathlib.Core.List.{List, [], ◌∷◌, ◌++◌, append-nil, Perm, perm_middle}
use mathlib.Core.List.Perm
use Prim.Native.Nat.{suc, ◌+◌}
use native.Mathlib.Omega.{arith}
use nats_explorer.Prelude.Tests.{if◌then◌else◌, Bool-cases}
use nats_explorer.Prelude.Lists.{All, length}
use nats_explorer.Prelude.Int.{ℤ, is_negative}

-- `x` may stand before `y`.
abbrev pub Before {ℓ} : {A : Type ℓ} → (A → A → ℤ) → A → A → Type 0
Before cmp x y = is_negative (cmp y x) ≡ false

pub record Comparator {ℓ} {A : Type ℓ} (cmp : A → A → ℤ) : Type ℓ where
  pub total : (x y : A) → is_negative (cmp x y) ≡ true → Before cmp x y
  pub trans : (x y z : A) → Before cmp x y → Before cmp y z → Before cmp x z

module _ {ℓ} {A : Type ℓ} (cmp : A → A → ℤ) where
  -- Behind all that may stand before it.
  insert_by : A → List A → List A
  insert_by x [] = x ∷ []
  insert_by x (y ∷ ys) = if is_negative (cmp x y) then x ∷ y ∷ ys else y ∷ insert_by x ys

  sort_from : List A → List A → List A
  sort_from out [] = out
  sort_from out (x ∷ xs) = sort_from (insert_by x out) xs

  unfoldable pub sort_by : List A → List A
  unfolding sort_from insert_by
  sort_by xs = sort_from [] xs

  -- Every item may stand before all that follow it.
  abbrev pub IsSorted : List A → Type 0
  IsSorted [] = Unit
  IsSorted (x ∷ xs) = All (Before cmp x) xs × IsSorted xs

  insert_by-perm : (x : A) (ys : List A) → Perm (insert_by x ys) (x ∷ ys)
  unfolding insert_by
  insert_by-perm x [] = Perm.refl (x ∷ [])
  insert_by-perm x (y ∷ ys) = elim (Bool-cases (is_negative (cmp x y))) [
    | inl e ↦ rw e (Perm.refl _)
    | inr e ↦ rw e (Perm.trans (Perm.cons y (insert_by-perm x ys)) (Perm.swap x y ys))
  ]

  sort_from-perm : (out xs : List A) → Perm (sort_from out xs) (out ++ xs)
  unfolding sort_from
  sort_from-perm out [] = rw append-nil (Perm.refl out)
  sort_from-perm out (x ∷ xs) = Perm.trans (sort_from-perm (insert_by x out) xs) (
      Perm.trans (Perm.append (insert_by-perm x out) (Perm.refl xs))
        (Perm.symm (perm_middle out xs)))

  pub sort_by-perm : (xs : List A) → Perm (sort_by xs) xs
  unfolding sort_by
  sort_by-perm xs = sort_from-perm [] xs

  length-insert_by : (x : A) (ys : List A) → length (insert_by x ys) ≡ suc (length ys)
  unfolding insert_by
  length-insert_by x [] = refl
  length-insert_by x (y ∷ ys) = ground (arith, length-insert_by x ys)

  length-sort_from : (out xs : List A) → length (sort_from out xs) ≡ length out + length xs
  unfolding sort_from
  length-sort_from out [] = omega arith
  length-sort_from out (x ∷ xs) =
      omega (arith, length-sort_from (insert_by x out) xs, length-insert_by x out)

  pub length-sort_by : (xs : List A) → length (sort_by xs) ≡ length xs
  unfolding sort_by
  length-sort_by xs = omega (arith, length-sort_from [] xs)

module _ {ℓ κ} {A : Type ℓ} (cmp : A → A → ℤ) (P : A → Type κ) where
  insert_by-All : (x : A) (ys : List A) → P x → All P ys → All P (insert_by cmp x ys)
  unfolding insert_by
  insert_by-All x [] h a = (h, tt)
  insert_by-All x (y ∷ ys) h a = ground (arith, insert_by-All x ys h a.1)

  sort_from-All : (out xs : List A) → All P out → All P xs → All P (sort_from cmp out xs)
  unfolding sort_from
  sort_from-All out [] o a = o
  sort_from-All out (x ∷ xs) o a =
      sort_from-All (insert_by cmp x out) xs (insert_by-All x out a.0 o) a.1

  pub sort_by-All : (xs : List A) → All P xs → All P (sort_by cmp xs)
  unfolding sort_by
  sort_by-All xs a = sort_from-All [] xs tt a

module _ {ℓ} {A : Type ℓ} (cmp : A → A → ℤ) (c : Comparator cmp) where
  Before-All :
      (x y : A) (ys : List A) → Before cmp x y → All (Before cmp y) ys → All (Before cmp x) ys
  Before-All x y [] h a = tt
  Before-All x y (z ∷ ys) h a = (c.trans x y z h a.0, Before-All x y ys h a.1)

  insert_by-IsSorted : (x : A) (ys : List A) → IsSorted cmp ys → IsSorted cmp (insert_by cmp x ys)
  unfolding insert_by
  insert_by-IsSorted x [] s = (tt, tt)
  insert_by-IsSorted x (y ∷ ys) s = elim (Bool-cases (is_negative (cmp x y))) [
    | inl e ↦ rw e ((c.total x y e, Before-All x y ys (c.total x y e) s.0), s)
    | inr e ↦ rw e (insert_by-All cmp (Before cmp y) x ys e s.0, insert_by-IsSorted x ys s.1)
  ]

  sort_from-IsSorted : (out xs : List A) → IsSorted cmp out → IsSorted cmp (sort_from cmp out xs)
  unfolding sort_from
  sort_from-IsSorted out [] s = s
  sort_from-IsSorted out (x ∷ xs) s =
      sort_from-IsSorted (insert_by cmp x out) xs (insert_by-IsSorted x out s)

  pub sort_by-IsSorted : (xs : List A) → IsSorted cmp (sort_by cmp xs)
  unfolding sort_by
  sort_by-IsSorted xs = sort_from-IsSorted [] xs tt
