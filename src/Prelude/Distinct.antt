-- ===== src/Prelude/Distinct.antt =====
-- Lists in which no two items have one key, as the library's `Nodup` of the keys.
use mathlib.Core.Path.{◌≡◌, sym, ap, subst, ◌∙◌}
use mathlib.Core.Logic.{inl, inr}
use mathlib.Core.Logic.Or
use mathlib.Core.Bool.{Bool, false, not}
use mathlib.Core.List.{
  List, [], ◌∷◌, ◌++◌, map, map-append, Mem, Mem-prop, mem-cons, mem-cons_self, mem-cons_of_mem,
  not-mem-nil, Nodup, Nodup-cons, Nodup-append, Disjoint-left, Perm,
}
use mathlib.Core.List.Perm
use Prim.Native.Nat.{ℕ}
use native.Mathlib.Omega.{arith}
use nats_explorer.Prelude.Tests.{Bool-cases}
use nats_explorer.Prelude.Lists.{any, filter, take, drop, take-append-drop, All}
use nats_explorer.Prelude.Strings.{Text, text_beq_iff, text_eq, ◌==◌}

module _ {ℓ} {A : Type ℓ} (key : A → Text) where
  abbrev pub IsDistinct : List A → Type 0
  IsDistinct xs = Nodup (map key xs)

  -- The items of `xs` whose key no item of `seen` has.
  unfoldable pub unseen_by : List A → List A → List A
  unseen_by seen xs = filter (λ x. not (any (λ s. key s == key x) seen)) xs

  not-mem_of_any :
      (k : Text) (seen : List A) → any (λ s. key s == k) seen ≡ false → ¬ Mem k (map key seen)
  not-mem_of_any k [] h m = not-mem-nil m
  not-mem_of_any k (s ∷ seen) h m =
      Or.elim (λ a b. absurd a) (mem-cons.0 m) (λ e. ground (arith, text_beq_iff (key s) k))
        (not-mem_of_any k seen (ground arith))

  mem-map-filter :
      (p : A → Bool) (k : Text) (xs : List A) → Mem k (map key (filter p xs)) → Mem k (map key xs)
  mem-map-filter p k [] m = m
  mem-map-filter p k (x ∷ xs) m = elim (Bool-cases (p x)) [
    | inl e ↦
        Or.elim Mem-prop (mem-cons.0 (rw e at m)) (λ h. rw h mem-cons_self)
          (λ t. mem-cons_of_mem _ (mem-map-filter p k xs t))
    | inr e ↦ mem-cons_of_mem _ (mem-map-filter p k xs (rw e at m))
  ]

  pub filter-IsDistinct : (p : A → Bool) (xs : List A) → IsDistinct xs → IsDistinct (filter p xs)
  filter-IsDistinct p [] d = d
  filter-IsDistinct p (x ∷ xs) d = elim (Bool-cases (p x)) [
    | inl e ↦ rw e (
        Nodup-cons.1 (
          (λ m. (Nodup-cons.0 d).0 (mem-map-filter p (key x) xs m)),
          filter-IsDistinct p xs (Nodup-cons.0 d).1,
        ))
    | inr e ↦ rw e (filter-IsDistinct p xs (Nodup-cons.0 d).1)
  ]

  unseen_by-fresh : (seen xs : List A) → All (λ x. ¬ Mem (key x) (map key seen)) (unseen_by seen xs)
  unfolding unseen_by
  unseen_by-fresh seen [] = tt
  unseen_by-fresh seen (x ∷ xs) = elim (Bool-cases (any (λ s. key s == key x) seen)) [
    | inl e ↦ rw e (unseen_by-fresh seen xs)
    | inr e ↦ rw e (not-mem_of_any (key x) seen e, unseen_by-fresh seen xs)
  ]

  apart :
      (ks : List Text) (xs : List A)
      → All (λ x. ¬ Mem (key x) ks) xs
      → (k : Text) → Mem k (map key xs)
      → ¬ Mem k ks
  apart ks [] a k m n = not-mem-nil m
  apart ks (x ∷ xs) a k m n =
      Or.elim (λ u v. absurd u) (mem-cons.0 m) (λ e. a.0 (rw e at n)) (λ t. apart ks xs a.1 k t n)

  pub unseen_by-append-IsDistinct :
      (seen xs : List A) → IsDistinct seen → IsDistinct xs → IsDistinct (unseen_by seen xs ++ seen)
  unseen_by-append-IsDistinct seen xs ds dx = rw map-append (
      Nodup-append.1 (
        filtered,
        ds,
        Disjoint-left.1 (apart (map key seen) (unseen_by seen xs) (unseen_by-fresh seen xs)),
      ))
    where
      filtered : IsDistinct (unseen_by seen xs)
      filtered = unfold unseen_by in filter-IsDistinct _ xs dx

  pub perm-IsDistinct : (xs ys : List A) → Perm xs ys → IsDistinct ys → IsDistinct xs
  perm-IsDistinct xs ys p d = Perm.nodup (Perm.symm (Perm.map key p)) d

  split-IsDistinct :
      (n : ℕ) (xs : List A) → IsDistinct xs → Nodup (map key (take n xs) ++ map key (drop n xs))
  split-IsDistinct n xs d =
      subst Nodup
        (ap (map key) (sym (take-append-drop n xs)) ∙ map-append key (take n xs) (drop n xs)) d

  pub drop-IsDistinct : (n : ℕ) (xs : List A) → IsDistinct xs → IsDistinct (drop n xs)
  drop-IsDistinct n xs d = (Nodup-append.0 (split-IsDistinct n xs d)).1

  pub take-IsDistinct : (n : ℕ) (xs : List A) → IsDistinct xs → IsDistinct (take n xs)
  take-IsDistinct n xs d = (Nodup-append.0 (split-IsDistinct n xs d)).0
