-- ===== src/Prelude/Subsequence.antt =====
-- Some of the elements of a list, in their order.
use Prim.Native.Nat.{ℕ, zero, suc}
use mathlib.Core.List.{List, [], ◌∷◌, ◌++◌}
use nats_explorer.Prelude.Lists.{drop}

pub data IsSubsequence {ℓ} {A : Type ℓ} : List A → List A → Type ℓ where
  done : IsSubsequence [] []
  skip : {zs xs : List A} {x : A} → IsSubsequence zs xs → IsSubsequence zs (x ∷ xs)
  keep : {zs xs : List A} {x : A} → IsSubsequence zs xs → IsSubsequence (x ∷ zs) (x ∷ xs)

module _ {ℓ} {A : Type ℓ} where
  pub IsSubsequence-tail :
      {z : A} {zs xs : List A} → IsSubsequence (z ∷ zs) xs → IsSubsequence zs xs
  IsSubsequence-tail (skip s) = skip (IsSubsequence-tail s)
  IsSubsequence-tail (keep s) = skip s

  pub IsSubsequence-refl : (xs : List A) → IsSubsequence xs xs
  IsSubsequence-refl [] = done
  IsSubsequence-refl (x ∷ xs) = keep (IsSubsequence-refl xs)

  pub IsSubsequence-trans :
      {ys zs : List A}
      → IsSubsequence ys zs
      → {xs : List A} → IsSubsequence xs ys
      → IsSubsequence xs zs
  IsSubsequence-trans done s = s
  IsSubsequence-trans (skip t) s = skip (IsSubsequence-trans t s)
  IsSubsequence-trans (keep t) (skip s) = skip (IsSubsequence-trans t s)
  IsSubsequence-trans (keep t) (keep s) = keep (IsSubsequence-trans t s)

  pub IsSubsequence-append :
      {xs ys zs ws : List A}
      → IsSubsequence xs ys
      → IsSubsequence zs ws
      → IsSubsequence (xs ++ zs) (ys ++ ws)
  IsSubsequence-append done t = t
  IsSubsequence-append (skip s) t = skip (IsSubsequence-append s t)
  IsSubsequence-append (keep s) t = keep (IsSubsequence-append s t)

  pub IsSubsequence-drop : (n : ℕ) (xs : List A) → IsSubsequence (drop n xs) xs
  IsSubsequence-drop zero xs = IsSubsequence-refl xs
  IsSubsequence-drop (suc n) [] = done
  IsSubsequence-drop (suc n) (x ∷ xs) = skip (IsSubsequence-drop n xs)
