-- ===== src/Compare/Diff/Table.antt =====
-- The table `diffLines` fills, against the longest common subsequence.
use nats_explorer.Prelude.{
  ℕ, ◌+◌, ◌≤◌, max, Text, text_beq, List, [], ◌∷◌, map, ◌≡◌, refl, ap, sym, ◌∙◌, arith, ◌==◌,
  text_eq, if◌then◌else◌, length,
}
use nats_explorer.Compare.Diff.{dp, dp_row, zeros, stored, front, behind, top, below}

-- The recursion that the table is filled by.
unfoldable pub lcs : List Text → List Text → ℕ
unfolding text_beq
lcs [] ys = 0
lcs (x ∷ xs) [] = 0
lcs (x ∷ xs) (y ∷ ys) =
    let along = lcs xs ys + 1 in
    let apart = max (lcs xs (y ∷ ys)) (lcs (x ∷ xs) ys) in if x == y then along else apart

lcs-le : (xs ys : List Text) → lcs xs ys ≤ length xs
unfolding lcs
lcs-le [] ys = omega arith
lcs-le (x ∷ xs) [] = omega arith
lcs-le (x ∷ xs) (y ∷ ys) = ground (arith, lcs-le xs ys, lcs-le xs (y ∷ ys), lcs-le (x ∷ xs) ys)

top-behind : (rows : List (List ℕ)) → top (map behind rows) ≡ behind (top rows)
top-behind [] = refl
top-behind (row ∷ rows) = refl

-- Moving to the next column drops the first one of every row.
pub dp-behind :
    (xs : List Text) (y : Text) (ys : List Text) → map behind (dp xs (y ∷ ys)) ≡ dp xs ys
unfolding dp dp_row zeros
dp-behind [] y ys = refl
dp-behind (x ∷ xs) y ys =
    let ih = dp-behind xs y ys in
    let e : behind (top (dp xs (y ∷ ys))) ≡ top (dp xs ys) =
      sym (top-behind (dp xs (y ∷ ys))) ∙ ap top ih in
    rw (e, ih) refl

pub below-dp : (x : Text) (xs ys : List Text) → below (dp (x ∷ xs) ys) ≡ dp xs ys
unfolding dp
below-dp x xs ys = refl

pub top-dp-behind :
    (xs : List Text) (y : Text) (ys : List Text) → behind (top (dp xs (y ∷ ys))) ≡ top (dp xs ys)
top-dp-behind xs y ys = sym (top-behind (dp xs (y ∷ ys))) ∙ ap top (dp-behind xs y ys)

stored-le : (n : ℕ) → n ≤ 65535 → stored n ≡ n
stored-le n h = omega (arith, h)

pub front-top-dp : (xs ys : List Text) → length xs ≤ 65535 → front (top (dp xs ys)) ≡ lcs xs ys
unfolding dp dp_row zeros lcs
front-top-dp [] [] h = refl
front-top-dp [] (y ∷ ys) h = refl
front-top-dp (x ∷ xs) [] h = refl
front-top-dp (x ∷ xs) (y ∷ ys) h =
    let bound = lcs-le (x ∷ xs) (y ∷ ys) in
    let along = front-top-dp xs ys (omega (arith, h)) in
    let down = front-top-dp xs (y ∷ ys) (omega (arith, h)) in
    let right = front-top-dp (x ∷ xs) ys h in
    rw (top-dp-behind xs y ys, along, down, right) (stored-le _ (omega (arith, bound, h)))
