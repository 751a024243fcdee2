-- ===== src/Compare/Diff.antt =====
-- client/src/lib/diff.ts: the line diff of two payloads. The loops run over the lines from the current
-- index on, and the table is passed as its rows from `i` on with their columns from `j` on.
pub mod Replay
pub mod Table
pub mod Longest
use nats_explorer.Prelude.{
  ℕ, zero, suc, ◌+◌, ◌%◌, max, Text, text_beq, codes, List, [], ◌∷◌, ◌++◌, map, Bool, true, false,
  ◌||◌, ◌==◌, text_eq, if◌then◌else◌, leb, ltb, length, split_on,
}

pub data DiffOp : Type 0 where
  same del add : (line : Text) → DiffOp

abbrev pub max_lcs_lines : ℕ
max_lcs_lines = 600

-- Line by line, for very large texts.
unfoldable pub positional : List Text → List Text → List DiffOp
unfolding text_beq
positional [] [] = []
positional (x ∷ xs) [] = del x ∷ positional xs []
positional [] (y ∷ ys) = add y ∷ positional [] ys
positional (x ∷ xs) (y ∷ ys) =
    let rest = positional xs ys in if x == y then same y ∷ rest else del x ∷ add y ∷ rest

-- The number at the front of a row of the table.
abbrev pub front : List ℕ → ℕ
front [] = 0
front (n ∷ row) = n

abbrev pub behind : List ℕ → List ℕ
behind [] = []
behind (n ∷ row) = row

abbrev pub top : List (List ℕ) → List ℕ
top [] = []
top (row ∷ rows) = row

abbrev pub below : List (List ℕ) → List (List ℕ)
below [] = []
below (row ∷ rows) = rows

-- What a `Uint16Array` keeps of a number.
abbrev pub stored : ℕ → ℕ
stored n = n % 65536

-- A new `Uint16Array` of the length of the lines and one.
unfoldable pub zeros : List Text → List ℕ
zeros [] = 0 ∷ []
zeros (y ∷ ys) = 0 ∷ zeros ys

-- One round of the loop on `i`: the row of the line `x` from the row below it.
unfoldable pub dp_row : Text → List Text → List ℕ → List ℕ
unfolding text_beq
dp_row x [] next = 0 ∷ []
dp_row x (y ∷ ys) next =
    let row = dp_row x ys (behind next) in
    stored (if x == y then front (behind next) + 1 else max (front next) (front row)) ∷ row

unfoldable pub dp : List Text → List Text → List (List ℕ)
unfolding dp_row zeros
dp [] ys = zeros ys ∷ []
dp (x ∷ xs) ys = let rows = dp xs ys in dp_row x ys (top rows) ∷ rows

-- The loops that read the table: `dp[i + 1][j]` is the front of the second row, `dp[i][j + 1]` the
-- second number of the first.
unfoldable pub walk : List Text → List Text → List (List ℕ) → List DiffOp
unfolding text_beq
walk [] [] rows = []
walk [] (y ∷ ys) rows = add y ∷ walk [] ys rows
walk (x ∷ xs) [] rows = del x ∷ walk xs [] rows
walk (x ∷ xs) (y ∷ ys) rows =
    let along = walk xs ys (map behind (below rows)) in
    let down = walk xs (y ∷ ys) (below rows) in
    let right = walk (x ∷ xs) ys (map behind rows) in
    if x == y
    then same x ∷ along
    else if leb (front (behind (top rows))) (front (top (below rows)))
    then del x ∷ down
    else add y ∷ right

unfoldable pub diff_of : List Text → List Text → List DiffOp
unfolding positional dp walk
diff_of a b =
    if ltb max_lcs_lines (length a) || ltb max_lcs_lines (length b)
    then positional a b
    else walk a b (dp a b)

unfoldable pub diff_lines : Text → Text → List DiffOp
unfolding diff_of split_on
diff_lines prev curr = diff_of (split_on b'\n' prev) (split_on b'\n' curr)
