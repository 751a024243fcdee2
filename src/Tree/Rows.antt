-- ===== src/Tree/Rows.antt =====
-- The rows of the tree: each has a guide for every level above it, and only a branch is open.
use nats_explorer.Prelude.{
  ℕ, ◌+◌, Text, List, [], ◌∷◌, ◌++◌, Bool, true, false, ◌≡◌, ◌⊎◌, inl, inr, refl, arith, All,
  All-append, length, length-append, if◌then◌else◌, ◌&&◌,
}
use nats_explorer.Tree.{
  TreeNodes, node, leaf, beside, FlatNode, is_some_node, has_children_of, row_of, rows_of,
  flatten_tree,
}

-- A guide for every level above the row, and no row that is open without children.
abbrev pub IsLaidOut : FlatNode → Type 0
IsLaidOut r = (length r.guides ≡ r.depth) × ((r.has_children ≡ true) ⊎ (r.expanded ≡ false))

and-cases : (a b : Bool) → (a ≡ true) ⊎ ((a && b) ≡ false)
and-cases true b = inl refl
and-cases false b = inr refl

if-All :
    (test : Bool) (rows : List FlatNode)
    → All IsLaidOut rows
    → All IsLaidOut (if test then rows else [])
if-All true rows h = h
if-All false rows h = tt

rows_of-IsLaidOut :
    (is_expanded : Text → Bool) (nodes : TreeNodes) (depth : ℕ) (guides : List Bool)
    → length guides ≡ depth
    → All IsLaidOut (rows_of is_expanded nodes depth guides)
unfolding rows_of row_of
rows_of-IsLaidOut is_expanded leaf depth guides h = tt
rows_of-IsLaidOut is_expanded (beside (node info children) rest) depth guides h =
    let deeper =
      rows_of-IsLaidOut is_expanded children (depth + 1) (guides ++ is_some_node rest ∷ [])
        (omega (arith, h, length-append guides (is_some_node rest ∷ []))) in
    let after = rows_of-IsLaidOut is_expanded rest depth guides h in
    (
      (h, and-cases (has_children_of info children) (is_expanded info.full_subject)),
      All-append IsLaidOut _ _ (if-All _ _ deeper) after,
    )

-- Whatever is open and hidden, every row has one guide for each level above it, and no row without
-- children is open.
pub flatten_tree-IsLaidOut :
    (is_expanded : Text → Bool) (hide_system : Bool) (roots : TreeNodes)
    → All IsLaidOut (flatten_tree is_expanded hide_system roots)
unfolding flatten_tree
flatten_tree-IsLaidOut is_expanded hide_system roots = rows_of-IsLaidOut is_expanded _ 0 [] refl
