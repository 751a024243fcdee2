-- ===== src/Compare/Diff/Replay.antt =====
-- Reading a diff back: the lines it takes away and keeps, and the lines it adds and keeps.
use nats_explorer.Prelude.{
  Text, text_beq_iff, List, [], ◌∷◌, Bool, true, false, ◌≡◌, refl, ap, sym, ◌==◌, text_eq,
  if◌then◌else◌, split_on, join_with, length, ltb, leb, ◌||◌, ℕ,
}
use nats_explorer.Prelude.Split.{join-split}
use nats_explorer.Compare.Diff.{
  DiffOp, same, del, add, positional, walk, dp, diff_of, diff_lines, max_lcs_lines, front, behind,
  top, below,
}

-- The lines of the earlier text, of the later one and those that both have.
abbrev pub old_side : List DiffOp → List Text
old_side [] = []
old_side (same line ∷ ops) = line ∷ old_side ops
old_side (del line ∷ ops) = line ∷ old_side ops
old_side (add line ∷ ops) = old_side ops

abbrev pub new_side : List DiffOp → List Text
new_side [] = []
new_side (same line ∷ ops) = line ∷ new_side ops
new_side (del line ∷ ops) = new_side ops
new_side (add line ∷ ops) = line ∷ new_side ops

abbrev pub kept : List DiffOp → List Text
kept [] = []
kept (same line ∷ ops) = line ∷ kept ops
kept (del line ∷ ops) = kept ops
kept (add line ∷ ops) = kept ops

-- The diff of one text has the lines of both.
pub record IsReplay (a b : List Text) (ops : List DiffOp) : Type 0 where
  pub old : old_side ops ≡ a
  pub new : new_side ops ≡ b

same-IsReplay :
    (x y : Text) (xs ys : List Text) (ops : List DiffOp)
    → x ≡ y
    → IsReplay xs ys ops
    → IsReplay (x ∷ xs) (y ∷ ys) (same x ∷ ops)
same-IsReplay x y xs ys ops e h = record { old = ap (◌∷◌ x) h.old; new = rw e (ap (◌∷◌ y) h.new) }

del-IsReplay :
    (x : Text) (xs ys : List Text) (ops : List DiffOp)
    → IsReplay xs ys ops
    → IsReplay (x ∷ xs) ys (del x ∷ ops)
del-IsReplay x xs ys ops h = record { old = ap (◌∷◌ x) h.old; new = h.new }

add-IsReplay :
    (y : Text) (xs ys : List Text) (ops : List DiffOp)
    → IsReplay xs ys ops
    → IsReplay xs (y ∷ ys) (add y ∷ ops)
add-IsReplay y xs ys ops h = record { old = h.old; new = ap (◌∷◌ y) h.new }

either-IsReplay :
    (test : Bool) {a b : List Text} {ops rest : List DiffOp}
    → (test ≡ true → IsReplay a b ops)
    → (test ≡ false → IsReplay a b rest)
    → IsReplay a b (if test then ops else rest)
either-IsReplay true h k = h refl
either-IsReplay false h k = k refl

positional-IsReplay : (xs ys : List Text) → IsReplay xs ys (positional xs ys)
unfolding positional
positional-IsReplay [] [] = record { old = refl; new = refl }
positional-IsReplay (x ∷ xs) [] = del-IsReplay x xs [] _ (positional-IsReplay xs [])
positional-IsReplay [] (y ∷ ys) = add-IsReplay y [] ys _ (positional-IsReplay [] ys)
positional-IsReplay (x ∷ xs) (y ∷ ys) =
    let ih = positional-IsReplay xs ys in
    either-IsReplay (x == y)
      (λ e. rw (sym ((text_beq_iff x y).0 e)) (same-IsReplay x x xs ys _ refl ih))
      (λ e. del-IsReplay x xs (y ∷ ys) _ (add-IsReplay y xs ys _ ih))

-- Whatever the table says, the walk through it takes every line once.
walk-IsReplay : (xs ys : List Text) (rows : List (List ℕ)) → IsReplay xs ys (walk xs ys rows)
unfolding walk
walk-IsReplay [] [] rows = record { old = refl; new = refl }
walk-IsReplay (x ∷ xs) [] rows = del-IsReplay x xs [] _ (walk-IsReplay xs [] rows)
walk-IsReplay [] (y ∷ ys) rows = add-IsReplay y [] ys _ (walk-IsReplay [] ys rows)
walk-IsReplay (x ∷ xs) (y ∷ ys) rows =
    either-IsReplay (x == y)
      (λ e. same-IsReplay x y xs ys _ ((text_beq_iff x y).0 e) (walk-IsReplay xs ys _))
      (λ e.
        either-IsReplay (leb (front (behind (top rows))) (front (top (below rows))))
          (λ d. del-IsReplay x xs (y ∷ ys) _ (walk-IsReplay xs (y ∷ ys) _))
          (λ d. add-IsReplay y (x ∷ xs) ys _ (walk-IsReplay (x ∷ xs) ys _)))

pub diff_of-IsReplay : (a b : List Text) → IsReplay a b (diff_of a b)
unfolding diff_of
diff_of-IsReplay a b =
    either-IsReplay (ltb max_lcs_lines (length a) || ltb max_lcs_lines (length b))
      (λ _. positional-IsReplay a b) (λ _. walk-IsReplay a b (dp a b))

-- The lines that a diff takes away or keeps are those of the earlier text, the lines it adds or keeps
-- those of the later one: joined by line breaks, they are the two texts, whatever their sizes.
pub diff_lines-replay :
    (prev curr : Text)
    → (join_with (b'\n' ∷ []) (old_side (diff_lines prev curr)) ≡ prev)
      × (join_with (b'\n' ∷ []) (new_side (diff_lines prev curr)) ≡ curr)
unfolding diff_lines
diff_lines-replay prev curr =
    let replay = diff_of-IsReplay (split_on b'\n' prev) (split_on b'\n' curr) in
    (rw replay.old (join-split b'\n' prev), rw replay.new (join-split b'\n' curr))
