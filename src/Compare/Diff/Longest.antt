-- ===== src/Compare/Diff/Longest.antt =====
-- The lines `diffLines` keeps, against every common subsequence.
use mathlib.Core.Path.{subst}
use nats_explorer.Prelude.{
  ℕ, ◌+◌, ◌≤◌, max, Text, text_beq, text_beq_iff, List, [], ◌∷◌, false, ◌≡◌, refl, ap, arith, ◌==◌,
  text_eq, inl, inr, Bool-cases, if◌then◌else◌, length, leb, ltb, ◌||◌,
}
use nats_explorer.Prelude.Subsequence.{IsSubsequence, done, skip, keep, IsSubsequence-tail}
use nats_explorer.Compare.Diff.{dp, walk, diff_of, max_lcs_lines, DiffOp, same, add, del}
use nats_explorer.Compare.Diff.Replay.{kept, old_side, new_side, diff_of-IsReplay}
use nats_explorer.Compare.Diff.Table.{lcs, below-dp, dp-behind, top-dp-behind, front-top-dp}

length-le-lcs :
    (xs ys : List Text) {zs : List Text}
    → IsSubsequence zs xs
    → IsSubsequence zs ys
    → length zs ≤ lcs xs ys
unfolding lcs
length-le-lcs [] ys done s = omega arith
length-le-lcs (x ∷ xs) [] s done = omega arith
length-le-lcs (x ∷ xs) (y ∷ ys) (skip s) (skip t) =
    ground (arith, length-le-lcs xs ys s t, length-le-lcs xs (y ∷ ys) s (skip t))
length-le-lcs (x ∷ xs) (y ∷ ys) (skip s) (keep t) =
    ground
      (arith, length-le-lcs xs ys (IsSubsequence-tail s) t, length-le-lcs xs (y ∷ ys) s (keep t))
length-le-lcs (x ∷ xs) (y ∷ ys) (keep s) (skip t) =
    ground
      (arith, length-le-lcs xs ys s (IsSubsequence-tail t), length-le-lcs (x ∷ xs) ys (keep s) t)
length-le-lcs (x ∷ xs) (y ∷ ys) (keep s) (keep t) =
    ground (arith, (text_beq_iff x x).1 refl, length-le-lcs xs ys s t)

kept-walk-nil : (xs : List Text) (rows : List (List ℕ)) → kept (walk xs [] rows) ≡ []
unfolding walk
kept-walk-nil [] rows = refl
kept-walk-nil (x ∷ xs) rows = kept-walk-nil xs rows

kept-nil-walk : (ys : List Text) (rows : List (List ℕ)) → kept (walk [] ys rows) ≡ []
unfolding walk
kept-nil-walk [] rows = refl
kept-nil-walk (y ∷ ys) rows = kept-nil-walk ys rows

length-kept-cases :
    (x y : Text) (a b n : ℕ) (along down right : List DiffOp)
    → length (kept along) ≡ n
    → length (kept down) ≡ a
    → length (kept right) ≡ b
    → length
        (kept (if x == y then same x ∷ along else if leb b a then del x ∷ down else add y ∷ right))
      ≡ (if x == y then n + 1 else max a b)
unfolding text_beq
length-kept-cases x y a b n along down right h k l = elim (Bool-cases (x == y)) [
  | inl e ↦ rw e (omega (arith, h))
  | inr e ↦ elim (Bool-cases (leb b a)) [
    | inl f ↦ rw (e, f) (ground (arith, f, k))
    | inr f ↦ rw (e, f) (ground (arith, f, l))
  ]
]

-- The walk keeps as many lines as the table says.
length-kept-walk :
    (xs ys : List Text) → length xs ≤ 65535 → length (kept (walk xs ys (dp xs ys))) ≡ lcs xs ys
unfolding walk lcs
length-kept-walk [] [] h = refl
length-kept-walk [] (y ∷ ys) h = ap length (kept-nil-walk (y ∷ ys) _)
length-kept-walk (x ∷ xs) [] h = ap length (kept-walk-nil (x ∷ xs) _)
length-kept-walk (x ∷ xs) (y ∷ ys) h =
    let along = length-kept-walk xs ys (omega (arith, h)) in
    let down = length-kept-walk xs (y ∷ ys) (omega (arith, h)) in
    let right = length-kept-walk (x ∷ xs) ys h in
    rw
      (
        below-dp x xs (y ∷ ys),
        dp-behind xs y ys,
        dp-behind (x ∷ xs) y ys,
        top-dp-behind (x ∷ xs) y ys,
        front-top-dp (x ∷ xs) ys h,
        front-top-dp xs (y ∷ ys) (omega (arith, h)),
      )
      (length-kept-cases x y _ _ _ _ _ _ along down right)

length-kept-diff_of :
    (a b : List Text) → length a ≤ 600 → length b ≤ 600 → length (kept (diff_of a b)) ≡ lcs a b
unfolding diff_of
length-kept-diff_of a b ha hb =
    let small : (ltb max_lcs_lines (length a) || ltb max_lcs_lines (length b)) ≡ false =
      ground (arith, ha, hb) in
    rw small (length-kept-walk a b (omega (arith, ha)))

kept-old_side : (ops : List DiffOp) → IsSubsequence (kept ops) (old_side ops)
kept-old_side [] = done
kept-old_side (same line ∷ ops) = keep (kept-old_side ops)
kept-old_side (del line ∷ ops) = skip (kept-old_side ops)
kept-old_side (add line ∷ ops) = kept-old_side ops

kept-new_side : (ops : List DiffOp) → IsSubsequence (kept ops) (new_side ops)
kept-new_side [] = done
kept-new_side (same line ∷ ops) = keep (kept-new_side ops)
kept-new_side (del line ∷ ops) = kept-new_side ops
kept-new_side (add line ∷ ops) = skip (kept-new_side ops)

-- The lines that a diff keeps are lines of both texts in order, whatever the sizes.
kept-IsSubsequence :
    (a b : List Text) → IsSubsequence (kept (diff_of a b)) a × IsSubsequence (kept (diff_of a b)) b
kept-IsSubsequence a b =
    let replay = diff_of-IsReplay a b in
    (
      subst (IsSubsequence (kept (diff_of a b))) replay.old (kept-old_side (diff_of a b)),
      subst (IsSubsequence (kept (diff_of a b))) replay.new (kept-new_side (diff_of a b)),
    )

-- For two texts of at most 600 lines each, the lines that the diff keeps are a common subsequence of
-- both, and no common subsequence `zs` has more lines.
pub diff_of-longest :
    (a b zs : List Text)
    → length a ≤ 600
    → length b ≤ 600
    → IsSubsequence zs a
    → IsSubsequence zs b
    → IsSubsequence (kept (diff_of a b)) a
      × IsSubsequence (kept (diff_of a b)) b
      × (length zs ≤ length (kept (diff_of a b)))
diff_of-longest a b zs ha hb s t =
    let (in_a, in_b) = kept-IsSubsequence a b in
    (in_a, in_b, omega (arith, length-le-lcs a b s t, length-kept-diff_of a b ha hb))
