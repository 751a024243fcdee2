-- ===== src/Subjects/Match/Separating.antt =====
-- Subjects that tell two patterns apart: `*` is read as a token that the wide pattern does not
-- hold, and `>` as one such token or two.
use mathlib.Core.Bool.{false≢true}
use mathlib.Core.List.{cons-ne-nil}
use nats_explorer.Prelude.Split.{split-join, split_on-Lacks, split_on-cons, Lacks}
use nats_explorer.Prelude.{
  ℕ, zero, suc, ◌≤◌, Text, List, [], ◌∷◌, true, false, ◌≡◌, ◌≢◌, refl, sym, ◌∙◌, ap, inl, inr,
  arith, join_with, All, text_eq, Bool-cases, length, max,
}
use nats_explorer.Subjects.Match.{dot, tokens, subject_matches, covers}
use nats_explorer.Subjects.Match.Matching.{
  Matches, IsWellFormed, IsWellFormed-tail, subject_matches_iff,
}
use nats_explorer.Subjects.Match.Covering.{covers-tokens, covers_refl, tokens_injective}
use nats_explorer.Subjects.Match.Avoiding.{
  expand, behind, separate, separate_nil, separate_rest, separate_wild, separate_same, token_kind,
  separate-Matches, not-Matches-cons, separate-avoids,
}

-- A token longer than every one of the list.
longest : List Text → ℕ
longest [] = 0
longest (w ∷ ws) = max (length w) (longest ws)

letters : ℕ → Text
letters zero = b'x' ∷ []
letters (suc n) = b'x' ∷ letters n

letters_shape : (n : ℕ) → Lacks dot (letters n) × (letters n ≢ []) × (length (letters n) ≡ suc n)
unfolding letters
letters_shape zero = (omega arith, cons-ne-nil _ _, refl)
letters_shape (suc n) =
    let (l, h, e) = letters_shape n in ((omega arith, l), cons-ne-nil _ _, ap suc e)

letters-fresh : (n : ℕ) (ws : List Text) → longest ws ≤ n → All (λ w. w ≢ letters n) ws
unfolding longest
letters-fresh n [] h = tt
letters-fresh n (w ∷ ws) h =
    (λ e. omega (arith, ap length e, (letters_shape n).2), letters-fresh n ws (omega arith))

expand-Lacks : (f : Text) (ws : List Text) → Lacks dot f → All (Lacks dot) (expand f ws)
unfolding expand
expand-Lacks f [] h = (h, tt)
expand-Lacks f (w ∷ []) h = (h, (h, tt))
expand-Lacks f (w ∷ v ∷ ws) h = (h, tt)

separate-Lacks :
    (f : Text) (ws n : List Text)
    → Lacks dot f
    → All (Lacks dot) n
    → All (Lacks dot) (separate f ws n)
separate-Lacks f ws [] h a = unfold separate in tt
separate-Lacks f ws (t ∷ n) h a = elim (token_kind t) [
  | inl e ↦ rw (separate_rest f t ws n e) (expand-Lacks f ws h)
  | inr (inl e) ↦ rw (separate_wild f t ws n e) (h, separate-Lacks f (behind ws) n h a.1)
  | inr (inr (b, c)) ↦ rw (separate_same f t ws n b c) (a.0, separate-Lacks f (behind ws) n h a.1)
]

Matches-empty : (n : List Text) → Matches n [] → n ≡ []
Matches-empty [] m = refl
Matches-empty (t ∷ n) m = absurd (not-Matches-cons m)

expand-ne-empty : (f : Text) (ws : List Text) → f ≢ [] → expand f ws ≢ [] ∷ []
unfolding expand
expand-ne-empty f [] h e = h (cc)
expand-ne-empty f (w ∷ []) h e = h (cc)
expand-ne-empty f (w ∷ v ∷ ws) h e = h (cc)

separate-ne-empty :
    (f : Text) (ws n : List Text)
    → f ≢ []
    → IsWellFormed n
    → n ≢ [] ∷ []
    → separate f ws n ≢ [] ∷ []
separate-ne-empty f ws [] h wf k e = cc (separate_nil f ws, e)
separate-ne-empty f ws (t ∷ n) h wf k e = elim (token_kind t) [
  | inl r ↦ expand-ne-empty f ws h (sym (separate_rest f t ws n r) ∙ e)
  | inr (inl r) ↦ h (cc (separate_wild f t ws n r, e))
  | inr (inr (a, b)) ↦
      let both : t ∷ separate f (behind ws) n ≡ [] ∷ [] = sym (separate_same f t ws n a b) ∙ e in
      let none_left : separate f (behind ws) n ≡ [] = cc in
      let m = separate-Matches f (behind ws) n (IsWellFormed-tail t n wf) in
      let gone : n ≡ [] = Matches-empty n (rw none_left at m) in k (cc)
]

tokens-join :
    (xs : List Text) → xs ≢ [] → All (Lacks dot) xs → tokens (join_with (dot ∷ []) xs) ≡ xs
unfolding tokens
tokens-join [] h a = absurd (h refl)
tokens-join (x ∷ xs) h a = split-join dot x xs a

tokens-Lacks : (s : Text) → All (Lacks dot) (tokens s)
unfolding tokens
tokens-Lacks s = split_on-Lacks dot s

tokens-nil : tokens [] ≡ [] ∷ []
unfolding tokens
tokens-nil = refl

tokens-ne-nil : (s : Text) → tokens s ≢ []
unfolding tokens
tokens-ne-nil s e = let (p, ps, k) = split_on-cons dot s in cc

Matches-ne-nil : (n st : List Text) → n ≢ [] → Matches n st → st ≢ []
Matches-ne-nil n st h m e = h (Matches-empty n (rw e at m))

not-subject_matches :
    (pattern subject : Text)
    → ¬ Matches (tokens pattern) (tokens subject)
    → subject_matches pattern subject ≡ false
not-subject_matches pattern subject h = elim (Bool-cases (subject_matches pattern subject)) [
  | inl e ↦ absurd (h ((subject_matches_iff pattern subject).0 e).2)
  | inr e ↦ e
]

-- If `covers` says no, the narrow pattern being well-formed and not empty, some subject matches the
-- narrow pattern and does not match the wide one.
pub covers_complete :
    (wide narrow : Text)
    → narrow ≢ []
    → IsWellFormed (tokens narrow)
    → covers wide narrow ≡ false
    → (subject : Text) × (subject_matches narrow subject ≡ true)
      × (subject_matches wide subject ≡ false)
covers_complete wide narrow h wf c = (
  subject,
  (subject_matches_iff narrow subject).1 (h, subject-ne-nil, rw (← same_tokens) at matched),
  not-subject_matches wide subject (rw (← same_tokens) at avoided),
)
  where
    f : Text
    f = letters (longest (tokens wide))

    ws : List Text
    ws = tokens wide

    n : List Text
    n = tokens narrow

    shape : Lacks dot f × (f ≢ []) × (length f ≡ suc (longest ws))
    shape = letters_shape (longest ws)

    matched : Matches n (separate f ws n)
    matched = separate-Matches f ws n wf

    differs : wide ≢ narrow
    differs e = false≢true (sym c ∙ covers_refl wide narrow e)

    avoided : ¬ Matches ws (separate f ws n)
    avoided =
        separate-avoids f ws n (letters-fresh (longest ws) ws (omega arith))
          (sym (covers-tokens wide narrow differs) ∙ c)

    subject : Text
    subject = join_with (dot ∷ []) (separate f ws n)

    same_tokens : tokens subject ≡ separate f ws n
    same_tokens =
        tokens-join (separate f ws n) (Matches-ne-nil n _ (tokens-ne-nil narrow) matched)
          (separate-Lacks f ws n shape.0 (tokens-Lacks narrow))

    subject-ne-nil : subject ≢ []
    subject-ne-nil e =
        separate-ne-empty f ws n shape.1 wf
          (λ k. h (tokens_injective narrow [] (k ∙ sym tokens-nil)))
          (sym same_tokens ∙ ap tokens e ∙ tokens-nil)
