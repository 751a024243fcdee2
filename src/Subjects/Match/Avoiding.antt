-- ===== src/Subjects/Match/Avoiding.antt =====
-- Reading a pattern as the tokens of a subject that the wide pattern does not match: `*` as a token that
-- the wide pattern does not hold, and `>` as one such token or two.
use mathlib.Core.Bool.{false≢true}
use nats_explorer.Prelude.{
  Text, List, [], ◌∷◌, true, false, ◌≡◌, ◌≢◌, refl, sym, ◌∙◌, ◌⊎◌, inl, inr, arith, text_beq,
  text_beq_iff, All, ◌==◌, text_eq,
}
use nats_explorer.Subjects.Match.{any_token, any_rest}
use nats_explorer.Subjects.Match.Matching.{
  Matches, done, rest, wild, same, IsWellFormed, IsWellFormed-tail,
}
use nats_explorer.Subjects.Match.Covering.{cover_plain, rest_is_last}

-- The tokens that `>` is read as: two where the wide pattern wants exactly one.
unfoldable pub expand : Text → List Text → List Text
expand f (w ∷ []) = f ∷ f ∷ []
expand f ws = f ∷ []

unfoldable pub behind : List Text → List Text
behind [] = []
behind (w ∷ ws) = ws

unfoldable pub separate : Text → List Text → List Text → List Text
separate f ws [] = []
separate f ws (t ∷ n) = elim (t == any_rest) [
  | true ↦ expand f ws
  | false ↦ elim (t == any_token) [
    | true ↦ f ∷ separate f (behind ws) n
    | false ↦ t ∷ separate f (behind ws) n
  ]
]

pub separate_nil : (f : Text) (ws : List Text) → separate f ws [] ≡ []
unfolding separate
separate_nil f ws = refl

pub separate_rest :
    (f t : Text) (ws n : List Text) → t ≡ any_rest → separate f ws (t ∷ n) ≡ expand f ws
unfolding separate
separate_rest f t ws n e = ground (arith, text_beq_iff t any_rest)

pub separate_wild :
    (f t : Text) (ws n : List Text)
    → t ≡ any_token
    → separate f ws (t ∷ n) ≡ f ∷ separate f (behind ws) n
unfolding separate text_beq
separate_wild f t ws n e = rw e

pub separate_same :
    (f t : Text) (ws n : List Text)
    → t ≢ any_rest
    → t ≢ any_token
    → separate f ws (t ∷ n) ≡ t ∷ separate f (behind ws) n
unfolding separate
separate_same f t ws n e k = ground (arith, text_beq_iff t any_rest, text_beq_iff t any_token)

pub token_kind :
    (t : Text) → (t ≡ any_rest) ⊎ ((t ≡ any_token) ⊎ ((t ≢ any_rest) × (t ≢ any_token)))
token_kind t = ground (arith, text_beq_iff t any_rest, text_beq_iff t any_token)

expand-Matches : (f : Text) (ws : List Text) → Matches (any_rest ∷ []) (expand f ws)
unfolding expand
expand-Matches f [] = rest f []
expand-Matches f (w ∷ []) = rest f (f ∷ [])
expand-Matches f (w ∷ v ∷ ws) = rest f []

pub separate-Matches : (f : Text) (ws n : List Text) → IsWellFormed n → Matches n (separate f ws n)
separate-Matches f ws [] h = unfold separate in done
separate-Matches f ws (t ∷ n) h = elim (token_kind t) [
  | inl e ↦ rw (separate_rest f t ws n e) (rw (rest_is_last t n e h, e) (expand-Matches f ws))
  | inr (inl e) ↦
      rw (separate_wild f t ws n e)
        (rw e (wild f (separate-Matches f (behind ws) n (IsWellFormed-tail t n h))))
  | inr (inr (a, b)) ↦
      rw (separate_same f t ws n a b)
        (same t a (separate-Matches f (behind ws) n (IsWellFormed-tail t n h)))
]

Matches-step :
    {w s : Text} {ws st : List Text}
    → w ≢ any_rest
    → Matches (w ∷ ws) (s ∷ st)
    → ((w ≡ any_token) ⊎ (w ≡ s)) × Matches ws st
Matches-step h (rest s st) = absurd (h refl)
Matches-step h (wild s m) = (inl refl, m)
Matches-step h (same s n m) = (inr refl, m)

not-Matches-nil : {s : Text} {st : List Text} → ¬ Matches [] (s ∷ st)
not-Matches-nil m = elim m [ ]

pub not-Matches-cons : {w : Text} {ws : List Text} → ¬ Matches (w ∷ ws) []
not-Matches-cons m = elim m [ ]

cover_fails :
    (w t : Text) (ws n : List Text)
    → cover_plain (w ∷ ws) (t ∷ n) ≡ false
    → (w ≢ any_rest) × ((t ≡ any_rest) ⊎ (((w ≢ any_token) × (w ≢ t)) ⊎ (cover_plain ws n ≡ false)))
unfolding cover_plain
cover_fails w t ws n h = ground (
  arith,
  text_beq_iff w any_rest,
  text_beq_iff t any_rest,
  text_beq_iff w any_token,
  text_beq_iff w t,
)

expand-avoids :
    (f w : Text) (ws : List Text) → w ≢ any_rest → ¬ Matches (w ∷ ws) (expand f (w ∷ ws))
unfolding expand
expand-avoids f w [] h m = not-Matches-nil (Matches-step h m).1
expand-avoids f w (v ∷ ws) h m = not-Matches-cons (Matches-step h m).1

any_token-ne-any_rest : any_token ≢ any_rest
unfolding text_beq
any_token-ne-any_rest e = false≢true ((text_beq_iff any_token any_rest).1 e)

not_rest : (t : Text) → (t ≡ any_token) ⊎ ((t ≢ any_rest) × (t ≢ any_token)) → t ≢ any_rest
not_rest t (inl e) r = any_token-ne-any_rest (sym e ∙ r)
not_rest t (inr k) r = k.0 r

separate-cons :
    (f t : Text) (ws n : List Text)
    → t ≢ any_rest
    → (s : Text) × ((s ≡ f) ⊎ (s ≡ t)) × (separate f ws (t ∷ n) ≡ s ∷ separate f (behind ws) n)
separate-cons f t ws n h = elim (token_kind t) [
  | inl e ↦ absurd (h e)
  | inr (inl e) ↦ (f, inl refl, separate_wild f t ws n e)
  | inr (inr (a, b)) ↦ (t, inr refl, separate_same f t ws n a b)
]

pub separate-avoids :
    (f : Text) (ws n : List Text)
    → All (λ w. w ≢ f) ws
    → cover_plain ws n ≡ false
    → ¬ Matches ws (separate f ws n)
unfolding expand behind
separate-avoids f [] [] a h m = unfold cover_plain in cc
separate-avoids f [] (t ∷ n) a h m = elim (token_kind t) [
  | inl e ↦ not-Matches-nil (rw (separate_rest f t [] n e) at m)
  | inr (inl e) ↦ not-Matches-nil (rw (separate_wild f t [] n e) at m)
  | inr (inr (b, c)) ↦ not-Matches-nil (rw (separate_same f t [] n b c) at m)
]
separate-avoids f (w ∷ ws) [] a h m = not-Matches-cons (rw (separate_nil f (w ∷ ws)) at m)
separate-avoids f (w ∷ ws) (t ∷ n) a h m =
    let (u, k) = cover_fails w t ws n h in
    elim (token_kind t) [
      | inl e ↦ expand-avoids f w ws u (rw (separate_rest f t (w ∷ ws) n e) at m)
      | inr other ↦
          let nt : t ≢ any_rest = not_rest t other in
          let (s, fresh, e) = separate-cons f t (w ∷ ws) n nt in
          let (hit, below) = Matches-step u (rw e at m) in
          elim k [
            | inl e ↦ absurd (nt e)
            | inr (inl (nw, ne)) ↦ elim hit [
              | inl e ↦ nw e
              | inr e ↦ elim fresh [ inl e' ↦ a.0 (e ∙ e') | inr e' ↦ ne (e ∙ e') ]
            ]
            | inr (inr r) ↦ separate-avoids f ws n a.1 r below
          ]
    ]
