-- ===== src/Subjects/Match/Covering.antt =====
-- `covers` against the rule of `Matching`.
use nats_explorer.Prelude.Split.{join-split}
use nats_explorer.Prelude.{
  Text, List, [], ◌∷◌, ◌++◌, append_assoc, Bool, true, false, ◌≡◌, ◌≢◌, refl, sym, ◌∙◌, ap, ◌⊎◌,
  inl, inr, arith, text_beq, text_beq_iff, join_with, any, ◌==◌, text_eq, Bool-cases,
}
use nats_explorer.Subjects.Match.{
  dot, any_token, any_rest, tokens, subject_matches, is_empty, cover_tokens, covers,
}
use nats_explorer.Subjects.Match.Matching.{
  Matches, rest, wild, same, IsWellFormed, IsWellFormed-tail, subject_matches_iff,
}

-- What `cover_tokens` computes when no `>` stands in the part of `narrow` that is behind.
unfoldable pub cover_plain : List Text → List Text → Bool
cover_plain [] n = is_empty n
cover_plain (w ∷ ws) [] = false
cover_plain (w ∷ ws) (t ∷ n) = elim (w == any_rest) [
  | true ↦ true
  | false ↦ elim (t == any_rest) [
    | true ↦ false
    | false ↦ elim (w == any_token) [
      | true ↦ cover_plain ws n
      | false ↦ elim (w == t) [ true ↦ cover_plain ws n | false ↦ false ]
    ]
  ]
]

any-append : (p : Text → Bool) (xs ys : List Text) → any p xs ≡ false → any p (xs ++ ys) ≡ any p ys
any-append p [] ys h = refl
any-append p (x ∷ xs) ys h = ground (arith, any-append p xs ys)

cover_tokens-plain :
    (before ws n : List Text)
    → any (λ t. t == any_rest) before ≡ false
    → cover_tokens (before ++ n) ws n ≡ cover_plain ws n
unfolding cover_tokens cover_plain
cover_tokens-plain before [] [] h = rw (any-append _ before [] h)
cover_tokens-plain before [] (t ∷ n) h = refl
cover_tokens-plain before (w ∷ ws) [] h = refl
cover_tokens-plain before (w ∷ ws) (t ∷ n) h = elim (Bool-cases (t == any_rest)) [
  | inl e ↦ ground (arith, e)
  | inr e ↦
      let ih : cover_tokens (before ++ t ∷ n) ws n ≡ cover_plain ws n =
        rw (append_assoc before (t ∷ []) n) at
          (cover_tokens-plain (before ++ t ∷ []) ws n (any-append _ before (t ∷ []) h ∙ rw e)) in
      ground (arith, e, ih)
]

-- A pattern that matches has a token for its first one, and covers it.
Matches-cons :
    {t : Text} {n st : List Text}
    → Matches (t ∷ n) st
    → (s : Text) × (st' : List Text) × (st ≡ s ∷ st')
      × (((t ≡ any_rest) × (n ≡ [])) ⊎ (((t ≡ any_token) ⊎ (t ≡ s)) × Matches n st'))
Matches-cons (rest s st) = (s, st, refl, inl (refl, refl))
Matches-cons (wild {st} s m) = (s, st, refl, inr (inl refl, m))
Matches-cons (same {st} s h m) = (s, st, refl, inr (inr refl, m))

pub rest_is_last : (w : Text) (ws : List Text) → w ≡ any_rest → IsWellFormed (w ∷ ws) → ws ≡ []
rest_is_last w [] e h = refl
rest_is_last w (v ∷ ws) e h = absurd (h.0 e)

cover_cases :
    (w t : Text) (ws n : List Text)
    → cover_plain (w ∷ ws) (t ∷ n) ≡ true
    → (w ≡ any_rest)
      ⊎ ((w ≢ any_rest) × (t ≢ any_rest) × ((w ≡ any_token) ⊎ (w ≡ t)) × (cover_plain ws n ≡ true))
unfolding cover_plain
cover_cases w t ws n h = ground (
  arith,
  text_beq_iff w any_rest,
  text_beq_iff t any_rest,
  text_beq_iff w any_token,
  text_beq_iff w t,
)

cover_plain_sound :
    (ws n st : List Text) → IsWellFormed ws → cover_plain ws n ≡ true → Matches n st → Matches ws st
cover_plain_sound [] [] st f h m = m
cover_plain_sound [] (t ∷ n) st f h m = unfold cover_plain in cc
cover_plain_sound (w ∷ ws) [] st f h m = unfold cover_plain in cc
cover_plain_sound (w ∷ ws) (t ∷ n) st f h m =
    let (s, st', e, k) = Matches-cons m in
    elim (cover_cases w t ws n h) [
      | inl a ↦ let l : ws ≡ [] = rest_is_last w ws a f in rw (a, l, e) (rest s st')
      | inr (nw, nt, c, h') ↦ rw e (elim k [
        | inl r ↦ absurd (nt r.0)
        | inr (d, m') ↦
            let ih : Matches ws st' = cover_plain_sound ws n st' (IsWellFormed-tail w ws f) h' m' in
            elim c [
              | inl a ↦ rw a (wild s ih)
              | inr a ↦ elim d [
                | inl b ↦ rw (a ∙ b) (wild s ih)
                | inr b ↦ rw (← b) (rw a (same t nt ih))
              ]
            ]
      ])
    ]

pub covers_refl : (wide narrow : Text) → wide ≡ narrow → covers wide narrow ≡ true
unfolding covers
covers_refl wide narrow e = ground (arith, text_beq_iff wide narrow)

pub covers-tokens :
    (wide narrow : Text)
    → wide ≢ narrow
    → covers wide narrow ≡ cover_plain (tokens wide) (tokens narrow)
unfolding covers
covers-tokens wide narrow h =
    ground
      (arith, text_beq_iff wide narrow, cover_tokens-plain [] (tokens wide) (tokens narrow) refl)

pub tokens_injective : (a b : Text) → tokens a ≡ tokens b → a ≡ b
unfolding tokens
tokens_injective a b h = sym (join-split dot a) ∙ ap (join_with (dot ∷ [])) h ∙ join-split dot b

cover_empty : (n : List Text) → cover_plain ([] ∷ []) n ≡ true → n ≡ [] ∷ []
unfolding cover_plain text_beq
cover_empty [] h = cc
cover_empty ([] ∷ []) h = refl
cover_empty ([] ∷ t ∷ n) h = cc
cover_empty ((c ∷ t) ∷ n) h = ground (arith, text_beq_iff (c ∷ t) any_rest, text_beq_iff [] (c ∷ t))

covers-ne-nil :
    (wide narrow : Text) → wide ≢ narrow → covers wide narrow ≡ true → narrow ≢ [] → wide ≢ []
unfolding tokens
covers-ne-nil wide narrow d c h e =
    h (tokens_injective narrow [] (cover_empty (tokens narrow) covered))
  where
    covered : cover_plain ([] ∷ []) (tokens narrow) ≡ true
    covered = rw (e, covers-tokens [] narrow (rw e at d)) at c

-- If a pattern covers another, its `>` being last, every subject that the narrow one matches is matched by the wide one.
pub covers_sound :
    (wide narrow subject : Text)
    → IsWellFormed (tokens wide)
    → covers wide narrow ≡ true
    → subject_matches narrow subject ≡ true
    → subject_matches wide subject ≡ true
covers_sound wide narrow subject f c m = elim (Bool-cases (wide == narrow)) [
  | inl e ↦ rw ((text_beq_iff wide narrow).0 e) m
  | inr e ↦
      let differs : wide ≢ narrow = λ p. cc (e, (text_beq_iff wide narrow).1 p) in
      let (h, k, r) = (subject_matches_iff narrow subject).0 m in
      (subject_matches_iff wide subject).1 (
        covers-ne-nil wide narrow differs c h,
        k,
        cover_plain_sound (tokens wide) (tokens narrow) (tokens subject) f
            (rw (covers-tokens wide narrow differs) at c) r,
      )
]
