-- ===== src/Subjects/Match.antt =====
-- client/src/lib/subjectMatch.ts: the wildcard rule over the tokens of a subject. The loops over an
-- index are recursions over what is left of the two token lists.
pub mod Matching
pub mod Covering
pub mod Avoiding
pub mod Separating
pub mod Overlaps
use nats_explorer.Prelude.{
  ℕ, Text, codes, List, [], ◌∷◌, ◌++◌, Bool, true, false, not, ◌&&◌, ◌||◌, ◌==◌, text_eq, any,
  split_on, if◌then◌else◌, text_beq,
}

abbrev pub dot : ℕ
dot = b'.'

-- `*`: one token.
abbrev pub any_token : Text
any_token = codes "*"

-- `>`: the rest of the subject.
abbrev pub any_rest : Text
any_rest = codes ">"

unfoldable pub tokens : Text → List Text
unfolding split_on
tokens s = split_on dot s

abbrev pub is_empty {ℓ} : {A : Type ℓ} → List A → Bool
is_empty [] = true
is_empty (x ∷ xs) = false

-- The loop of `subjectMatches`: `pt.slice(i)` and `st.slice(i)`. With no subject token left both
-- returns of the loop give false.
unfoldable pub match_tokens : List Text → List Text → Bool
unfolding text_beq
match_tokens [] st = is_empty st
match_tokens (p ∷ pt) [] = false
match_tokens (p ∷ pt) (s ∷ st) =
    if p == any_rest
    then is_empty pt
    else if not (p == any_token) && not (p == s)
    then false
    else match_tokens pt st

unfoldable pub subject_matches : Text → Text → Bool
unfolding match_tokens tokens
subject_matches pattern subject =
    if is_empty pattern || is_empty subject
    then false
    else match_tokens (tokens pattern) (tokens subject)

-- The loop of `covers`: `narrow` is the whole token list `n`, the others are what is left.
unfoldable pub cover_tokens : List Text → List Text → List Text → Bool
unfolding text_beq
cover_tokens narrow [] n = is_empty n && not (any (λ t. t == any_rest) narrow)
cover_tokens narrow (w ∷ ws) [] = false
cover_tokens narrow (w ∷ ws) (t ∷ n) =
    if w == any_rest
    then true
    else if t == any_rest
    then false
    else if w == any_token
    then cover_tokens narrow ws n
    else if not (w == t)
    then false
    else cover_tokens narrow ws n

unfoldable pub covers : Text → Text → Bool
unfolding cover_tokens tokens text_beq
covers wide narrow =
    if wide == narrow then true else cover_tokens (tokens narrow) (tokens wide) (tokens narrow)

-- The inner loop of `overlappingPatterns`.
unfoldable pub overlaps_of : Text → List Text → List (Text × Text)
overlaps_of wide [] = []
overlaps_of wide (narrow ∷ rest) =
    let found = overlaps_of wide rest in
    if not (wide == narrow) && covers wide narrow then (wide, narrow) ∷ found else found

unfoldable pub overlaps_from : List Text → List Text → List (Text × Text)
unfolding overlaps_of
overlaps_from patterns [] = []
overlaps_from patterns (wide ∷ rest) = overlaps_of wide patterns ++ overlaps_from patterns rest

unfoldable pub overlapping_patterns : List Text → List (Text × Text)
unfolding overlaps_from
overlapping_patterns patterns = overlaps_from patterns patterns
