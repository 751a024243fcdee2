-- ===== src/Subjects/Match/Matching.antt =====
-- `subjectMatches` against the wildcard rule.
use mathlib.Core.List.{cons-ne-nil}
use nats_explorer.Prelude.{
  Text, List, [], ◌∷◌, true, ◌≡◌, ◌≢◌, refl, ◌↔◌, ◌⊎◌, inl, inr, arith, text_beq_iff,
}
use nats_explorer.Subjects.Match.{any_token, any_rest, tokens, match_tokens, subject_matches}

-- The rule: `*` covers one token, a last `>` at least one token, any other token itself.
pub data Matches : List Text → List Text → Type 0 where
  done : Matches [] []
  rest : (s : Text) (st : List Text) → Matches (any_rest ∷ []) (s ∷ st)
  wild : {pt st : List Text} (s : Text) → Matches pt st → Matches (any_token ∷ pt) (s ∷ st)
  same : {pt st : List Text} (s : Text) → s ≢ any_rest → Matches pt st → Matches (s ∷ pt) (s ∷ st)

-- `>` stands last or nowhere.
abbrev pub IsWellFormed : List Text → Type 0
IsWellFormed [] = Unit
IsWellFormed (p ∷ []) = Unit
IsWellFormed (p ∷ q ∷ pt) = (p ≢ any_rest) × IsWellFormed (q ∷ pt)

pub IsWellFormed-tail : (p : Text) (pt : List Text) → IsWellFormed (p ∷ pt) → IsWellFormed pt
IsWellFormed-tail p [] h = tt
IsWellFormed-tail p (q ∷ pt) h = h.1

pub match_tokens_complete : {pt st : List Text} → Matches pt st → match_tokens pt st ≡ true
unfolding match_tokens
match_tokens_complete done = refl
match_tokens_complete (rest s st) = refl
match_tokens_complete (wild s m) = match_tokens_complete m
match_tokens_complete (same {pt} {st} s h m) =
    ground (arith, text_beq_iff s any_rest, text_beq_iff s s, match_tokens_complete m)

match_token_cases :
    (p s : Text) (pt st : List Text)
    → match_tokens (p ∷ pt) (s ∷ st) ≡ true
    → ((p ≡ any_rest) × (pt ≡ []))
      ⊎ (((p ≡ any_token) × (match_tokens pt st ≡ true))
          ⊎ ((p ≡ s) × (p ≢ any_rest) × (match_tokens pt st ≡ true)))
unfolding match_tokens
match_token_cases p s [] st h =
    ground (arith, text_beq_iff p any_rest, text_beq_iff p any_token, text_beq_iff p s)
match_token_cases p s (q ∷ pt) st h =
    ground (arith, text_beq_iff p any_rest, text_beq_iff p any_token, text_beq_iff p s)

match_tokens_sound : (pt st : List Text) → match_tokens pt st ≡ true → Matches pt st
match_tokens_sound [] [] h = done
match_tokens_sound [] (s ∷ st) h = unfold match_tokens in cc
match_tokens_sound (p ∷ pt) [] h = unfold match_tokens in cc
match_tokens_sound (p ∷ pt) (s ∷ st) h = elim (match_token_cases p s pt st h) [
  | inl (e, f) ↦ rw (e, f) (rest s st)
  | inr (inl (e, k)) ↦ rw e (wild s (match_tokens_sound pt st k))
  | inr (inr (e, n, k)) ↦ rw (← e) (same p n (match_tokens_sound pt st k))
]

-- For a pattern and a subject that are not empty, the function decides the rule; otherwise it says no.
pub subject_matches_iff :
    (pattern subject : Text)
    → (subject_matches pattern subject ≡ true)
      ↔ ((pattern ≢ []) × (subject ≢ []) × Matches (tokens pattern) (tokens subject))
unfolding subject_matches
subject_matches_iff [] subject = (λ h. absurd (cc), λ h. absurd (h.0 refl))
subject_matches_iff (p ∷ pt) [] = (λ h. absurd (cc), λ h. absurd (h.1 refl))
subject_matches_iff (p ∷ pt) (s ∷ st) = (
  λ h. (cons-ne-nil p pt, cons-ne-nil s st, match_tokens_sound _ _ h),
  λ h. match_tokens_complete h.2,
)
