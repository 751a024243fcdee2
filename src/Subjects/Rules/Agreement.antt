-- ===== src/Subjects/Rules/Agreement.antt =====
-- The two pattern tests of the client, `lib/decoders.ts` and `lib/subjectMatch.ts`.
use nats_explorer.Prelude.{
  Text, text_beq, text_beq_iff, List, [], ◌∷◌, true, false, ◌≡◌, ◌≢◌, refl, arith, ◌==◌, text_eq,
  inl, inr, Bool-cases, ◌++◌,
}
use nats_explorer.Subjects.Match.{any_rest, tokens, match_tokens, subject_matches}
use nats_explorer.Subjects.Match.Matching.{
  IsWellFormed, IsWellFormed-tail, Matches, done, rest, wild, same,
}
use nats_explorer.Subjects.Match.Covering.{rest_is_last}
use nats_explorer.Subjects.Rules.{rule_match_tokens, rule_matches}

rule_match_tokens-eq :
    (pt st : List Text) → IsWellFormed pt → rule_match_tokens pt st ≡ match_tokens pt st
unfolding rule_match_tokens match_tokens
rule_match_tokens-eq [] st h = refl
rule_match_tokens-eq (p ∷ pt) [] h = refl
rule_match_tokens-eq (p ∷ pt) (s ∷ st) h = elim (Bool-cases (p == any_rest)) [
  | inl e ↦ rw (e, rest_is_last p pt ((text_beq_iff p any_rest).0 e) h)
  | inr e ↦ ground (arith, e, rule_match_tokens-eq pt st (IsWellFormed-tail p pt h))
]

-- On a pattern whose `>` is last, neither text being empty, the decoder rules match as the client's
-- other pattern test does.
pub rule_matches-eq :
    (pattern subject : Text)
    → pattern ≢ []
    → subject ≢ []
    → IsWellFormed (tokens pattern)
    → rule_matches pattern subject ≡ subject_matches pattern subject
unfolding rule_matches subject_matches
rule_matches-eq [] subject p s h = absurd (p refl)
rule_matches-eq (c ∷ pattern) [] p s h = absurd (s refl)
rule_matches-eq (c ∷ pattern) (d ∷ subject) p s h = rule_match_tokens-eq _ _ h

-- The same on the tokens, in parts: what stands before a `>` that is not the last token.
rule_match-open :
    {before bt : List Text} (p : Text) (after : List Text) (s : Text) (st : List Text)
    → Matches before bt
    → (rule_match_tokens (before ++ any_rest ∷ p ∷ after) (bt ++ s ∷ st) ≡ true)
      × (match_tokens (before ++ any_rest ∷ p ∷ after) (bt ++ s ∷ st) ≡ false)
unfolding rule_match_tokens match_tokens text_beq
rule_match-open p after s st done = (refl, refl)
rule_match-open p after s st (rest s' st') = (refl, refl)
rule_match-open p after s st (wild s' m) = rule_match-open p after s st m
rule_match-open p after s st (same {pt} {st = bt} s' h m) =
    let ih = rule_match-open p after s st m in
    (
      ground (arith, text_beq_iff s' any_rest, text_beq_iff s' s', ih.0),
      ground (arith, text_beq_iff s' any_rest, text_beq_iff s' s', ih.1),
    )

-- For a pattern with a `>` that is not its last token, and a subject that the tokens before that `>` match
-- a proper start of, the decoder rule matches and the client's other pattern test does not.
pub rule_matches-open :
    (pattern subject : Text) (before bt after st : List Text) (p s : Text)
    → pattern ≢ []
    → subject ≢ []
    → tokens pattern ≡ before ++ any_rest ∷ p ∷ after
    → tokens subject ≡ bt ++ s ∷ st
    → Matches before bt
    → (rule_matches pattern subject ≡ true) × (subject_matches pattern subject ≡ false)
unfolding rule_matches subject_matches
rule_matches-open [] subject before bt after st p s a b e k m = absurd (a refl)
rule_matches-open (c ∷ pt) [] before bt after st p s a b e k m = absurd (b refl)
rule_matches-open (c ∷ pt) (d ∷ sj) before bt after st p s a b e k m =
    rw (e, k) (rule_match-open p after s st m)
