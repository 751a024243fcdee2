-- ===== src/Alerts/Rules/Branch.antt =====
-- The rule for a branch of the tree.
use nats_explorer.Prelude.{
  ℕ, Text, List, [], ◌∷◌, ◌++◌, true, false, nat_beq, split_on, extend_first, ◌≡◌, ◌≢◌, refl, ap,
  ◌∙◌, arith, All, inl, inr, Bool-cases,
}
use nats_explorer.Prelude.Split.{split_on-cons}
use nats_explorer.Subjects.Match.{is_empty, tokens, dot, any_rest, match_tokens, subject_matches}
use nats_explorer.Subjects.Match.Matching.{Matches, rest, same, match_tokens_complete}
use nats_explorer.Alerts.Rules.{alert_rule_for_subject}

extend_first-append :
    (c : ℕ) (p : Text) (ps qs : List Text)
    → extend_first c ((p ∷ ps) ++ qs) ≡ extend_first c (p ∷ ps) ++ qs
extend_first-append c p ps qs = refl

split_on-append :
    (sep : ℕ) (s t : Text) → split_on sep (s ++ sep ∷ t) ≡ split_on sep s ++ split_on sep t
unfolding split_on
split_on-append sep [] t = ground (arith)
split_on-append sep (c ∷ s) t =
    let (p, ps, e) = split_on-cons sep s in
    elim (Bool-cases (nat_beq c sep)) [
      | inl h ↦ rw (split_on-append sep s t, h) refl
      | inr h ↦ rw (split_on-append sep s t, h, e) refl
    ]

below-Matches :
    (ts us : List Text)
    → All (λ t. t ≢ any_rest) ts
    → us ≢ []
    → Matches (ts ++ any_rest ∷ []) (ts ++ us)
below-Matches [] [] a h = absurd (h refl)
below-Matches [] (u ∷ us) a h = rest u us
below-Matches (t ∷ ts) us a h = same t a.0 (below-Matches ts us a.1 h)

split_on-some : (sep : ℕ) (s : Text) → split_on sep s ≢ []
split_on-some sep s h = let (p, ps, e) = split_on-cons sep s in absurd (cc (e, h))

is_empty-append : (s t : Text) → is_empty s ≡ false → is_empty (s ++ t) ≡ false
is_empty-append [] t h = absurd (cc (h))
is_empty-append (c ∷ s) t h = refl

rest_token : split_on dot any_rest ≡ any_rest ∷ []
unfolding split_on
rest_token = refl

matches_of :
    (pattern subject : Text)
    → is_empty pattern ≡ false
    → is_empty subject ≡ false
    → match_tokens (tokens pattern) (tokens subject) ≡ true
    → subject_matches pattern subject ≡ true
unfolding subject_matches
matches_of pattern subject h k m = rw (h, k) m

-- The rule that is offered for a branch covers everything below it: for a subject that is not empty and
-- has no `>` among its tokens, each subject that goes on after it and a dot matches the rule's pattern.
pub alert_rule_for_subject-matches :
    (uuid subject below : Text)
    → is_empty subject ≡ false
    → All (λ t. t ≢ any_rest) (tokens subject)
    → subject_matches (alert_rule_for_subject uuid subject true).pattern (subject ++ (dot ∷ below))
      ≡ true
unfolding alert_rule_for_subject tokens
alert_rule_for_subject-matches uuid subject below h a =
    let pattern : split_on dot (subject ++ dot ∷ any_rest) ≡ split_on dot subject ++ any_rest ∷ [] =
      split_on-append dot subject any_rest ∙ ap (λ ts. split_on dot subject ++ ts) rest_token in
    let whole = split_on-append dot subject below in
    let matched =
      match_tokens_complete
        (below-Matches (split_on dot subject) (split_on dot below) a (split_on-some dot below)) in
    matches_of (subject ++ dot ∷ any_rest) (subject ++ dot ∷ below)
      (is_empty-append subject (dot ∷ any_rest) h) (is_empty-append subject (dot ∷ below) h)
      (rw (pattern, whole) matched)
