-- ===== src/Alerts/Rules/Accepting.antt =====
-- What is known of a rule that the dialog accepts.
use nats_explorer.Prelude.{
  ℕ, zero, suc, codes, ap, sym, nat_beq, ◌++◌, starts_with, ◌≤◌, Text, text_beq_iff, text_eq, ◌==◌,
  List, [], ◌∷◌, Bool, true, false, not, ◌&&◌, ◌||◌, Option, none, some, any, if◌then◌else◌, ◌≡◌,
  refl, arith, All, ◌⊎◌, inl, inr, Bool-cases,
}
use nats_explorer.Prelude.Int.{ℤ, pos, negsuc, is_negative, is_positive}
use nats_explorer.Prelude.Trim.{trim}
use nats_explorer.Messages.{or_default}
use nats_explorer.Subjects.Match.{is_empty, tokens, any_rest}
use nats_explorer.Subjects.Match.Matching.{IsWellFormed}
use nats_explorer.Prelude.Tests.{nat_beq_iff}
use nats_explorer.Alerts.{AlertRule}
use nats_explorer.Alerts.Rules.Addresses.{recipients-IsAddresses}
use nats_explorer.Alerts.Rules.Accepted.{
  IsSaid, IsAboveZero, IsNatural, HasLimit, at_least, at_most, over, under, Watches, expression,
  silence, rhythm, over_window, same_value, IsPattern, IsWebhook, no_webhook, blank_webhook, http,
  https, IsRecipients, no_mail, blank_mail, mail, IsAccepted,
}
use nats_explorer.Alerts.Rules.{
  is_there, negative_or, recipients, bad_address, RuleError, rest_inside, says, above_zero,
  over_a_day, counts, threshold, has_condition, bad_webhook_of, bad_email_of, pattern_error,
  condition_error, first_error, validate_rule,
}

passes :
    (b : Bool) (e : RuleError) (rest : Option RuleError)
    → (if b then some e else rest) ≡ none
    → (b ≡ false) × (rest ≡ none)
passes true e rest h = absurd (cc (h))
passes false e rest h = (refl, h)

both_pass : (a b : Option RuleError) → first_error a b ≡ none → (a ≡ none) × (b ≡ none)
both_pass none b h = (refl, h)
both_pass (some e) b h = absurd (cc (h))

no_gap_of : (ts : List Text) → any is_empty ts ≡ false → All (λ t. is_empty t ≡ false) ts
no_gap_of [] h = tt
no_gap_of (t ∷ ts) h = elim (Bool-cases (is_empty t)) [
  | inl e ↦ absurd (cc (rw e at h))
  | inr e ↦ (e, no_gap_of ts (rw e at h))
]

rest_last_of : (ts : List Text) → rest_inside ts ≡ false → IsWellFormed ts
unfolding rest_inside
rest_last_of [] h = tt
rest_last_of (t ∷ []) h = tt
rest_last_of (t ∷ u ∷ ts) h = elim (Bool-cases (t == any_rest)) [
  | inl e ↦ absurd (cc (rw e at h))
  | inr e ↦ (ground (arith, text_beq_iff t any_rest), rest_last_of (u ∷ ts) (rw e at h))
]

pattern_error-IsPattern : (pattern : Text) → pattern_error pattern ≡ none → IsPattern pattern
unfolding pattern_error
pattern_error-IsPattern pattern h =
    let s1 = passes _ _ _ h in
    let s2 = passes _ _ _ s1.1 in
    let s3 = passes _ _ _ s2.1 in
    let s4 = passes _ _ _ s3.1 in
    record {
      no_blank = s2.0;
      no_gap = no_gap_of (tokens pattern) s3.0;
      rest_last = rest_last_of (tokens pattern) s4.0;
    }

neither : (a b : Bool) → (a || b) ≡ false → (a ≡ false) × (b ≡ false)
neither true b h = absurd (cc (h))
neither false b h = (refl, h)

either : (a b : Bool) → (a || b) ≡ true → (a ≡ true) ⊎ (b ≡ true)
either true b h = inl refl
either false b h = inr h

-- A condition that asks for another one.
asks : (a b : Bool) → (a && not b) ≡ false → (a ≡ false) ⊎ (b ≡ true)
asks true true h = inr refl
asks true false h = absurd (cc (h))
asks false b h = inl refl

is_true : (b : Bool) → not b ≡ false → b ≡ true
is_true true h = refl
is_true false h = absurd (cc (h))

left_of : (a b : Bool) → (a && b) ≡ true → a ≡ true
left_of true b h = refl
left_of false b h = absurd (cc (h))

present : {A : Type 0} (o : Option A) → is_there o ≡ true → (a : A) × (o ≡ some a)
present none h = absurd (cc (h))
present (some a) h = (a, refl)

absent : {A : Type 0} (o : Option A) → is_there o ≡ false → o ≡ none
absent none h = refl
absent (some a) h = absurd (cc (h))

says-IsSaid : (o : Option Text) → says o ≡ true → IsSaid o
unfolding says
says-IsSaid none h = absurd (cc (h))
says-IsSaid (some s) h = (s, refl, ground (arith, h))

above_zero-IsAboveZero : (o : Option ℤ) → above_zero o ≡ true → IsAboveZero o
above_zero-IsAboveZero none h = absurd (cc (h))
above_zero-IsAboveZero (some (pos zero)) h = absurd (cc (h))
above_zero-IsAboveZero (some (pos (suc n))) h = (n, refl)
above_zero-IsAboveZero (some (negsuc n)) h = absurd (cc (h))

positive-IsAboveZero : (o : Option ℤ) → is_positive (or_default (pos 0) o) ≡ true → IsAboveZero o
positive-IsAboveZero none h = absurd (cc (h))
positive-IsAboveZero (some n) h = above_zero-IsAboveZero (some n) h

negative-IsNatural : (o : Option ℤ) → negative_or o ≡ false → IsNatural o
negative-IsNatural none h = inl refl
negative-IsNatural (some (pos n)) h = inr (n, refl)
negative-IsNatural (some (negsuc n)) h = absurd (cc (h))

true-some : (o : Option Bool) → or_default false o ≡ true → o ≡ some true
true-some none h = absurd (cc (h))
true-some (some b) h = ap some h

window_bounds :
    (o : Option ℤ)
    → (is_negative (or_default (pos 0) o) || over_a_day (or_default (pos 0) o)) ≡ false
    → (o ≡ none) ⊎ ((w : ℕ) × (o ≡ some (pos w)) × (w ≤ 86400))
window_bounds none h = inl refl
window_bounds (some (pos n)) h = inr (n, refl, ground arith)
window_bounds (some (negsuc n)) h = absurd (cc (h))

limit_of : (r : AlertRule) → (counts r || threshold r) ≡ true → HasLimit r
limit_of r h = elim (either _ _ h) [
  | inl c ↦ elim (either _ _ c) [
    | inl e ↦ let t = present r.min_count e in at_least t.0 t.1
    | inr e ↦ let t = present r.max_count e in at_most t.0 t.1
  ]
  | inr c ↦ elim (either _ _ c) [
    | inl e ↦ let t = present r.above e in over t.0 t.1
    | inr e ↦ let t = present r.below e in under t.0 t.1
  ]
]

no_threshold : (r : AlertRule) → threshold r ≡ false → (r.above ≡ none) × (r.below ≡ none)
no_threshold r h = let t = neither _ _ h in (absent r.above t.0, absent r.below t.1)

no_limit :
    (r : AlertRule)
    → (counts r || threshold r) ≡ false
    → (r.min_count ≡ none) × (r.max_count ≡ none) × (r.above ≡ none) × (r.below ≡ none)
no_limit r h =
    let t = neither _ _ h in
    let c = neither _ _ t.0 in
    let k = no_threshold r t.1 in (absent r.min_count c.0, absent r.max_count c.1, k.0, k.1)

right_of : (a b : Bool) → (a && b) ≡ true → b ≡ true
right_of true b h = h
right_of false b h = absurd (cc (h))

has_condition-Watches : (r : AlertRule) → has_condition r ≡ true → Watches r
unfolding has_condition
has_condition-Watches r h = elim (either _ _ h) [
  | inr e ↦ same_value (above_zero-IsAboveZero r.unchanged_for e)
  | inl h1 ↦ elim (either _ _ h1) [
    | inr e ↦
        over_window (positive-IsAboveZero r.window (left_of _ _ e)) (limit_of r (right_of _ _ e))
    | inl h2 ↦ elim (either _ _ h2) [
      | inr e ↦ rhythm (true-some r.stale_auto e)
      | inl h3 ↦ elim (either _ _ h3) [
        | inl e ↦ expression (says-IsSaid r.expr e)
        | inr e ↦ silence (above_zero-IsAboveZero r.stale_after e)
      ]
    ]
  ]
]

starts_with-rest : (p s : Text) → starts_with p s ≡ true → (rest : Text) × (s ≡ p ++ rest)
unfolding starts_with
starts_with-rest [] s h = (s, refl)
starts_with-rest (c ∷ p) [] h = absurd (cc (h))
starts_with-rest (c ∷ p) (d ∷ s) h =
    let same : d ≡ c = sym ((nat_beq_iff c d).0 (left_of (nat_beq c d) (starts_with p s) h)) in
    let t = starts_with-rest p s (right_of (nat_beq c d) (starts_with p s) h) in
    (t.0, cc (same, t.1))

webhook_of : (r : AlertRule) → bad_webhook_of r ≡ false → IsWebhook r.webhook
unfolding bad_webhook_of says
webhook_of r h = cases r.webhook h
  where
    cases :
        (o : Option Text)
        → (says o
            && not (
                starts_with (codes "http://") (trim (or_default [] o))
                || starts_with (codes "https://") (trim (or_default [] o))))
          ≡ false
        → IsWebhook o
    cases none k = no_webhook refl
    cases (some s) k = elim (asks _ _ k) [
      | inl e ↦ blank_webhook s refl (ground (arith, e))
      | inr e ↦ elim (either _ _ e) [
        | inl p ↦ let t = starts_with-rest (codes "http://") (trim s) p in http s t.0 refl t.1
        | inr p ↦ let t = starts_with-rest (codes "https://") (trim s) p in https s t.0 refl t.1
      ]
    ]

email_of : (r : AlertRule) → bad_email_of r ≡ false → IsRecipients r.email
unfolding bad_email_of says
email_of r h = cases r.email h
  where
    cases :
        (o : Option Text)
        → (says o && any bad_address (recipients (or_default [] o))) ≡ false
        → IsRecipients o
    cases none k = no_mail refl
    cases (some s) k = elim (Bool-cases (is_empty (trim s))) [
      | inl e ↦ blank_mail s refl e
      | inr e ↦ mail s refl (recipients-IsAddresses s (rw e at k))
    ]

-- A rule that the dialog accepts has a name; a pattern without blanks and empty tokens in which `>` stands
-- last or nowhere; something to watch for, over a window only with a count or a threshold; a window of no
-- more than a day, and a positive one when it counts or has a threshold; a field when it has a threshold;
-- no negative time or count; a webhook, if any, that starts with http:// or https://; and recipients, if
-- any, that all hold an @.
pub validate_rule-IsAccepted : (r : AlertRule) → validate_rule r ≡ none → IsAccepted r
unfolding validate_rule condition_error
validate_rule-IsAccepted r h =
    let t1 = passes _ _ _ h in
    let t2 = both_pass _ _ t1.1 in
    let c1 = passes _ _ _ t2.1 in
    let c2 = passes _ _ _ c1.1 in
    let c3 = passes _ _ _ c2.1 in
    let c4 = passes _ _ _ c3.1 in
    let c5 = passes _ _ _ c4.1 in
    let c6 = passes _ _ _ c5.1 in
    let c7 = passes _ _ _ c6.1 in
    let c8 = passes _ _ _ c7.1 in
    let c9 = passes _ _ _ c8.1 in
    record {
      named = t1.0;
      pattern = pattern_error-IsPattern (trim r.pattern) t2.0;
      watches = has_condition-Watches r (is_true _ c2.0);
      window = window_bounds r.window c4.0;
      windowed = elim (asks _ _ c1.0) [
        | inl e ↦ inl (no_limit r e)
        | inr e ↦ inr (positive-IsAboveZero r.window e)
      ];
      field = elim (asks _ _ c6.0) [
        | inl e ↦ inl (no_threshold r e)
        | inr e ↦ inr (says-IsSaid r.field e)
      ];
      silence = negative-IsNatural r.stale_after c3.0;
      least = negative-IsNatural r.min_count (neither _ _ c5.0).0;
      most = negative-IsNatural r.max_count (neither _ _ c5.0).1;
      unchanged = negative-IsNatural r.unchanged_for c7.0;
      webhook = webhook_of r c8.0;
      email = email_of r c9.0;
    }
