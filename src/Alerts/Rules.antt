-- ===== src/Alerts/Rules.antt =====
-- client/src/lib/alerts.ts: what the dialog accepts as a rule, and the rule of a subject.
pub mod Accepted
pub mod Accepting
pub mod Addresses
pub mod Branch
use nats_explorer.Prelude.{
  ℕ, Text, codes, text_beq, List, [], ◌∷◌, ◌++◌, Bool, true, false, not, ◌&&◌, ◌||◌, Option, none,
  some, ◌==◌, text_eq, any, if◌then◌else◌, nat_beq, ltb, is_space, starts_with, extend_first,
}
use nats_explorer.Prelude.Int.{ℤ, pos, negsuc, is_negative, is_positive}
use nats_explorer.Prelude.Trim.{trim}
use nats_explorer.Messages.{or_default}
use nats_explorer.Subjects.Match.{is_empty, tokens, any_rest}
use nats_explorer.Alerts.{AlertRule, warning}

-- The sentences of the dialog.
pub data RuleError : Type 0 where
  no_name no_pattern blank_in_pattern empty_token rest_not_last no_window no_condition : RuleError
  negative_silence bad_window negative_count no_field negative_unchanged : RuleError
  bad_webhook bad_recipient : RuleError

unfoldable pub new_alert_rule : Text → AlertRule
new_alert_rule uuid = record {
  id = uuid;
  name = [];
  pattern = [];
  expr = none;
  stale_after = none;
  stale_auto = none;
  severity = warning;
  webhook = none;
  email = none;
  enabled = true;
  window = none;
  min_count = none;
  max_count = none;
  field = none;
  above = none;
  below = none;
  unchanged_for = none;
  muted_until = none;
}

abbrev pub branch_pattern : Bool → Text → Text
branch_pattern true subject = subject ++ codes ".>"
branch_pattern false subject = subject

unfoldable pub alert_rule_for_subject : Text → Text → Bool → AlertRule
unfolding new_alert_rule
alert_rule_for_subject uuid subject branch = record (new_alert_rule uuid) {
  pattern = branch_pattern branch subject;
  name = branch_pattern branch subject;
}

-- `tokens.some((t, i) => t === '>' && i !== tokens.length - 1)`.
unfoldable pub rest_inside : List Text → Bool
unfolding text_beq
rest_inside [] = false
rest_inside (t ∷ []) = false
rest_inside (t ∷ u ∷ ts) = t == any_rest || rest_inside (u ∷ ts)

abbrev pub is_there {ℓ} : {A : Type ℓ} → Option A → Bool
is_there none = false
is_there (some a) = true

-- `text?.trim()` as a condition.
unfoldable pub says : Option Text → Bool
unfolding trim
says none = false
says (some s) = not (is_empty (trim s))

-- `n && n > 0`.
abbrev pub above_zero : Option ℤ → Bool
above_zero none = false
above_zero (some n) = is_positive n

-- `split(/[,; ]+/)`; the pieces that are empty count for nothing.
unfoldable pub recipients : Text → List Text
recipients [] = [] ∷ []
recipients (c ∷ s) =
    let parts = recipients s in
    if nat_beq c b',' || nat_beq c b';' || nat_beq c b' ' then [] ∷ parts else extend_first c parts

unfoldable pub bad_address : Text → Bool
bad_address a = not (is_empty a) && not (any (λ c. nat_beq c b'@') a)

-- `window > 24 * 3600`.
abbrev pub over_a_day : ℤ → Bool
over_a_day (pos n) = ltb 86400 n
over_a_day (negsuc n) = false

abbrev pub counts : AlertRule → Bool
counts r = is_there r.min_count || is_there r.max_count

abbrev pub threshold : AlertRule → Bool
threshold r = is_there r.above || is_there r.below

abbrev pub window_of : AlertRule → ℤ
window_of r = or_default (pos 0) r.window

unfoldable pub has_condition : AlertRule → Bool
unfolding says
has_condition r =
    says r.expr
    || above_zero r.stale_after
    || or_default false r.stale_auto
    || (is_positive (window_of r) && (counts r || threshold r))
    || above_zero r.unchanged_for

unfoldable pub bad_webhook_of : AlertRule → Bool
unfolding says trim starts_with
bad_webhook_of r =
    let url = trim (or_default [] r.webhook) in
    says r.webhook && not (starts_with (codes "http://") url || starts_with (codes "https://") url)

unfoldable pub bad_email_of : AlertRule → Bool
unfolding says recipients bad_address
bad_email_of r = says r.email && any bad_address (recipients (or_default [] r.email))

abbrev pub negative_or : Option ℤ → Bool
negative_or n = is_negative (or_default (pos 0) n)

-- The conditions on the pattern, in their order.
unfoldable pub pattern_error : Text → Option RuleError
unfolding rest_inside tokens
pattern_error pattern =
    if is_empty pattern
    then some no_pattern
    else if any is_space pattern
    then some blank_in_pattern
    else if any is_empty (tokens pattern)
    then some empty_token
    else if rest_inside (tokens pattern)
    then some rest_not_last
    else none

-- The conditions on what the rule watches for.
unfoldable pub condition_error : AlertRule → Option RuleError
unfolding has_condition says bad_webhook_of bad_email_of
condition_error r =
    if (counts r || threshold r) && not (is_positive (window_of r))
    then some no_window
    else if not (has_condition r)
    then some no_condition
    else if negative_or r.stale_after
    then some negative_silence
    else if is_negative (window_of r) || over_a_day (window_of r)
    then some bad_window
    else if negative_or r.min_count || negative_or r.max_count
    then some negative_count
    else if threshold r && not (says r.field)
    then some no_field
    else if negative_or r.unchanged_for
    then some negative_unchanged
    else if bad_webhook_of r
    then some bad_webhook
    else if bad_email_of r
    then some bad_recipient
    else none

abbrev pub first_error : Option RuleError → Option RuleError → Option RuleError
first_error none e = e
first_error (some e) f = some e

unfoldable pub validate_rule : AlertRule → Option RuleError
unfolding trim pattern_error condition_error
validate_rule r =
    if is_empty (trim r.name)
    then some no_name
    else first_error (pattern_error (trim r.pattern)) (condition_error r)
