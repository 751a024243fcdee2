-- ===== src/Subjects/Rules/Saving.antt =====
-- Saving and removing decoder rules.
use nats_explorer.Prelude.{Text, List, Option, none, some, ◌≡◌, ◌≢◌}
use nats_explorer.Prelude.Keyed.{
  item_of, item_of-upsert, item_of-upsert_ne, item_of-without, item_of-without_ne,
}
use nats_explorer.Subjects.Rules.{DecoderRule, save_rule, remove_rule}

abbrev pub rule_of : Text → List DecoderRule → Option DecoderRule
rule_of = item_of (λ r. r.id)

-- After a save the list holds the rule under its id, and under another id what it held before.
rule_of-save_rule :
    (rule : DecoderRule) (rules : List DecoderRule) (other : Text)
    → rule.id ≢ other
    → (rule_of rule.id (save_rule rule rules) ≡ some rule)
      × (rule_of other (save_rule rule rules) ≡ rule_of other rules)
unfolding save_rule
rule_of-save_rule rule rules other h =
    (item_of-upsert _ rule rules, item_of-upsert_ne _ rule rules other h)

-- After a removal the list holds nothing under that id, and under another id what it held before.
rule_of-remove_rule :
    (id other : Text) (rules : List DecoderRule)
    → id ≢ other
    → (rule_of id (remove_rule id rules) ≡ none)
      × (rule_of other (remove_rule id rules) ≡ rule_of other rules)
unfolding remove_rule
rule_of-remove_rule id other rules h =
    (item_of-without _ id rules, item_of-without_ne _ id other rules h)
