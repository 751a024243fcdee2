-- ===== src/Tests/Patterns.antt =====
-- Patterns, decoder rules and the branches of the tree at concrete inputs.
use nats_explorer.Prelude.{
  Text, codes, text_beq, split_on, List, [], ◌∷◌, true, false, none, ◌≡◌, ◌≢◌, ◌↔◌, refl,
}
use nats_explorer.Prelude.Strings.{texts_ne}
use nats_explorer.Subjects.Match.{
  any_rest, tokens, match_tokens, subject_matches, cover_tokens, covers,
}
use nats_explorer.Subjects.Match.Matching.{Matches, done, subject_matches_iff}
use nats_explorer.Subjects.Match.Covering.{covers_sound}
use nats_explorer.Subjects.Match.Separating.{covers_complete}
use nats_explorer.Subjects.Rules.{DecoderRule, msgpack, rule_matches}
use nats_explorer.Subjects.Rules.Agreement.{rule_matches-eq, rule_matches-open}

abbrev all_orders : Text
all_orders = codes "orders.>"

abbrev new_orders : Text
new_orders = codes "orders.*.new"

abbrev an_order : Text
an_order = codes "orders.eu.new"

subject_matches_iff_example :
    (subject_matches new_orders an_order ≡ true)
    ↔ ((new_orders ≢ []) × (an_order ≢ []) × Matches (tokens new_orders) (tokens an_order))
subject_matches_iff_example = subject_matches_iff new_orders an_order

covers_sound_example : subject_matches all_orders an_order ≡ true
unfolding tokens split_on text_beq covers cover_tokens subject_matches match_tokens
covers_sound_example =
    covers_sound all_orders new_orders an_order (texts_ne (codes "orders") any_rest refl, tt) refl
      refl

covers_complete_example :
    (subject : Text) × (subject_matches all_orders subject ≡ true)
    × (subject_matches new_orders subject ≡ false)
unfolding tokens split_on text_beq covers cover_tokens
covers_complete_example =
    covers_complete new_orders all_orders (texts_ne all_orders [] refl)
      (texts_ne (codes "orders") any_rest refl, tt) refl

abbrev subscribed : List Text
subscribed = all_orders ∷ new_orders ∷ []

rule_matches-eq_example : rule_matches new_orders an_order ≡ subject_matches new_orders an_order
unfolding tokens split_on text_beq
rule_matches-eq_example =
    rule_matches-eq new_orders an_order (texts_ne new_orders [] refl) (texts_ne an_order [] refl)
      (texts_ne (codes "orders") any_rest refl, (texts_ne (codes "*") any_rest refl, tt))

abbrev open_pattern : Text
open_pattern = codes ">.new"

rule_matches-open_example :
    (rule_matches open_pattern an_order ≡ true) × (subject_matches open_pattern an_order ≡ false)
unfolding tokens split_on text_beq
rule_matches-open_example =
    rule_matches-open open_pattern an_order [] [] [] (codes "eu" ∷ codes "new" ∷ []) (codes "new")
      (codes "orders") (texts_ne open_pattern [] refl) (texts_ne an_order [] refl) refl refl done

abbrev packed : DecoderRule
packed = record {
  id = codes "r1";
  pattern = all_orders;
  format = msgpack;
  schema = none;
  message_type = none;
}
