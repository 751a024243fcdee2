-- ===== src/Subjects/Rules.antt =====
-- client/src/lib/decoders.ts: the decoder rules, the pattern test of that file, and the list of rules.
pub mod Agreement
pub mod Saving
use nats_explorer.Prelude.{
  Text, text_beq, List, [], ◌∷◌, ◌++◌, map, Bool, true, false, not, ◌&&◌, ◌||◌, Option, none, some,
  ◌==◌, text_eq, any, find, filter, if◌then◌else◌,
}
use nats_explorer.Prelude.Keyed.{upsert, without}
use nats_explorer.Subjects.Match.{any_token, any_rest, tokens, is_empty}

pub data DecoderFormat : Type 0 where
  msgpack protobuf avro script : DecoderFormat

-- `schema` and `message_type` may be missing.
pub record DecoderRule : Type 0 where
  pub id : Text
  pub pattern : Text
  pub format : DecoderFormat
  pub schema : Option Text
  pub message_type : Option Text

-- The loop of `subjectMatches` of this file: it does not ask whether `>` is the last token.
unfoldable pub rule_match_tokens : List Text → List Text → Bool
unfolding text_beq
rule_match_tokens [] st = is_empty st
rule_match_tokens (p ∷ pt) [] = false
rule_match_tokens (p ∷ pt) (s ∷ st) =
    if p == any_rest
    then true
    else if not (p == any_token) && not (p == s)
    then false
    else rule_match_tokens pt st

unfoldable pub rule_matches : Text → Text → Bool
unfolding rule_match_tokens tokens
rule_matches pattern subject = rule_match_tokens (tokens pattern) (tokens subject)

-- The subject may be missing; an empty one counts as missing.
unfoldable pub find_rule : List DecoderRule → Option Text → Option DecoderRule
unfolding rule_matches
find_rule rules none = none
find_rule rules (some subject) =
    if is_empty subject then none else find (λ r. rule_matches r.pattern subject) rules

-- `save` and `remove` of `useDecoders`; the list that is written to the settings is the result.
unfoldable pub save_rule : DecoderRule → List DecoderRule → List DecoderRule
save_rule = upsert (λ r. r.id)

unfoldable pub remove_rule : Text → List DecoderRule → List DecoderRule
remove_rule = without (λ r. r.id)
