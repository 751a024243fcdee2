-- ===== src/Analysis/Steps.antt =====
-- client/src/lib/trace.ts (traceSteps), client/src/lib/natsHeaders.ts (msgId, repeatedIds) and
-- client/src/lib/stateTable.ts (the newest message of every subject).
pub mod Newest
use nats_explorer.Prelude.{
  ℕ, zero, suc, ◌+◌, ◌-◌, ◌≤◌, ◌<◌, Text, codes, text_beq, List, [], ◌∷◌, ◌++◌, map, Bool, true,
  false, not, ◌&&◌, Option, none, some, ◌==◌, text_eq, any, if◌then◌else◌, leb, ltb,
}
use nats_explorer.Prelude.Sort.{sort_by}
use nats_explorer.Prelude.Table.{get, set}
use nats_explorer.Messages.{NatsMessage}
use nats_explorer.Transfer.Replay.{by_time}
use nats_explorer.Subjects.Match.{is_empty}

pub record TraceStep : Type 0 where
  pub message : NatsMessage
  pub gap : Option ℕ

-- The steps after one at the time `before`.
unfoldable pub steps_after : Option ℕ → List NatsMessage → List TraceStep
steps_after before [] = []
steps_after none (m ∷ ms) = record { message = m; gap = none } ∷ steps_after (some m.timestamp) ms
steps_after (some before) (m ∷ ms) =
    record { message = m; gap = some (m.timestamp - before) } ∷ steps_after (some m.timestamp) ms

unfoldable pub trace_steps : List NatsMessage → List TraceStep
unfolding sort_by steps_after
trace_steps messages = steps_after none (sort_by by_time messages)

-- `toLowerCase` on ASCII.
abbrev pub lower_code : ℕ → ℕ
lower_code c = if leb 65 c && leb c 90 then c + 32 else c

abbrev pub first_text : List Text → Text
first_text [] = []
first_text (v ∷ vs) = v

-- The loop of `msgId`.
unfoldable pub id_in : List (Text × List Text) → Option Text
unfolding text_beq
id_in [] = none
id_in (h ∷ headers) =
    let rest = id_in headers in
    if map lower_code h.0 == codes "nats-msg-id" && not (is_empty (first_text h.1))
    then some (first_text h.1)
    else rest

abbrev pub msg_id : Option (List (Text × List Text)) → Option Text
msg_id none = none
msg_id (some headers) = id_in headers

abbrev pub includes_id : Text → List Text → Bool
includes_id id ids = any (λ i. i == id) ids

abbrev pub add_id : Text → List Text → List Text
add_id id ids = if includes_id id ids then ids else ids ++ id ∷ []

-- The loop of `repeatedIds`, with the ids seen once and those seen again.
unfoldable pub repeated_from : List NatsMessage → List Text → List Text → List Text
unfolding id_in text_beq
repeated_from [] seen twice = twice
repeated_from (m ∷ ms) seen twice = elim (msg_id m.headers) [
  | none ↦ repeated_from ms seen twice
  | some id ↦
      repeated_from ms (add_id id seen) (if includes_id id seen then add_id id twice else twice)
]

unfoldable pub repeated_ids : List NatsMessage → List Text
unfolding repeated_from
repeated_ids messages = repeated_from messages [] []

-- The loop of `stateRows`.
abbrev pub newer : NatsMessage → Option NatsMessage → Bool
newer m none = true
newer m (some seen) = ltb seen.timestamp m.timestamp

unfoldable pub newest_from :
    List NatsMessage → List (Text × NatsMessage) → List (Text × NatsMessage)
unfolding get set
newest_from [] newest = newest
newest_from (m ∷ ms) newest =
    newest_from ms (if newer m (get m.subject newest) then set m.subject m newest else newest)

unfoldable pub newest_messages : List NatsMessage → List (Text × NatsMessage)
unfolding newest_from
newest_messages messages = newest_from messages []
