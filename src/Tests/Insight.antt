-- ===== src/Tests/Insight.antt =====
-- Loaders, their cache and the latency of a step at concrete inputs.
use nats_explorer.Prelude.{
  ℕ, ◌+◌, Text, codes, [], ◌∷◌, ◌++◌, Option, none, some, true, false, ◌≡◌, arith, All, length,
}
use nats_explorer.Messages.{NatsMessage, json}
use nats_explorer.Async.{Hook, starts, answers, remember_under, step_hooks}
use nats_explorer.Async.Latest.{step_hooks-latest}
use nats_explorer.Prelude.{text_eq}
use nats_explorer.Prelude.Table.{get}
use nats_explorer.Analysis.Steps.{newest_messages}
use nats_explorer.Analysis.Steps.Newest.{IsNewest, newest_messages-get}
use nats_explorer.Analysis.Latency.{paired}
use nats_explorer.Analysis.Latency.Once.{IsForward, IsOnce, paired-IsOnce}
use nats_explorer.Analysis.Latency.Buckets.{counted, latency_buckets, latency_buckets-total}

abbrev streams : Option Text
streams = some (codes "streams:c1")

-- A hook that has run once and is not answered yet.
abbrev waiting : Hook ℕ
waiting = record {
  shown = none;
  error = none;
  loading = true;
  initial = true;
  seq = 1;
  key = streams;
  cache = [];
}

step_hooks-latest_example :
    step_hooks (starts ∷ ((answers 1 5 ∷ []) ++ answers 2 6 ∷ [])) waiting ≡ record waiting {
      seq = 2;
      cache = remember_under streams (some 6) [];
      shown = some 6;
      error = none;
      loading = false;
      initial = false;
    }
step_hooks-latest_example = step_hooks-latest waiting (answers 1 5 ∷ []) 6 (omega arith, tt)

abbrev order_at : ℕ → NatsMessage
order_at at = record {
  subject = codes "orders";
  payload = codes "o7";
  payload_type = json;
  headers = none;
  timestamp = at;
  reply = none;
  size = 2;
  sequence = none;
  conn_id = none;
  schema = none;
}

abbrev payload_of : NatsMessage → Option Text
payload_of m = some m.payload

paired-IsOnce_example :
    (length (paired payload_of (order_at 5 ∷ []) (order_at 9 ∷ order_at 7 ∷ [])).pairs
        + (paired payload_of (order_at 5 ∷ []) (order_at 9 ∷ order_at 7 ∷ [])).orphans
      ≡ 2)
    × All IsForward (paired payload_of (order_at 5 ∷ []) (order_at 9 ∷ order_at 7 ∷ [])).pairs
    × IsOnce (paired payload_of (order_at 5 ∷ []) (order_at 9 ∷ order_at 7 ∷ [])).pairs
paired-IsOnce_example = paired-IsOnce payload_of (order_at 5 ∷ []) (order_at 9 ∷ order_at 7 ∷ [])

latency_buckets-total_example : counted (latency_buckets (3 ∷ 40 ∷ 90000 ∷ [])) ≡ 3
latency_buckets-total_example = latency_buckets-total (3 ∷ 40 ∷ 90000 ∷ [])

newest_messages-get_example :
    IsNewest
      (codes "orders")
      (order_at 5 ∷ order_at 9 ∷ order_at 7 ∷ [])
      (get (codes "orders") (newest_messages (order_at 5 ∷ order_at 9 ∷ order_at 7 ∷ [])))
newest_messages-get_example =
    newest_messages-get (codes "orders") (order_at 5 ∷ order_at 9 ∷ order_at 7 ∷ [])
