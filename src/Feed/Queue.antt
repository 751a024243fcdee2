-- ===== src/Feed/Queue.antt =====
-- The queues of messages that wait for a frame: `FeedCore.queueFeed` and `flushFeed` of
-- client/src/worker/feedCore.ts, `enqueue` and `flush` of client/src/lib/feed.ts. The two keep the same
-- state. What a flush hands over is the last list of `posted`.
pub mod Delivery
use nats_explorer.Prelude.{
  ℕ, ◌-◌, Text, List, [], ◌∷◌, ◌++◌, map, Bool, true, false, Option, none, some, if◌then◌else◌, ltb,
  length, drop,
}
use nats_explorer.Messages.{NatsMessage}

abbrev pub max_pending : ℕ
max_pending = 10000

pub record FeedQueue : Type 0 where
  pub pending : List NatsMessage
  pub feed_scheduled : Bool
  pub posted : List (List NatsMessage)

unfoldable pub empty_queue : FeedQueue
empty_queue = record { pending = []; feed_scheduled = false; posted = [] }

-- `{ ...m, connId }`.
abbrev pub tagged : Text → NatsMessage → NatsMessage
tagged conn_id m = record m { conn_id = some conn_id }

-- `pending.splice(0, pending.length - MAX_PENDING)`.
unfoldable pub bounded : List NatsMessage → List NatsMessage
bounded pending =
    if ltb max_pending (length pending)
    then drop (length pending - max_pending) pending
    else pending

-- client/src/lib/feed.ts: `enqueue`, with `schedule`.
unfoldable pub enqueue : List NatsMessage → FeedQueue → FeedQueue
unfolding bounded
enqueue msgs q = record q { pending = bounded (q.pending ++ msgs); feed_scheduled = true }

-- client/src/worker/feedCore.ts: `queueFeed`.
unfoldable pub queue_feed : Text → List NatsMessage → FeedQueue → FeedQueue
unfolding bounded
queue_feed conn_id msgs q = record q {
  pending = bounded (q.pending ++ map (tagged conn_id) msgs);
  feed_scheduled = true;
}

-- The scheduled function, `flushFeed` and `flush`.
unfoldable pub flush_feed : FeedQueue → FeedQueue
flush_feed q = record q {
  pending = [];
  feed_scheduled = false;
  posted = q.posted ++ q.pending ∷ [];
}

-- `reset`: what waits is dropped, the scheduled flush stays.
unfoldable pub reset_queue : FeedQueue → FeedQueue
reset_queue q = record q { pending = [] }

pub data QueueEvent : Type 0 where
  batch : (conn_id : Text) → List NatsMessage → QueueEvent
  frame : QueueEvent

-- A frame runs the flush only when one is scheduled.
unfoldable pub step : QueueEvent → FeedQueue → FeedQueue
unfolding queue_feed flush_feed
step (batch conn_id msgs) q = queue_feed conn_id msgs q
step frame q = if q.feed_scheduled then flush_feed q else q

unfoldable pub run : List QueueEvent → FeedQueue → FeedQueue
unfolding step
run [] q = q
run (e ∷ es) q = run es (step e q)
