-- ===== src/Feed/Queue/Delivery.antt =====
-- The queue of the feed after any events: what waits, and what is handed over.
use nats_explorer.Prelude.{
  ℕ, ◌+◌, ◌-◌, ◌≤◌, Text, List, [], ◌∷◌, ◌++◌, map, Bool, true, false, ◌≡◌, refl, sym, ap, ◌∙◌,
  arith, append_assoc, append-nil, if◌then◌else◌, ltb, length, inl, inr, Bool-cases, ◌⊎◌,
  length-drop, length-append, length-map,
}
use nats_explorer.Prelude.Subsequence.{
  IsSubsequence, IsSubsequence-refl, IsSubsequence-trans, IsSubsequence-append, IsSubsequence-drop,
}
use nats_explorer.Messages.{NatsMessage}
use nats_explorer.Feed.Queue.{
  FeedQueue, QueueEvent, batch, frame, tagged, bounded, queue_feed, flush_feed, step, run,
  empty_queue,
}

-- Messages that wait are at most the bound, and a flush is scheduled for them.
pub record IsReady (q : FeedQueue) : Type 0 where
  pub fits : length q.pending ≤ 10000
  pub scheduled : (q.pending ≡ []) ⊎ (q.feed_scheduled ≡ true)

length-bounded : (pending : List NatsMessage) → length (bounded pending) ≤ 10000
unfolding bounded
length-bounded pending = ground (arith, length-drop (length pending - 10000) pending)

bounded-IsSubsequence : (pending : List NatsMessage) → IsSubsequence (bounded pending) pending
unfolding bounded
bounded-IsSubsequence pending = elim (Bool-cases (ltb 10000 (length pending))) [
  | inl e ↦ rw e (IsSubsequence-drop (length pending - 10000) pending)
  | inr e ↦ rw e (IsSubsequence-refl pending)
]

bounded_of_le : (pending : List NatsMessage) → length pending ≤ 10000 → bounded pending ≡ pending
unfolding bounded
bounded_of_le pending h = ground arith

-- What has left the queue and what waits in it.
abbrev pub handed_over : List (List NatsMessage) → List NatsMessage
handed_over [] = []
handed_over (msgs ∷ posted) = msgs ++ handed_over posted

abbrev pub flow : FeedQueue → List NatsMessage
flow q = handed_over q.posted ++ q.pending

abbrev pub arrivals : List QueueEvent → List NatsMessage
arrivals [] = []
arrivals (batch conn_id msgs ∷ es) = map (tagged conn_id) msgs ++ arrivals es
arrivals (frame ∷ es) = arrivals es

-- Between two frames no more messages arrive than the queue holds; `waiting` is what it holds now.
abbrev pub IsPaced : ℕ → List QueueEvent → Type 0
IsPaced waiting [] = Unit
IsPaced waiting (batch conn_id msgs ∷ es) =
    (waiting + length msgs ≤ 10000) × IsPaced (waiting + length msgs) es
IsPaced waiting (frame ∷ es) = IsPaced 0 es

handed_over-append :
    (posted : List (List NatsMessage)) (msgs : List NatsMessage)
    → handed_over (posted ++ msgs ∷ []) ≡ handed_over posted ++ msgs
handed_over-append [] msgs = append-nil msgs
handed_over-append (m ∷ posted) msgs =
    ap (◌++◌ m) (handed_over-append posted msgs) ∙ sym (append_assoc m (handed_over posted) msgs)

frame-IsReady :
    (scheduled : Bool) (q : FeedQueue) → IsReady q → IsReady (if scheduled then flush_feed q else q)
unfolding flush_feed
frame-IsReady true q h = record { fits = omega arith; scheduled = inl refl }
frame-IsReady false q h = h

step-IsReady : (e : QueueEvent) (q : FeedQueue) → IsReady q → IsReady (step e q)
unfolding step queue_feed
step-IsReady (batch conn_id msgs) q h = record {
  fits = length-bounded (q.pending ++ map (tagged conn_id) msgs);
  scheduled = inr refl;
}
step-IsReady frame q h = frame-IsReady q.feed_scheduled q h

flow-flush : (test : Bool) (q : FeedQueue) → flow (if test then flush_feed q else q) ≡ flow q
unfolding flush_feed
flow-flush true q = append-nil _ ∙ handed_over-append q.posted q.pending
flow-flush false q = refl

flow-batch :
    (conn_id : Text) (msgs : List NatsMessage) (q : FeedQueue)
    → length q.pending + length msgs ≤ 10000
    → flow (queue_feed conn_id msgs q) ≡ flow q ++ map (tagged conn_id) msgs
unfolding queue_feed
flow-batch conn_id msgs q h =
    ap (◌++◌ (handed_over q.posted)) (
      bounded_of_le (q.pending ++ map (tagged conn_id) msgs) (
        omega (
          arith,
          h,
          length-append q.pending (map (tagged conn_id) msgs),
          length-map msgs (tagged conn_id),
        )))
    ∙ sym (append_assoc (handed_over q.posted) q.pending (map (tagged conn_id) msgs))

flow-batch_sub :
    (conn_id : Text) (msgs : List NatsMessage) (q : FeedQueue)
    → IsSubsequence (flow (queue_feed conn_id msgs q)) (flow q ++ map (tagged conn_id) msgs)
unfolding queue_feed
flow-batch_sub conn_id msgs q =
    rw (append_assoc (handed_over q.posted) q.pending (map (tagged conn_id) msgs)) (
      IsSubsequence-append (IsSubsequence-refl (handed_over q.posted))
        (bounded-IsSubsequence (q.pending ++ map (tagged conn_id) msgs)))

run-IsReady : (es : List QueueEvent) (q : FeedQueue) → IsReady q → IsReady (run es q)
unfolding run
run-IsReady [] q h = h
run-IsReady (e ∷ es) q h = run-IsReady es (step e q) (step-IsReady e q h)

run-flow_sub :
    (es : List QueueEvent) (q : FeedQueue) → IsSubsequence (flow (run es q)) (flow q ++ arrivals es)
unfolding run step
run-flow_sub [] q = rw (append-nil (flow q)) (IsSubsequence-refl (flow q))
run-flow_sub (batch conn_id msgs ∷ es) q =
    rw⁻¹ (append_assoc (flow q) (map (tagged conn_id) msgs) (arrivals es)) (
      IsSubsequence-trans
        (IsSubsequence-append (flow-batch_sub conn_id msgs q) (IsSubsequence-refl (arrivals es)))
        (run-flow_sub es (queue_feed conn_id msgs q)))
run-flow_sub (frame ∷ es) q =
    rw⁻¹ (flow-flush q.feed_scheduled q)
      (run-flow_sub es (if q.feed_scheduled then flush_feed q else q))

frame-nothing_waits :
    (test : Bool) (q : FeedQueue)
    → ((q.pending ≡ []) ⊎ (test ≡ true))
    → length (if test then flush_feed q else q).pending ≤ 0
unfolding flush_feed
frame-nothing_waits true q h = omega arith
frame-nothing_waits false q (inl e) = rw e (omega arith)
frame-nothing_waits false q (inr e) = absurd (cc (e))

length-batch :
    (conn_id : Text) (msgs : List NatsMessage) (q : FeedQueue) (waiting : ℕ)
    → length q.pending ≤ waiting
    → waiting + length msgs ≤ 10000
    → length (queue_feed conn_id msgs q).pending ≤ waiting + length msgs
unfolding queue_feed
length-batch conn_id msgs q waiting h k =
    let mapped = length-map msgs (tagged conn_id) in
    let together = length-append q.pending (map (tagged conn_id) msgs) in
    rw
      (bounded_of_le (q.pending ++ map (tagged conn_id) msgs)
        (omega (arith, h, k, together, mapped)))
      (omega (arith, h, together, mapped))

run-flow :
    (es : List QueueEvent) (q : FeedQueue) (waiting : ℕ)
    → IsReady q
    → length q.pending ≤ waiting
    → IsPaced waiting es
    → flow (run es q) ≡ flow q ++ arrivals es
unfolding run step
run-flow [] q waiting r h p = sym (append-nil (flow q))
run-flow (batch conn_id msgs ∷ es) q waiting r h p =
    run-flow es (queue_feed conn_id msgs q) (waiting + length msgs)
      (step-IsReady (batch conn_id msgs) q r) (length-batch conn_id msgs q waiting h p.0) p.1
    ∙ ap (λ l. l ++ arrivals es) (flow-batch conn_id msgs q (omega (arith, h, p.0)))
    ∙ append_assoc (flow q) (map (tagged conn_id) msgs) (arrivals es)
run-flow (frame ∷ es) q waiting r h p =
    run-flow es (if q.feed_scheduled then flush_feed q else q) 0
      (frame-IsReady q.feed_scheduled q r) (frame-nothing_waits q.feed_scheduled q r.scheduled) p
    ∙ ap (λ l. l ++ arrivals es) (flow-flush q.feed_scheduled q)

-- From an empty queue, whatever arrives and whenever the frames run: at most 10000 messages wait, and
-- a flush is scheduled when any does.
pub run-empty-IsReady : (es : List QueueEvent) → IsReady (run es empty_queue)
unfolding empty_queue
run-empty-IsReady es = run-IsReady es _ (record { fits = omega arith; scheduled = inl refl })

-- What has been handed over and what waits is some of what arrived, each message once, in the order of
-- arrival and with its connection.
run-IsSubsequence : (es : List QueueEvent) → IsSubsequence (flow (run es empty_queue)) (arrivals es)
unfolding empty_queue
run-IsSubsequence es = run-flow_sub es _

-- When no more than 10000 messages arrive between two frames, nothing is lost: what has been handed
-- over and what waits is all that arrived.
pub run-delivers : (es : List QueueEvent) → IsPaced 0 es → flow (run es empty_queue) ≡ arrivals es
unfolding empty_queue
run-delivers es p =
    run-flow es _ 0 (record { fits = omega arith; scheduled = inl refl }) (omega arith) p
