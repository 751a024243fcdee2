-- ===== src/Transfer/Replay/Counting.antt =====
-- What a replay asks of the server, and its counters.
use nats_explorer.Prelude.{
  ℕ, suc, ◌+◌, ◌≤◌, Text, List, [], ◌∷◌, ◌++◌, Bool, not, Option, none, some, length, filter, take,
  map, ◌≡◌, refl, ap, sym, ◌∙◌, arith, append_assoc, append-nil, inl, inr, Bool-cases,
}
use nats_explorer.Prelude.Sort.{sort_by, length-sort_by}
use nats_explorer.Messages.{NatsMessage}
use nats_explorer.Transfer.Replay.{
  Rewrite, Run, Publish, rewrite_subject, by_time, is_binary, answered, replay_step, replay_loop,
  no_run, replay_messages,
}

-- The requests for the messages that are not binary, in their order.
abbrev pub wanted : Option Rewrite → List NatsMessage → List (Text × NatsMessage)
wanted rule ms =
    map (λ m. (rewrite_subject m.subject rule, m)) (filter (λ m. not (is_binary m.payload_type)) ms)

abbrev pub done : Run → ℕ
done r = r.progress.sent + r.progress.failed

done-answered :
    (o : Option Text) (r : Run)
    → (answered o r.progress).sent + (answered o r.progress).failed ≡ suc (done r)
done-answered none r = omega arith
done-answered (some e) r = omega arith

done-replay_step :
    (publish : Publish) (rule : Option Rewrite) (m : NatsMessage) (r : Run)
    → done (replay_step publish rule m r) ≡ suc (done r)
unfolding replay_step
done-replay_step publish rule m r = elim (Bool-cases (is_binary m.payload_type)) [
  | inl e ↦ rw e (omega arith)
  | inr e ↦ rw e (done-answered (publish r.requests (rewrite_subject m.subject rule) m) r)
]

requests-replay_step :
    (publish : Publish) (rule : Option Rewrite) (m : NatsMessage) (r : Run)
    → (replay_step publish rule m r).requests ≡ r.requests ++ wanted rule (m ∷ [])
unfolding replay_step
requests-replay_step publish rule m r = elim (Bool-cases (is_binary m.payload_type)) [
  | inl e ↦ rw e (sym (append-nil r.requests))
  | inr e ↦ rw e refl
]

wanted-cons :
    (rule : Option Rewrite) (m : NatsMessage) (ms : List NatsMessage)
    → wanted rule (m ∷ ms) ≡ wanted rule (m ∷ []) ++ wanted rule ms
wanted-cons rule m ms = elim (Bool-cases (is_binary m.payload_type)) [
  | inl e ↦ rw e refl
  | inr e ↦ rw e refl
]

requests-next :
    (rule : Option Rewrite) (m : NatsMessage) (ms : List NatsMessage) (publish : Publish) (r : Run)
    → (replay_step publish rule m r).requests ++ wanted rule ms ≡ r.requests ++ wanted rule (m ∷ ms)
requests-next rule m ms publish r =
    ap (λ q. q ++ wanted rule ms) (requests-replay_step publish rule m r)
    ∙ append_assoc r.requests (wanted rule (m ∷ [])) (wanted rule ms)
    ∙ ap (λ q. r.requests ++ q) (sym (wanted-cons rule m ms))

-- A run from `r` over the first of `ms`.
record IsRun (publish : Publish) (rule : Option Rewrite) (ms : List NatsMessage) (r out : Run)
    : Type 0 where
  dealt : ℕ
  dealt_le : dealt ≤ length ms
  asked : out.requests ≡ r.requests ++ wanted rule (take dealt ms)
  counted : done out ≡ dealt + done r

module _ (publish : Publish) (aborted : ℕ → Bool) (rule : Option Rewrite) where
  replay_loop-IsRun :
      (n : ℕ) (ms : List NatsMessage) (r : Run)
      → IsRun publish rule ms r (replay_loop publish aborted rule n ms r)
  unfolding replay_loop
  replay_loop-IsRun n [] r = record {
    dealt = 0;
    dealt_le = omega arith;
    asked = sym (append-nil r.requests);
    counted = omega arith;
  }
  replay_loop-IsRun n (m ∷ ms) r =
      let next = replay_step publish rule m r in
      let ih = replay_loop-IsRun (n + 1) ms next in
      elim (Bool-cases (aborted n)) [
        | inl e ↦ rw e record {
          dealt = 0;
          dealt_le = omega arith;
          asked = sym (append-nil r.requests);
          counted = omega arith;
        }
        | inr e ↦ rw e record {
          dealt = suc ih.dealt;
          dealt_le = omega (arith, ih.dealt_le);
          asked = ih.asked ∙ requests-next rule m (take ih.dealt ms) publish r;
          counted = omega (arith, ih.counted, done-replay_step publish rule m r);
        }
      ]

-- Wherever a replay is aborted, what it asked of the server are the requests for the oldest messages, as
-- many as its counters say.
replay_messages-aborted :
    (publish : Publish) (aborted : ℕ → Bool) (rule : Option Rewrite) (messages : List NatsMessage)
    → ((replay_messages publish aborted rule messages).requests
        ≡ wanted rule (
            take (done (replay_messages publish aborted rule messages)) (sort_by by_time messages)))
      × (done (replay_messages publish aborted rule messages) ≤ length messages)
unfolding replay_messages
replay_messages-aborted publish aborted rule messages =
    let ordered = sort_by by_time messages in
    let run = replay_loop-IsRun publish aborted rule 0 ordered (no_run (length ordered)) in
    let count : run.dealt ≡ done (replay_messages publish aborted rule messages) =
      omega (arith, run.counted) in
    (
      rw count at run.asked,
      omega (arith, run.counted, run.dealt_le, length-sort_by by_time messages),
    )
