-- ===== src/Transfer/Replay.antt =====
-- client/src/lib/replay.ts: publishing messages again, one after the other. The server is `publish`, an
-- error or none for a request after those made before; `aborted` tells whether the signal is set when so many messages are dealt with. The pause
-- between messages is left out.
pub mod Counting
use nats_explorer.Prelude.{
  ℕ, zero, suc, ◌+◌, Text, codes, List, [], ◌∷◌, ◌++◌, Bool, true, false, not, ◌&&◌, Option, none,
  some, if◌then◌else◌, length, drop, starts_with,
}
use nats_explorer.Prelude.Int.{ℤ, sub_ℕ}
use nats_explorer.Prelude.Sort.{sort_by}
use nats_explorer.Messages.{NatsMessage, PayloadType, string, json, binary}
use nats_explorer.Subjects.Match.{is_empty}

pub record Rewrite : Type 0 where
  pub from : Text
  pub to : Text

pub record ReplayProgress : Type 0 where
  pub sent : ℕ
  pub total : ℕ
  pub failed : ℕ
  pub last_error : Option Text

unfoldable pub rewrite_subject : Text → Option Rewrite → Text
unfolding starts_with
rewrite_subject subject none = subject
rewrite_subject subject (some rule) =
    if not (is_empty rule.from) && starts_with rule.from subject
    then rule.to ++ drop (length rule.from) subject
    else subject

abbrev pub by_time : NatsMessage → NatsMessage → ℤ
by_time a b = sub_ℕ a.timestamp b.timestamp

abbrev pub is_binary : PayloadType → Bool
is_binary binary = true
is_binary json = false
is_binary string = false

-- The progress, what was asked of the server, and the progress reports, newest first.
pub record Run : Type 0 where
  pub progress : ReplayProgress
  pub requests : List (Text × NatsMessage)
  pub reports : List ReplayProgress

abbrev pub Publish : Type 0
Publish = List (Text × NatsMessage) → Text → NatsMessage → Option Text

abbrev pub failing : Text → ReplayProgress → ReplayProgress
failing error p = record p { failed = p.failed + 1; last_error = some error }

abbrev pub answered : Option Text → ReplayProgress → ReplayProgress
answered none p = record p { sent = p.sent + 1 }
answered (some error) p = failing error p

abbrev pub report : Run → Run
report r = record r { reports = r.progress ∷ r.reports }

unfoldable pub replay_step : Publish → Option Rewrite → NatsMessage → Run → Run
unfolding rewrite_subject
replay_step publish rule m r =
    let subject = rewrite_subject m.subject rule in
    if is_binary m.payload_type
    then report
        (record r { progress = failing (codes "binary payloads cannot be replayed") r.progress })
    else report record r {
      progress = answered (publish r.requests subject m) r.progress;
      requests = r.requests ++ (subject, m) ∷ [];
    }

-- The loop, with the number of messages dealt with.
unfoldable pub replay_loop :
    Publish → (ℕ → Bool) → Option Rewrite → ℕ → List NatsMessage → Run → Run
replay_loop publish aborted rule n [] r = r
replay_loop publish aborted rule n (m ∷ ms) r =
    let rest = replay_loop publish aborted rule (n + 1) ms (replay_step publish rule m r) in
    if aborted n then r else rest

abbrev pub no_run : ℕ → Run
no_run total = record {
  progress = record { sent = 0; total = total; failed = 0; last_error = none };
  requests = [];
  reports = [];
}

unfoldable pub replay_messages : Publish → (ℕ → Bool) → Option Rewrite → List NatsMessage → Run
unfolding sort_by
replay_messages publish aborted rule messages =
    let ordered = sort_by by_time messages in
    replay_loop publish aborted rule 0 ordered (no_run (length ordered))
