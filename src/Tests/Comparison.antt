-- ===== src/Tests/Comparison.antt =====
-- The diff, the versions and the samples at concrete inputs.
use nats_explorer.Prelude.{ℕ, ◌≤◌, Text, codes, join_with, List, [], ◌∷◌, none, ◌≡◌, arith, length}
use nats_explorer.Prelude.Subsequence.{IsSubsequence, done, skip, keep}
use nats_explorer.Prelude.Table.{get}
use nats_explorer.Compare.Diff.{diff_of, diff_lines}
use nats_explorer.Compare.Diff.Replay.{old_side, new_side, kept, diff_lines-replay}
use nats_explorer.Compare.Diff.Longest.{diff_of-longest}
use nats_explorer.Monitoring.History.{Sample, Varz, samples_for, record_sample, clear_samples}
use nats_explorer.Monitoring.History.Spacing.{IsRecorded, record_sample-IsRecorded}

diff_lines-replay_example :
    (join_with (b'\n' ∷ []) (old_side (diff_lines (codes "a\nb") (codes "b\nc"))) ≡ codes "a\nb")
    × (join_with (b'\n' ∷ []) (new_side (diff_lines (codes "a\nb") (codes "b\nc"))) ≡ codes "b\nc")
diff_lines-replay_example = diff_lines-replay (codes "a\nb") (codes "b\nc")

abbrev earlier : List Text
earlier = codes "a" ∷ codes "b" ∷ []

abbrev later : List Text
later = codes "b" ∷ codes "c" ∷ []

diff_of-longest_example :
    IsSubsequence (kept (diff_of earlier later)) earlier
    × IsSubsequence (kept (diff_of earlier later)) later
    × (1 ≤ length (kept (diff_of earlier later)))
diff_of-longest_example =
    diff_of-longest earlier later (codes "b" ∷ []) (omega arith) (omega arith) (skip (keep done))
      (keep (skip done))

abbrev polled : Varz
polled = record {
  in_msgs = 5;
  out_msgs = 4;
  in_bytes = 50;
  out_bytes = 40;
  connections = 2;
  subscriptions = 3;
  slow_consumers = 0;
  cpu = none;
  mem = 7;
}

nothing-IsRecorded : IsRecorded []
unfolding samples_for get
nothing-IsRecorded id = record { fits = omega arith; spaced = tt }

record_sample-IsRecorded_example :
    IsRecorded (record_sample 1000 (codes "c1") polled none [])
    × IsRecorded (clear_samples (codes "c1") [])
record_sample-IsRecorded_example =
    record_sample-IsRecorded 1000 (codes "c1") polled none [] nothing-IsRecorded

abbrev sample_at : ℕ → ℕ → Sample
sample_at now received = record {
  t = now;
  in_msgs = received;
  out_msgs = 0;
  in_bytes = 0;
  out_bytes = 0;
  connections = 1;
  subscriptions = 1;
  slow_consumers = 0;
  cpu = 0;
  mem = 0;
  js_api_total = 0;
  js_api_errors = 0;
}

abbrev three_samples : List Sample
three_samples = sample_at 1000 10 ∷ sample_at 6000 30 ∷ sample_at 11000 35 ∷ []
