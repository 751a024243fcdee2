-- ===== src/Monitoring/History.antt =====
-- client/src/components/monitoring/history.ts: the samples of each connection and the rates between them.
-- `now` is the browser's clock. A rate is kept as the fraction it is: the growth of the counter, times
-- 1000, over the milliseconds between the samples.
pub mod Spacing
use nats_explorer.Prelude.{
  ℕ, ◌+◌, ◌*◌, ◌-◌, Text, text_beq, List, [], ◌∷◌, ◌++◌, map, Bool, true, false, not, ◌&&◌, Option,
  none, some, if◌then◌else◌, ltb, leb, length, drop, last?,
}
use nats_explorer.Prelude.Table.{get, set, delete}

pub record Sample : Type 0 where
  pub t : ℕ
  pub in_msgs : ℕ
  pub out_msgs : ℕ
  pub in_bytes : ℕ
  pub out_bytes : ℕ
  pub connections : ℕ
  pub subscriptions : ℕ
  pub slow_consumers : ℕ
  pub cpu : ℕ
  pub mem : ℕ
  pub js_api_total : ℕ
  pub js_api_errors : ℕ

abbrev pub max_samples : ℕ
max_samples = 720

-- What a poll reads of the server: `Varz`, and the counters of `Jsz` when JetStream answers.
pub record Varz : Type 0 where
  pub in_msgs : ℕ
  pub out_msgs : ℕ
  pub in_bytes : ℕ
  pub out_bytes : ℕ
  pub connections : ℕ
  pub subscriptions : ℕ
  pub slow_consumers : ℕ
  pub cpu : Option ℕ
  pub mem : ℕ

pub record JszApi : Type 0 where
  pub total : Option ℕ
  pub errors : Option ℕ

abbrev pub or_zero : Option ℕ → ℕ
or_zero none = 0
or_zero (some n) = n

abbrev pub total_of : Option JszApi → ℕ
total_of none = 0
total_of (some api) = or_zero api.total

abbrev pub errors_of : Option JszApi → ℕ
errors_of none = 0
errors_of (some api) = or_zero api.errors

unfoldable pub sample_of : ℕ → Varz → Option JszApi → Sample
sample_of now varz jsz = record {
  t = now;
  in_msgs = varz.in_msgs;
  out_msgs = varz.out_msgs;
  in_bytes = varz.in_bytes;
  out_bytes = varz.out_bytes;
  connections = varz.connections;
  subscriptions = varz.subscriptions;
  slow_consumers = varz.slow_consumers;
  cpu = or_zero varz.cpu;
  mem = varz.mem;
  js_api_total = total_of jsz;
  js_api_errors = errors_of jsz;
}

-- `last && t - last.t < 500`; a clock that went back is too early as well.
abbrev pub is_too_early : ℕ → Option Sample → Bool
is_too_early now none = false
is_too_early now (some last) = ltb now (last.t + 500)

unfoldable pub push_sample : Sample → List Sample → List Sample
push_sample s list =
    let pushed = list ++ s ∷ [] in
    if ltb max_samples (length pushed) then drop (length pushed - max_samples) pushed else pushed

abbrev pub or_empty : Option (List Sample) → List Sample
or_empty none = []
or_empty (some list) = list

unfoldable pub samples_for : Text → List (Text × List Sample) → List Sample
samples_for conn_id histories = or_empty (get conn_id histories)

unfoldable pub record_sample :
    ℕ → Text → Varz → Option JszApi → List (Text × List Sample) → List (Text × List Sample)
record_sample now conn_id varz jsz histories =
    let list = samples_for conn_id histories in
    if is_too_early now (last? list)
    then histories
    else set conn_id (push_sample (sample_of now varz jsz) list) histories

unfoldable pub clear_samples : Text → List (Text × List Sample) → List (Text × List Sample)
clear_samples conn_id histories = delete conn_id histories

pub record Rate : Type 0 where
  pub time : ℕ
  pub grown : ℕ
  pub millis : ℕ

-- `dt > 0 && d >= 0 ? d / dt : 0`.
unfoldable pub rate_between : (Sample → ℕ) → Sample → Sample → Rate
rate_between pick a b =
    if ltb a.t b.t && leb (pick a) (pick b)
    then record { time = b.t; grown = (pick b - pick a) * 1000; millis = b.t - a.t }
    else record { time = b.t; grown = 0; millis = 1 }

unfoldable pub rates_from : (Sample → ℕ) → Sample → List Sample → List Rate
rates_from pick a [] = []
rates_from pick a (b ∷ samples) = rate_between pick a b ∷ rates_from pick b samples

unfoldable pub rate_series : (Sample → ℕ) → List Sample → List Rate
rate_series pick [] = []
rate_series pick (a ∷ samples) = rates_from pick a samples

unfoldable pub gauge_series : (Sample → ℕ) → List Sample → List (ℕ × ℕ)
gauge_series pick samples = map (λ s. (s.t, pick s)) (drop 1 samples)
