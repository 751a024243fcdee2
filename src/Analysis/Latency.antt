-- ===== src/Analysis/Latency.antt =====
-- client/src/lib/stepLatency.ts: the time between the messages of two subjects that carry the same value.
-- `value_of` is the value that a message carries at the chosen field. A quantile `q` is given in percent.
pub mod Buckets
pub mod Once
use nats_explorer.Prelude.{
  ℕ, zero, suc, ◌+◌, ◌-◌, ◌*◌, ◌/◌, min, Text, List, [], ◌∷◌, ◌++◌, map, Bool, true, false, not,
  ◌&&◌, Option, none, some, if◌then◌else◌, nat_beq, ltb, leb, length, any, drop, take, reverse,
  get_elem?, last?,
}
use nats_explorer.Prelude.Int.{ℤ, sub_ℕ}
use nats_explorer.Prelude.Sort.{sort_by}
use nats_explorer.Prelude.Table.{get, set}
use nats_explorer.Messages.{NatsMessage, or_default}
use nats_explorer.Subjects.Match.{is_empty}
use nats_explorer.Transfer.Replay.{by_time}

pub record StepPair : Type 0 where
  pub value : Text
  pub from : ℕ
  pub to : ℕ
  pub delta_ms : ℕ

pub record StepLatency : Type 0 where
  pub pairs : List StepPair
  pub unfinished : ℕ
  pub orphans : ℕ
  pub min : ℕ
  pub p50 : ℕ
  pub p95 : ℕ
  pub p99 : ℕ
  pub max : ℕ

-- `starts`: the times of the first subject's messages under their values.
abbrev pub Times : Type 0
Times = List (Text × List ℕ)

abbrev pub add_start : Option Text → ℕ → Times → Times
add_start none at starts = starts
add_start (some v) at starts = set v (or_default [] (get v starts) ++ at ∷ []) starts

unfoldable pub collect_starts : (NatsMessage → Option Text) → List NatsMessage → Times → Times
unfolding get set
collect_starts value_of [] starts = starts
collect_starts value_of (m ∷ ms) starts =
    collect_starts value_of ms (add_start (value_of m) m.timestamp starts)

unfoldable pub sort_starts : Times → Times
unfolding sort_by
sort_starts starts = map (λ (e : Text × List ℕ). (e.0, sort_by sub_ℕ e.1)) starts

abbrev pub is_used : ℕ → List ℕ → Bool
is_used t used = any (λ u. nat_beq u t) used

-- The newest start at or before `limit` that is not used: the loop, with the best so far.
unfoldable pub best_start : ℕ → List ℕ → Option ℕ → List ℕ → Option ℕ
best_start limit used best [] = best
best_start limit used best (t ∷ ts) =
    let rest = best_start limit used (if is_used t used then best else some t) ts in
    if ltb limit t then best else rest

pub record Pairing : Type 0 where
  pub used : Times
  pub pairs : List StepPair
  pub orphans : ℕ

abbrev pub orphan : Pairing → Pairing
orphan p = record p { orphans = p.orphans + 1 }

abbrev pub seen_of : Text → Times → List ℕ
seen_of v used = or_default [] (get v used)

abbrev pub pair_with : Text → ℕ → Option ℕ → Pairing → Pairing
pair_with v at none p = orphan p
pair_with v at (some best) p = record p {
  used = set v (seen_of v p.used ++ best ∷ []) p.used;
  pairs = p.pairs ++ record { value = v; from = best; to = at; delta_ms = at - best } ∷ [];
}

abbrev pub pair_from : Text → ℕ → Option (List ℕ) → Pairing → Pairing
pair_from v at none p = orphan p
pair_from v at (some starts) p = pair_with v at (best_start at (seen_of v p.used) none starts) p

-- One message of the second subject; an empty value is as good as none.
unfoldable pub pair_step : Times → Option Text → ℕ → Pairing → Pairing
unfolding get set best_start
pair_step starts none at p = orphan p
pair_step starts (some v) at p = if is_empty v then orphan p else pair_from v at (get v starts) p

unfoldable pub pair_all : (NatsMessage → Option Text) → Times → List NatsMessage → Pairing → Pairing
unfolding pair_step
pair_all value_of starts [] p = p
pair_all value_of starts (m ∷ ms) p =
    pair_all value_of starts ms (pair_step starts (value_of m) m.timestamp p)

abbrev pub no_pairing : Pairing
no_pairing = record { used = []; pairs = []; orphans = 0 }

unfoldable pub quantile : List ℕ → ℕ → ℕ
quantile sorted percent =
    or_default 0 (get_elem? sorted (min (length sorted - 1) (percent * length sorted / 100)))

abbrev pub starters : Times → ℕ
starters [] = 0
starters (e ∷ starts) = length e.1 + starters starts

abbrev pub longer_first : StepPair → StepPair → ℤ
longer_first a b = sub_ℕ b.delta_ms a.delta_ms

unfoldable pub paired : (NatsMessage → Option Text) → List NatsMessage → List NatsMessage → Pairing
unfolding collect_starts sort_starts pair_all sort_by
paired value_of from to =
    pair_all value_of (sort_starts (collect_starts value_of from [])) (sort_by by_time to)
      no_pairing

unfoldable pub step_latency :
    (NatsMessage → Option Text) → List NatsMessage → List NatsMessage → StepLatency
unfolding paired collect_starts sort_starts quantile sort_by
step_latency value_of from to =
    let p = paired value_of from to in
    let sorted = sort_by sub_ℕ (map (λ (q : StepPair). q.delta_ms) p.pairs) in
    record {
      pairs = sort_by longer_first p.pairs;
      unfinished = starters (sort_starts (collect_starts value_of from [])) - length p.pairs;
      orphans = p.orphans;
      min = or_default 0 (get_elem? sorted 0);
      p50 = quantile sorted 50;
      p95 = quantile sorted 95;
      p99 = quantile sorted 99;
      max = or_default 0 (last? sorted);
    }
