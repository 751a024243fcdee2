-- ===== src/Messages/Order.antt =====
-- `byArrival` and `newerFirst` as orders for sorting.
use nats_explorer.Prelude.{ℕ, ◌≡◌, true, false, arith}
use nats_explorer.Prelude.Int.{is_negative}
use nats_explorer.Prelude.Sort.{Comparator}
use nats_explorer.Messages.{NatsMessage, by_arrival, newer_first, or_default}

abbrev pub arrival : NatsMessage → ℕ
arrival m = or_default 0 m.sequence

by_arrival-total :
    (a b : NatsMessage) → is_negative (by_arrival a b) ≡ true → is_negative (by_arrival b a) ≡ false
unfolding by_arrival
by_arrival-total a b h = ground arith

by_arrival_trans :
    (a b c : NatsMessage)
    → is_negative (by_arrival b a) ≡ false
    → is_negative (by_arrival c b) ≡ false
    → is_negative (by_arrival c a) ≡ false
unfolding by_arrival
by_arrival_trans a b c h k = ground arith

pub by_arrival-Comparator : Comparator by_arrival
by_arrival-Comparator = record { total = by_arrival-total; trans = by_arrival_trans }

pub newer_first-Comparator : Comparator newer_first
unfolding newer_first
newer_first-Comparator = record {
  total = λ a b h. by_arrival-total b a h;
  trans = λ a b c h k. by_arrival_trans c b a k h;
}
