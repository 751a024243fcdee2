-- ===== src/Tests/Page.antt =====
-- The state of the page at concrete inputs.
use mathlib.Core.List.{Pairwise-singleton}
use nats_explorer.Prelude.{
  ℕ, Text, codes, text_beq, List, [], ◌∷◌, ◌++◌, true, false, none, some, ◌≡◌, refl, arith, filter,
  text_eq,
}
use nats_explorer.Prelude.Sort.{IsSorted}
use nats_explorer.Prelude.Distinct.{IsDistinct, unseen_by}
use nats_explorer.Messages.{decimal, decimal_digits, NatsMessage, json, message_key, by_arrival}
use nats_explorer.Store.{AppState, ConnectionStatus, initial}
use nats_explorer.Store.View.{
  LiveView, HistoryResponse, empty_view, is_exact, unseen, ingest, with_history, with_older,
}
use nats_explorer.Store.View.Retention.{with_older-IsDistinct, ingest-with_older}
use nats_explorer.Store.View.Loading.{IsLoaded, with_older-IsLoaded}
use nats_explorer.Messages.Keys.{HasNoColon}
use nats_explorer.Store.View.Sorting.{with_history-IsSorted}
use nats_explorer.Store.Connections.{set_connections}
use mathlib.Core.List.{mem-cons_self, mem-cons_of_mem}
use nats_explorer.Store.Pruning.{IsSiftedLive, counted, set_connections-IsSiftedLive}
use nats_explorer.Store.Invariant.{IsValid, initial-IsValid}
use nats_explorer.Store.Actions.{
  Action, perform_all, perform_all-IsValid, connections_arrive, stats_arrive, subject_chosen,
  subject_toggled, feed_arrives, older_arrives,
}

abbrev orders : Text
orders = codes "orders.eu"

abbrev message_at : ℕ → NatsMessage
message_at at = record {
  subject = orders;
  payload = codes "1";
  payload_type = json;
  headers = none;
  timestamp = at;
  reply = none;
  size = 1;
  sequence = some at;
  conn_id = some (codes "c1");
  schema = none;
}

abbrev online : ConnectionStatus
online = record {
  id = codes "c1";
  connected = true;
  live_pause_ms = none;
  live_paused_until = none;
}

abbrev visit : List Action
visit =
    connections_arrive 1000 (online ∷ [])
    ∷ stats_arrive (codes "c1") (record { received = 9; subjects = 4 })
    ∷ subject_chosen (some orders)
    ∷ feed_arrives (message_at 2 ∷ [])
    ∷ subject_toggled (codes "invoices")
    ∷ older_arrives orders (message_at 1 ∷ []) true
    ∷ []

perform_all-IsValid_example : IsValid (perform_all visit (initial []))
perform_all-IsValid_example =
    perform_all-IsValid visit (initial []) (tt, (tt, (λ e. absurd (cc (e)), (tt, (tt, (tt, tt))))))
      (initial-IsValid [])

abbrev held : LiveView
held = record (empty_view orders) { messages = message_at 5 ∷ [] }

with_older-IsDistinct_example :
    IsDistinct message_key (with_older (message_at 3 ∷ []) false held).messages
with_older-IsDistinct_example =
    with_older-IsDistinct (message_at 3 ∷ []) false held (Pairwise-singleton _ _)
      (Pairwise-singleton _ _)

abbrev older_page : List NatsMessage
older_page = message_at 3 ∷ message_at 5 ∷ []

with_older-IsLoaded_example :
    IsLoaded older_page held.messages (with_older older_page false held).messages
with_older-IsLoaded_example =
    with_older-IsLoaded older_page false held (omega arith) (no_colon, (no_colon, tt))
      (no_colon, tt)
  where
    no_colon : HasNoColon (codes "c1")
    no_colon = ((λ e. absurd (omega (arith, e))), ((λ e. absurd (omega (arith, e))), tt))

ingest-with_older_example :
    (ingest (message_at 9 ∷ []) orders (with_older (message_at 3 ∷ []) false held)).messages
    ≡ (with_older (message_at 3 ∷ []) false held).messages
      ++ filter (is_exact orders) (message_at 9 ∷ [])
unfolding message_key unseen unseen_by text_beq decimal decimal_digits is_exact empty_view
ingest-with_older_example =
    ingest-with_older (message_at 3 ∷ []) (message_at 9 ∷ []) false orders held (omega arith)
      (omega arith)

abbrev answered : HistoryResponse
answered = record { messages = message_at 3 ∷ message_at 4 ∷ []; branch = [] }

with_history-IsSorted_example :
    IsSorted by_arrival (with_history orders answered false held).messages
unfolding by_arrival
with_history-IsSorted_example =
    with_history-IsSorted orders answered false held ((refl, tt), (tt, tt))

abbrev two_clients : AppState
two_clients = record (initial []) {
  active_conn_id = some (codes "c2");
  subscription_stats =
      (codes "c2", record { received = 1; subjects = 1 })
      ∷ (codes "c1", record { received = 9; subjects = 4 })
      ∷ [];
  total_subjects = 5;
  selected_subjects = orders ∷ [];
  selected_subject = some orders;
  live = (orders, held) ∷ [];
}

abbrev of_both : LiveView
of_both = record held {
  messages = record (message_at 4) { conn_id = some (codes "c2") } ∷ message_at 5 ∷ [];
}

abbrev two_feeds : AppState
two_feeds = record two_clients { live = (orders, of_both) ∷ [] }

set_connections-IsSiftedLive_example :
    IsSiftedLive
      (set_connections 1000 (online ∷ []) two_feeds).connections
      two_feeds.live
      (set_connections 1000 (online ∷ []) two_feeds).live
set_connections-IsSiftedLive_example = set_connections-IsSiftedLive 1000 (online ∷ []) two_feeds (
  (
    (
      counted (codes "c2", record { received = 1; subjects = 1 }) mem-cons_self refl,
      (
        counted (codes "c1", record { received = 9; subjects = 4 })
            (mem-cons_of_mem _ mem-cons_self) refl,
        tt,
      ),
    ),
    unfold empty_view in tt,
  ),
  tt,
)
