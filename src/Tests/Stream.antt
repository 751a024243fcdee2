-- ===== src/Tests/Stream.antt =====
-- The queue of the feed, the socket and the requests for history at concrete inputs.
use nats_explorer.Prelude.{Text, codes, List, [], ◌∷◌, true, false, none, some, ◌≡◌, arith}
use nats_explorer.Messages.{NatsMessage, string}
use nats_explorer.Store.{AppState, initial}
use nats_explorer.Store.View.{HistoryResponse, empty_view}
use nats_explorer.Prelude.{All}
use nats_explorer.Tree.{NodeInfo, TreeNodes, node, leaf, beside, flatten_tree}
use nats_explorer.Tree.Rows.{IsLaidOut, flatten_tree-IsLaidOut}
use nats_explorer.Feed.Queue.{QueueEvent, batch, frame, run, empty_queue}
use nats_explorer.Feed.Queue.Delivery.{IsReady, flow, arrivals, run-empty-IsReady, run-delivers}
use nats_explorer.Feed.Socket.{
  WorkerEvent, page_connects, socket_opens, socket_closes, timer_fires, handle_all, initial_worker,
}
use nats_explorer.Feed.Socket.Fitting.{IsSound}
use nats_explorer.Feed.Socket.Lifecycle.{handle_all-IsSound}
use nats_explorer.Feed.History.{Loader, LoadEvent, asks, ask, answer, load_all}
use nats_explorer.Feed.History.Answers.{seq_of, answer-stale}

abbrev a_message : NatsMessage
a_message = record {
  subject = codes "orders.eu";
  payload = codes "1";
  payload_type = string;
  headers = none;
  timestamp = 1000;
  reply = none;
  size = 1;
  sequence = some 7;
  conn_id = some (codes "c1");
  schema = none;
}

abbrev two_frames : List QueueEvent
two_frames =
    batch (codes "c1") (a_message ∷ [])
    ∷ frame
    ∷ batch (codes "c2") (a_message ∷ a_message ∷ [])
    ∷ []

run-empty-IsReady_example : IsReady (run two_frames empty_queue)
run-empty-IsReady_example = run-empty-IsReady two_frames

run-delivers_example : flow (run two_frames empty_queue) ≡ arrivals two_frames
run-delivers_example = run-delivers two_frames (omega arith, (omega arith, tt))

abbrev lost_and_back : List WorkerEvent
lost_and_back =
    page_connects (codes "/ws") true
    ∷ socket_opens (codes "view") 0
    ∷ socket_closes 0
    ∷ timer_fires
    ∷ []

handle_all-IsSound_example : IsSound (handle_all lost_and_back initial_worker)
handle_all-IsSound_example = handle_all-IsSound lost_and_back

abbrev loader : Loader
loader = record { load_seq = []; page = initial [] }

abbrev orders : Text
orders = codes "orders.eu"

abbrev answered : HistoryResponse
answered = record { messages = a_message ∷ []; branch = [] }

answer-stale_example :
    answer orders
      (seq_of orders (ask orders loader))
      answered
      false
      (load_all [] (ask orders (load_all [] (ask orders loader))))
    ≡ load_all [] (ask orders (load_all [] (ask orders loader)))
answer-stale_example = answer-stale orders [] [] answered false loader

abbrev others : List LoadEvent
others = asks (codes "invoices") ∷ []

abbrev page_of_orders : AppState
page_of_orders = record (initial []) {
  selected_subjects = orders ∷ [];
  selected_subject = some orders;
  live = (orders, record (empty_view orders) { loading = false; messages = a_message ∷ [] }) ∷ [];
}

abbrev info_of : Text → NodeInfo
info_of subject = record {
  segment = subject;
  full_subject = subject;
  total = 1;
  rate = 0;
  total_rate = 0;
  child_count = 0;
  subjects = 1;
  conn_ids = codes "c1" ∷ [];
}

abbrev two_levels : TreeNodes
two_levels =
    beside (node (info_of (codes "orders")) (beside (node (info_of orders) leaf) leaf)) leaf

flatten_tree-IsLaidOut_example : All IsLaidOut (flatten_tree (λ p. true) true two_levels)
flatten_tree-IsLaidOut_example = flatten_tree-IsLaidOut (λ p. true) true two_levels
