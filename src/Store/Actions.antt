-- ===== src/Store/Actions.antt =====
-- The actions of the page one after the other.
use nats_explorer.Prelude.{
  ℕ, Text, List, [], ◌∷◌, Bool, true, false, not, Option, some, ◌≢◌, refl, arith, text_eq, All,
  if◌then◌else◌,
}
use nats_explorer.Messages.{NatsMessage}
use nats_explorer.Store.{AppState, ConnectionStatus, SubscriptionStats}
use nats_explorer.Store.View.{
  HistoryResponse, with_history, with_older, with_older_branch, with_error,
}
use nats_explorer.Store.View.Bounds.{
  with_history-IsBounded, with_older-IsBounded, with_older_branch-IsBounded, with_error-IsBounded,
}
use nats_explorer.Store.Live.{
  ingest_feed, apply_history, set_loading_older, set_loading_older_branch, append_older_branch,
  prepend_older, set_live_error, reset_live,
}
use nats_explorer.Store.Selection.{same_text, set_selected_subject, toggle_selected_subject}
use nats_explorer.Store.Expansion.{
  reveal_subject, toggle_expanded, set_subject_filter, set_expanded, expand_all_branches,
  collapse_all, is_filtering,
}
use nats_explorer.Store.Connections.{set_connections, set_active_conn_id, set_subscription_stats}
use nats_explorer.Store.Connections.{set_selected_kv_bucket}
use nats_explorer.Store.{TimeRange, TreeRow, SplitModule}
use nats_explorer.Store.Settings.{
  set_tree_rows, set_subject_expr, set_filter_error, set_range, set_selected_message,
  set_selected_stream, set_selected_kv_key, set_selected_obj_store, open_beside, close_beside,
  set_selected_service, bump_refresh, set_js_domain_override,
}
use nats_explorer.Store.Invariant.{
  IsValid, ingest_feed-IsValid, update_view-IsValid, reset_live-IsValid,
  set_selected_subject-IsValid, toggle_selected_subject-IsValid, set_connections-IsValid,
}

-- What the page does: the events of the feed, the answers of the server and the reader's choices.
pub data Action : Type 0 where
  feed_arrives : List NatsMessage → Action
  history_arrives : (subject : Text) → HistoryResponse → (replace : Bool) → Action
  older_arrives older_branch_arrives :
      (subject : Text) → List NatsMessage → (at_oldest : Bool) → Action
  older_requested older_branch_requested : (subject : Text) → (loading : Bool) → Action
  history_fails : (subject error : Text) → Action
  history_cleared : Action
  connections_arrive : (now : ℕ) → List ConnectionStatus → Action
  stats_arrive : Text → SubscriptionStats → Action
  connection_chosen : Option Text → Action
  subject_chosen : Option Text → Action
  subject_revealed subject_toggled branch_toggled filter_typed : Text → Action
  branches_opened : List Text → Action
  all_opened all_closed : Action
  expr_typed : Text → Action
  filter_fails stream_chosen bucket_chosen key_chosen store_chosen service_chosen :
      Option Text → Action
  message_chosen : Option NatsMessage → Action
  range_chosen : Option TimeRange → Action
  beside_opened : SplitModule → Text → Action
  beside_closed refreshed : Action
  rows_arrive : List TreeRow → ℕ → Action
  domain_set : (conn_id domain : Text) → Action

perform : Action → AppState → AppState
perform (feed_arrives msgs) s = ingest_feed msgs s
perform (history_arrives subject res replace) s = apply_history subject res replace s
perform (older_arrives subject msgs at_oldest) s = prepend_older subject msgs at_oldest s
perform (older_branch_arrives subject msgs at_oldest) s =
    append_older_branch subject msgs at_oldest s
perform (older_requested subject loading) s = set_loading_older subject loading s
perform (older_branch_requested subject loading) s = set_loading_older_branch subject loading s
perform (history_fails subject error) s = set_live_error subject error s
perform history_cleared s = reset_live s
perform (connections_arrive now conns) s = set_connections now conns s
perform (stats_arrive conn_id stats) s = set_subscription_stats conn_id stats s
perform (connection_chosen id) s = set_active_conn_id id s
perform (subject_chosen subject) s = set_selected_subject subject s
perform (subject_revealed subject) s = reveal_subject subject s
perform (subject_toggled subject) s = toggle_selected_subject subject s
perform (branch_toggled path) s = toggle_expanded path s
perform (filter_typed f) s = set_subject_filter f s
perform (branches_opened paths) s = set_expanded paths s
perform all_opened s = expand_all_branches s
perform all_closed s = collapse_all s
perform (expr_typed e) s = set_subject_expr e s
perform (filter_fails e) s = set_filter_error e s
perform (stream_chosen stream) s = set_selected_stream stream s
perform (bucket_chosen bucket) s = set_selected_kv_bucket bucket s
perform (key_chosen k) s = set_selected_kv_key k s
perform (store_chosen store) s = set_selected_obj_store store s
perform (service_chosen service) s = set_selected_service service s
perform (message_chosen m) s = set_selected_message m s
perform (range_chosen r) s = set_range r s
perform (beside_opened module_name name) s = open_beside module_name name s
perform beside_closed s = close_beside s
perform refreshed s = bump_refresh s
perform (rows_arrive rows system_count) s = set_tree_rows rows system_count s
perform (domain_set conn_id domain) s = set_js_domain_override conn_id domain s

pub perform_all : List Action → AppState → AppState
perform_all [] s = s
perform_all (a ∷ rest) s = perform_all rest (perform a s)

-- No one selects the empty subject.
abbrev pub IsProper : Action → Type 0
IsProper (subject_chosen subject) = subject ≢ some []
IsProper (subject_revealed subject) = subject ≢ []
IsProper _ = Unit

reveal_subject-IsValid :
    (subject : Text) (s : AppState) → subject ≢ [] → IsValid s → IsValid (reveal_subject subject s)
unfolding reveal_subject
reveal_subject-IsValid subject s h v =
    set_selected_subject-IsValid (some subject) _ (λ e. h (cc (e)))
      (record { shown = v.shown; focused = v.focused; kept = v.kept; counted = v.counted })

either-IsValid :
    (test : Bool) {s t : AppState} → IsValid s → IsValid t → IsValid (if test then s else t)
either-IsValid true v w = v
either-IsValid false v w = w

-- Every action keeps the invariant.
perform-IsValid : (a : Action) (s : AppState) → IsProper a → IsValid s → IsValid (perform a s)
unfolding perform
perform-IsValid (feed_arrives msgs) s p v = ingest_feed-IsValid msgs s v
perform-IsValid (history_arrives subject res replace) s p v =
    unfold apply_history in
    update_view-IsValid subject (with_history subject res replace) s
      (λ w h. (with_history-IsBounded subject res replace w, unfold with_history in refl)) v
perform-IsValid (older_arrives subject msgs at_oldest) s p v =
    unfold prepend_older in
    update_view-IsValid subject (with_older msgs at_oldest) s
      (λ w h. (with_older-IsBounded msgs at_oldest w h.0, unfold with_older in h.1)) v
perform-IsValid (older_branch_arrives subject msgs at_oldest) s p v =
    unfold append_older_branch in
    update_view-IsValid subject (with_older_branch msgs at_oldest) s
      (λ w h. (with_older_branch-IsBounded msgs at_oldest w h.0, unfold with_older_branch in h.1)) v
perform-IsValid (older_requested subject loading) s p v =
    unfold set_loading_older in
    update_view-IsValid subject _ s (λ w h. (ground (arith, h.0), h.1)) v
perform-IsValid (older_branch_requested subject loading) s p v =
    unfold set_loading_older_branch in
    update_view-IsValid subject _ s (λ w h. (ground (arith, h.0), h.1)) v
perform-IsValid (history_fails subject error) s p v =
    unfold set_live_error in
    update_view-IsValid subject (with_error error) s
      (λ w h. (with_error-IsBounded error w h.0, unfold with_error in h.1)) v
perform-IsValid history_cleared s p v = reset_live-IsValid s v
perform-IsValid (connections_arrive now conns) s p v = set_connections-IsValid now conns s v
perform-IsValid (stats_arrive conn_id stats) s p v =
    unfold set_subscription_stats in
    record { shown = v.shown; focused = v.focused; kept = v.kept; counted = refl }
perform-IsValid (connection_chosen id) s p v =
    unfold set_active_conn_id in either-IsValid (same_text s.active_conn_id id) v (assumption)
perform-IsValid (subject_chosen subject) s p v = set_selected_subject-IsValid subject s p v
perform-IsValid (subject_revealed subject) s p v = reveal_subject-IsValid subject s p v
perform-IsValid (subject_toggled subject) s p v = toggle_selected_subject-IsValid subject s v
perform-IsValid (branch_toggled path) s p v =
    unfold toggle_expanded in
    either-IsValid (is_filtering s.subject_filter) (assumption) (assumption)
perform-IsValid (filter_typed f) s p v = unfold set_subject_filter in assumption
perform-IsValid (branches_opened paths) s p v = unfold set_expanded in assumption
perform-IsValid all_opened s p v =
    unfold expand_all_branches in
    either-IsValid (is_filtering s.subject_filter) (assumption) (assumption)
perform-IsValid all_closed s p v =
    unfold collapse_all in
    either-IsValid (not (is_filtering s.subject_filter)) (assumption) (assumption)
perform-IsValid (expr_typed e) s p v = unfold set_subject_expr in assumption
perform-IsValid (filter_fails e) s p v = unfold set_filter_error in assumption
perform-IsValid (stream_chosen stream) s p v = unfold set_selected_stream in assumption
perform-IsValid (bucket_chosen bucket) s p v =
    unfold set_selected_kv_bucket in
    either-IsValid (same_text s.selected_kv_bucket bucket) v (assumption)
perform-IsValid (key_chosen k) s p v = unfold set_selected_kv_key in assumption
perform-IsValid (store_chosen store) s p v = unfold set_selected_obj_store in assumption
perform-IsValid (service_chosen service) s p v = unfold set_selected_service in assumption
perform-IsValid (message_chosen m) s p v = unfold set_selected_message in assumption
perform-IsValid (range_chosen r) s p v = unfold set_range in assumption
perform-IsValid (beside_opened module_name name) s p v = unfold open_beside in assumption
perform-IsValid beside_closed s p v = unfold close_beside in assumption
perform-IsValid refreshed s p v = unfold bump_refresh in assumption
perform-IsValid (rows_arrive rows system_count) s p v = unfold set_tree_rows in assumption
perform-IsValid (domain_set conn_id domain) s p v = unfold set_js_domain_override in assumption

-- From a state that keeps the invariant, any sequence of actions of which none selects the empty subject
-- ends in one that keeps it: the views are those of the selected subjects in order, the last selected
-- one is in focus, every view keeps its caps and its subject, and the total is the sum of the counters.
pub perform_all-IsValid :
    (actions : List Action) (s : AppState)
    → All IsProper actions
    → IsValid s
    → IsValid (perform_all actions s)
unfolding perform_all
perform_all-IsValid [] s p v = v
perform_all-IsValid (a ∷ rest) s p v =
    perform_all-IsValid rest (perform a s) p.1 (perform-IsValid a s p.0 v)
