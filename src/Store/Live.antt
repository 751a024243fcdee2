-- ===== src/Store/Live.antt =====
-- The actions of client/src/store/index.ts on the live views.
use nats_explorer.Prelude.{Text, List, map, Bool, none, some, if◌then◌else◌, ◌||◌}
use nats_explorer.Prelude.Table.{get, set}
use nats_explorer.Messages.{NatsMessage}
use nats_explorer.Subjects.Match.{is_empty}
use nats_explorer.Store.{AppState}
use nats_explorer.Store.View.{
  LiveView, HistoryResponse, ingest, with_history, with_older, with_older_branch, with_error,
  forgotten,
}

unfoldable pub ingest_feed : List NatsMessage → AppState → AppState
ingest_feed msgs s =
    if is_empty s.live || is_empty msgs
    then s
    else record s { live = map (λ e. (e.0, ingest msgs e.0 e.1)) s.live }

-- What the actions on one subject have in common: nothing happens if it is not shown.
unfoldable pub update_view : Text → (LiveView → LiveView) → AppState → AppState
unfolding get set
update_view subject f s = elim (get subject s.live) [
  | none ↦ s
  | some view ↦ record s { live = set subject (f view) s.live }
]

unfoldable pub apply_history : Text → HistoryResponse → Bool → AppState → AppState
apply_history subject res replace = update_view subject (with_history subject res replace)

abbrev with_loading_older : Bool → LiveView → LiveView
with_loading_older loading view = record view { loading_older = loading }

abbrev with_loading_older_branch : Bool → LiveView → LiveView
with_loading_older_branch loading view = record view { loading_older_branch = loading }

-- Writing the value that is there already gives the same state, so the early return needs no branch.
unfoldable pub set_loading_older : Text → Bool → AppState → AppState
set_loading_older subject loading = update_view subject (with_loading_older loading)

unfoldable pub set_loading_older_branch : Text → Bool → AppState → AppState
set_loading_older_branch subject loading = update_view subject (with_loading_older_branch loading)

unfoldable pub append_older_branch : Text → List NatsMessage → Bool → AppState → AppState
append_older_branch subject msgs at_oldest = update_view subject (with_older_branch msgs at_oldest)

unfoldable pub prepend_older : Text → List NatsMessage → Bool → AppState → AppState
prepend_older subject msgs at_oldest = update_view subject (with_older msgs at_oldest)

unfoldable pub set_live_error : Text → Text → AppState → AppState
set_live_error subject error = update_view subject (with_error error)

unfoldable pub reset_live : AppState → AppState
unfolding forgotten
reset_live s = record s { live = map (λ e. (e.0, forgotten e.1)) s.live; selected_message = none }
