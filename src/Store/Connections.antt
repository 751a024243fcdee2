-- ===== src/Store/Connections.antt =====
-- The actions of client/src/store/index.ts on connections and on what is selected in the modules.
use nats_explorer.Prelude.{
  ℕ, ◌+◌, Text, text_beq, List, [], ◌∷◌, map, Bool, true, false, not, ◌||◌, Option, none, some,
  ◌==◌, text_eq, any, find, filter, if◌then◌else◌, nat_beq,
}
use nats_explorer.Prelude.Table.{set}
use nats_explorer.Messages.{NatsMessage}
use nats_explorer.Subjects.Match.{is_empty}
use nats_explorer.Store.{AppState, ConnectionStatus, SubscriptionStats}
use nats_explorer.Store.View.{LiveView}
use nats_explorer.Store.Selection.{same_text}

unfoldable pub count_subjects : List (Text × SubscriptionStats) → ℕ
count_subjects [] = 0
count_subjects ((id, st) ∷ stats) = st.subjects + count_subjects stats

-- A pause is a duration; zero is as good as none.
abbrev pub paused : ℕ → ConnectionStatus → Option ℕ → ConnectionStatus
paused now c none = c
paused now c (some pause) =
    if nat_beq pause 0 then c else record c { live_paused_until = some (now + pause) }

abbrev pub id_of : Option ConnectionStatus → Option Text
id_of none = none
id_of (some c) = some c.id

abbrev pub first_id : List ConnectionStatus → Option Text
first_id [] = none
first_id (c ∷ cs) = some c.id

abbrev pub or_id : Option Text → Option Text → Option Text
or_id none d = d
or_id (some id) d = some id

unfoldable pub is_listed : List ConnectionStatus → Text → Bool
unfolding text_beq
is_listed conns id = any (λ c. c.id == id) conns

abbrev pub is_listed_active : List ConnectionStatus → Option Text → Bool
is_listed_active conns none = false
is_listed_active conns (some id) = is_listed conns id

unfoldable pub choose_active : List ConnectionStatus → Option Text → Option Text
unfolding is_listed
choose_active conns active =
    if is_listed_active conns active
    then active
    else or_id (id_of (find (λ c. c.connected) conns)) (first_id conns)

-- `!m.connId || live.has(m.connId)`: an empty id is as good as none.
abbrev pub keeps_id : List ConnectionStatus → Option Text → Bool
keeps_id conns none = true
keeps_id conns (some id) = is_empty id || is_listed conns id

unfoldable pub keep_message : List ConnectionStatus → NatsMessage → Bool
unfolding is_listed
keep_message conns m = keeps_id conns m.conn_id

unfoldable pub prune_view : List ConnectionStatus → LiveView → LiveView
unfolding keep_message
prune_view conns v = record v {
  messages = filter (keep_message conns) v.messages;
  branch = filter (keep_message conns) v.branch;
}

abbrev pub cleared : AppState → AppState
cleared s = record s {
  selected_stream = none;
  selected_kv_bucket = none;
  selected_kv_key = none;
  selected_obj_store = none;
  selected_service = none;
  beside = none;
}

unfoldable pub prune_stats : List ConnectionStatus → AppState → AppState
unfolding is_listed count_subjects prune_view
prune_stats conns s =
    let stats = filter (λ e. is_listed conns e.0) s.subscription_stats in
    if any (λ e. not (is_listed conns e.0)) s.subscription_stats
    then record s {
      subscription_stats = stats;
      total_subjects = count_subjects stats;
      live = map (λ e. (e.0, prune_view conns e.1)) s.live;
    }
    else s

-- `now` is the browser's clock.
unfoldable pub set_connections : ℕ → List ConnectionStatus → AppState → AppState
unfolding choose_active prune_stats same_text
set_connections now received s =
    let conns = map (λ c. paused now c c.live_pause_ms) received in
    let active = choose_active conns s.active_conn_id in
    let pruned = record (prune_stats conns s) {
      connections = conns;
      active_conn_id = active;
      connections_loaded = true;
    } in
    if same_text active s.active_conn_id then pruned else cleared pruned

unfoldable pub set_active_conn_id : Option Text → AppState → AppState
unfolding same_text
set_active_conn_id id s =
    if same_text s.active_conn_id id then s else cleared (record s { active_conn_id = id })

unfoldable pub set_subscription_stats : Text → SubscriptionStats → AppState → AppState
unfolding set count_subjects
set_subscription_stats conn_id stats s =
    let next = set conn_id stats s.subscription_stats in
    record s { subscription_stats = next; total_subjects = count_subjects next }

unfoldable pub set_selected_kv_bucket : Option Text → AppState → AppState
unfolding same_text
set_selected_kv_bucket bucket s =
    if same_text s.selected_kv_bucket bucket
    then s
    else record s { selected_kv_bucket = bucket; selected_kv_key = none }
