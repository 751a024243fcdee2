-- ===== src/Links/Opening.antt =====
-- client/src/lib/urlSync.ts: what a link does to the page, and the link that waits for its connection. How a
-- window is named is a parameter, and so is what connecting answers: the connection, or none.
pub mod Selecting
pub mod Same
use nats_explorer.Prelude.{
  ℕ, Text, text_beq, List, [], ◌∷◌, Bool, true, false, Option, none, some, ◌==◌, text_eq, any, find,
  if◌then◌else◌,
}
use nats_explorer.Prelude.Trim.{or_none}
use nats_explorer.Store.{AppState, ConnectionStatus, TimeRange}
use nats_explorer.Store.Selection.{set_selected_subject}
use nats_explorer.Store.Expansion.{reveal_subject}
use nats_explorer.Store.Connections.{set_active_conn_id, set_selected_kv_bucket}
use nats_explorer.Store.Settings.{
  set_range, set_selected_stream, set_selected_kv_key, set_selected_obj_store, set_selected_service,
  set_selected_template_id,
}
use nats_explorer.Saved.Connections.{SavedConnection}
use nats_explorer.Links.{
  Module, subjects, state, jetstream, kv, objects, services, requests, events, monitor, cluster,
  alerts, audit, DeepLink, LinkState, Browser, parse_link,
}

-- The page: its module and the rest of its state.
pub record Page : Type 0 where
  pub module_of : Module
  pub app : AppState

-- What `linkFromState` reads of it.
abbrev pub shown : Page → LinkState
shown p = record {
  module_of = p.module_of;
  active_conn_id = p.app.active_conn_id;
  selected_subject = p.app.selected_subject;
  range = p.app.range;
  selected_stream = p.app.selected_stream;
  selected_kv_bucket = p.app.selected_kv_bucket;
  selected_kv_key = p.app.selected_kv_key;
  selected_obj_store = p.app.selected_obj_store;
  selected_service = p.app.selected_service;
  selected_template_id = p.app.selected_template_id;
}

-- `windowRange`.
abbrev pub window_range : (ℕ → ℕ → Text) → ℕ → ℕ → TimeRange
window_range label from to = record {
  from = from;
  to = to;
  label = label from to;
  prose = label from to;
}

abbrev pub apply_window : (ℕ → ℕ → Text) → Option ℕ → Option ℕ → AppState → AppState
apply_window label none to s = s
apply_window label (some from) none s = s
apply_window label (some from) (some to) s = set_range (some (window_range label from to)) s

abbrev pub unselect : Option Text → AppState → AppState
unselect none s = s
unselect (some selected) s = set_selected_subject none s

abbrev pub apply_subject : (ℕ → ℕ → Text) → Option Text → Option ℕ → Option ℕ → AppState → AppState
apply_subject label none from to s = unselect (or_none s.selected_subject) s
apply_subject label (some subject) from to s = apply_window label from to (reveal_subject subject s)

abbrev pub apply_bucket : Option Text → Option Text → AppState → AppState
apply_bucket none key s = s
apply_bucket (some bucket) key s = set_selected_kv_key key s

abbrev pub apply_in : (ℕ → ℕ → Text) → Module → DeepLink → AppState → AppState
apply_in label subjects link s = apply_subject label (or_none link.subject) link.from link.to s
apply_in label jetstream link s = set_selected_stream link.stream s
apply_in label kv link s =
    apply_bucket (or_none link.bucket) link.key (set_selected_kv_bucket link.bucket s)
apply_in label objects link s = set_selected_obj_store link.store s
apply_in label services link s = set_selected_service link.service s
apply_in label requests link s = set_selected_template_id link.template s
apply_in label state link s = s
apply_in label events link s = s
apply_in label monitor link s = s
apply_in label cluster link s = s
apply_in label alerts link s = s
apply_in label audit link s = s

abbrev pub apply_to : (ℕ → ℕ → Text) → Option Module → DeepLink → Page → Page
apply_to label none link p = p
apply_to label (some m) link p = record { module_of = m; app = apply_in label m link p.app }

unfoldable pub apply_selection : (ℕ → ℕ → Text) → DeepLink → Page → Page
unfolding reveal_subject set_selected_subject set_range set_selected_stream set_selected_kv_bucket
    set_selected_kv_key set_selected_obj_store set_selected_service set_selected_template_id
apply_selection label link p = apply_to label link.module_of link p

-- The page with the link that waits.
pub record Sync : Type 0 where
  pub pending : Option DeepLink
  pub page : Page

abbrev pub set_module : Option Module → Page → Page
set_module none p = p
set_module (some m) p = record p { module_of = m }

abbrev pub activate : Text → Page → Page
activate id p = record p { app = set_active_conn_id (some id) p.app }

abbrev pub is_known : Text → List ConnectionStatus → Bool
is_known id connections = any (λ (c : ConnectionStatus). c.id == id) connections

abbrev pub connect_saved : (ℕ → ℕ → Text) → DeepLink → Option Text → Page → Page
connect_saved label link none p = p
connect_saved label link (some id) p = apply_selection label link (activate id p)

-- A saved connection is opened first; the link to a connection that nobody knows is applied without it.
abbrev pub resolve_saved :
    (ℕ → ℕ → Text) → DeepLink → (Text → Option Text) → Option SavedConnection → Page → Page
resolve_saved label link connect none p = apply_selection label link p
resolve_saved label link connect (some saved) p =
    connect_saved label link (connect saved.id) (set_module link.module_of p)

abbrev pub resolve_conn :
    (ℕ → ℕ → Text)
    → List SavedConnection
    → (Text → Option Text)
    → DeepLink
    → Option Text
    → Page
    → Sync
resolve_conn label items connect link none p = record {
  pending = none;
  page = apply_selection label link p;
}
resolve_conn label items connect link (some id) p =
    if p.app.connections_loaded
    then (if is_known id p.app.connections
        then record { pending = none; page = apply_selection label link (activate id p) }
        else record {
          pending = none;
          page =
              resolve_saved label link connect (find (λ (c : SavedConnection). c.id == id) items) p;
        })
    else record { pending = some link; page = p }

abbrev pub resolve_link :
    (ℕ → ℕ → Text) → List SavedConnection → (Text → Option Text) → Option DeepLink → Page → Sync
resolve_link label items connect none p = record { pending = none; page = p }
resolve_link label items connect (some link) p =
    resolve_conn label items connect link (or_none link.conn) p

unfoldable pub resolve_pending :
    (ℕ → ℕ → Text) → List SavedConnection → (Text → Option Text) → Sync → Sync
unfolding text_beq apply_selection set_active_conn_id
resolve_pending label items connect s = resolve_link label items connect s.pending s.page

-- The page at an address: `installUrlSync` and `popstate` hold the link that it names.
abbrev pub says_where : DeepLink → Option Module → Option Text → Option DeepLink
says_where link none none = none
says_where link none (some conn) = some link
says_where link (some m) conn = some link

unfoldable pub opened : Browser → Text → Page → Sync
unfolding parse_link
opened browser hash p =
    let link = parse_link browser hash in
    record { pending = says_where link link.module_of link.conn; page = p }
