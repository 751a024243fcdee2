-- ===== src/Store.antt =====
-- client/src/store/index.ts: the state of the page and its actions. A `Map` is a table of
-- Prelude/Table, a `Set` the list of its items in insertion order. Writing a setting to the browser's
-- storage is input and output and left out; the actions return the new state.
pub mod View
pub mod Live
pub mod Selection
pub mod Expansion
pub mod Connections
pub mod Settings
pub mod Invariant
pub mod Actions
pub mod Switching
pub mod Pruning
pub mod Branches
use nats_explorer.Prelude.{ℕ, Text, List, [], Bool, true, false, Option, none, some}
use nats_explorer.Messages.{NatsMessage}
use nats_explorer.Store.View.{LiveView}

-- The fields of `ConnectionStatus` that the store reads or writes.
pub record ConnectionStatus : Type 0 where
  pub id : Text
  pub connected : Bool
  pub live_pause_ms : Option ℕ
  pub live_paused_until : Option ℕ

-- The counters that `countSubjects` adds up.
pub record SubscriptionStats : Type 0 where
  pub received : ℕ
  pub subjects : ℕ

pub record TimeRange : Type 0 where
  pub from : ℕ
  pub to : ℕ
  pub label : Text
  pub prose : Text

-- What `collapseAll` reads of a row of the tree.
pub record TreeRow : Type 0 where
  pub subject : Text
  pub has_children : Bool

pub data SplitModule : Type 0 where
  jetstream kv objects : SplitModule

pub record AppState : Type 0 where
  pub connections : List ConnectionStatus
  pub connections_loaded : Bool
  pub active_conn_id : Option Text
  pub tree_rows : List TreeRow
  pub system_count : ℕ
  pub subject_filter : Text
  pub subject_expr : Text
  pub filter_error : Option Text
  pub selected_subjects : List Text
  pub selected_subject : Option Text
  pub expand_all : Bool
  pub expanded : List Text
  pub filter_collapsed : List Text
  pub live : List (Text × LiveView)
  pub selected_message : Option NatsMessage
  pub range : Option TimeRange
  pub subscription_stats : List (Text × SubscriptionStats)
  pub total_subjects : ℕ
  pub selected_stream : Option Text
  pub selected_kv_bucket : Option Text
  pub selected_kv_key : Option Text
  pub selected_obj_store : Option Text
  pub beside : Option (SplitModule × Text)
  pub selected_service : Option Text
  pub selected_template_id : Option Text
  pub refresh_tick : ℕ
  pub js_domain_override : List (Text × Text)

-- The state before the first event; `subject_expr` is read from the settings.
unfoldable pub initial : Text → AppState
initial subject_expr = record {
  connections = [];
  connections_loaded = false;
  active_conn_id = none;
  tree_rows = [];
  system_count = 0;
  subject_filter = [];
  subject_expr = subject_expr;
  filter_error = none;
  selected_subjects = [];
  selected_subject = none;
  expand_all = false;
  expanded = [];
  filter_collapsed = [];
  live = [];
  selected_message = none;
  range = none;
  subscription_stats = [];
  total_subjects = 0;
  selected_stream = none;
  selected_kv_bucket = none;
  selected_kv_key = none;
  selected_obj_store = none;
  beside = none;
  selected_service = none;
  selected_template_id = none;
  refresh_tick = 0;
  js_domain_override = [];
}
