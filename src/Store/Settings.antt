-- ===== src/Store/Settings.antt =====
-- The actions of client/src/store/index.ts that set one thing: what is chosen in the modules, the payload
-- filter and the JetStream domain of a connection.
use nats_explorer.Prelude.{
  ℕ, ◌+◌, Text, List, [], ◌∷◌, Option, none, some, ◌≡◌, refl, ◌≢◌, if◌then◌else◌, inl, inr,
  Bool-cases,
}
use nats_explorer.Prelude.Table.{get, set, delete, get-set, get-set_ne, get-delete, get-delete_ne}
use nats_explorer.Prelude.Trim.{trim, some_text, or_none}
use nats_explorer.Messages.{NatsMessage}
use nats_explorer.Subjects.Match.{is_empty}
use nats_explorer.Store.{AppState, TimeRange, TreeRow, SplitModule}

unfoldable pub set_tree_rows : List TreeRow → ℕ → AppState → AppState
set_tree_rows rows system_count s = record s { tree_rows = rows; system_count = system_count }

-- Without a filter there is no error of one.
unfoldable pub set_subject_expr : Text → AppState → AppState
set_subject_expr e s = record s {
  subject_expr = e;
  filter_error = if is_empty (trim e) then none else s.filter_error;
}

-- `e || null`.
unfoldable pub set_filter_error : Option Text → AppState → AppState
set_filter_error e s = record s { filter_error = or_none e }

unfoldable pub set_range : Option TimeRange → AppState → AppState
set_range r s = record s { range = r }

unfoldable pub set_selected_message : Option NatsMessage → AppState → AppState
set_selected_message m s = record s { selected_message = m }

unfoldable pub set_selected_stream : Option Text → AppState → AppState
set_selected_stream stream s = record s { selected_stream = stream }

unfoldable pub set_selected_kv_key : Option Text → AppState → AppState
set_selected_kv_key k s = record s { selected_kv_key = k }

unfoldable pub set_selected_obj_store : Option Text → AppState → AppState
set_selected_obj_store store s = record s { selected_obj_store = store }

unfoldable pub open_beside : SplitModule → Text → AppState → AppState
open_beside module_name name s = record s { beside = some (module_name, name) }

unfoldable pub close_beside : AppState → AppState
close_beside s = record s { beside = none }

unfoldable pub set_selected_service : Option Text → AppState → AppState
set_selected_service service s = record s { selected_service = service }

unfoldable pub set_selected_template_id : Option Text → AppState → AppState
set_selected_template_id id s = record s { selected_template_id = id }

unfoldable pub bump_refresh : AppState → AppState
bump_refresh s = record s { refresh_tick = s.refresh_tick + 1 }

-- The cache of requests that is cleared here is no part of the state.
unfoldable pub set_js_domain_override : Text → Text → AppState → AppState
set_js_domain_override conn_id domain s = record s {
  js_domain_override =
      if is_empty (trim domain)
      then delete conn_id s.js_domain_override
      else set conn_id (trim domain) s.js_domain_override;
  refresh_tick = s.refresh_tick + 1;
  selected_stream = none;
  selected_kv_bucket = none;
  selected_kv_key = none;
  selected_obj_store = none;
  beside = none;
}

some_text_if : (s : Text) → some_text s ≡ (if is_empty s then none else some s)
some_text_if [] = refl
some_text_if (c ∷ s) = refl

-- After the domain of a connection is set, its domain is the trimmed text, or none when that is empty,
-- and another connection keeps its own.
set_js_domain_override_lem :
    (conn_id other domain : Text) (s : AppState)
    → conn_id ≢ other
    → (get conn_id (set_js_domain_override conn_id domain s).js_domain_override
        ≡ or_none (some (trim domain)))
      × (get other (set_js_domain_override conn_id domain s).js_domain_override
          ≡ get other s.js_domain_override)
unfolding set_js_domain_override
set_js_domain_override_lem conn_id other domain s h = elim (Bool-cases (is_empty (trim domain))) [
  | inl e ↦
      rw (some_text_if (trim domain), e)
        (
          get-delete conn_id s.js_domain_override,
          get-delete_ne conn_id other s.js_domain_override h,
        )
  | inr e ↦
      rw (some_text_if (trim domain), e)
        (
          get-set conn_id (trim domain) s.js_domain_override,
          get-set_ne conn_id other (trim domain) s.js_domain_override h,
        )
]
