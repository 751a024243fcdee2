-- ===== src/Links/Sharing.antt =====
-- What is on screen and its address.
use nats_explorer.Prelude.{◌<◌, Text, [], ◌∷◌, Option, none, some, ◌≡◌, refl, ap, sym, ◌∙◌}
use nats_explorer.Prelude.Tests.{lt→ltb}
use nats_explorer.Prelude.Trim.{or_none}
use nats_explorer.Store.{TimeRange}
use nats_explorer.Links.{
  Module, subjects, state, jetstream, kv, objects, services, requests, events, monitor, cluster,
  alerts, audit, Browser, parse_link, format_link, LinkState, module_link, with_subject,
  with_bucket, link_from_state,
}
use nats_explorer.Links.Reading.{IsBrowser, readable, parse_link-format_link}

-- A window that starts after zero and is not empty.
abbrev pub IsWindow : Option TimeRange → Type 0
IsWindow none = Unit
IsWindow (some r) = (0 < r.from) × (r.from < r.to)

pub or_none_idem : (x : Option Text) → or_none (or_none x) ≡ or_none x
or_none_idem none = refl
or_none_idem (some []) = refl
or_none_idem (some (c ∷ s)) = refl

module_link-readable :
    (m : Module) (conn : Option Text) → readable (module_link m conn) ≡ module_link m conn
module_link-readable m conn = rw (or_none_idem conn) refl

with_subject-readable :
    (conn subject : Option Text) (range : Option TimeRange)
    → IsWindow range
    → readable (with_subject (or_none subject) range (module_link subjects conn))
      ≡ with_subject (or_none subject) range (module_link subjects conn)
with_subject-readable conn none range h = module_link-readable subjects conn
with_subject-readable conn (some []) range h = module_link-readable subjects conn
with_subject-readable conn (some (c ∷ s)) none h = rw (or_none_idem conn) refl
with_subject-readable conn (some (c ∷ s)) (some r) h =
    rw (or_none_idem conn, lt→ltb 0 r.from h.0, lt→ltb r.from r.to h.1) refl

with_bucket-readable :
    (conn bucket key : Option Text)
    → readable (with_bucket (or_none bucket) (or_none key) (module_link kv conn))
      ≡ with_bucket (or_none bucket) (or_none key) (module_link kv conn)
with_bucket-readable conn none key = module_link-readable kv conn
with_bucket-readable conn (some []) key = module_link-readable kv conn
with_bucket-readable conn (some (c ∷ b)) key = rw (or_none_idem conn, or_none_idem key) refl

link_from_state-readable :
    (m : Module) (s : LinkState)
    → IsWindow s.range
    → readable (link_from_state (record s { module_of = m }))
      ≡ link_from_state (record s { module_of = m })
unfolding link_from_state
link_from_state-readable subjects s h =
    with_subject-readable s.active_conn_id s.selected_subject s.range h
link_from_state-readable state s h = module_link-readable state s.active_conn_id
link_from_state-readable jetstream s h =
    rw (or_none_idem s.active_conn_id, or_none_idem s.selected_stream) refl
link_from_state-readable kv s h =
    with_bucket-readable s.active_conn_id s.selected_kv_bucket s.selected_kv_key
link_from_state-readable objects s h =
    rw (or_none_idem s.active_conn_id, or_none_idem s.selected_obj_store) refl
link_from_state-readable services s h =
    rw (or_none_idem s.active_conn_id, or_none_idem s.selected_service) refl
link_from_state-readable requests s h =
    rw (or_none_idem s.active_conn_id, or_none_idem s.selected_template_id) refl
link_from_state-readable events s h = module_link-readable events s.active_conn_id
link_from_state-readable monitor s h = module_link-readable monitor s.active_conn_id
link_from_state-readable cluster s h = module_link-readable cluster s.active_conn_id
link_from_state-readable alerts s h = module_link-readable alerts s.active_conn_id
link_from_state-readable audit s h = module_link-readable audit s.active_conn_id

with_subject-module :
    (conn subject : Option Text) (range : Option TimeRange)
    → record (with_subject subject range (module_link subjects conn)) { module_of = some subjects }
      ≡ with_subject subject range (module_link subjects conn)
with_subject-module conn none range = refl
with_subject-module conn (some s) none = refl
with_subject-module conn (some s) (some r) = refl

with_bucket-module :
    (conn bucket key : Option Text)
    → record (with_bucket bucket key (module_link kv conn)) { module_of = some kv }
      ≡ with_bucket bucket key (module_link kv conn)
with_bucket-module conn none key = refl
with_bucket-module conn (some b) key = refl

pub link_from_state-module :
    (m : Module) (s : LinkState)
    → record (link_from_state (record s { module_of = m })) { module_of = some m }
      ≡ link_from_state (record s { module_of = m })
unfolding link_from_state
link_from_state-module subjects s =
    with_subject-module s.active_conn_id (or_none s.selected_subject) s.range
link_from_state-module state s = refl
link_from_state-module jetstream s = refl
link_from_state-module kv s =
    with_bucket-module s.active_conn_id (or_none s.selected_kv_bucket) (or_none s.selected_kv_key)
link_from_state-module objects s = refl
link_from_state-module services s = refl
link_from_state-module requests s = refl
link_from_state-module events s = refl
link_from_state-module monitor s = refl
link_from_state-module cluster s = refl
link_from_state-module alerts s = refl
link_from_state-module audit s = refl

-- The address of what is on screen is read as the link to it, in any browser that reads back what it prints:
-- the module, the connection and what is selected in the module, with a window that starts after zero and is
-- not empty, if the page shows one.
pub parse_link-link_from_state :
    (b : Browser) (s : LinkState)
    → IsBrowser b
    → IsWindow s.range
    → parse_link b (format_link b (link_from_state s)) ≡ link_from_state s
parse_link-link_from_state b s i h =
    let link = link_from_state s in
    let same = link_from_state-module s.module_of s in
    ap (λ l. parse_link b (format_link b l)) (sym same)
    ∙ parse_link-format_link b s.module_of link i
    ∙ ap readable same
    ∙ link_from_state-readable s.module_of s h
