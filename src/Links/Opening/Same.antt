-- ===== src/Links/Opening/Same.antt =====
-- Opening a link against the state it was taken from.
use nats_explorer.Prelude.{
  ℕ, Text, text_eq, List, [], ◌∷◌, true, Option, none, some, ◌≡◌, refl, ap, sym, ◌∙◌, inl, inr,
  Bool-cases,
}
use nats_explorer.Prelude.Trim.{or_none}
use nats_explorer.Store.{AppState, TimeRange}
use nats_explorer.Store.Selection.{same_text}
use nats_explorer.Store.Expansion.{reveal_subject}
use nats_explorer.Store.Connections.{set_active_conn_id, set_selected_kv_bucket}
use nats_explorer.Store.Settings.{
  set_range, set_selected_stream, set_selected_kv_key, set_selected_obj_store, set_selected_service,
  set_selected_template_id,
}
use nats_explorer.Saved.Connections.{SavedConnection}
use nats_explorer.Links.{
  Module, subjects, state, jetstream, kv, objects, services, requests, events, monitor, cluster,
  alerts, audit, DeepLink, LinkState, module_link, with_subject, with_bucket, link_from_state,
  Browser, format_link, parse_link,
}
use nats_explorer.Links.Reading.{IsBrowser}
use nats_explorer.Links.Sharing.{
  IsWindow, or_none_idem, link_from_state-module, parse_link-link_from_state,
}
use nats_explorer.Links.Opening.{
  Page, shown, window_range, unselect, apply_selection, Sync, activate, is_known, resolve_pending,
  says_where, opened,
}
use nats_explorer.Links.Opening.Selecting.{
  same_text→eq, reveal_subject-IsChosen, module_link-conn, subject_link, bucket_link, unselect_lem,
  kv_bucket_lem,
}

-- A page whose active connection is the link's and which shows no window.
abbrev pub IsReadyFor : LinkState → Page → Type 0
IsReadyFor t p = (or_none p.app.active_conn_id ≡ or_none t.active_conn_id) × (p.app.range ≡ none)

module _ (label : ℕ → ℕ → Text) where
  same_unselected :
      (t : LinkState) (p : Page) (sel : Option Text)
      → or_none sel ≡ none
      → IsReadyFor t p
      → with_subject
          (or_none (unselect (or_none p.app.selected_subject) p.app).selected_subject)
          (unselect (or_none p.app.selected_subject) p.app).range
          (module_link subjects (unselect (or_none p.app.selected_subject) p.app).active_conn_id)
        ≡ module_link subjects t.active_conn_id
  same_unselected t p sel h r =
      let u = unselect_lem (or_none p.app.selected_subject) p.app r.1 refl in
      let out = unselect (or_none p.app.selected_subject) p.app in
      subject_link out.active_conn_id t.active_conn_id (or_none out.selected_subject) none out.range
        out.range u.0 refl (ap or_none u.1 ∙ r.0)

  same_subjects :
      (t : LinkState) (p : Page) (sel : Option Text) (range : Option TimeRange)
      → IsReadyFor t p
      → link_from_state (
          shown (
            apply_selection label
              (with_subject (or_none sel) range (module_link subjects t.active_conn_id))
              p))
        ≡ with_subject (or_none sel) range (module_link subjects t.active_conn_id)
  unfolding apply_selection link_from_state set_range
  same_subjects t p none range r = same_unselected t p none refl r
  same_subjects t p (some []) range r = same_unselected t p none refl r
  same_subjects t p (some (c ∷ s)) none r =
      let o = reveal_subject-IsChosen (c ∷ s) p.app r.1 in
      let out = reveal_subject (c ∷ s) p.app in
      subject_link out.active_conn_id t.active_conn_id (or_none out.selected_subject) (some (c ∷ s))
        out.range none (ap or_none o.selected) o.no_range (ap or_none o.conn ∙ r.0)
  same_subjects t p (some (c ∷ s)) (some w) r =
      let o = reveal_subject-IsChosen (c ∷ s) p.app r.1 in
      let out = reveal_subject (c ∷ s) p.app in
      subject_link out.active_conn_id t.active_conn_id (or_none out.selected_subject) (some (c ∷ s))
        (some (window_range label w.from w.to)) (some (window_range label w.from w.to))
        (ap or_none o.selected) refl (ap or_none o.conn ∙ r.0)

  same_bucket :
      (t : LinkState) (p : Page) (bucket key : Option Text)
      → IsReadyFor t p
      → link_from_state (
          shown (
            apply_selection label
              (with_bucket (or_none bucket) (or_none key) (module_link kv t.active_conn_id))
              p))
        ≡ with_bucket (or_none bucket) (or_none key) (module_link kv t.active_conn_id)
  unfolding apply_selection link_from_state set_selected_kv_key
  same_bucket t p none key r =
      let k = kv_bucket_lem none p.app in
      let out = set_selected_kv_bucket none p.app in
      bucket_link out.active_conn_id t.active_conn_id (or_none out.selected_kv_bucket) none
        (or_none out.selected_kv_key) (or_none out.selected_kv_key) (ap or_none k.0) refl
        (ap or_none k.1 ∙ r.0)
  same_bucket t p (some []) key r =
      let k = kv_bucket_lem none p.app in
      let out = set_selected_kv_bucket none p.app in
      bucket_link out.active_conn_id t.active_conn_id (or_none out.selected_kv_bucket) none
        (or_none out.selected_kv_key) (or_none out.selected_kv_key) (ap or_none k.0) refl
        (ap or_none k.1 ∙ r.0)
  same_bucket t p (some (c ∷ b)) key r =
      let k = kv_bucket_lem (some (c ∷ b)) p.app in
      let out = set_selected_kv_bucket (some (c ∷ b)) p.app in
      bucket_link out.active_conn_id t.active_conn_id (or_none out.selected_kv_bucket)
        (some (c ∷ b)) (or_none (or_none key)) (or_none key) (ap or_none k.0) (or_none_idem key)
        (ap or_none k.1 ∙ r.0)

  same_in :
      (m : Module) (t : LinkState) (p : Page)
      → IsReadyFor t p
      → link_from_state
          (shown (apply_selection label (link_from_state (record t { module_of = m })) p))
        ≡ link_from_state (record t { module_of = m })
  unfolding apply_selection link_from_state set_selected_stream set_selected_obj_store
      set_selected_service set_selected_template_id
  same_in subjects t p r = same_subjects t p t.selected_subject t.range r
  same_in kv t p r = same_bucket t p t.selected_kv_bucket t.selected_kv_key r
  same_in jetstream t p r = rw (r.0, or_none_idem t.selected_stream) refl
  same_in objects t p r = rw (r.0, or_none_idem t.selected_obj_store) refl
  same_in services t p r = rw (r.0, or_none_idem t.selected_service) refl
  same_in requests t p r = rw (r.0, or_none_idem t.selected_template_id) refl
  same_in state t p r = module_link-conn state p.app.active_conn_id t.active_conn_id r.0
  same_in events t p r = module_link-conn events p.app.active_conn_id t.active_conn_id r.0
  same_in monitor t p r = module_link-conn monitor p.app.active_conn_id t.active_conn_id r.0
  same_in cluster t p r = module_link-conn cluster p.app.active_conn_id t.active_conn_id r.0
  same_in alerts t p r = module_link-conn alerts p.app.active_conn_id t.active_conn_id r.0
  same_in audit t p r = module_link-conn audit p.app.active_conn_id t.active_conn_id r.0

subject-conn :
    (m : Module) (subject conn : Option Text) (range : Option TimeRange)
    → (with_subject subject range (module_link m conn)).conn ≡ or_none conn
subject-conn m none conn range = refl
subject-conn m (some s) conn none = refl
subject-conn m (some s) conn (some r) = refl

bucket-conn :
    (m : Module) (bucket key conn : Option Text)
    → (with_bucket bucket key (module_link m conn)).conn ≡ or_none conn
bucket-conn m none key conn = refl
bucket-conn m (some b) key conn = refl

conn-link_from_state :
    (m : Module) (t : LinkState)
    → (link_from_state (record t { module_of = m })).conn ≡ or_none t.active_conn_id
unfolding link_from_state
conn-link_from_state subjects t =
    subject-conn subjects (or_none t.selected_subject) t.active_conn_id t.range
conn-link_from_state kv t =
    bucket-conn kv (or_none t.selected_kv_bucket) (or_none t.selected_kv_key) t.active_conn_id
conn-link_from_state jetstream t = refl
conn-link_from_state objects t = refl
conn-link_from_state services t = refl
conn-link_from_state requests t = refl
conn-link_from_state state t = refl
conn-link_from_state events t = refl
conn-link_from_state monitor t = refl
conn-link_from_state cluster t = refl
conn-link_from_state alerts t = refl
conn-link_from_state audit t = refl

activated :
    (id : Text) (s : AppState)
    → ((set_active_conn_id (some id) s).active_conn_id ≡ some id)
      × ((set_active_conn_id (some id) s).range ≡ s.range)
unfolding set_active_conn_id
activated id s = elim (Bool-cases (same_text s.active_conn_id (some id))) [
  | inl e ↦ rw e (same_text→eq s.active_conn_id (some id) e, refl)
  | inr e ↦ rw e (refl, refl)
]

-- The link is applied to a page on the connection that it names.
resolved :
    (label : ℕ → ℕ → Text) (items : List SavedConnection) (connect : Text → Option Text)
    (link : DeepLink) (p : Page) (id : Text)
    → or_none link.conn ≡ some id
    → p.app.connections_loaded ≡ true
    → is_known id p.app.connections ≡ true
    → resolve_pending label items connect (record { pending = some link; page = p })
      ≡ record { pending = none; page = apply_selection label link (activate id p) }
unfolding resolve_pending
resolved label items connect link p id c l k = rw (c, l, k) refl

-- The same for the link itself.
resolve_pending-link :
    (label : ℕ → ℕ → Text) (items : List SavedConnection) (connect : Text → Option Text)
    (t : LinkState) (p : Page) (id : Text)
    → or_none t.active_conn_id ≡ some id
    → p.app.connections_loaded ≡ true
    → is_known id p.app.connections ≡ true
    → p.app.range ≡ none
    → ((resolve_pending label items connect
          (record { pending = some (link_from_state t); page = p })).pending
        ≡ none)
      × (link_from_state (
            shown
              (resolve_pending label items connect
                (record { pending = some (link_from_state t); page = p })).page)
          ≡ link_from_state t)
resolve_pending-link label items connect t p id c l k r =
    let link = link_from_state t in
    let named : or_none link.conn ≡ some id =
      ap or_none (conn-link_from_state t.module_of t) ∙ or_none_idem t.active_conn_id ∙ c in
    let done = resolved label items connect link p id named l k in
    let a = activated id p.app in
    let ready : IsReadyFor t (activate id p) =
      (ap or_none a.0 ∙ ap or_none (sym c) ∙ or_none_idem t.active_conn_id, a.1 ∙ r) in
    (
      ap (λ (s : Sync). s.pending) done,
      ap (λ (s : Sync). link_from_state (shown s.page)) done
          ∙ same_in label t.module_of t (activate id p) ready,
    )

opened_lem :
    (b : Browser) (hash : Text) (link : DeepLink) (m : Module) (p : Page)
    → parse_link b hash ≡ link
    → link.module_of ≡ some m
    → opened b hash p ≡ record { pending = some link; page = p }
unfolding opened
opened_lem b hash link m p h e =
    ap (λ (l : DeepLink). record { pending = says_where l l.module_of l.conn; page = p }) h
    ∙ ap (λ (x : Option Module). record { pending = says_where link x link.conn; page = p }) e

-- The address of what one page shows, opened in another page, makes it show the same: once the list of
-- connections is there and has the connection of the first page, nothing waits any more, and the link to
-- what is then on screen is the link to what the first page shows. Conditions: the first page has an active
-- connection and its window, if it shows one, starts after zero and is not empty; the second page shows no
-- window; and the browser reads back the entries and the numbers that it prints.
pub resolve_pending-address :
    (b : Browser) (label : ℕ → ℕ → Text) (items : List SavedConnection)
    (connect : Text → Option Text) (t : LinkState) (p : Page) (id : Text)
    → IsBrowser b
    → IsWindow t.range
    → or_none t.active_conn_id ≡ some id
    → p.app.connections_loaded ≡ true
    → is_known id p.app.connections ≡ true
    → p.app.range ≡ none
    → ((resolve_pending label items connect
          (opened b (format_link b (link_from_state t)) p)).pending
        ≡ none)
      × (link_from_state (
            shown
              (resolve_pending label items connect
                (opened b (format_link b (link_from_state t)) p)).page)
          ≡ link_from_state t)
resolve_pending-address b label items connect t p id i w c l k r =
    let link = link_from_state t in
    let somewhere : link.module_of ≡ some t.module_of =
      sym (ap (λ (x : DeepLink). x.module_of) (link_from_state-module t.module_of t)) in
    let start =
      opened_lem b (format_link b link) link t.module_of p (parse_link-link_from_state b t i w)
        somewhere in
    let out = resolve_pending-link label items connect t p id c l k r in
    (
      ap (λ s. (resolve_pending label items connect s).pending) start ∙ out.0,
      ap (λ s. link_from_state (shown (resolve_pending label items connect s).page)) start ∙ out.1,
    )
