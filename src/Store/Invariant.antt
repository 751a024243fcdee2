-- ===== src/Store/Invariant.antt =====
-- The invariant of the page's state: one view for each selected subject, in the order of the
-- selection, none above its caps, the last subject in focus, and the counters added up.
use nats_explorer.Prelude.{
  ℕ, Text, List, [], ◌∷◌, ◌++◌, map, not, Option, none, some, ◌≡◌, ◌≢◌, refl, ◌∙◌, ap, arith, ◌==◌,
  text_eq, any, filter, last?, length, leb, All, inl, inr, Bool-cases, Option-cases,
  length-filter-le, ◌&&◌, ◌||◌,
}
use nats_explorer.Prelude.Table.{
  get, keys, set-All, delete-All, get-All, keys-set_present, keys-set_new, keys-delete, get_present,
}
use nats_explorer.Messages.{NatsMessage}
use nats_explorer.Subjects.Match.{is_empty}
use nats_explorer.Store.{AppState, ConnectionStatus, initial}
use nats_explorer.Store.View.{LiveView, empty_view, ingest, forgotten}
use nats_explorer.Store.View.Bounds.{
  IsBounded, empty_view-IsBounded, ingest-IsBounded, forgotten-IsBounded,
}
use nats_explorer.Store.Live.{ingest_feed, update_view, reset_live}
use nats_explorer.Store.Selection.{
  same_text, select, view_or_empty, set_selected_subject, toggle_selected_subject,
}
use nats_explorer.Store.Connections.{
  set_connections, prune_view, prune_stats, count_subjects, keep_message, choose_active, paused,
  is_listed,
}

-- A view within its caps, under its own subject.
abbrev pub IsKept : Text × LiveView → Type 0
IsKept e = IsBounded e.1 × (e.1.subject ≡ e.0)

pub record IsValid (s : AppState) : Type 0 where
  pub shown : keys s.live ≡ s.selected_subjects
  pub focused : s.selected_subject ≡ last? s.selected_subjects
  pub kept : All IsKept s.live
  pub counted : s.total_subjects ≡ count_subjects s.subscription_stats

pub initial-IsValid : (expr : Text) → IsValid (initial expr)
unfolding initial count_subjects
initial-IsValid expr = record { shown = refl; focused = refl; kept = tt; counted = refl }

keys-map :
    (f : Text → LiveView → LiveView) (live : List (Text × LiveView))
    → keys (map (λ e. (e.0, f e.0 e.1)) live) ≡ keys live
keys-map f [] = refl
keys-map f ((k, v) ∷ live) = ap (◌∷◌ k) (keys-map f live)

map-IsKept :
    (f : Text → LiveView → LiveView)
    → ((k : Text) (v : LiveView) → IsKept (k, v) → IsKept (k, f k v))
    → (live : List (Text × LiveView)) → All IsKept live
    → All IsKept (map (λ e. (e.0, f e.0 e.1)) live)
map-IsKept f h [] a = tt
map-IsKept f h ((k, v) ∷ live) a = (h k v a.0, map-IsKept f h live a.1)

ingest-IsKept :
    (msgs : List NatsMessage) (k : Text) (v : LiveView)
    → IsKept (k, v)
    → IsKept (k, ingest msgs k v)
ingest-IsKept msgs k v (b, e) = (ingest-IsBounded msgs k v b, unfold ingest in e)

pub ingest_feed-IsValid :
    (msgs : List NatsMessage) (s : AppState) → IsValid s → IsValid (ingest_feed msgs s)
unfolding ingest_feed
ingest_feed-IsValid msgs s v = elim (Bool-cases (is_empty s.live || is_empty msgs)) [
  | inl e ↦ rw e v
  | inr e ↦ rw e (record {
    shown = keys-map (ingest msgs) s.live ∙ v.shown;
    focused = v.focused;
    kept = map-IsKept (ingest msgs) (ingest-IsKept msgs) s.live v.kept;
    counted = v.counted;
  })
]

pub update_view-IsValid :
    (subject : Text) (f : LiveView → LiveView) (s : AppState)
    → ((v : LiveView) → IsKept (subject, v) → IsKept (subject, f v))
    → IsValid s
    → IsValid (update_view subject f s)
unfolding update_view
update_view-IsValid subject f s h v = elim (Option-cases (get subject s.live)) [
  | inl e ↦ rw (e, update_view) v
  | inr (view, e) ↦
      rw (e, update_view)
        (record {
          shown =
              keys-set_present subject (f view) s.live (get_present subject view s.live e)
              ∙ v.shown;
          focused = v.focused;
          kept =
              set-All IsKept subject (f view) s.live
                (h view (get-All IsKept subject view s.live e v.kept)) v.kept;
          counted = v.counted;
        })
]

pub reset_live-IsValid : (s : AppState) → IsValid s → IsValid (reset_live s)
unfolding reset_live forgotten
reset_live-IsValid s v = record {
  shown = keys-map (λ k w. forgotten w) s.live ∙ v.shown;
  focused = v.focused;
  kept = map-IsKept (λ k w. forgotten w) (λ k w h. (forgotten-IsBounded w, h.1)) s.live v.kept;
  counted = v.counted;
}

view_or_empty-IsKept :
    (subject : Text) (s : AppState) (found : Option LiveView)
    → get subject s.live ≡ found
    → IsValid s
    → IsKept (subject, view_or_empty subject found)
view_or_empty-IsKept subject s none e v = (empty_view-IsBounded subject, unfold empty_view in refl)
view_or_empty-IsKept subject s (some view) e v = get-All IsKept subject view s.live e v.kept

select-IsValid :
    (subject : Option Text) (s : AppState)
    → subject ≢ some []
    → IsValid s
    → IsValid (select subject s)
unfolding select
select-IsValid none s h v = record { shown = refl; focused = refl; kept = tt; counted = v.counted }
select-IsValid (some []) s h v = absurd (h refl)
select-IsValid (some (c ∷ cs)) s h v = record {
  shown = refl;
  focused = refl;
  kept = (view_or_empty-IsKept (c ∷ cs) s (get (c ∷ cs) s.live) refl v, tt);
  counted = v.counted;
}

pub set_selected_subject-IsValid :
    (subject : Option Text) (s : AppState)
    → subject ≢ some []
    → IsValid s
    → IsValid (set_selected_subject subject s)
unfolding set_selected_subject
set_selected_subject-IsValid subject s h v =
    elim (Bool-cases (same_text s.selected_subject subject && leb (length s.selected_subjects) 1)) [
      | inl e ↦ rw e v
      | inr e ↦ rw e (select-IsValid subject s h v)
    ]

pub toggle_selected_subject-IsValid :
    (subject : Text) (s : AppState) → IsValid s → IsValid (toggle_selected_subject subject s)
unfolding toggle_selected_subject
toggle_selected_subject-IsValid subject s v =
    elim (Bool-cases (any (λ x. x == subject) s.selected_subjects)) [
      | inl e ↦ rw e (record {
        shown = keys-delete subject s.live ∙ ap (filter (λ x. not (x == subject))) v.shown;
        focused = refl;
        kept = delete-All IsKept subject s.live v.kept;
        counted = v.counted;
      })
      | inr e ↦ rw e (record {
        shown =
            keys-set_new subject (empty_view subject) s.live (rw v.shown e)
            ∙ ap (λ ks. ks ++ subject ∷ []) v.shown;
        focused = refl;
        kept =
            set-All IsKept subject (empty_view subject) s.live
              (empty_view-IsBounded subject, unfold empty_view in refl) v.kept;
        counted = v.counted;
      })
    ]

prune_view-IsKept :
    (conns : List ConnectionStatus) (k : Text) (v : LiveView)
    → IsKept (k, v)
    → IsKept (k, prune_view conns v)
unfolding prune_view
prune_view-IsKept conns k v (b, e) = (
  omega (
    arith,
    length-filter-le (keep_message conns) v.messages,
    length-filter-le (keep_message conns) v.branch,
  ),
  e,
)

prune_stats-IsValid :
    (conns : List ConnectionStatus) (s : AppState) → IsValid s → IsValid (prune_stats conns s)
unfolding prune_stats
prune_stats-IsValid conns s v =
    elim (Bool-cases (any (λ e. not (is_listed conns e.0)) s.subscription_stats)) [
      | inl e ↦ rw e (record {
        shown = keys-map (λ k w. prune_view conns w) s.live ∙ v.shown;
        focused = v.focused;
        kept = map-IsKept (λ k w. prune_view conns w) (prune_view-IsKept conns) s.live v.kept;
        counted = refl;
      })
      | inr e ↦ rw e v
    ]

pub set_connections-IsValid :
    (now : ℕ) (received : List ConnectionStatus) (s : AppState)
    → IsValid s
    → IsValid (set_connections now received s)
unfolding set_connections
set_connections-IsValid now received s v =
    let conns = map (λ c. paused now c c.live_pause_ms) received in
    let p = prune_stats-IsValid conns s v in
    elim (Bool-cases (same_text (choose_active conns s.active_conn_id) s.active_conn_id)) [
      | inl e ↦ rw e (assumption)
      | inr e ↦ rw e (assumption)
    ]
