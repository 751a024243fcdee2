-- ===== src/Store/Selection.antt =====
-- The actions of client/src/store/index.ts that select subjects.
use nats_explorer.Prelude.{
  Text, text_beq, [], ◌∷◌, ◌++◌, Bool, true, false, not, Option, none, some, ◌==◌, text_eq, any,
  filter, last?, length, leb, ◌&&◌, if◌then◌else◌,
}
use nats_explorer.Prelude.Table.{get, set, delete}
use nats_explorer.Subjects.Match.{is_empty}
use nats_explorer.Store.{AppState}
use nats_explorer.Store.View.{LiveView, empty_view}

-- `a === b` on a value that may be null.
unfoldable pub same_text : Option Text → Option Text → Bool
unfolding text_beq
same_text none none = true
same_text none (some b) = false
same_text (some a) none = false
same_text (some a) (some b) = a == b

abbrev pub view_or_empty : Text → Option LiveView → LiveView
view_or_empty subject none = empty_view subject
view_or_empty subject (some view) = view

-- The empty subject is as good as none.
unfoldable pub select : Option Text → AppState → AppState
unfolding get
select none s = record s {
  selected_subjects = [];
  selected_subject = none;
  selected_message = none;
  range = none;
  live = [];
}
select (some subject) s = record s {
  selected_subjects = if is_empty subject then [] else subject ∷ [];
  selected_subject = some subject;
  selected_message = none;
  range = none;
  live =
      if is_empty subject then [] else (subject, view_or_empty subject (get subject s.live)) ∷ [];
}

unfoldable pub set_selected_subject : Option Text → AppState → AppState
unfolding select same_text
set_selected_subject subject s =
    if same_text s.selected_subject subject && leb (length s.selected_subjects) 1
    then s
    else select subject s

unfoldable pub toggle_selected_subject : Text → AppState → AppState
unfolding set delete empty_view text_beq
toggle_selected_subject subject s =
    let included = any (λ x. x == subject) s.selected_subjects in
    let selected =
      if included
      then filter (λ x. not (x == subject)) s.selected_subjects
      else s.selected_subjects ++ subject ∷ [] in
    record s {
      selected_subjects = selected;
      selected_subject = last? selected;
      selected_message = none;
      range = none;
      live = if included then delete subject s.live else set subject (empty_view subject) s.live;
    }
