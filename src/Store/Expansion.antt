-- ===== src/Store/Expansion.antt =====
-- The actions of client/src/store/index.ts that open and close branches of the tree.
use nats_explorer.Prelude.{
  Text, text_beq, List, [], ◌∷◌, ◌++◌, map, Bool, true, false, not, some, ◌==◌, text_eq, any,
  filter, if◌then◌else◌, is_space, join_with, take, length, ℕ, zero, suc,
}
use nats_explorer.Subjects.Match.{dot, tokens}
use nats_explorer.Store.{AppState}
use nats_explorer.Store.Selection.{set_selected_subject}

-- A `Set` of paths.
unfoldable pub contains : Text → List Text → Bool
unfolding text_beq
contains p ps = any (λ q. q == p) ps

unfoldable pub add : Text → List Text → List Text
unfolding contains
add p ps = if contains p ps then ps else ps ++ p ∷ []

unfoldable pub discard : Text → List Text → List Text
unfolding text_beq
discard p ps = filter (λ q. not (q == p)) ps

unfoldable pub flip : Text → List Text → List Text
flip p ps = if contains p ps then discard p ps else add p ps

-- `s.subjectFilter.trim()` is not empty.
unfoldable pub is_filtering : Text → Bool
is_filtering filter_text = any (λ c. not (is_space c)) filter_text

-- client/src/components/subjects/tree.ts: the loop of `ancestorsOf`, for the ends 1 to `n`.
ancestors_to : ℕ → List Text → List Text
ancestors_to zero parts = []
ancestors_to (suc n) parts = ancestors_to n parts ++ join_with (dot ∷ []) (take (suc n) parts) ∷ []

abbrev before_last : ℕ → ℕ
before_last zero = zero
before_last (suc n) = n

unfoldable pub ancestors_of : Text → List Text
unfolding ancestors_to tokens join_with
ancestors_of subject = let parts = tokens subject in ancestors_to (before_last (length parts)) parts

-- The loop of `revealSubject` over the ancestors.
unfoldable pub open_all : Bool → List Text → List Text → List Text
unfolding add discard
open_all all [] expanded = expanded
open_all all (p ∷ ps) expanded =
    open_all all ps (if all then discard p expanded else add p expanded)

unfoldable pub reveal_subject : Text → AppState → AppState
unfolding open_all ancestors_of set_selected_subject
reveal_subject subject s =
    set_selected_subject (some subject)
      (record s { expanded = open_all s.expand_all (ancestors_of subject) s.expanded })

unfoldable pub is_expanded : Text → AppState → Bool
unfolding contains is_filtering
is_expanded path s =
    if is_filtering s.subject_filter
    then not (contains path s.filter_collapsed)
    else if s.expand_all
    then not (contains path s.expanded)
    else contains path s.expanded

unfoldable pub toggle_expanded : Text → AppState → AppState
unfolding flip is_filtering
toggle_expanded path s =
    if is_filtering s.subject_filter
    then record s { filter_collapsed = flip path s.filter_collapsed }
    else record s { expanded = flip path s.expanded }

unfoldable pub set_subject_filter : Text → AppState → AppState
set_subject_filter f s = record s { subject_filter = f; filter_collapsed = [] }

unfoldable pub dedupe : List Text → List Text → List Text
unfolding add
dedupe out [] = out
dedupe out (p ∷ ps) = dedupe (add p out) ps

unfoldable pub set_expanded : List Text → AppState → AppState
unfolding dedupe
set_expanded paths s = record s { expand_all = false; expanded = dedupe [] paths }

unfoldable pub expand_all_branches : AppState → AppState
unfolding is_filtering
expand_all_branches s =
    if is_filtering s.subject_filter
    then record s { filter_collapsed = [] }
    else record s { expand_all = true; expanded = [] }

unfoldable pub collapse_all : AppState → AppState
unfolding is_filtering dedupe
collapse_all s =
    if not (is_filtering s.subject_filter)
    then record s { expand_all = false; expanded = [] }
    else record s {
      filter_collapsed =
          dedupe [] (map (λ r. r.subject) (filter (λ r. r.has_children) s.tree_rows));
    }
