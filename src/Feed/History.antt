-- ===== src/Feed/History.antt =====
-- client/src/lib/feed.ts: the requests for recorded history and what their answers do to the page. A
-- request and its answer are two steps, with anything between them; the server is no part of the model.
pub mod Answers
pub mod Cursors
use nats_explorer.Prelude.{
  ℕ, ◌+◌, Text, text_beq, List, [], ◌∷◌, ◌++◌, map, Bool, true, false, not, ◌||◌, ◌&&◌, Option,
  none, some, if◌then◌else◌, leb, length, any, filter,
}
use nats_explorer.Prelude.Table.{get, set, has}
use nats_explorer.Messages.{NatsMessage, or_default}
use nats_explorer.Subjects.Match.{is_empty}
use nats_explorer.Store.{AppState}
use nats_explorer.Store.View.{LiveView, HistoryResponse, max_loaded_messages}
use nats_explorer.Store.Live.{
  apply_history, set_live_error, set_loading_older, set_loading_older_branch, prepend_older,
  append_older_branch,
}

-- The page and `loadSeq`, the number of the last request for every subject.
pub record Loader : Type 0 where
  pub load_seq : List (Text × ℕ)
  pub page : AppState

unfoldable pub next_seq : Text → List (Text × ℕ) → ℕ
unfolding get
next_seq subject seqs = or_default 0 (get subject seqs) + 1

-- `loadSubject` up to its request.
unfoldable pub ask : Text → Loader → Loader
unfolding set
ask subject l = record l { load_seq = set subject (next_seq subject l.load_seq) l.load_seq }

abbrev pub is_seq : ℕ → Option ℕ → Bool
is_seq seq none = false
is_seq seq (some n) = leb n seq && leb seq n

-- What `loadSubject` does with the answer to request `seq`, and with its failure.
unfoldable pub answer : Text → ℕ → HistoryResponse → Bool → Loader → Loader
unfolding get
answer subject seq res replace l =
    if is_seq seq (get subject l.load_seq)
    then record l { page = apply_history subject res replace l.page }
    else l

unfoldable pub fail : Text → ℕ → Text → Loader → Loader
unfolding get
fail subject seq error l =
    if is_seq seq (get subject l.load_seq)
    then record l { page = set_live_error subject error l.page }
    else l

pub data LoadEvent : Type 0 where
  asks : (subject : Text) → LoadEvent
  answers : (subject : Text) (seq : ℕ) → HistoryResponse → (replace : Bool) → LoadEvent
  fails : (subject : Text) (seq : ℕ) (error : Text) → LoadEvent

unfoldable pub load : LoadEvent → Loader → Loader
load (asks subject) l = ask subject l
load (answers subject seq res replace) l = answer subject seq res replace l
load (fails subject seq error) l = fail subject seq error l

unfoldable pub load_all : List LoadEvent → Loader → Loader
load_all [] l = l
load_all (e ∷ es) l = load_all es (load e l)

-- `loadHistory`: the subjects to load.
abbrev pub is_loading : Option LiveView → Bool
is_loading none = false
is_loading (some view) = view.loading

unfoldable pub to_load : Bool → AppState → List Text
unfolding get
to_load all page = filter (λ s. all || is_loading (get s page.live)) page.selected_subjects

-- Where a connection's page starts.
pub record Cursor : Type 0 where
  pub seq : ℕ
  pub ts : ℕ

-- `m.connId && m.sequence !== undefined`: an empty id is as good as none.
abbrev pub cursor_of : NatsMessage → Option Text → Option ℕ → Option (Text × Cursor)
cursor_of m none sequence = none
cursor_of m (some id) none = none
cursor_of m (some id) (some n) =
    if is_empty id then none else some (id, record { seq = n; ts = m.timestamp })

-- `loadOlder`: the first message of each connection is its cursor.
abbrev pub set_new : Option (Text × Cursor) → List (Text × Cursor) → List (Text × Cursor)
set_new none cursors = cursors
set_new (some (id, c)) cursors = if has id cursors then cursors else set id c cursors

unfoldable pub first_cursors : List NatsMessage → List (Text × Cursor) → List (Text × Cursor)
unfolding has set
first_cursors [] cursors = cursors
first_cursors (m ∷ msgs) cursors =
    first_cursors msgs (set_new (cursor_of m m.conn_id m.sequence) cursors)

-- `loadOlderBranch`: the last message of each connection is its cursor.
abbrev pub set_last : Option (Text × Cursor) → List (Text × Cursor) → List (Text × Cursor)
set_last none cursors = cursors
set_last (some (id, c)) cursors = set id c cursors

unfoldable pub last_cursors : List NatsMessage → List (Text × Cursor) → List (Text × Cursor)
unfolding set
last_cursors [] cursors = cursors
last_cursors (m ∷ msgs) cursors =
    last_cursors msgs (set_last (cursor_of m m.conn_id m.sequence) cursors)

abbrev pub asks_older : Option LiveView → Bool
asks_older none = false
asks_older (some view) =
    not (view.loading || view.loading_older || view.at_oldest)
    && not (leb max_loaded_messages (length view.messages))

abbrev pub messages_of : Option LiveView → List NatsMessage
messages_of none = []
messages_of (some view) = view.messages

-- `loadOlder` up to its requests: the page and the cursors that are asked for.
unfoldable pub load_older : Text → AppState → AppState × List (Text × Cursor)
unfolding get
load_older subject page =
    let cursors = first_cursors (messages_of (get subject page.live)) [] in
    if asks_older (get subject page.live) && not (is_empty cursors)
    then (set_loading_older subject true page, cursors)
    else (page, [])

abbrev pub asks_older_branch : Option LiveView → Bool
asks_older_branch none = false
asks_older_branch (some view) =
    not (view.loading || view.loading_older_branch || view.branch_at_oldest)
    && not (leb max_loaded_messages (length view.branch))

abbrev pub branch_of : Option LiveView → List NatsMessage
branch_of none = []
branch_of (some view) = view.branch

unfoldable pub load_older_branch : Text → AppState → AppState × List (Text × Cursor)
unfolding get
load_older_branch subject page =
    let cursors = last_cursors (branch_of (get subject page.live)) [] in
    if asks_older_branch (get subject page.live) && not (is_empty cursors)
    then (set_loading_older_branch subject true page, cursors)
    else (page, [])

-- A page of an answer: its messages, and whether the server has more.
abbrev pub all_messages : List (List NatsMessage × Bool) → List NatsMessage
all_messages [] = []
all_messages (p ∷ pages) = p.0 ++ all_messages pages

unfoldable pub older_arrived : Text → List (List NatsMessage × Bool) → AppState → AppState
older_arrived subject pages page =
    prepend_older subject (all_messages pages) (not (any (λ p. p.1) pages)) page

unfoldable pub older_branch_arrived : Text → List (List NatsMessage × Bool) → AppState → AppState
older_branch_arrived subject pages page =
    append_older_branch subject (all_messages pages) (not (any (λ p. p.1) pages)) page
