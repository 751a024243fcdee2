-- ===== src/Feed/History/Cursors.antt =====
-- The cursors that the next page of history is asked for with, and that it is asked for once.
use nats_explorer.Prelude.{
  Text, text_beq_iff, List, [], ◌∷◌, true, false, not, ◌&&◌, Option, none, some, ◌≡◌, ◌≢◌, refl,
  sym, ap, ◌∙◌, arith, if◌then◌else◌, inl, inr, Bool-cases, ◌==◌, text_eq,
}
use nats_explorer.Prelude.Table.{get, set, has, get-set, get-set_ne, get_absent, get_found}
use nats_explorer.Messages.{NatsMessage}
use nats_explorer.Subjects.Match.{is_empty}
use nats_explorer.Store.{AppState}
use nats_explorer.Store.View.{LiveView}
use nats_explorer.Store.Live.{set_loading_older, update_view}
use nats_explorer.Feed.History.{
  Cursor, cursor_of, set_new, first_cursors, set_last, last_cursors, asks_older, messages_of,
  load_older,
}

-- What a message tells of a connection, and the first of two tellings.
abbrev pub told_of : Text → Option (Text × Cursor) → Option Cursor
told_of id none = none
told_of id (some (other, c)) = if other == id then some c else none

abbrev pub or_later : Option Cursor → Option Cursor → Option Cursor
or_later none d = d
or_later (some c) d = some c

-- The cursor of the first message, and of the last, that has one for the connection.
abbrev pub first_told : Text → List NatsMessage → Option Cursor
first_told id [] = none
first_told id (m ∷ msgs) =
    or_later (told_of id (cursor_of m m.conn_id m.sequence)) (first_told id msgs)

abbrev pub last_told : Text → List NatsMessage → Option Cursor
last_told id [] = none
last_told id (m ∷ msgs) =
    or_later (last_told id msgs) (told_of id (cursor_of m m.conn_id m.sequence))

or_later-none : (c : Option Cursor) → or_later c none ≡ c
or_later-none none = refl
or_later-none (some c) = refl

or_later-found : (c d : Option Cursor) → c ≢ none → or_later c d ≡ c
or_later-found none d h = absurd (h refl)
or_later-found (some c) d h = refl

or_later_assoc : (a b c : Option Cursor) → or_later (or_later a b) c ≡ or_later a (or_later b c)
or_later_assoc none b c = refl
or_later_assoc (some a) b c = refl

get-set_new :
    (id : Text) (told : Option (Text × Cursor)) (cursors : List (Text × Cursor))
    → get id (set_new told cursors) ≡ or_later (get id cursors) (told_of id told)
get-set_new id none cursors = sym (or_later-none (get id cursors))
get-set_new id (some (other, c)) cursors = elim (Bool-cases (has other cursors)) [
  | inl h ↦ rw h (elim (Bool-cases (other == id)) [
    | inl e ↦ rw e (
        sym (
          or_later-found (get id cursors) (some c)
            (rw ((text_beq_iff other id).0 e) at (get_found other cursors h))))
    | inr e ↦ rw e (sym (or_later-none (get id cursors)))
  ])
  | inr h ↦ rw h (elim (Bool-cases (other == id)) [
    | inl e ↦
        let same = (text_beq_iff other id).0 e in
        let absent : get id cursors ≡ none = rw same at (get_absent other cursors h) in
        rw (e, same, absent) (get-set id c cursors)
    | inr e ↦
        rw (e, or_later-none (get id cursors))
          (get-set_ne other id c cursors (λ k. absurd (cc ((text_beq_iff other id).1 k, e))))
  ])
]

get-set_last :
    (id : Text) (told : Option (Text × Cursor)) (cursors : List (Text × Cursor))
    → get id (set_last told cursors) ≡ or_later (told_of id told) (get id cursors)
get-set_last id none cursors = refl
get-set_last id (some (other, c)) cursors = elim (Bool-cases (other == id)) [
  | inl e ↦ rw (e, (text_beq_iff other id).0 e) (get-set id c cursors)
  | inr e ↦ rw e (get-set_ne other id c cursors (λ k. absurd (cc ((text_beq_iff other id).1 k, e))))
]

get-first_cursors :
    (id : Text) (msgs : List NatsMessage) (cursors : List (Text × Cursor))
    → get id (first_cursors msgs cursors) ≡ or_later (get id cursors) (first_told id msgs)
unfolding first_cursors
get-first_cursors id [] cursors = sym (or_later-none (get id cursors))
get-first_cursors id (m ∷ msgs) cursors =
    let told = cursor_of m m.conn_id m.sequence in
    get-first_cursors id msgs (set_new told cursors)
    ∙ ap (λ c. or_later c (first_told id msgs)) (get-set_new id told cursors)
    ∙ or_later_assoc (get id cursors) (told_of id told) (first_told id msgs)

get-last_cursors :
    (id : Text) (msgs : List NatsMessage) (cursors : List (Text × Cursor))
    → get id (last_cursors msgs cursors) ≡ or_later (last_told id msgs) (get id cursors)
unfolding last_cursors
get-last_cursors id [] cursors = refl
get-last_cursors id (m ∷ msgs) cursors =
    let told = cursor_of m m.conn_id m.sequence in
    get-last_cursors id msgs (set_last told cursors)
    ∙ ap (or_later (last_told id msgs)) (get-set_last id told cursors)
    ∙ sym (or_later_assoc (last_told id msgs) (told_of id told) (get id cursors))

-- A page of older messages of a subject is asked for with the first message of each connection that
-- carries its id and a number, and a page of the branch with the last one.
cursors_lem :
    (id : Text) (messages branch : List NatsMessage)
    → (get id (first_cursors messages []) ≡ first_told id messages)
      × (get id (last_cursors branch []) ≡ last_told id branch)
unfolding get
cursors_lem id messages branch = (
  get-first_cursors id messages [],
  get-last_cursors id branch [] ∙ or_later-none (last_told id branch),
)

update_view-absent :
    (subject : Text) (f : LiveView → LiveView) (page : AppState)
    → get subject page.live ≡ none
    → update_view subject f page ≡ page
unfolding update_view
update_view-absent subject f page e = rw (e, update_view) refl

update_view-found :
    (subject : Text) (f : LiveView → LiveView) (view : LiveView) (page : AppState)
    → get subject page.live ≡ some view
    → (update_view subject f page).live ≡ set subject (f view) page.live
unfolding update_view
update_view-found subject f view page e = rw (e, update_view) refl

asks_older-busy :
    (found : Option LiveView) (view : LiveView)
    → view.loading_older ≡ true
    → found ≡ some view
    → asks_older found ≡ false
asks_older-busy found view h e = rw e (ground (arith, h))

asks_older-set :
    (subject : Text) (found : Option LiveView) (page : AppState)
    → get subject page.live ≡ found
    → asks_older (get subject (set_loading_older subject true page).live) ≡ false
unfolding set_loading_older
asks_older-set subject none page e =
    ap asks_older (ap (λ p. get subject p.live) (update_view-absent subject _ page e) ∙ e)
asks_older-set subject (some view) page e =
    asks_older-busy _ (record view { loading_older = true }) refl
      (ap (get subject) (update_view-found subject _ view page e) ∙ get-set subject _ page.live)

asks_older-loading :
    (subject : Text) (page : AppState)
    → asks_older (get subject (set_loading_older subject true page).live) ≡ false
asks_older-loading subject page = asks_older-set subject (get subject page.live) page refl

-- While a page of older messages is on its way, the next try asks for nothing and changes nothing.
load_older-once :
    (subject : Text) (page : AppState)
    → load_older subject (load_older subject page).0 ≡ ((load_older subject page).0, [])
unfolding load_older
load_older-once subject page =
    elim (Bool-cases (
      asks_older (get subject page.live)
      && not (is_empty (first_cursors (messages_of (get subject page.live)) [])))) [
        | inl e ↦ rw (e, asks_older-loading subject page) refl
        | inr e ↦ rw (e, e) refl
      ]
