-- ===== src/Saved/Lists.antt =====
-- The lists that the user keeps: client/src/lib/bookmarks.ts and client/src/store/savedConnections.ts. What
-- is written to the browser's storage is the list itself.
use nats_explorer.Prelude.{
  ℕ, Text, text_beq, text_beq_iff, List, [], ◌∷◌, ◌++◌, true, false, not, Option, none, some, ◌==◌,
  text_eq, any, filter, find, filter-append, if◌then◌else◌, ◌≡◌, refl, ap, append-nil, inl, inr,
  Bool-cases,
}
use nats_explorer.Prelude.Keyed.{upsert, without}
use nats_explorer.Prelude.Trim.{or_none}
use nats_explorer.Saved.Connections.{SavedConnection}

pub record Bookmark : Type 0 where
  pub subject : Text
  pub label : Option Text
  pub group : Option Text
  pub note : Option Text
  pub created_at : ℕ

abbrev new_bookmark : ℕ → Text → Bookmark
new_bookmark now subject = record {
  subject = subject;
  label = none;
  group = none;
  note = none;
  created_at = now;
}

abbrev find_in : List Bookmark → Option Text → Option Bookmark
find_in items none = none
find_in items (some subject) = find (λ b. b.subject == subject) items

unfoldable find_bookmark : List Bookmark → Option Text → Option Bookmark
unfolding text_beq
find_bookmark items subject = find_in items (or_none subject)

unfoldable toggle : ℕ → Text → List Bookmark → List Bookmark
unfolding text_beq
toggle now subject items =
    if any (λ b. b.subject == subject) items
    then filter (λ b. not (b.subject == subject)) items
    else items ++ new_bookmark now subject ∷ []

unfoldable save_bookmark : Bookmark → List Bookmark → List Bookmark
unfolding upsert
save_bookmark bookmark items = upsert (λ (b : Bookmark). b.subject) bookmark items

unfoldable remove_bookmark : Text → List Bookmark → List Bookmark
unfolding without
remove_bookmark subject items = without (λ (b : Bookmark). b.subject) subject items

-- The saved connections, and those that are being connected.
pub record SavedState : Type 0 where
  pub items : List SavedConnection
  pub connecting : List Text

unfoldable upsert_connection : SavedConnection → SavedState → SavedState
unfolding upsert
upsert_connection item s = record s { items = upsert (λ (c : SavedConnection). c.id) item s.items }

unfoldable remove_connection : Text → SavedState → SavedState
unfolding without
remove_connection id s = record s { items = without (λ (c : SavedConnection). c.id) id s.items }

abbrev begin_with : Text → Option SavedConnection → SavedState → SavedState
begin_with id none s = s
begin_with id (some saved) s = record s {
  connecting = if any (λ i. i == id) s.connecting then s.connecting else s.connecting ++ id ∷ [];
}

-- `connect` up to the answer; without an entry it ends at once.
unfoldable begin_connect : Text → SavedState → SavedState
unfolding text_beq
begin_connect id s = begin_with id (find (λ (c : SavedConnection). c.id == id) s.items) s

-- The end of `connect`, however the server answers.
unfoldable end_connect : Text → SavedState → SavedState
unfolding text_beq
end_connect id s = record s { connecting = filter (λ i. not (i == id)) s.connecting }

absent_again :
    (subject : Text) (items : List Bookmark)
    → any (λ b. b.subject == subject) items ≡ false
    → filter (λ b. not (b.subject == subject)) items ≡ items
absent_again subject [] h = refl
absent_again subject (b ∷ items) h = elim (Bool-cases (b.subject == subject)) [
  | inl e ↦ absurd (cc (rw e at h))
  | inr e ↦ rw e (ap (◌∷◌ b) (absent_again subject items (rw e at h)))
]

any-snoc :
    (subject : Text) (b : Bookmark) (items : List Bookmark)
    → (b.subject == subject) ≡ true
    → any (λ x. x.subject == subject) (items ++ b ∷ []) ≡ true
any-snoc subject b [] h = rw h refl
any-snoc subject b (x ∷ items) h = elim (Bool-cases (x.subject == subject)) [
  | inl e ↦ rw e refl
  | inr e ↦ rw e (any-snoc subject b items h)
]

-- Bookmarking a subject that is not bookmarked and taking that back leaves the bookmarks as they were.
toggle-toggle :
    (now later : ℕ) (subject : Text) (items : List Bookmark)
    → any (λ b. b.subject == subject) items ≡ false
    → toggle later subject (toggle now subject items) ≡ items
unfolding toggle
toggle-toggle now later subject items h =
    let own : text_beq subject subject ≡ true = (text_beq_iff subject subject).1 refl in
    rw
      (
        h,
        any-snoc subject (new_bookmark now subject) items own,
        filter-append (λ b. not (b.subject == subject)) items (new_bookmark now subject ∷ []),
        own,
        absent_again subject items h,
      )
      (append-nil items)
