-- ===== src/Analysis/Repeats.antt =====
-- client/src/lib/repeats.ts: the messages that repeat one that came before. A message stands for its place
-- in the sorted list, which the identity of the objects is in the source.
use nats_explorer.Prelude.{
  ℕ, ◌+◌, ◌-◌, Text, text_beq, List, [], ◌∷◌, ◌++◌, Bool, not, ◌&&◌, Option, none, some, ◌==◌,
  text_eq, filter, if◌then◌else◌, leb, ltb, length, ◌≤◌, ◌≡◌, refl, arith, All, All-append,
  All-filter, inl, inr, Bool-cases,
}
use nats_explorer.Prelude.Sort.{sort_by}
use nats_explorer.Prelude.Table.{get, set, get-All, set-All}
use nats_explorer.Messages.{NatsMessage}
use nats_explorer.Transfer.Replay.{by_time}

abbrev pub repeat_window_ms : ℕ
repeat_window_ms = 30000

pub record Repeat : Type 0 where
  pub count : ℕ
  pub since_ms : ℕ

-- What `seen` keeps of a payload.
pub record Seen : Type 0 where
  pub at : ℕ
  pub count : ℕ

abbrev pub repeat_key : NatsMessage → Text
repeat_key m = m.subject ++ (0 ∷ m.payload)

abbrev pub first_seen : ℕ → Seen
first_seen at = record { at = at; count = 1 }

-- One message: what is seen of its payload from then on, and whether it repeats.
abbrev pub seen_again : ℕ → ℕ → Option Seen → Seen × Option Repeat
seen_again window at none = (first_seen at, none)
seen_again window at (some before) =
    if leb (at - before.at) window
    then (
      record { at = at; count = before.count + 1 },
      some record { count = before.count + 1; since_ms = at - before.at },
    )
    else (first_seen at, none)

abbrev pub mark_repeat :
    NatsMessage → Option Repeat → List (NatsMessage × Repeat) → List (NatsMessage × Repeat)
mark_repeat m none out = out
mark_repeat m (some r) out = out ++ (m, r) ∷ []

-- The first loop.
unfoldable pub repeats_from :
    ℕ
    → List NatsMessage
    → List (Text × Seen)
    → List (NatsMessage × Repeat)
    → List (NatsMessage × Repeat)
unfolding get set
repeats_from window [] seen out = out
repeats_from window (m ∷ ms) seen out =
    let r = seen_again window m.timestamp (get (repeat_key m) seen) in
    repeats_from window ms (set (repeat_key m) r.0 seen) (mark_repeat m r.1 out)

-- The counts of a subject among the messages and among the repeats.
unfoldable pub total_of : Text → List NatsMessage → ℕ
unfolding text_beq
total_of subject ms = length (filter (λ m. m.subject == subject) ms)

unfoldable pub repeats_of : Text → List (NatsMessage × Repeat) → ℕ
unfolding text_beq
repeats_of subject out = length (filter (λ (e : NatsMessage × Repeat). e.0.subject == subject) out)

-- A subject whose payload practically never changes.
unfoldable pub is_level : List NatsMessage → List (NatsMessage × Repeat) → Text → Bool
unfolding total_of repeats_of
is_level sorted out subject =
    leb 4 (total_of subject sorted) && leb (total_of subject sorted - 1) (repeats_of subject out)

unfoldable pub find_repeats : ℕ → List NatsMessage → List (NatsMessage × Repeat)
unfolding sort_by repeats_from is_level
find_repeats window messages =
    let sorted = sort_by by_time messages in
    let out = repeats_from window sorted [] [] in
    if ltb (length messages) 2
    then []
    else filter (λ (e : NatsMessage × Repeat). not (is_level sorted out e.0.subject)) out

abbrev IsSeen : Text × Seen → Type 0
IsSeen e = 1 ≤ e.1.count

-- A repeat is at least the second of its payload, and within the window of the one before.
abbrev IsRepeat : ℕ → NatsMessage × Repeat → Type 0
IsRepeat window e = (2 ≤ e.1.count) × (e.1.since_ms ≤ window)

seen_again-IsRepeat :
    (window at : ℕ) (m : NatsMessage) (before : Option Seen) (out : List (NatsMessage × Repeat))
    → ((b : Seen) → before ≡ some b → 1 ≤ b.count)
    → All (IsRepeat window) out
    → (1 ≤ (seen_again window at before).0.count)
      × All (IsRepeat window) (mark_repeat m (seen_again window at before).1 out)
seen_again-IsRepeat window at m none out h a = (omega arith, a)
seen_again-IsRepeat window at m (some b) out h a = elim (Bool-cases (leb (at - b.at) window)) [
  | inl e ↦
      let low = h b refl in
      let near : at - b.at ≤ window = ground (arith, e) in
      rw e
        (omega (arith, low), All-append (IsRepeat window) out _ a ((omega (arith, low), near), tt))
  | inr e ↦ rw e (omega arith, a)
]

repeats_from-IsRepeat :
    (window : ℕ) (ms : List NatsMessage) (seen : List (Text × Seen))
    (out : List (NatsMessage × Repeat))
    → All IsSeen seen
    → All (IsRepeat window) out
    → All (IsRepeat window) (repeats_from window ms seen out)
unfolding repeats_from
repeats_from-IsRepeat window [] seen out s a = a
repeats_from-IsRepeat window (m ∷ ms) seen out s a =
    let k = repeat_key m in
    let r = seen_again window m.timestamp (get k seen) in
    let t =
      seen_again-IsRepeat window m.timestamp m (get k seen) out (λ b e. get-All IsSeen k b seen e s)
        a in
    repeats_from-IsRepeat window ms (set k r.0 seen) (mark_repeat m r.1 out)
      (set-All IsSeen k r.0 seen t.0 s) t.1

find_repeats-IsRepeat :
    (window : ℕ) (messages : List NatsMessage)
    → All (IsRepeat window) (find_repeats window messages)
unfolding find_repeats
find_repeats-IsRepeat window messages = elim (Bool-cases (ltb (length messages) 2)) [
  | inl e ↦ rw e tt
  | inr e ↦ rw e (
      All-filter (IsRepeat window) _ _
        (repeats_from-IsRepeat window (sort_by by_time messages) [] [] tt tt))
]
