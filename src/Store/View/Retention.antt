-- ===== src/Store/View/Retention.antt =====
-- The messages a live view keeps.
use mathlib.Core.List.{Perm}
use mathlib.Core.List.Perm
use nats_explorer.Prelude.Sort.{sort_by, sort_by-perm, length-sort_by}
use nats_explorer.Prelude.Distinct.{
  IsDistinct, unseen_by-append-IsDistinct, perm-IsDistinct, drop-IsDistinct,
}
use nats_explorer.Prelude.{
  ℕ, ◌+◌, ◌≤◌, min, max, Text, List, [], ◌∷◌, ◌++◌, append-nil, Bool, ◌≡◌, sym, ◌∙◌, arith, length,
  length-append, filter, inl, inr, Bool-cases, ltb, if◌then◌else◌,
}
use nats_explorer.Messages.{NatsMessage, message_key, by_arrival}
use nats_explorer.Subjects.Match.{is_empty}
use nats_explorer.Store.View.{
  LiveView, max_subject_messages, max_loaded_messages, keep_last, ingest, is_exact, unseen,
  merge_older, with_older,
}
use nats_explorer.Store.View.Bounds.{keep_last_of_le}

-- The cap after a page of older messages.
abbrev older_cap : LiveView → List NatsMessage → ℕ
older_cap v msgs =
    min max_loaded_messages (max v.cap (length (merge_older v msgs) + max_subject_messages))

keep_last-IsDistinct :
    (n : ℕ) (xs : List NatsMessage)
    → IsDistinct message_key xs
    → IsDistinct message_key (keep_last n xs)
unfolding keep_last
keep_last-IsDistinct n xs d = elim (Bool-cases (ltb n (length xs))) [
  | inl e ↦ rw e (drop-IsDistinct message_key _ xs d)
  | inr e ↦ rw e d
]

merge_older-perm :
    (v : LiveView) (msgs : List NatsMessage)
    → Perm (merge_older v msgs) (unseen v.messages msgs ++ v.messages)
unfolding merge_older
merge_older-perm v msgs = cases (unseen v.messages msgs)
  where
    cases :
        (older : List NatsMessage)
        → Perm
            (if is_empty older then v.messages else sort_by by_arrival (older ++ v.messages))
            (older ++ v.messages)
    cases [] = Perm.refl _
    cases (m ∷ older) = sort_by-perm by_arrival _

length-merge_older :
    (v : LiveView) (msgs : List NatsMessage)
    → length (merge_older v msgs) ≡ length (unseen v.messages msgs) + length v.messages
unfolding merge_older
length-merge_older v msgs = cases (unseen v.messages msgs)
  where
    cases :
        (older : List NatsMessage)
        → length (if is_empty older then v.messages else sort_by by_arrival (older ++ v.messages))
          ≡ length older + length v.messages
    cases [] = omega arith
    cases (m ∷ older) =
        length-sort_by by_arrival (m ∷ (older ++ v.messages)) ∙ length-append (m ∷ older) v.messages

-- Loading an older page shows no message twice, if neither the view nor the page held one twice.
pub with_older-IsDistinct :
    (msgs : List NatsMessage) (at_oldest : Bool) (v : LiveView)
    → IsDistinct message_key v.messages
    → IsDistinct message_key msgs
    → IsDistinct message_key (with_older msgs at_oldest v).messages
unfolding with_older
with_older-IsDistinct msgs at_oldest v dv dm =
    keep_last-IsDistinct _ _ (perm-IsDistinct message_key _ _ (merge_older-perm v msgs) joined)
  where
    joined : IsDistinct message_key (unseen v.messages msgs ++ v.messages)
    joined = unfold unseen in unseen_by-append-IsDistinct message_key v.messages msgs dv dm

-- While the ceiling is not passed, loading an older page loses nothing: the view then holds what it
-- held and the messages of the page that it did not hold, in some order.
pub with_older-perm :
    (msgs : List NatsMessage) (at_oldest : Bool) (v : LiveView)
    → length (unseen v.messages msgs) + length v.messages ≤ max_loaded_messages
    → Perm (with_older msgs at_oldest v).messages (unseen v.messages msgs ++ v.messages)
unfolding with_older
with_older-perm msgs at_oldest v h =
    rw
      (keep_last_of_le (older_cap v msgs) (merge_older v msgs)
        (omega (arith, length-merge_older v msgs)))
      (merge_older-perm v msgs)

-- Right after a page of older messages was loaded, up to a thousand live messages on the subject push
-- nothing out, if they fit under the ceiling.
pub ingest-with_older :
    (msgs feed : List NatsMessage) (at_oldest : Bool) (subject : Text) (v : LiveView)
    → length (filter (is_exact subject) feed) ≤ max_subject_messages
    → length (unseen v.messages msgs) + length v.messages + length (filter (is_exact subject) feed)
      ≤ max_loaded_messages
    → (ingest feed subject (with_older msgs at_oldest v)).messages
      ≡ (with_older msgs at_oldest v).messages ++ filter (is_exact subject) feed
unfolding ingest with_older
ingest-with_older msgs feed at_oldest subject v small fits =
    rw
      (keep_last_of_le (older_cap v msgs) (merge_older v msgs)
        (omega (arith, length-merge_older v msgs)))
      (cases (filter (is_exact subject) feed) small fits)
  where
    cases :
        (exact : List NatsMessage)
        → length exact ≤ max_subject_messages
        → length (unseen v.messages msgs) + length v.messages + length exact ≤ max_loaded_messages
        → (if is_empty exact
            then merge_older v msgs
            else keep_last (older_cap v msgs) (merge_older v msgs ++ exact))
          ≡ merge_older v msgs ++ exact
    cases [] s f = sym (append-nil _)
    cases (m ∷ exact) s f =
        keep_last_of_le (older_cap v msgs) _
          (omega (arith, length-append (merge_older v msgs) (m ∷ exact), length-merge_older v msgs))
