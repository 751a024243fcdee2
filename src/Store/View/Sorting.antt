-- ===== src/Store/View/Sorting.antt =====
-- The order of the two lists of a live view after a history or an older page was merged in.
use nats_explorer.Prelude.Sort.{IsSorted, Before, sort_by, sort_by-IsSorted}
use nats_explorer.Prelude.Int.{ℤ}
use nats_explorer.Prelude.{
  ℕ, List, [], ◌∷◌, ◌++◌, append-nil, Bool, length, take, drop, All-take, ltb, inl, inr, Bool-cases,
  if◌then◌else◌, Text,
}
use nats_explorer.Messages.{NatsMessage, by_arrival, newer_first}
use nats_explorer.Messages.Order.{by_arrival-Comparator, newer_first-Comparator}
use nats_explorer.Subjects.Match.{is_empty}
use nats_explorer.Store.View.{
  LiveView, HistoryResponse, keep_last, keep_first, unseen, merge_history, merge_older,
  merge_older_branch, with_history, with_older, with_older_branch, max_subject_messages,
}

module _ {ℓ} {A : Type ℓ} (cmp : A → A → ℤ) where
  drop-IsSorted : (n : ℕ) (xs : List A) → IsSorted cmp xs → IsSorted cmp (drop n xs)
  drop-IsSorted ℕ.zero xs s = s
  drop-IsSorted (ℕ.suc n) [] s = s
  drop-IsSorted (ℕ.suc n) (x ∷ xs) s = drop-IsSorted n xs s.1

  take-IsSorted : (n : ℕ) (xs : List A) → IsSorted cmp xs → IsSorted cmp (take n xs)
  take-IsSorted ℕ.zero xs s = tt
  take-IsSorted (ℕ.suc n) [] s = s
  take-IsSorted (ℕ.suc n) (x ∷ xs) s = (All-take (Before cmp x) n xs s.0, take-IsSorted n xs s.1)

  keep_last-IsSorted : (n : ℕ) (xs : List A) → IsSorted cmp xs → IsSorted cmp (keep_last n xs)
  unfolding keep_last
  keep_last-IsSorted n xs s = elim (Bool-cases (ltb n (length xs))) [
    | inl e ↦ rw e (drop-IsSorted _ xs s)
    | inr e ↦ rw e s
  ]

  keep_first-IsSorted : (n : ℕ) (xs : List A) → IsSorted cmp xs → IsSorted cmp (keep_first n xs)
  unfolding keep_first
  keep_first-IsSorted n xs s = elim (Bool-cases (ltb n (length xs))) [
    | inl e ↦ rw e (take-IsSorted n xs s)
    | inr e ↦ rw e s
  ]

merge_history-IsSorted :
    (v : LiveView) (res : HistoryResponse) (replace : Bool)
    → IsSorted by_arrival res.messages
    → IsSorted by_arrival (merge_history v res replace)
unfolding merge_history
merge_history-IsSorted v res replace s =
    cases (if replace then [] else unseen res.messages v.messages)
  where
    cases :
        (extra : List NatsMessage)
        → IsSorted by_arrival (
            if is_empty extra
            then res.messages ++ extra
            else sort_by by_arrival (res.messages ++ extra))
    cases [] = rw append-nil s
    cases (m ∷ extra) = sort_by-IsSorted by_arrival by_arrival-Comparator _

-- A history that arrives oldest first leaves the messages of the view oldest first, whatever the feed
-- had delivered meanwhile.
pub with_history-IsSorted :
    (subject : Text) (res : HistoryResponse) (replace : Bool) (v : LiveView)
    → IsSorted by_arrival res.messages
    → IsSorted by_arrival (with_history subject res replace v).messages
unfolding with_history
with_history-IsSorted subject res replace v s =
    keep_last-IsSorted by_arrival max_subject_messages _ (merge_history-IsSorted v res replace s)

-- The pages of older messages may interleave and come in any order: the messages of the view stay
-- oldest first, and the list below it newest first.
with_older-IsSorted :
    (msgs : List NatsMessage) (at_oldest : Bool) (v : LiveView)
    → IsSorted by_arrival v.messages
    → IsSorted newer_first v.branch
    → IsSorted by_arrival (with_older msgs at_oldest v).messages
      × IsSorted newer_first (with_older_branch msgs at_oldest v).branch
unfolding with_older with_older_branch merge_older merge_older_branch
with_older-IsSorted msgs at_oldest v s b = (
  keep_last-IsSorted by_arrival _ _ (older (unseen v.messages msgs)),
  keep_first-IsSorted newer_first _ _ (below (unseen v.branch msgs)),
)
  where
    older :
        (xs : List NatsMessage)
        → IsSorted by_arrival
            (if is_empty xs then v.messages else sort_by by_arrival (xs ++ v.messages))
    older [] = s
    older (m ∷ xs) = sort_by-IsSorted by_arrival by_arrival-Comparator _

    below :
        (xs : List NatsMessage)
        → IsSorted newer_first
            (if is_empty xs then v.branch else sort_by newer_first (v.branch ++ xs))
    below [] = b
    below (m ∷ xs) = sort_by-IsSorted newer_first newer_first-Comparator _
