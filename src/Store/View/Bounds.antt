-- ===== src/Store/View/Bounds.antt =====
-- The caps of a live view.
use nats_explorer.Prelude.{
  ℕ, ◌-◌, ◌≤◌, Text, List, ◌++◌, Bool, ◌≡◌, arith, length, length-drop, length-take, reverse,
  filter,
}
use nats_explorer.Messages.{NatsMessage}
use nats_explorer.Store.View.{
  LiveView, HistoryResponse, max_subject_messages, max_loaded_messages, max_branch_messages,
  is_exact, is_below, merge_history, merge_branch, empty_view, keep_last, keep_first, ingest,
  with_history, with_older, with_older_branch, with_error, forgotten,
}

-- Neither list is longer than its cap, and the caps stay between one page and the ceiling.
pub record IsBounded (v : LiveView) : Type 0 where
  pub messages_within : length v.messages ≤ v.cap
  pub cap_low : max_subject_messages ≤ v.cap
  pub cap_high : v.cap ≤ max_loaded_messages
  pub branch_within : length v.branch ≤ v.branch_cap
  pub branch_cap_low : max_branch_messages ≤ v.branch_cap
  pub branch_cap_high : v.branch_cap ≤ max_loaded_messages

module _ {ℓ} {A : Type ℓ} where
  pub length-keep_last : (n : ℕ) (xs : List A) → length (keep_last n xs) ≤ n
  unfolding keep_last
  length-keep_last n xs = ground (arith, length-drop (length xs - n) xs)

  pub length-keep_first : (n : ℕ) (xs : List A) → length (keep_first n xs) ≤ n
  unfolding keep_first
  length-keep_first n xs = ground (arith, length-take n xs)

  pub keep_last_of_le : (n : ℕ) (xs : List A) → length xs ≤ n → keep_last n xs ≡ xs
  unfolding keep_last
  keep_last_of_le n xs h = ground arith

  pub keep_first_of_le : (n : ℕ) (xs : List A) → length xs ≤ n → keep_first n xs ≡ xs
  unfolding keep_first
  keep_first_of_le n xs h = ground arith

pub empty_view-IsBounded : (subject : Text) → IsBounded (empty_view subject)
unfolding empty_view
empty_view-IsBounded subject = omega arith

pub ingest-IsBounded :
    (msgs : List NatsMessage) (subject : Text) (v : LiveView)
    → IsBounded v
    → IsBounded (ingest msgs subject v)
unfolding ingest
ingest-IsBounded msgs subject v h = ground (
  arith,
  length-keep_last v.cap (v.messages ++ filter (is_exact subject) msgs),
  length-keep_first v.branch_cap (reverse (filter (is_below subject) msgs) ++ v.branch),
)

pub with_history-IsBounded :
    (subject : Text) (res : HistoryResponse) (replace : Bool) (v : LiveView)
    → IsBounded (with_history subject res replace v)
unfolding with_history
with_history-IsBounded subject res replace v = omega (
  arith,
  length-keep_last max_subject_messages (merge_history v res replace),
  length-keep_first max_branch_messages (merge_branch v res replace),
)

pub with_older-IsBounded :
    (msgs : List NatsMessage) (at_oldest : Bool) (v : LiveView)
    → IsBounded v
    → IsBounded (with_older msgs at_oldest v)
unfolding with_older
with_older-IsBounded msgs at_oldest v h =
    let kept = length-keep_last {A = NatsMessage} in omega (arith, kept)

pub with_older_branch-IsBounded :
    (msgs : List NatsMessage) (at_oldest : Bool) (v : LiveView)
    → IsBounded v
    → IsBounded (with_older_branch msgs at_oldest v)
unfolding with_older_branch
with_older_branch-IsBounded msgs at_oldest v h =
    let kept = length-keep_first {A = NatsMessage} in omega (arith, kept)

pub with_error-IsBounded :
    (error : Text) (v : LiveView) → IsBounded v → IsBounded (with_error error v)
unfolding with_error
with_error-IsBounded error v h = ground arith

pub forgotten-IsBounded : (v : LiveView) → IsBounded (forgotten v)
unfolding forgotten
forgotten-IsBounded v = omega arith
