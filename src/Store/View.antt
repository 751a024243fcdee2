-- ===== src/Store/View.antt =====
-- The live view of one subject (`LiveView` of client/src/store/index.ts): what the actions
-- `ingestFeed`, `applyHistory`, `prependOlder`, `appendOlderBranch` and their like do to it.
pub mod Bounds
pub mod Loading
pub mod Retention
pub mod Sorting
use nats_explorer.Prelude.{
  ℕ, ◌+◌, ◌-◌, ◌≤◌, min, max, Text, codes, text_beq, List, [], ◌∷◌, ◌++◌, reverse, Bool, true,
  false, not, ◌||◌, Option, none, some, ◌==◌, text_eq, any, filter, length, take, drop, starts_with,
  if◌then◌else◌, ltb, leb, nat_beq,
}
use nats_explorer.Prelude.Sort.{sort_by}
use nats_explorer.Prelude.Distinct.{unseen_by}
use nats_explorer.Messages.{NatsMessage, message_key, by_arrival, newer_first}
use nats_explorer.Subjects.Match.{is_empty}

abbrev pub max_subject_messages : ℕ
max_subject_messages = 1000

abbrev pub max_loaded_messages : ℕ
max_loaded_messages = 10000

abbrev pub max_branch_messages : ℕ
max_branch_messages = 200

pub record LiveView : Type 0 where
  pub subject : Text
  pub messages : List NatsMessage
  pub branch : List NatsMessage
  pub loading : Bool
  pub error : Option Text
  pub cap : ℕ
  pub loading_older : Bool
  pub at_oldest : Bool
  pub branch_cap : ℕ
  pub loading_older_branch : Bool
  pub branch_at_oldest : Bool

-- The part of `HistoryResponse` that the view reads.
pub record HistoryResponse : Type 0 where
  pub messages : List NatsMessage
  pub branch : List NatsMessage

unfoldable pub empty_view : Text → LiveView
empty_view subject = record {
  subject = subject;
  messages = [];
  branch = [];
  loading = true;
  error = none;
  cap = max_subject_messages;
  loading_older = false;
  at_oldest = false;
  branch_cap = max_branch_messages;
  loading_older_branch = false;
  branch_at_oldest = false;
}

-- `xs.length > n ? xs.slice(xs.length - n) : xs`.
unfoldable pub keep_last {ℓ} : {A : Type ℓ} → ℕ → List A → List A
keep_last n xs = if ltb n (length xs) then drop (length xs - n) xs else xs

-- `xs.length > n ? xs.slice(0, n) : xs`.
unfoldable pub keep_first {ℓ} : {A : Type ℓ} → ℕ → List A → List A
keep_first n xs = if ltb n (length xs) then take n xs else xs

unfoldable pub is_exact : Text → NatsMessage → Bool
unfolding text_beq
is_exact subject m = m.subject == subject

-- `m.subject.startsWith(prefix)`, asked when the subject is not the same.
unfoldable pub is_below : Text → NatsMessage → Bool
unfolding is_exact starts_with
is_below subject m =
    if is_exact subject m then false else starts_with (subject ++ b'.' ∷ []) m.subject

-- One round of the loop of `ingestFeed`: `view` is shown under `subject`.
unfoldable pub ingest : List NatsMessage → Text → LiveView → LiveView
ingest msgs subject view =
    let exact = filter (is_exact subject) msgs in
    let below = filter (is_below subject) msgs in
    record view {
      messages =
          if is_empty exact then view.messages else keep_last view.cap (view.messages ++ exact);
      branch =
          if is_empty below
          then view.branch
          else keep_first view.branch_cap (reverse below ++ view.branch);
    }

-- The messages of `msgs` whose key is not among those of `seen`.
unfoldable pub unseen : List NatsMessage → List NatsMessage → List NatsMessage
unseen seen msgs = unseen_by message_key seen msgs

unfoldable pub merge_history : LiveView → HistoryResponse → Bool → List NatsMessage
merge_history view res replace =
    let extra = if replace then [] else unseen res.messages view.messages in
    let messages = res.messages ++ extra in
    if is_empty extra then messages else sort_by by_arrival messages

unfoldable pub merge_branch : LiveView → HistoryResponse → Bool → List NatsMessage
merge_branch view res replace =
    let branch = if replace then res.branch else unseen res.branch view.branch ++ res.branch in
    if nat_beq (length branch) (length res.branch) then branch else sort_by newer_first branch

unfoldable pub with_history : Text → HistoryResponse → Bool → LiveView → LiveView
with_history subject res replace view = record view {
  subject = subject;
  messages = keep_last max_subject_messages (merge_history view res replace);
  branch = keep_first max_branch_messages (merge_branch view res replace);
  loading = false;
  error = none;
  cap = max_subject_messages;
  loading_older = false;
  at_oldest = false;
  branch_cap = max_branch_messages;
  loading_older_branch = false;
  branch_at_oldest = false;
}

unfoldable pub merge_older : LiveView → List NatsMessage → List NatsMessage
merge_older view msgs =
    let older = unseen view.messages msgs in
    if is_empty older then view.messages else sort_by by_arrival (older ++ view.messages)

unfoldable pub with_older : List NatsMessage → Bool → LiveView → LiveView
with_older msgs at_oldest view =
    let messages = merge_older view msgs in
    let cap = min max_loaded_messages (max view.cap (length messages + max_subject_messages)) in
    record view {
      messages = keep_last cap messages;
      cap = cap;
      loading_older = false;
      at_oldest = at_oldest || leb max_loaded_messages (length messages);
    }

unfoldable pub merge_older_branch : LiveView → List NatsMessage → List NatsMessage
merge_older_branch view msgs =
    let older = unseen view.branch msgs in
    if is_empty older then view.branch else sort_by newer_first (view.branch ++ older)

unfoldable pub with_older_branch : List NatsMessage → Bool → LiveView → LiveView
with_older_branch msgs at_oldest view =
    let branch = merge_older_branch view msgs in
    let cap = min max_loaded_messages (max view.branch_cap (length branch + max_branch_messages)) in
    record view {
      branch = keep_first cap branch;
      branch_cap = cap;
      loading_older_branch = false;
      branch_at_oldest = at_oldest || leb max_loaded_messages (length branch);
    }

unfoldable pub with_error : Text → LiveView → LiveView
with_error error view = record view { loading = false; error = some error }

unfoldable pub forgotten : LiveView → LiveView
forgotten view = record view {
  messages = [];
  branch = [];
  cap = max_subject_messages;
  at_oldest = false;
  branch_cap = max_branch_messages;
  branch_at_oldest = false;
}
