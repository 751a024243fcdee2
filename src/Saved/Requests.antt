-- ===== src/Saved/Requests.antt =====
-- client/src/lib/savedRequests.ts: request templates and the form that edits them. Times and counts are
-- natural numbers; the clock is a parameter.
pub mod Saving
pub mod Differing
use nats_explorer.Prelude.{
  ℕ, Text, text_beq, List, [], ◌∷◌, Bool, true, false, not, ◌&&◌, Option, none, some, ◌==◌, text_eq,
  if◌then◌else◌, nat_beq, ltb, filter,
}
use nats_explorer.Prelude.Trim.{trim, some_text}
use nats_explorer.Messages.{or_default}
use nats_explorer.Subjects.Match.{is_empty}

pub data RequestMode : Type 0 where
  publish request : RequestMode

-- lib/payloadFormat.ts.
pub data PayloadFormat : Type 0 where
  json text xml html hex base64 protobuf : PayloadFormat

pub record HeaderPair : Type 0 where
  pub key : Text
  pub value : Text

pub record Expectation : Type 0 where
  pub expr : Option Text
  pub max_latency_ms : Option ℕ

pub record SavedRequest : Type 0 where
  pub id : Text
  pub name : Text
  pub mode : RequestMode
  pub subject : Text
  pub payload : Text
  pub format : Option PayloadFormat
  pub headers : List HeaderPair
  pub timeout : Option ℕ
  pub count : Option ℕ
  pub concurrency : Option ℕ
  pub interval_ms : Option ℕ
  pub expect : Option Expectation
  pub updated_at : ℕ

pub record RequestDraft : Type 0 where
  pub mode : RequestMode
  pub subject : Text
  pub payload : Text
  pub format : PayloadFormat
  pub headers : List HeaderPair
  pub timeout : ℕ
  pub count : ℕ
  pub concurrency : ℕ
  pub interval_ms : ℕ
  pub expect_expr : Text
  pub expect_max_latency_ms : ℕ

abbrev pub positive : ℕ → Option ℕ
positive n = if ltb 0 n then some n else none

abbrev pub says_something : Option Text → Option ℕ → Option Expectation
says_something none none = none
says_something (some e) m = some record { expr = some e; max_latency_ms = m }
says_something none (some m) = some record { expr = none; max_latency_ms = some m }

-- `expectationOf`, which is `cleanExpectation` of a text and a number.
unfoldable pub expectation_of : Text → ℕ → Option Expectation
unfolding trim
expectation_of expr max = says_something (some_text (trim expr)) (positive max)

unfoldable pub empty_draft : Text → RequestDraft
empty_draft subject = record {
  mode = publish;
  subject = subject;
  payload = [];
  format = json;
  headers = [];
  timeout = 5000;
  count = 1;
  concurrency = 1;
  interval_ms = 0;
  expect_expr = [];
  expect_max_latency_ms = 0;
}

unfoldable pub new_saved_request : Text → ℕ → SavedRequest
new_saved_request uuid now = record {
  id = uuid;
  name = [];
  mode = publish;
  subject = [];
  payload = [];
  format = none;
  headers = [];
  timeout = none;
  count = none;
  concurrency = none;
  interval_ms = none;
  expect = none;
  updated_at = now;
}

abbrev pub expr_of : Option Expectation → Text
expr_of none = []
expr_of (some e) = or_default [] e.expr

abbrev pub max_of : Option Expectation → ℕ
max_of none = 0
max_of (some e) = or_default 0 e.max_latency_ms

unfoldable pub draft_from_saved : SavedRequest → RequestDraft
draft_from_saved t = record {
  mode = t.mode;
  subject = t.subject;
  payload = t.payload;
  format = or_default json t.format;
  headers = t.headers;
  timeout = or_default 5000 t.timeout;
  count = or_default 1 t.count;
  concurrency = or_default 1 t.concurrency;
  interval_ms = or_default 0 t.interval_ms;
  expect_expr = expr_of t.expect;
  expect_max_latency_ms = max_of t.expect;
}

abbrev pub some_format : PayloadFormat → Option PayloadFormat
some_format json = none
some_format text = some text
some_format xml = some xml
some_format html = some html
some_format hex = some hex
some_format base64 = some base64
some_format protobuf = some protobuf

abbrev pub timeout_for : RequestMode → ℕ → Option ℕ
timeout_for publish n = none
timeout_for request n = some n

abbrev pub when_repeated : ℕ → Option ℕ → Option ℕ
when_repeated count v = if ltb 1 count then v else none

unfoldable pub is_named : HeaderPair → Bool
unfolding trim
is_named h = not (is_empty (trim h.key))

unfoldable pub saved_from_draft : ℕ → RequestDraft → (id name : Text) → SavedRequest
unfolding trim is_named expectation_of
saved_from_draft now d id name = record {
  id = id;
  name = name;
  mode = d.mode;
  subject = trim d.subject;
  payload = d.payload;
  format = some_format d.format;
  headers = filter is_named d.headers;
  timeout = timeout_for d.mode d.timeout;
  count = when_repeated d.count (some d.count);
  concurrency = when_repeated d.count (some d.concurrency);
  interval_ms = when_repeated d.count (positive d.interval_ms);
  expect = expectation_of d.expect_expr d.expect_max_latency_ms;
  updated_at = now;
}

abbrev pub mode_beq : RequestMode → RequestMode → Bool
mode_beq publish publish = true
mode_beq request request = true
mode_beq a b = false

abbrev pub format_index : PayloadFormat → ℕ
format_index json = 0
format_index text = 1
format_index xml = 2
format_index html = 3
format_index hex = 4
format_index base64 = 5
format_index protobuf = 6

abbrev pub format_beq : PayloadFormat → PayloadFormat → Bool
format_beq a b = nat_beq (format_index a) (format_index b)

abbrev pub option_beq {ℓ} : {A : Type ℓ} → (A → A → Bool) → Option A → Option A → Bool
option_beq test none none = true
option_beq test (some a) (some b) = test a b
option_beq test a b = false

unfoldable pub headers_beq : List HeaderPair → List HeaderPair → Bool
unfolding text_beq
headers_beq [] [] = true
headers_beq (a ∷ hs) (b ∷ ks) = a.key == b.key && a.value == b.value && headers_beq hs ks
headers_beq hs ks = false

-- `norm(a) === norm(b)`: the parts of both that the template's JSON is compared by.
unfoldable pub same_norm : SavedRequest → SavedRequest → Bool
unfolding text_beq headers_beq
same_norm a b =
    mode_beq a.mode b.mode
    && a.subject == b.subject
    && a.payload == b.payload
    && option_beq format_beq a.format b.format
    && headers_beq a.headers b.headers
    && option_beq nat_beq a.timeout b.timeout
    && option_beq nat_beq a.count b.count
    && option_beq nat_beq a.concurrency b.concurrency
    && option_beq nat_beq a.interval_ms b.interval_ms

unfoldable pub draft_differs : ℕ → RequestDraft → SavedRequest → Bool
unfolding saved_from_draft same_norm is_named
draft_differs now d t = not (
    same_norm (saved_from_draft now d t.id t.name)
      (record t { headers = filter is_named t.headers }))
