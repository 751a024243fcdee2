-- ===== src/Tests/Transfers.antt =====
-- Reading protobuf messages, exporting, publishing again and connecting at concrete inputs.
use nats_explorer.Prelude.{
  ℕ, zero, suc, Text, codes, All, length, ap, sym, List, [], ◌∷◌, ◌++◌, true, false, Option, none,
  some, ◌≡◌, ◌≢◌, refl, arith,
}
use nats_explorer.Messages.{NatsMessage, json}
use nats_explorer.Protobuf.{Platform, RawMessage, number, many, more, end, ok, err, stuck, parse}
use nats_explorer.Protobuf.Wire.{Item, integer, delimited, encode}
use nats_explorer.Protobuf.Fields.{found, parse-encode}
use nats_explorer.Protobuf.Progress.{parse-ends}
use nats_explorer.Transfer.Export.{Server, fetch_whole_range}
use nats_explorer.Transfer.Export.Whole.{IsOf, page_of, fetch_whole_range-all}
use nats_explorer.Transfer.Replay.{Rewrite}

-- A browser that decodes nothing.
abbrev plain : Platform
plain = record {
  to_number = λ n. n;
  decode_utf8 = λ bs. none;
  readable_double = λ bs. false;
  readable_single = λ bs. false;
}

abbrev no_inner : List ℕ → Option RawMessage
no_inner bs = none

abbrev some_items : List Item
some_items = integer 16 150 ∷ delimited 2 (8 ∷ 1 ∷ []) ∷ integer 16 7 ∷ []

parse-encode_example :
    found 16 (parse plain no_inner (encode some_items))
    ≡ ok (some (many (more (number 150) (more (number 7) end))))
parse-encode_example =
    parse-encode plain no_inner some_items 16 (λ n h. refl)
      (
        (omega arith, omega arith, omega arith),
        ((omega arith, omega arith, omega arith), ((omega arith, omega arith, omega arith), tt)),
      )

parse-ends_example : parse plain no_inner (8 ∷ 150 ∷ []) ≢ err stuck
parse-ends_example = parse-ends plain no_inner (8 ∷ 150 ∷ [])

abbrev conn : Text
conn = codes "c1"

abbrev reading_at : ℕ → NatsMessage
reading_at at = record {
  subject = codes "plant.level";
  payload = codes "7";
  payload_type = json;
  headers = none;
  timestamp = at;
  reply = none;
  size = 1;
  sequence = some at;
  conn_id = some conn;
  schema = none;
}

-- The recording of the last `n` seconds, the newest message first.
recording : ℕ → List NatsMessage
recording zero = []
recording (suc n) = reading_at n ∷ recording n

-- A server that has the recording.
abbrev recorder : Server
recorder id m = some (page_of (recording m.timestamp))

-- What stands behind a message of the recording.
recording-behind :
    (n : ℕ) (before after : List NatsMessage) (m : NatsMessage)
    → before ++ m ∷ after ≡ recording n
    → after ≡ recording m.timestamp
unfolding recording
recording-behind zero [] after m e = absurd (cc (e))
recording-behind zero (x ∷ before) after m e = absurd (cc (e))
recording-behind (suc n) [] after m e =
    let first : m ≡ reading_at n = cc (e) in
    let rest : after ≡ recording n = cc (e) in rw (first, rest) refl
recording-behind (suc n) (x ∷ before) after m e =
    let rest : before ++ m ∷ after ≡ recording n = cc (e) in recording-behind n before after m rest

recording-IsOf : (n : ℕ) → All (IsOf conn) (recording n)
unfolding recording
recording-IsOf zero = tt
recording-IsOf (suc n) = (refl, recording-IsOf n)

length-recording : (n : ℕ) → length (recording n) ≡ n
unfolding recording
length-recording zero = refl
length-recording (suc n) = ap suc (length-recording n)

-- A view with the newest message, behind which lie two full pages.
fetch_whole_range-all_example :
    fetch_whole_range recorder (reading_at 10000 ∷ []) (some true)
    ≡ some record { messages = recording 10001; truncated = false }
fetch_whole_range-all_example =
    fetch_whole_range-all conn recorder (recording 10001) (reading_at 10000 ∷ []) (recording 10000)
      true refl (recording-IsOf 10001)
      (λ before after m e.
        ap (λ xs. some (page_of xs)) (sym (recording-behind 10001 before after m e)))
      (rw (length-recording 10001) (omega arith)) refl (unfold recording in refl)
      (λ e. absurd (cc (e)))

abbrev two_readings : List NatsMessage
two_readings = reading_at 20 ∷ reading_at 10 ∷ []

abbrev refusing : List (Text × NatsMessage) → Text → NatsMessage → Option Text
refusing [] subject m = some (codes "no responders")
refusing (r ∷ requests) subject m = none

abbrev to_copy : Option Rewrite
to_copy = some record { from = codes "plant."; to = codes "copy." }
