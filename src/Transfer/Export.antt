-- ===== src/Transfer/Export.antt =====
-- client/src/lib/exportRange.ts: paging a whole time range in. The server is the function `ask`: the page
-- older than a connection's cursor, none when the request fails.
pub mod Whole
use nats_explorer.Prelude.{
  ℕ, zero, suc, Text, List, [], ◌∷◌, ◌++◌, Bool, true, false, not, ◌&&◌, Option, none, some,
  if◌then◌else◌, ltb, leb, length, any,
}
use nats_explorer.Prelude.Table.{set}
use nats_explorer.Messages.{NatsMessage, or_default}
use nats_explorer.Subjects.Match.{is_empty}

abbrev pub export_max_messages : ℕ
export_max_messages = 200000

abbrev pub page_size : ℕ
page_size = 5000

-- What the export reads of the answer to one request, which asked for `page_size` messages.
pub record RangePage : Type 0 where
  pub messages : List NatsMessage
  pub more : Bool

pub record WholeRange : Type 0 where
  pub messages : List NatsMessage
  pub truncated : Bool

abbrev pub Server : Type 0
Server = Text → NatsMessage → Option RangePage

-- `cursors`: the last message of every connection. A message without one starts no page.
unfoldable pub mark : NatsMessage → List (Text × NatsMessage) → List (Text × NatsMessage)
unfolding set
mark m cursors =
    if is_empty (or_default [] m.conn_id) then cursors else set (or_default [] m.conn_id) m cursors

unfoldable pub export_cursors :
    List NatsMessage → List (Text × NatsMessage) → List (Text × NatsMessage)
export_cursors [] cursors = cursors
export_cursors (m ∷ ms) cursors = export_cursors ms (mark m cursors)

-- `Promise.all`: one request that fails fails them all.
abbrev pub joined_pages : Option RangePage → Option (List RangePage) → Option (List RangePage)
joined_pages (some page) (some pages) = some (page ∷ pages)
joined_pages (some page) none = none
joined_pages none pages = none

unfoldable pub ask_all : Server → List (Text × NatsMessage) → Option (List RangePage)
ask_all server [] = some []
ask_all server (c ∷ cs) = joined_pages (server c.0 c.1) (ask_all server cs)

abbrev pub older_of : List RangePage → List NatsMessage
older_of [] = []
older_of (page ∷ pages) = page.messages ++ older_of pages

-- How a pass of the loop ends.
pub data Pass : Type 0 where
  stopped failed : Pass
  loaded : (messages : List NatsMessage) (more : Bool) → Pass

abbrev pub pass_of_pages : List NatsMessage → Option (List RangePage) → Pass
pass_of_pages messages none = failed
pass_of_pages messages (some pages) =
    if is_empty (older_of pages)
    then stopped
    else loaded (messages ++ older_of pages) (any (λ page. page.more) pages)

unfoldable pub export_pass : Server → List NatsMessage → Bool → Pass
unfolding export_cursors mark ask_all
export_pass server messages more =
    if more && ltb (length messages) export_max_messages
    then (if is_empty (export_cursors messages [])
        then stopped
        else pass_of_pages messages (ask_all server (export_cursors messages [])))
    else stopped

-- The loop with what is left of its guard of 1,000 passes: the messages, and whether there are more.
unfoldable pub export_loop : ℕ → Server → List NatsMessage → Bool → Option (List NatsMessage × Bool)
export_loop zero server messages more = some (messages, more)
export_loop (suc guard) server messages more = elim (export_pass server messages more) [
  | stopped ↦ some (messages, more)
  | failed ↦ none
  | loaded next next_more ↦ export_loop guard server next next_more
]

abbrev pub whole : Option (List NatsMessage × Bool) → Option WholeRange
whole none = none
whole (some r) =
    some record { messages = r.0; truncated = r.1 && leb export_max_messages (length r.0) }

unfoldable pub fetch_whole_range : Server → List NatsMessage → Option Bool → Option WholeRange
unfolding export_loop
fetch_whole_range server messages more =
    whole (export_loop 1000 server messages (or_default false more))
