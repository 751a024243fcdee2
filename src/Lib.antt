-- ===== src/Lib.antt =====
-- nats-explorer: the logic of the browser client of a NATS explorer.
--
-- The client (client/src) keeps the state of one page. A worker owns the websocket to the server; it
-- queues live messages and hands them to the page once per frame. The page keeps a live view for every
-- selected subject, pulls recorded history over HTTP, pages backwards through it, and drops what belongs
-- to connections that are gone. Beside that it compares payloads, matches subjects against patterns and
-- draws the counters of the server, keeps connections, requests and alert rules, and exports and replays
-- what was recorded.
--
-- Prelude   what all modules share: tests, lists, texts as lists of UTF-16 units, tables in insertion
--           order for `Map`, stable sorting by a comparator for `Array.sort`, subsequences.
-- Subjects  Match: client/src/lib/subjectMatch.ts (subjectMatches, covers, overlappingPatterns);
--           Rules: client/src/lib/decoders.ts (subjectMatches, findRule, save, remove).
-- Messages  shared/src/messages.ts (NatsMessage) and client/src/lib/messages.ts (messageKey, byArrival,
--           newerFirst); Keys: messageKey as an identity.
-- Store     client/src/store/index.ts. View: what an action does to one view; Live, Selection,
--           Expansion, Connections, Settings: the actions on the whole state; Invariant and Actions: the
--           invariant of the state; Switching, Pruning and Branches: connections and branches of the tree.
-- Compare   Diff: client/src/lib/diff.ts (diffLines); Versions: client/src/lib/updateCheck.ts (isNewer).
-- Feed      Queue: client/src/worker/feedCore.ts (queueFeed, flushFeed) and client/src/lib/feed.ts
--           (enqueue, flush); Socket: client/src/worker/feed.worker.ts; History: client/src/lib/feed.ts
--           (loadSubject, loadOlder, loadOlderBranch).
-- Monitoring  client/src/components/monitoring/history.ts.
-- Tree      client/src/components/subjects/tree.ts (flattenTree); the preview of the last message is left out.
-- Protobuf  client/src/lib/protoRaw.ts: the reader of messages without a schema. Varint and Wire hold a
--           writer to read back from, Lookup and Fields what is found of it, Progress is about the fuel
--           of the loop.
-- Transfer  Export: client/src/lib/exportRange.ts (fetchWholeRange); Replay: client/src/lib/replay.ts
--           (replayMessages). The server's answers are a function.
-- Saved     Connections: client/src/lib/savedConnections.ts (toConnectionConfig); Requests:
--           client/src/lib/savedRequests.ts (draftFromSaved, savedFromDraft, draftDiffers);
--           Lists: client/src/lib/bookmarks.ts and client/src/store/savedConnections.ts.
-- Alerts    shared/src/alerts.ts; Rules and Ranking: client/src/lib/alerts.ts (validateRule,
--           alertRuleForSubject, sortAlerts); Store: client/src/store/alerts.ts, with its Log and with
--           calls that fail in Failing.
-- Async     client/src/lib/useAsync.ts: the hook over the calls of its callbacks, and its cache.
-- Links     client/src/lib/deepLink.ts (parseLink, formatLink, linkFromState, linkTarget);
--           Opening: client/src/lib/urlSync.ts (applySelection, resolvePending), on the actions of Store;
--           Selecting and Same hold what its theorems need.
-- Analysis  Latency: client/src/lib/stepLatency.ts (stepLatency, latencyBuckets); Repeats:
--           client/src/lib/repeats.ts; Steps: client/src/lib/trace.ts (traceSteps),
--           client/src/lib/natsHeaders.ts (msgId, repeatedIds), client/src/lib/stateTable.ts (stateRows).
-- Tests     the theorems at concrete inputs.
--
-- State is passed on explicitly. What the environment does is an event: an answer of the server, a
-- socket that closes, a timer that fires, a frame. The clock is an argument. Times, sizes and counters
-- are natural numbers where the source has floating-point numbers; the cells of the table of the diff
-- are 16 bits wide, and 600 lines keep below that. Fuel is used twice: to print a number in decimal, where
-- the number itself is enough, and to read a protobuf message, where the number of its bytes is. The loop
-- of an export has a guard of 1,000 passes of its own. Not modelled are React components, HTTP requests,
-- browser storage, the decoders' libraries, the merging of the tree, and the server in Go.
pub mod Prelude
pub mod Subjects
pub mod Messages
pub mod Store
pub mod Compare
pub mod Feed
pub mod Monitoring
pub mod Tree
pub mod Alerts
pub mod Saved
pub mod Async
pub mod Links
pub mod Analysis
pub mod Transfer
pub mod Protobuf
pub mod Tests
