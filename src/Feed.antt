-- ===== src/Feed.antt =====
-- The way of the live messages to the page: the queues of client/src/worker/feedCore.ts and
-- client/src/lib/feed.ts, the socket of client/src/worker/feed.worker.ts and the requests for history.
pub mod Queue
pub mod Socket
pub mod History
