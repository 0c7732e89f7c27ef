-- ===== src/Lib.antt =====
-- A model of total-recall's core: access to the database under a key's authority, request quotas, the
-- incremental connectors, the watcher's work queue, the revision of beliefs, the import of memories and
-- the delivery of webhooks, with what makes them correct.
--
-- - Base: shared names, lists by native length, maps as association lists, results, decimal text, and
--   the rows of a table that pass a test or are updated (Base/Rows).
-- - Auth (src/auth.ts): access levels in code and as a SQL predicate (Auth/Levels), rows of
--   `api_keys` and their validation (Auth/Keys), namespaces and permissions (Auth/Scope). The digest
--   of a key is a parameter.
-- - Quota (src/security.ts): `consumeRateLimit` over the two usage tables, with its transaction.
--   Quota/Usage has the statements on one table, Quota/Cleanup the deletion of old windows.
-- - Limits (src/http-limits.ts): the budget of a memory's metadata. Config (src/config.ts): settings of
--   the search in environment variables.
-- - Db (src/db.ts): a session of the pool with its settings, its open transaction and its advisory
--   locks. Db/Scoped is `withScopedClient`; Db/CheckedOut is `withCheckedOutClient` and
--   `withScopedTransactionOnClient`. A call takes the faults that its own queries meet; an answer comes
--   with what is committed and with the session if it goes back to the pool.
-- - Connector (src/connectors): `retryConnectorOperation` (Connector/Retry), the rows of
--   `connector_sync_state` (Connector/State), the lock of a source over several transactions
--   (Connector/Lock), one page (Connector/Page), and the loop over a source's pages with the run of
--   all sources (Connector/Sources). A page runs in a session of Db; its retries are those of
--   Connector/Retry. What a connector fetches and persists is a parameter.
--   Connector/Media has the dates of media events and the newest of them; Connector/Attribution
--   is the preflight of the keys and the agent that events are attributed to.
-- - Memory: forgetting memories in a scoped transaction (Memory/Forget, src/memory-lifecycle.ts); the
--   rows of `memories` as beliefs that replace each other (Memory/Beliefs); and an update of a memory
--   (src/tools/update.ts), with its checks and assignments in Memory/Patch and its transaction in
--   Memory/Update.
-- - Contradictions (src/contradictions.ts): the limits of cost and calls (Contradictions/Budget), the
--   settings that enable the feature (Contradictions/Policy), the queue of shadow classifications
--   (Contradictions/Shadow), the classifier's answer (Contradictions/Classify), the revision of a
--   belief in one transaction (Contradictions/Revision) and `maybeReviseBelief` (Contradictions/Revise).
--   The provider's answers, numbers in decimal and the parse of JSON are parameters.
-- - Transfer (src/transfer/import.ts, src/transfer/format.ts, migrations/034_memory_transfer.sql): the
--   import of a batch (Transfer/Import) of portable memories (Transfer/Format). The schema of a
--   record, the hash of its fingerprint and what the database keeps of an instant are parameters.
-- - Webhooks (src/webhooks.ts, src/subscriptions.ts, scripts/webhook-delivery.ts): the address that a
--   webhook may call (Webhooks/Address), the envelope of its secret (Webhooks/Crypto), and the rows of
--   deliveries with the worker's steps (Webhooks/Deliveries), where Webhooks/Deliveries/Jobs
--   runs jobs one after the other, those included that are lost after their claim. The cipher and the
--   resolver are parameters.
-- - Watcher (src/watcher): the debounce queue (Watcher/Queue), where each event of the event loop is a
--   step and the suspended calls of `run` are kept beside a path's state; and the rows of a file
--   (Watcher/Sync), with the guard that asks the queue whether a preparation is still current.
--   Watcher/Chunking is the source keys of a file's sections, whose hash is a parameter.
--
-- Loops: the retry loop recurs on the attempts that are left, the loop over pages on the pages that
-- `maxPagesPerSource` leaves; both numbers are the code's own bounds. The queue's loop goes on by
-- events, and twice the number of paths is shown to be enough of them once the queue is closed. The
-- search for a cycle of beliefs passes 100 rows, as the code's query does; a longer chain is refused.
--
-- Not modelled: SQL beyond the statements named above, row-level security and PostgreSQL's isolation
-- (what other sessions commit while a page is fetched is a function of the model), the read-only
-- option of a scoped call, the advisory locks of an import, the construction of the pool, the text of
-- messages, timers, and what of the program is HTTP plumbing, prompts or formats of other services.
pub mod Base
pub mod Auth
pub mod Db
pub mod Quota
pub mod Connector
pub mod Watcher
pub mod Memory
pub mod Limits
pub mod Config
pub mod Contradictions
pub mod Webhooks
pub mod Transfer
