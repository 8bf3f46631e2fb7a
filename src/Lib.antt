-- ===== src/Lib.antt =====
-- Verification of the mailbox library: a user-to-user messaging library whose service layer works
-- over exchangeable storage backends.
--
-- Parts and files:
-- * Prelude, SyncMap: shared names, results with errors, list functions over the native numbers, and
--   Go's maps as association lists. The order of a list is the order of `Range`; no theorem needs a
--   particular one.
-- * Store, Store/Filter: package store (store/message.go, store/errors.go, store/filter.go and the
--   options of store/store.go): folders, message data, filters.
-- * Memory and its children: package store/memory. `Memory.Store` is its `Store`; Write, Create,
--   Maintenance, Drafts, Bulk hold the handlers that change it (write.go, create.go, store.go), Query,
--   Stats and Matching those that read it (query.go, stats.go, helpers.go). Memory/Call lists the
--   changing calls as data. The other modules below Memory hold proofs, named for what they prove.
-- * StatsCache and its children: stats.go and stats_cache.go, the statistics that the service
--   caches for each user, their refresh and the event handlers that keep them up to date.
-- * Mailbox and its children: the service over the in-memory backend, for one user: mailbox.go
--   (Client, checkAccess), outbox_helpers.go, mutate.go and flags.go (Mailbox/Mutate), bulk.go
--   (Mailbox/Bulk). `Mailbox.Service` holds the backend, the statistics, the events published and the
--   attachment references released. Mailbox/Access and its children are about whose messages change;
--   Settling, Statistics and Runs about the cached statistics; Publishing about single events.
--   Below Mailbox are also Attachments (attachment.go, ResolveAttachments), Quota (quota.go), Delivery
--   (the copies of send.go: the sender's, the recipients' and their undoing) and Send (sendDraft).
--   Cleanup (cleanup.go), Enforcement (quota_enforce.go) and Draft (draft.go, SendMessage, saveDraft).
--   `Setting` is what the service asks of its plugins and providers, `Draws` what one send draws.
-- * Validation and its children: validation.go.
-- * Presence and its children: presence/presence.go and presence/memory/tracker.go.
-- * Rules and its children: rules/engine.go and rules/rule.go.
-- * Retry and its children: the loop of retry/retry.go, on its MaxRetries + 1 attempts.
--
-- The service calls the backend, and publishes an event after a write that succeeded; the handlers in
-- StatsCache run later, on the events in their order. Which events the bus accepts is a parameter, as
-- are the answers of a distributed cache and of a context.
--
-- Conventions. A handler takes the state and returns its result beside the new state. What the
-- code reads from the clock or from the source of identifiers is an argument, so the theorems hold
-- for every value of it. A handler that runs under the lock of its message is one step. A loop
-- over `sync.Map.Range` visits a snapshot and re-reads each entry where the source does. Times and
-- counts are natural numbers, and subtraction is written with the guards of the source; nil and
-- empty slices are not told apart, nor are nil and empty maps but in the validation of metadata.
-- The loop of CreateMessageIdempotent is a recursion on its two attempts, and it is proved that
-- they suffice; the loop of Do is one on the attempts that are left. The scan of a cleanup has
-- fuel for one page more than there are messages, and the enforcement of a quota for one page more
-- than there are messages to delete; each page but the last has a message, and it is proved that
-- both end. The loop of UpdateByFilter without a read flag is followed for a given number of
-- pages, since it writes what it lists and other filters may then list other messages; that it
-- ends is not claimed. Every other loop is a recursion on a list.
--
-- Not modelled: the SQL, Mongo and Redis backends and the cloud attachment stores (their logic runs
-- in external services), generated protocol code, telemetry, HTTP clients, test
-- helpers; nor notifications, the conditions of rules and the gRPC server.
pub mod Prelude
pub mod SyncMap
pub mod Store
pub mod Memory
pub mod StatsCache
pub mod Validation
pub mod Mailbox
pub mod Presence
pub mod Rules
pub mod Retry
