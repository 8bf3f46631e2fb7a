-- ===== src/Mailbox/Cleanup.antt =====
-- cleanup.go: the removal of expired messages, and of the references to their attachments. `stops n`
-- is what the context answers at the n-th page of a scan, `clock n` the reading of the clock in its
-- n-th Find. What telemetry and the log are told is left out.
pub mod Release
pub mod Scan
pub mod Once
pub mod Trash
mod Tests
use mailbox.Prelude.{
  ℕ, zero, suc, ◌+◌, ◌-◌, String, Bool, true, false, not, Option, none, some, List, [], ◌∷◌, ◌++◌,
  Result, ok, err, ◌>>=◌, ltb, eqb, length, map, if◌then◌else◌,
}
use mailbox.SyncMap.{SyncMap, load, store}
use mailbox.Store.{Error, Time, Scalar, Value, ListOptions, unset, folder_trash}
use mailbox.Store.Filter.{Filter, build, in_folder, is_draft_filter}
use mailbox.Memory
use mailbox.Memory.{Message}
use mailbox.Memory.Query.{MessageList, find}
use mailbox.Memory.Maintenance.{
  delete_expired_trash, delete_expired_messages, delete_ttl_expired_messages,
  delete_messages_by_ids,
}
use mailbox.Mailbox.{Service, Config, MailboxError}

-- CleanupTrashResult, CleanupExpiredMessagesResult
pub record Cleaned : Type 0 where
  pub deleted_count : ℕ
  pub interrupted : Bool

-- A result that is returned beside an error
abbrev pub Cleanup : Type 0
Cleanup = Cleaned × Result MailboxError (Unit {0}) × Service

-- messageAttachments and scannedIDs
pub record Scanned : Type 0 where
  pub attachments : SyncMap (List String)
  pub ids : List String

-- How a scan ends
pub data ScanEnd : Type 0 where
  complete stopped : ScanEnd
  scan_failed : Error → ScanEnd

abbrev pub scan_batch_size : ℕ
scan_batch_size = 100

-- The loop over one page
unfoldable pub scan_page : List Message → Scanned → Scanned
scan_page [] sc = sc
scan_page (m ∷ ms) sc =
    let ids = map (λ a. a.id) m.attachments in
    scan_page ms (record {
      ids = sc.ids ++ m.id ∷ [];
      attachments = if ltb 0 (length ids) then store m.id ids sc.attachments else sc.attachments;
    })

abbrev pub last_id : List Message → String
last_id [] = ""
last_id (m ∷ []) = m.id
last_id (m ∷ n ∷ ms) = last_id (n ∷ ms)

-- What follows a page: `next` is the loop from a cursor.
abbrev pub after_find :
    Result Error MessageList
    → Scanned
    → (String → Scanned → Option (Scanned × ScanEnd))
    → Option (Scanned × ScanEnd)
after_find (err e) sc next = some (sc, scan_failed e)
after_find (ok list) sc next =
    let sc' = scan_page list.messages sc in
    if not list.has_more
    then some (sc', complete)
    else if eqb (length list.messages) 0
    then some (sc', complete)
    else next (last_id list.messages) sc'

abbrev pub page_after : String → ListOptions
page_after cursor = record {
  limit = scan_batch_size;
  offset = 0;
  sort_by = "";
  sort_order = unset;
  start_after = cursor;
}

-- The loop over the pages, with one unit of fuel for each; `none` is a loop that is still running.
unfoldable pub scan_pages :
    (ℕ → Bool)
    → (ℕ → Time)
    → Memory.Store
    → List Filter
    → ℕ
    → ℕ
    → String
    → Scanned
    → Option (Scanned × ScanEnd)
unfolding find scan_page
scan_pages stops clock s filters zero n cursor sc = none
scan_pages stops clock s filters (suc fuel) n cursor sc = elim (stops n) [
  | true ↦ some (sc, stopped)
  | false ↦
      after_find (find s filters (page_after cursor) (clock n)) sc
        (λ cursor' sc'. scan_pages stops clock s filters fuel (suc n) cursor' sc')
]

-- scanExpiredMessages; a page with more to come has a message, so the fuel is enough.
unfoldable pub scan_expired_messages :
    (ℕ → Bool)
    → (ℕ → Time)
    → List Filter
    → String
    → Time
    → Memory.Store
    → Option (Scanned × ScanEnd)
unfolding scan_pages build
scan_expired_messages stops clock base time_field cutoff s =
    elim (build time_field "lt" (Value.scalar (Scalar.instant cutoff))) [
      | err e ↦ some (record { attachments = []; ids = [] }, scan_failed e)
      | ok before ↦
          scan_pages stops clock s (base ++ before ∷ []) (suc (suc (length s.messages))) 0 ""
            (record { attachments = []; ids = [] })
    ]

abbrev pub attachments_of : Option (List String) → List String
attachments_of none = []
attachments_of (some ids) = ids

-- releaseAttachmentRefs: what RemoveRef answers is only logged.
unfoldable pub release_deleted : List String → SyncMap (List String) → Service → Service
release_deleted [] attachments s = s
release_deleted (id ∷ ids) attachments s =
    release_deleted ids attachments
      (record s { released = s.released ++ attachments_of (load id attachments) })

-- The deletion of what was scanned, and the release for what this call deleted
unfoldable pub delete_scanned : Scanned → Service → Result Error ℕ × Service
unfolding delete_messages_by_ids release_deleted
delete_scanned sc s =
    let (r, store') = delete_messages_by_ids sc.ids s.store in
    let s' = record s { store = store' } in
    elim r [
      | err e ↦ (err e, s')
      | ok deleted ↦ (ok (length deleted), release_deleted deleted sc.attachments s')
    ]

abbrev pub counted : Result Error ℕ × Service → Cleanup
counted (err e, s) =
    (record { deleted_count = 0; interrupted = false }, err (MailboxError.store_error e), s)
counted (ok n, s) = (record { deleted_count = n; interrupted = false }, ok tt, s)

abbrev pub after_scan : Option (Scanned × ScanEnd) → Service → Option Cleanup
after_scan none s = none
after_scan (some (sc, complete)) s = some (counted (delete_scanned sc s))
after_scan (some (sc, stopped)) s =
    some (record { deleted_count = 0; interrupted = true }, err MailboxError.context_done, s)
after_scan (some (sc, scan_failed e)) s =
    some (record { deleted_count = 0; interrupted = false }, err (MailboxError.store_error e), s)

module _ (stops : ℕ → Bool) (clock : ℕ → Time) where
  -- cleanupTrashWithAttachments
  unfoldable pub cleanup_trash_with_attachments : Time → Service → Option Cleanup
  unfolding scan_expired_messages delete_scanned
  cleanup_trash_with_attachments cutoff s =
      after_scan
        (scan_expired_messages stops clock (in_folder folder_trash ∷ []) "UpdatedAt" cutoff s.store)
        s

  -- cleanupExpiredWithAttachments
  unfoldable pub cleanup_expired_with_attachments : Time → Service → Option Cleanup
  unfolding scan_expired_messages delete_scanned
  cleanup_expired_with_attachments cutoff s =
      after_scan
        (scan_expired_messages stops clock (is_draft_filter false ∷ []) "CreatedAt" cutoff s.store)
        s

  -- cleanupTTLExpiredWithAttachments; it leaves early when the scan found nothing.
  abbrev unless_empty : Option (Scanned × ScanEnd) → Service → Option Cleanup
  unless_empty none s = none
  unless_empty (some (sc, stopped)) s = after_scan (some (sc, stopped)) s
  unless_empty (some (sc, scan_failed e)) s = after_scan (some (sc, scan_failed e)) s
  unless_empty (some (sc, complete)) s =
      if eqb (length sc.ids) 0
      then some (record { deleted_count = 0; interrupted = false }, ok tt, s)
      else after_scan (some (sc, complete)) s

  unfoldable pub cleanup_ttl_expired_with_attachments : Time → Service → Option Cleanup
  unfolding scan_expired_messages delete_scanned build
  cleanup_ttl_expired_with_attachments now s =
      elim (build "ExpiresAt" "exists" (Value.scalar (Scalar.flag true))) [
        | err e ↦
            some (
              record { deleted_count = 0; interrupted = false },
              err (MailboxError.store_error e),
              s,
            )
        | ok exists ↦
            unless_empty (scan_expired_messages stops clock (exists ∷ []) "ExpiresAt" now s.store) s
      ]

abbrev of_store : Service → Result Error ℕ × Memory.Store → Cleanup
of_store s (r, store') = counted (r, record s { store = store' })

-- CleanupTrash, at the instant `now`
unfoldable pub cleanup_trash :
    Config → ℕ → (ℕ → Bool) → (ℕ → Time) → Time → Service → Option Cleanup
unfolding cleanup_trash_with_attachments delete_expired_trash
cleanup_trash cfg trash_retention stops clock now s =
    if not s.connected
    then some (record { deleted_count = 0; interrupted = false }, err MailboxError.not_connected, s)
    else if cfg.has_attachments
    then cleanup_trash_with_attachments stops clock (now - trash_retention) s
    else some (of_store s (delete_expired_trash (now - trash_retention) s.store))

-- The first half of CleanupExpiredMessages; an error takes its result away.
abbrev pub retained : Option Cleanup → Option Cleanup
retained none = none
retained (some (c, ok _, s)) = some (c, ok tt, s)
retained (some (c, err e, s)) = some (record { deleted_count = 0; interrupted = false }, err e, s)

abbrev by_age : Config → ℕ → (ℕ → Bool) → (ℕ → Time) → Time → Service → Option Cleanup
by_age cfg message_retention stops clock now s =
    if eqb message_retention 0
    then some (record { deleted_count = 0; interrupted = false }, ok tt, s)
    else if cfg.has_attachments
    then retained (cleanup_expired_with_attachments stops clock (now - message_retention) s)
    else some (of_store s (delete_expired_messages (now - message_retention) s.store))

-- What the second half adds to the result of the first
abbrev added : Cleaned → Option Cleanup → Option Cleanup
added c none = none
added c (some (c', ok _, s)) =
    some (record c { deleted_count = c.deleted_count + c'.deleted_count }, ok tt, s)
added c (some (c', err e, s)) = some (c, err e, s)

abbrev by_ttl : Config → Bool → (ℕ → Bool) → (ℕ → Time) → Time → Option Cleanup → Option Cleanup
by_ttl cfg done stops clock now none = none
by_ttl cfg done stops clock now (some (c, err e, s)) = some (c, err e, s)
by_ttl cfg done stops clock now (some (c, ok _, s)) =
    if done
    then some (record c { interrupted = true }, err MailboxError.context_done, s)
    else added c (
        if cfg.has_attachments
        then cleanup_ttl_expired_with_attachments stops clock now s
        else some (of_store s (delete_ttl_expired_messages now s.store)))

-- CleanupExpiredMessages: `done` is what the context answers between the halves.
unfoldable pub cleanup_expired_messages :
    Config
    → ℕ
    → (ℕ → Bool)
    → (ℕ → Time)
    → Time
    → Bool
    → (ℕ → Bool)
    → (ℕ → Time)
    → Time
    → Service
    → Option Cleanup
unfolding cleanup_expired_with_attachments cleanup_ttl_expired_with_attachments
    delete_expired_messages delete_ttl_expired_messages
cleanup_expired_messages cfg message_retention stops clock now done stops' clock' now' s =
    if not s.connected
    then some (record { deleted_count = 0; interrupted = false }, err MailboxError.not_connected, s)
    else by_ttl cfg done stops' clock' now' (by_age cfg message_retention stops clock now s)
