-- ===== src/StatsCache.antt =====
-- stats.go: the per-user statistics that the service caches and keeps up to date by events. `L2` is a
-- distributed cache behind the interface of stats_cache.go: what its Get returned is an argument,
-- and the requests that the code sends to it are part of the result.
pub mod Tracking
pub mod Refresh
mod Tests
use mailbox.Prelude.{
  ℕ, ◌+◌, ◌-◌, String, Bool, true, false, ◌&&◌, not, Option, none, some, List, [], ◌∷◌, ◌++◌, ◌==◌,
  Result, ok, err, ltb, if◌then◌else◌,
}
use Prim.Native.String
use mailbox.SyncMap.{SyncMap, load, store}
use mailbox.Store.{Error, Time, FolderCounts, folder_sent, folder_inbox}
use mailbox.Memory.Stats.{MailboxStats, counts_at}

pub record StatsEntry : Type 0 where
  pub stats : Option MailboxStats
  pub updated_at : Time

pub record StatsCache : Type 0 where
  pub enabled : Bool
  pub interval : Time
  pub entries : SyncMap StatsEntry

pub data Delta : Type 0 where
  plus_one minus_one : Delta

-- What is sent to the distributed cache
pub data Request : Type 0 where
  set : String → MailboxStats → Request
  incr_by : String → String → Delta → Request

abbrev pub field_total : String
field_total = "total"

abbrev pub field_unread : String
field_unread = "unread"

-- StatsCacheFolderTotal, StatsCacheFolderUnread
abbrev pub folder_total_field : String → String
folder_total_field folder_id = String.◌++◌ "folder:" (String.◌++◌ folder_id ":total")

abbrev pub folder_unread_field : String → String
folder_unread_field folder_id = String.◌++◌ "folder:" (String.◌++◌ folder_id ":unread")

-- The entry that LoadOrStore leaves for an owner who had none
abbrev pub empty_entry : StatsEntry
empty_entry = record { stats = none; updated_at = 0 }

abbrev entry_of : Option StatsEntry → StatsEntry
entry_of none = empty_entry
entry_of (some e) = e

abbrev with_entry : String → StatsEntry → StatsCache → StatsCache
with_entry owner_id e c = record c { entries = store owner_id e c.entries }

-- The slow path: fetch from the store, keep the result, and fill the distributed cache if there is one.
abbrev refill :
    Bool
    → Result Error MailboxStats
    → String
    → Time
    → StatsEntry
    → StatsCache
    → Result Error MailboxStats × StatsCache × List Request
refill has_l2 (err x) owner_id now e c = (err x, with_entry owner_id e c, [])
refill has_l2 (ok stats) owner_id now e c = (
  ok stats,
  with_entry owner_id (record { stats = some stats; updated_at = now }) c,
  if has_l2 then Request.set owner_id stats ∷ [] else [],
)

abbrev fresh_stats : StatsEntry → Time → Time → Option MailboxStats
fresh_stats e now interval = if ltb (now - e.updated_at) interval then e.stats else none

-- getOrRefreshStats: `fetch` is what store.MailboxStats returns, and `l2` the value that the
-- distributed cache's Get returned without error, if any.
unfoldable pub get_or_refresh_stats :
    Result Error MailboxStats
    → Bool
    → Option MailboxStats
    → String
    → Time
    → StatsCache
    → Result Error MailboxStats × StatsCache × List Request
get_or_refresh_stats fetch has_l2 l2 owner_id now c =
    if not c.enabled
    then (fetch, c, [])
    else (let e = entry_of (load owner_id c.entries) in
        elim (fresh_stats e now c.interval) [
          | some stats ↦ (ok stats, with_entry owner_id e c, [])
          | none ↦ elim (if has_l2 then l2 else none) [
            | some dist ↦ (
              ok dist,
              with_entry owner_id (record { stats = some dist; updated_at = now }) c,
              [],
            )
            | none ↦ refill has_l2 fetch owner_id now e c
          ]
        ])

-- updateCachedStats: without an entry that holds statistics there is nothing to update.
unfoldable pub update_cached_stats :
    String → (MailboxStats → MailboxStats) → StatsCache → StatsCache
update_cached_stats owner_id fn c = elim (load owner_id c.entries) [
  | none ↦ c
  | some e ↦ elim e.stats [
    | none ↦ c
    | some stats ↦ with_entry owner_id (record e { stats = some (fn stats) }) c
  ]
]

-- What the handlers do to the statistics. A decrement stops at 0, as subtraction does here.
abbrev pub sent_one : MailboxStats → MailboxStats
sent_one stats =
    let c = counts_at stats.folders folder_sent in
    record stats {
      total_messages = stats.total_messages + 1;
      folders = store folder_sent (record c { total = c.total + 1 }) stats.folders;
    }

abbrev pub received_one : MailboxStats → MailboxStats
received_one stats =
    let c = counts_at stats.folders folder_inbox in
    record stats {
      total_messages = stats.total_messages + 1;
      unread_count = stats.unread_count + 1;
      folders =
          store folder_inbox (record { total = c.total + 1; unread = c.unread + 1 }) stats.folders;
    }

abbrev pub read_one : String → MailboxStats → MailboxStats
read_one folder_id stats =
    let c = counts_at stats.folders folder_id in
    record stats {
      unread_count = stats.unread_count - 1;
      folders =
          if not (folder_id == "") && ltb 0 c.unread
          then store folder_id (record c { unread = c.unread - 1 }) stats.folders
          else stats.folders;
    }

abbrev take_one : Bool → ℕ → ℕ
take_one b n = if b then n - 1 else n

abbrev put_one : Bool → ℕ → ℕ
put_one b n = if b then n + 1 else n

-- The source folder of a move and the folder of a deletion lose a message alike.
abbrev pub leave_folder : String → Bool → SyncMap FolderCounts → SyncMap FolderCounts
leave_folder folder_id was_unread folders =
    let c = counts_at folders folder_id in
    if folder_id == ""
    then folders
    else store folder_id (record { total = c.total - 1; unread = take_one was_unread c.unread })
        folders

abbrev pub enter_folder : String → Bool → SyncMap FolderCounts → SyncMap FolderCounts
enter_folder folder_id was_unread folders =
    let c = counts_at folders folder_id in
    if folder_id == ""
    then folders
    else store folder_id (record { total = c.total + 1; unread = put_one was_unread c.unread })
        folders

abbrev pub deleted_one : String → Bool → MailboxStats → MailboxStats
deleted_one folder_id was_unread stats = record stats {
  total_messages = stats.total_messages - 1;
  unread_count = take_one was_unread stats.unread_count;
  folders = leave_folder folder_id was_unread stats.folders;
}

abbrev pub moved_one : String → String → Bool → MailboxStats → MailboxStats
moved_one from to was_unread stats = record stats {
  folders = enter_folder to was_unread (leave_folder from was_unread stats.folders);
}

-- The events of events.go that the handlers read, without what only identifies them.
pub data Event : Type 0 where
  message_sent : String → List String → Event
  message_received : String → String → Event
  message_read : String → String → Event
  message_deleted : String → String → Bool → Event
  message_moved : String → String → String → Bool → Event
  mark_all_read : String → String → ℕ → Event

abbrev incr : String → String → Delta → List Request
incr owner_id field d = Request.incr_by owner_id field d ∷ []

abbrev incr_if : Bool → List Request → List Request
incr_if b rs = if b then rs else []

-- The requests for a folder that a message leaves or enters
abbrev folder_requests : String → String → Bool → Delta → List Request
folder_requests owner_id folder_id was_unread d = incr_if (not (folder_id == "")) (
    incr owner_id (folder_total_field folder_id) d
    ++ incr_if was_unread (incr owner_id (folder_unread_field folder_id) d))

receive_all : List String → StatsCache → StatsCache × List Request
unfolding update_cached_stats
receive_all [] c = (c, [])
receive_all (r ∷ rs) c =
    let (c', more) = receive_all rs (update_cached_stats r received_one c) in
    (
      c',
      incr r field_total Delta.plus_one
          ++ (incr r field_unread Delta.plus_one
              ++ (incr r (folder_total_field folder_inbox) Delta.plus_one
                  ++ (incr r (folder_unread_field folder_inbox) Delta.plus_one ++ more))),
    )

-- onMessageSent
unfoldable pub on_message_sent : String → List String → StatsCache → StatsCache × List Request
unfolding receive_all update_cached_stats
on_message_sent sender_id recipient_ids c =
    let (c', more) = receive_all recipient_ids (update_cached_stats sender_id sent_one c) in
    (
      c',
      incr sender_id field_total Delta.plus_one
          ++ (incr sender_id (folder_total_field folder_sent) Delta.plus_one ++ more),
    )

-- onMessageRead
unfoldable pub on_message_read : String → String → StatsCache → StatsCache × List Request
unfolding update_cached_stats
on_message_read user_id folder_id c = (
  update_cached_stats user_id (read_one folder_id) c,
  incr user_id field_unread Delta.minus_one
      ++ incr_if (not (folder_id == ""))
          (incr user_id (folder_unread_field folder_id) Delta.minus_one),
)

-- onMessageDeleted
unfoldable pub on_message_deleted : String → String → Bool → StatsCache → StatsCache × List Request
unfolding update_cached_stats
on_message_deleted user_id folder_id was_unread c = (
  update_cached_stats user_id (deleted_one folder_id was_unread) c,
  incr user_id field_total Delta.minus_one
      ++ (incr_if was_unread (incr user_id field_unread Delta.minus_one)
          ++ folder_requests user_id folder_id was_unread Delta.minus_one),
)

-- onMessageMoved
unfoldable pub on_message_moved :
    String → String → String → Bool → StatsCache → StatsCache × List Request
unfolding update_cached_stats
on_message_moved user_id from to was_unread c = (
  update_cached_stats user_id (moved_one from to was_unread) c,
  folder_requests user_id from was_unread Delta.minus_one
      ++ folder_requests user_id to was_unread Delta.plus_one,
)

-- The handlers that the service registers, by event; the others have none for the cache.
unfoldable pub handle : Event → StatsCache → StatsCache × List Request
unfolding on_message_sent on_message_read on_message_deleted on_message_moved
handle (Event.message_sent sender recipients) c = on_message_sent sender recipients c
handle (Event.message_received recipient sender) c = (c, [])
handle (Event.message_read user folder) c = on_message_read user folder c
handle (Event.message_deleted user folder was_unread) c =
    on_message_deleted user folder was_unread c
handle (Event.message_moved user from to was_unread) c = on_message_moved user from to was_unread c
handle (Event.mark_all_read user folder n) c = (c, [])
