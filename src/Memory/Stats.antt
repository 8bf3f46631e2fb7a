-- ===== src/Memory/Stats.antt =====
-- store/memory/stats.go: the aggregate counts, as loops that fill a map of folders.
pub mod Counts
use mailbox.Prelude.{
  ℕ, ◌+◌, String, Bool, not, Option, none, some, List, [], ◌∷◌, ◌==◌, Result, ok, ◌>>=◌, ◌>>◌, to_ℕ,
  contains, if◌then◌else◌, ◌&&◌,
}
use mailbox.SyncMap.{SyncMap, load, store}
use mailbox.Store.{Error, Time, FolderCounts}
use mailbox.Memory.{Message, Store, check_connected}
use mailbox.Memory.Matching.{is_available_now}
use mailbox.Memory.Query.{is_visible_to}

-- store.MailboxStats
pub record MailboxStats : Type 0 where
  pub total_messages : ℕ
  pub unread_count : ℕ
  pub draft_count : ℕ
  pub folders : SyncMap FolderCounts

abbrev pub no_counts : FolderCounts
no_counts = record { total = 0; unread = 0 }

-- `m[k]` of a Go map: the zero value where the key is missing
abbrev pub counts_or_zero : Option FolderCounts → FolderCounts
counts_or_zero none = no_counts
counts_or_zero (some c) = c

abbrev pub counts_at : SyncMap FolderCounts → String → FolderCounts
counts_at folders id = counts_or_zero (load id folders)

abbrev pub empty_stats : MailboxStats
empty_stats = record { total_messages = 0; unread_count = 0; draft_count = 0; folders = [] }

-- One message more in a folder
abbrev pub count_message : Message → FolderCounts → FolderCounts
count_message m c = record { total = c.total + 1; unread = c.unread + to_ℕ (not m.is_read) }

abbrev pub add_to_folder : Message → SyncMap FolderCounts → SyncMap FolderCounts
add_to_folder m folders =
    store m.folder_id (count_message m (counts_at folders m.folder_id)) folders

-- One round of MailboxStats' Range
unfoldable pub tally : String → Time → Message → MailboxStats → MailboxStats
tally owner_id now m stats =
    if not (m.owner_id == owner_id)
    then stats
    else if m.is_draft
    then record stats { draft_count = stats.draft_count + 1 }
    else if not (is_available_now now m)
    then stats
    else record stats {
      total_messages = stats.total_messages + 1;
      unread_count = stats.unread_count + to_ℕ (not m.is_read);
      folders = add_to_folder m stats.folders;
    }

unfoldable pub tally_all : String → Time → SyncMap Message → MailboxStats → MailboxStats
unfolding tally
tally_all owner_id now [] stats = stats
tally_all owner_id now ((_, m) ∷ ms) stats = tally_all owner_id now ms (tally owner_id now m stats)

-- MailboxStats
unfoldable pub mailbox_stats : Store → String → Time → Result Error MailboxStats
unfolding tally_all
mailbox_stats s owner_id now = do
  check_connected s
  ok (tally_all owner_id now s.messages empty_stats)

unfoldable pub count_folders :
    String → List String → Time → SyncMap Message → SyncMap FolderCounts → SyncMap FolderCounts
count_folders owner_id ids now [] counts = counts
count_folders owner_id ids now ((_, m) ∷ ms) counts = count_folders owner_id ids now ms (
    if is_visible_to owner_id now m && contains m.folder_id ids
    then add_to_folder m counts
    else counts)

-- CountByFolders
unfoldable pub count_by_folders :
    Store → String → List String → Time → Result Error (SyncMap FolderCounts)
unfolding count_folders
count_by_folders s owner_id ids now = do
  check_connected s
  ok (count_folders owner_id ids now s.messages [])
