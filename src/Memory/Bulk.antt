-- ===== src/Memory/Bulk.antt =====
-- store/memory/write.go: the filter-based bulk updates, all through iterateFiltered.
pub mod Rounds
use mailbox.Prelude.{
  ℕ, ◌+◌, String, Bool, true, false, not, ◌&&◌, ◌||◌, none, some, List, [], ◌∷◌, ◌++◌, ◌==◌, ok,
  err, contains, remove_first, if◌then◌else◌,
}
use mailbox.SyncMap.{SyncMap, load, store}
use mailbox.Store.{Time, folder_trash}
use mailbox.Store.Filter.{Filter}
use mailbox.Memory.{Message, Handler, Store, clone, check_connected}
use mailbox.Memory.Matching.{matches_filters, is_available_now}

-- The tests that a message passes under its lock
abbrev pub is_selected : String → List Filter → Time → Message → Bool
is_selected owner_id filters now orig =
    not (orig.is_draft || not (orig.owner_id == owner_id))
    && is_available_now now orig
    && matches_filters orig filters

-- One round of Range: a test on the value that Range saw, then the tests on the value that is there.
unfoldable pub update_entry :
    String
    → List Filter
    → Time
    → (Message → Message)
    → String
    → Message
    → SyncMap Message
    → ℕ × SyncMap Message
update_entry owner_id filters now fn key seen ms =
    if seen.is_draft || not (seen.owner_id == owner_id) then (0, ms) else elim (load key ms) [
      | none ↦ (0, ms)
      | some orig ↦
          if is_selected owner_id filters now orig
          then (1, store key (record (fn (clone orig)) { updated_at = now }) ms)
          else (0, ms)
    ]

unfoldable pub update_entries :
    String
    → List Filter
    → Time
    → (Message → Message)
    → SyncMap Message
    → SyncMap Message
    → ℕ × SyncMap Message
update_entries owner_id filters now fn [] ms = (0, ms)
update_entries owner_id filters now fn ((key, seen) ∷ rest) ms =
    let (n, ms') = update_entry owner_id filters now fn key seen ms in
    let (k, ms'') = update_entries owner_id filters now fn rest ms' in (n + k, ms'')

-- iterateFiltered, under the check of the connection with which each caller begins
unfoldable pub iterate_filtered : String → List Filter → Time → (Message → Message) → Handler ℕ
unfolding update_entries update_entry
iterate_filtered owner_id filters now fn s = elim (check_connected s) [
  | err e ↦ (err e, s)
  | ok _ ↦
      let (n, ms) = update_entries owner_id filters now fn s.messages s.messages in
      (ok n, record s { messages = ms })
]

-- What the updates do to the clone of a message
abbrev pub set_read : Bool → Time → Message → Message
set_read read read_now m = record m {
  is_read = read;
  read_at = if read then some read_now else none;
}

abbrev pub set_folder : String → Message → Message
set_folder folder_id m = record m { folder_id = folder_id }

abbrev pub append_tag : String → Message → Message
append_tag tag_id m =
    if contains tag_id m.tags then m else record m { tags = m.tags ++ tag_id ∷ [] }

abbrev pub drop_tag : String → Message → Message
drop_tag tag_id m = record m { tags = remove_first tag_id m.tags }

module _ (owner_id : String) (filters : List Filter) where
  -- MarkReadByFilter
  unfoldable pub mark_read_by_filter : Bool → Time → Time → Handler ℕ
  unfolding iterate_filtered
  mark_read_by_filter read read_now now =
      iterate_filtered owner_id filters now (set_read read read_now)

  -- MoveByFilter
  unfoldable pub move_by_filter : String → Time → Handler ℕ
  unfolding iterate_filtered
  move_by_filter folder_id now = iterate_filtered owner_id filters now (set_folder folder_id)

  -- DeleteByFilter
  unfoldable pub delete_by_filter : Time → Handler ℕ
  unfolding iterate_filtered
  delete_by_filter now = iterate_filtered owner_id filters now (set_folder folder_trash)

  -- AddTagByFilter
  unfoldable pub add_tag_by_filter : String → Time → Handler ℕ
  unfolding iterate_filtered
  add_tag_by_filter tag_id now = iterate_filtered owner_id filters now (append_tag tag_id)

  -- RemoveTagByFilter
  unfoldable pub remove_tag_by_filter : String → Time → Handler ℕ
  unfolding iterate_filtered
  remove_tag_by_filter tag_id now = iterate_filtered owner_id filters now (drop_tag tag_id)
