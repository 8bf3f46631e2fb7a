-- ===== src/Memory/Write.antt =====
-- store/memory/write.go: the handlers that change one stored message, and MarkAllRead.
pub mod MarkAll
pub mod Edits
pub mod Moves
use mailbox.Prelude.{
  ℕ, ◌+◌, String, Bool, true, not, Option, Result, ◌&&◌, none, some, List, [], ◌∷◌, ◌++◌, ◌==◌, ok,
  err, ◌>>=◌, ◌>>◌, fail_if, contains, remove_first, if◌then◌else◌,
}
use mailbox.SyncMap
use mailbox.SyncMap.{SyncMap, load, store}
use mailbox.Store.{
  Error, Time, MoveOption, not_found, invalid_folder_id, folder_mismatch, folder_trash, folder_sent,
  folder_inbox, is_valid_folder_id, is_sent_by_owner, apply_move_options,
}
use mailbox.Memory.{Message, Handler, clone, check_connected, checked, edit, find_message}

abbrev pub home_folder : Message → String
home_folder m = if is_sent_by_owner m.owner_id m.sender_id then folder_sent else folder_inbox

-- What each handler computes from the stored message, under the lock; `none` writes nothing.
module _ (now : Time) where
  abbrev pub with_read : Bool → Time → Message → Result Error (Option Message)
  with_read read read_now orig = do
    let m = clone orig
    ok (
        some (record m {
          is_read = read;
          updated_at = now;
          read_at = if read then some read_now else none;
        }))

  abbrev pub with_folder : String → String → Message → Result Error (Option Message)
  with_folder from folder_id orig = do
    fail_if (not (from == "") && not (orig.folder_id == from)) folder_mismatch
    let m = clone orig
    ok (some (record m { folder_id = folder_id; updated_at = now }))

  -- A tag that is there is left alone.
  abbrev pub with_tag : String → Message → Result Error (Option Message)
  with_tag tag_id orig = do
    let m = clone orig
    ok (
        if contains tag_id orig.tags
        then none
        else some (record m { tags = m.tags ++ tag_id ∷ []; updated_at = now }))

  -- The first occurrence goes.
  abbrev pub without_tag : String → Message → Result Error (Option Message)
  without_tag tag_id orig = do
    let m = clone orig
    ok (
        if contains tag_id orig.tags
        then some (record m { tags = remove_first tag_id m.tags; updated_at = now })
        else none)

  abbrev pub trashed : Message → Result Error (Option Message)
  trashed orig = do
    let m = clone orig
    ok (some (record m { folder_id = folder_trash; updated_at = now }))

  abbrev pub restored : Message → Result Error (Option Message)
  restored orig = do
    fail_if (not (orig.folder_id == folder_trash)) not_found
    let m = clone orig
    ok (some (record m { folder_id = home_folder m; updated_at = now }))

-- MarkRead reads the clock twice.
unfoldable pub mark_read : String → Bool → Time → Time → Handler (Unit {0})
mark_read id read now read_now = edit id (ok tt) (with_read now read read_now)

abbrev pub check_source : String → Result Error (Unit {0})
check_source from = fail_if (not (from == "") && not (is_valid_folder_id from)) invalid_folder_id

-- MoveToFolder, with the source folder of the move options
unfoldable pub move_to_folder : String → String → List MoveOption → Time → Handler (Unit {0})
move_to_folder id folder_id opts now =
    let from = apply_move_options opts in
    edit id (check_source from) (with_folder now from folder_id)

-- AddTag
unfoldable pub add_tag : String → String → Time → Handler (Unit {0})
add_tag id tag_id now = edit id (ok tt) (with_tag now tag_id)

-- RemoveTag
unfoldable pub remove_tag : String → String → Time → Handler (Unit {0})
remove_tag id tag_id now = edit id (ok tt) (without_tag now tag_id)

-- Delete, the soft one
unfoldable pub delete : String → Time → Handler (Unit {0})
delete id now = edit id (ok tt) (trashed now)

-- Restore
unfoldable pub restore : String → Time → Handler (Unit {0})
restore id now = edit id (ok tt) (restored now)

-- HardDelete
unfoldable pub hard_delete : String → Handler (Unit {0})
hard_delete id s = elim (do checked s id; find_message s id) [
  | ok m ↦ (ok tt, record s { messages = SyncMap.delete id s.messages })
  | err e ↦ (err e, s)
]

abbrev pub is_unread_in : String → String → Message → Bool
is_unread_in owner_id folder_id m =
    not m.is_draft && not m.is_read && m.owner_id == owner_id && m.folder_id == folder_id

abbrev pub mark_one : Time → Message → Message
mark_one now orig =
    let m = clone orig in record m { is_read = true; read_at = some now; updated_at = now }

-- What the body of MarkAllRead's Range does to one entry: a test on the value that Range saw, and
-- the test again on the value that is there under the lock.
unfoldable pub mark_entry :
    String → String → Time → String → Message → SyncMap Message → ℕ × SyncMap Message
mark_entry owner_id folder_id now key seen ms =
    if is_unread_in owner_id folder_id seen
    then elim (load key ms) [
      | none ↦ (0, ms)
      | some orig ↦
          if is_unread_in owner_id folder_id orig
          then (1, store key (mark_one now orig) ms)
          else (0, ms)
    ]
    else (0, ms)

unfoldable pub mark_entries :
    String → String → Time → SyncMap Message → SyncMap Message → ℕ × SyncMap Message
mark_entries owner_id folder_id now [] ms = (0, ms)
mark_entries owner_id folder_id now ((key, seen) ∷ rest) ms =
    let (n, ms') = mark_entry owner_id folder_id now key seen ms in
    let (k, ms'') = mark_entries owner_id folder_id now rest ms' in (n + k, ms'')

-- MarkAllRead
unfoldable pub mark_all_read : String → String → Time → Handler ℕ
unfolding mark_entries mark_entry
mark_all_read owner_id folder_id now s = elim (check_connected s) [
  | err e ↦ (err e, s)
  | ok _ ↦
      let (n, ms) = mark_entries owner_id folder_id now s.messages s.messages in
      (ok n, record s { messages = ms })
]
