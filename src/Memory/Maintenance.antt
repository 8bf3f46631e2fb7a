-- ===== src/Memory/Maintenance.antt =====
-- store/memory/create.go, the maintenance operations: each collects identifiers in a first pass over
-- the map and deletes them in a second, counting the entries that this call removed.
pub mod Winners
pub mod Expiry
use mailbox.Prelude.{
  ℕ, String, Bool, false, not, ◌&&◌, Option, none, some, List, [], ◌∷◌, ◌==◌, ok, err, ltb, length,
  if◌then◌else◌,
}
use mailbox.SyncMap.{SyncMap, load_and_delete}
use mailbox.Store.{Time, folder_trash}
use mailbox.Memory.{Message, Handler, check_connected}

-- The first pass: the keys whose entries pass the test
unfoldable pub collect : (Message → Bool) → SyncMap Message → List String
collect p [] = []
collect p ((key, m) ∷ ms) = let rest = collect p ms in if p m then key ∷ rest else rest

-- The second pass: which of the identifiers this call deleted
unfoldable pub delete_ids : List String → SyncMap Message → List String × SyncMap Message
unfolding load_and_delete
delete_ids [] ms = ([], ms)
delete_ids (id ∷ ids) ms =
    let (loaded, ms') = load_and_delete id ms in
    let (deleted, ms'') = delete_ids ids ms' in (if loaded then id ∷ deleted else deleted, ms'')

abbrev pub delete_where : (Message → Bool) → Handler ℕ
delete_where p s = elim (check_connected s) [
  | err e ↦ (err e, s)
  | ok _ ↦
      let (deleted, ms) = delete_ids (collect p s.messages) s.messages in
      (ok (length deleted), record s { messages = ms })
]

abbrev pub is_expired_trash : Time → Message → Bool
is_expired_trash cutoff m = not m.is_draft && m.folder_id == folder_trash && ltb m.updated_at cutoff

abbrev pub is_old : Time → Message → Bool
is_old cutoff m = not m.is_draft && ltb m.created_at cutoff

abbrev is_before : Option Time → Time → Bool
is_before none now = false
is_before (some t) now = ltb t now

abbrev pub is_ttl_expired : Time → Message → Bool
is_ttl_expired now m = not m.is_draft && is_before m.expires_at now

-- DeleteExpiredTrash
unfoldable pub delete_expired_trash : Time → Handler ℕ
unfolding collect delete_ids
delete_expired_trash cutoff = delete_where (is_expired_trash cutoff)

-- DeleteExpiredMessages
unfoldable pub delete_expired_messages : Time → Handler ℕ
unfolding collect delete_ids
delete_expired_messages cutoff = delete_where (is_old cutoff)

-- DeleteTTLExpiredMessages
unfoldable pub delete_ttl_expired_messages : Time → Handler ℕ
unfolding collect delete_ids
delete_ttl_expired_messages now = delete_where (is_ttl_expired now)

-- DeleteMessagesByIDs
unfoldable pub delete_messages_by_ids : List String → Handler (List String)
unfolding delete_ids
delete_messages_by_ids ids s = elim (check_connected s) [
  | err e ↦ (err e, s)
  | ok _ ↦ let (deleted, ms) = delete_ids ids s.messages in (ok deleted, record s { messages = ms })
]
