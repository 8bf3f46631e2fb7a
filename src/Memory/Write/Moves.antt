-- ===== src/Memory/Write/Moves.antt =====
-- MoveToFolder as a claim, and the way to the trash and back.
use mailbox.Prelude.{
  String, ◌≡◌, ◌≢◌, true, false, some, [], ◌∷◌, arith, ok, err, eq_iff, ◌==◌, if◌then◌else◌,
}
use mailbox.SyncMap.{load, load-store_self}
use mailbox.Store.{
  Time, from_folder, apply_move_options, is_valid_folder_id, folder_mismatch, folder_trash,
  not_found, folder_sent, folder_inbox, is_sent_by_owner,
}
use mailbox.Memory.{Message, Store, put}
use mailbox.Memory.Write.{move_to_folder, delete, restore}

-- A message that a caller can move: the backend is connected and holds it as no draft.
pub record Stored (s : Store) (id : String) (m : Message) : Type 0 where
  pub connected : s.connected ≡ true
  pub named : (id == "") ≡ false
  pub found : load id s.messages ≡ some m
  pub sent : m.is_draft ≡ false

module _ (s : Store) (id from : String) (m : Message) (h : Stored s id m) where
  -- Of two conditional moves out of one folder, both started when the message is there, exactly the
  -- first succeeds: it moves the message, and the second fails with a folder mismatch and changes
  -- nothing, provided the first one's target is another folder.
  pub move_claims_once :
      (to other : String) (now later : Time)
      → (from == "") ≡ false
      → is_valid_folder_id from ≡ true
      → m.folder_id ≡ from
      → from ≢ to
      → let moved = put s id (record m { folder_id = to; updated_at = now }) in
        (move_to_folder id to (from_folder from ∷ []) now s ≡ (ok tt, moved))
        × (move_to_folder id other (from_folder from ∷ []) later moved
            ≡ (err folder_mismatch, moved))
  unfolding move_to_folder apply_move_options
  move_claims_once to other now later named valid here apart =
      let m' = record m { folder_id = to; updated_at = now } in
      (
        ground (arith, eq_iff m.folder_id from),
        ground (arith, load-store_self id m' s.messages, eq_iff to from),
      )

  -- After a soft delete, Restore brings the message back, in the sent folder when its owner is its
  -- sender and in the inbox when not, with nothing else changed but the time of update; the folder
  -- before the delete is forgotten.
  pub restore-delete :
      (now later : Time)
      → let moved = put s id (record m { folder_id = folder_trash; updated_at = now }) in
        let home = if m.owner_id == m.sender_id then folder_sent else folder_inbox in
        let back = record m { folder_id = home; updated_at = later } in
        (delete id now s ≡ (ok tt, moved))
        × (restore id later moved ≡ (ok tt, put moved id back))
        × (load id (put moved id back).messages ≡ some back)
  unfolding delete restore is_sent_by_owner
  restore-delete now later =
      let m' = record m { folder_id = folder_trash; updated_at = now } in
      let home = if m.owner_id == m.sender_id then folder_sent else folder_inbox in
      let back = record m { folder_id = home; updated_at = later } in
      (ground arith, ground (arith, load-store_self id m' s.messages), load-store_self id back _)

  -- Restore of a message that is not in the trash fails as if it were not there.
  pub restore_outside_trash :
      (now : Time) → (m.folder_id == folder_trash) ≡ false → restore id now s ≡ (err not_found, s)
  unfolding restore
  restore_outside_trash now outside = ground arith
