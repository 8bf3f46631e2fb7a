-- ===== src/Memory/Invariant/Writes.antt =====
-- Every handler of write.go keeps the invariant.
use mailbox.Prelude.{String, Bool, List, [], ◌∷◌, arith, inl, inr, ok}
use mailbox.SyncMap.{SyncMap}
use mailbox.Store.{Time, MoveOption, apply_move_options}
use mailbox.Memory.{Message, Store}
use mailbox.Memory.Write.{
  with_read, with_folder, with_tag, without_tag, trashed, restored, check_source, mark_read,
  move_to_folder, add_tag, remove_tag, delete, hard_delete, restore, mark_entry, mark_entries,
  mark_all_read, mark_one,
}
use mailbox.Memory.Write.MarkAll.{mark_entry_cases}
use mailbox.Memory.Invariant.{IsValid, store-IsValid, delete-IsValid, edit-IsValid}

module _ (s : Store) (v : IsValid s.messages) (id : String) where
  pub mark_read-IsValid :
      (read : Bool) (now read_now : Time) → IsValid (mark_read id read now read_now s).1.messages
  unfolding mark_read
  mark_read-IsValid read now read_now =
      edit-IsValid id (ok tt) (with_read now read read_now) (λ m. ground arith) s v

  pub move_to_folder-IsValid :
      (folder_id : String) (opts : List MoveOption) (now : Time)
      → IsValid (move_to_folder id folder_id opts now s).1.messages
  unfolding move_to_folder
  move_to_folder-IsValid folder_id opts now =
      edit-IsValid id (check_source (apply_move_options opts))
        (with_folder now (apply_move_options opts) folder_id) (λ m. ground arith) s v

  pub add_tag-IsValid : (tag : String) (now : Time) → IsValid (add_tag id tag now s).1.messages
  unfolding add_tag
  add_tag-IsValid tag now = edit-IsValid id (ok tt) (with_tag now tag) (λ m. ground arith) s v

  pub remove_tag-IsValid :
      (tag : String) (now : Time) → IsValid (remove_tag id tag now s).1.messages
  unfolding remove_tag
  remove_tag-IsValid tag now = edit-IsValid id (ok tt) (without_tag now tag) (λ m. ground arith) s v

  pub delete-IsValid_soft : (now : Time) → IsValid (delete id now s).1.messages
  unfolding delete
  delete-IsValid_soft now = edit-IsValid id (ok tt) (trashed now) (λ m. ground arith) s v

  pub restore-IsValid : (now : Time) → IsValid (restore id now s).1.messages
  unfolding restore
  restore-IsValid now = edit-IsValid id (ok tt) (restored now) (λ m. ground arith) s v

  pub hard_delete-IsValid : IsValid (hard_delete id s).1.messages
  unfolding hard_delete
  hard_delete-IsValid = ground (arith, delete-IsValid id s.messages v)

module _ (owner folder : String) (now : Time) where
  mark_entry-IsValid :
      (key : String) (seen : Message) (ms : SyncMap Message)
      → IsValid ms
      → IsValid (mark_entry owner folder now key seen ms).1
  mark_entry-IsValid key seen ms v = elim (mark_entry_cases owner folder now key seen ms) [
    | inl same ↦ rw same v
    | inr (orig, found, _, new) ↦
        rw new (store-IsValid (mark_one now orig) ms (v.keyed key orig found) v)
  ]

  mark_entries-IsValid :
      (entries ms : SyncMap Message)
      → IsValid ms
      → IsValid (mark_entries owner folder now entries ms).1
  unfolding mark_entries
  mark_entries-IsValid [] ms v = v
  mark_entries-IsValid ((key, seen) ∷ rest) ms v =
      mark_entries-IsValid rest _ (mark_entry-IsValid key seen ms v)

  pub mark_all_read-IsValid :
      (s : Store) → IsValid s.messages → IsValid (mark_all_read owner folder now s).1.messages
  unfolding mark_all_read
  mark_all_read-IsValid s v = ground (arith, mark_entries-IsValid s.messages s.messages v)
