-- ===== src/Memory/Invariant/Bulks.antt =====
-- The bulk updates keep the invariant: none of their functions changes an identifier.
use mailbox.Prelude.{◌∙◌, String, ◌≡◌, refl, Bool, List, [], ◌∷◌, arith, inl, inr}
use mailbox.SyncMap.{SyncMap}
use mailbox.Store.{Time, folder_trash}
use mailbox.Store.Filter.{Filter}
use mailbox.Memory.{Message, Store, clone}
use mailbox.Memory.Bulk.{
  set_read, set_folder, append_tag, drop_tag, update_entry, update_entries, iterate_filtered,
  mark_read_by_filter, move_by_filter, delete_by_filter, add_tag_by_filter, remove_tag_by_filter,
}
use mailbox.Memory.Bulk.Rounds.{update_entry_cases}
use mailbox.Memory.Invariant.{IsValid, store-IsValid}

module _ (owner : String) (filters : List Filter) (now : Time) where
  module _ (fn : Message → Message) (keeps : (m : Message) → (fn m).id ≡ m.id) where
    update_entry-IsValid :
        (key : String) (seen : Message) (ms : SyncMap Message)
        → IsValid ms
        → IsValid (update_entry owner filters now fn key seen ms).1
    update_entry-IsValid key seen ms v =
        elim (update_entry_cases owner filters now fn key seen ms) [
          | inl same ↦ rw same v
          | inr (orig, found, _, new) ↦ rw new (
              store-IsValid (record (fn (clone orig)) { updated_at = now }) ms
                (keeps orig ∙ v.keyed key orig found) v)
        ]

    update_entries-IsValid :
        (entries ms : SyncMap Message)
        → IsValid ms
        → IsValid (update_entries owner filters now fn entries ms).1
    unfolding update_entries
    update_entries-IsValid [] ms v = v
    update_entries-IsValid ((key, seen) ∷ rest) ms v =
        update_entries-IsValid rest _ (update_entry-IsValid key seen ms v)

    pub iterate_filtered-IsValid :
        (s : Store)
        → IsValid s.messages
        → IsValid (iterate_filtered owner filters now fn s).1.messages
    unfolding iterate_filtered
    iterate_filtered-IsValid s v = ground (arith, update_entries-IsValid s.messages s.messages v)

  module _ (s : Store) (v : IsValid s.messages) where
    pub mark_read_by_filter-IsValid :
        (read : Bool) (read_now : Time)
        → IsValid (mark_read_by_filter owner filters read read_now now s).1.messages
    unfolding mark_read_by_filter
    mark_read_by_filter-IsValid read read_now =
        iterate_filtered-IsValid (set_read read read_now) (λ m. refl) s v

    pub move_by_filter-IsValid :
        (folder : String) → IsValid (move_by_filter owner filters folder now s).1.messages
    unfolding move_by_filter
    move_by_filter-IsValid folder = iterate_filtered-IsValid (set_folder folder) (λ m. refl) s v

    pub delete_by_filter-IsValid : IsValid (delete_by_filter owner filters now s).1.messages
    unfolding delete_by_filter
    delete_by_filter-IsValid = iterate_filtered-IsValid (set_folder folder_trash) (λ m. refl) s v

    pub add_tag_by_filter-IsValid :
        (tag : String) → IsValid (add_tag_by_filter owner filters tag now s).1.messages
    unfolding add_tag_by_filter
    add_tag_by_filter-IsValid tag =
        iterate_filtered-IsValid (append_tag tag) (λ m. ground arith) s v

    pub remove_tag_by_filter-IsValid :
        (tag : String) → IsValid (remove_tag_by_filter owner filters tag now s).1.messages
    unfolding remove_tag_by_filter
    remove_tag_by_filter-IsValid tag = iterate_filtered-IsValid (drop_tag tag) (λ m. refl) s v
