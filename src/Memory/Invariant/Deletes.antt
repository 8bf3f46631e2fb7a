-- ===== src/Memory/Invariant/Deletes.antt =====
-- The maintenance operations keep the invariant.
use mailbox.Prelude.{String, Bool, List, [], ◌∷◌, arith}
use mailbox.SyncMap.{SyncMap, load_and_delete}
use mailbox.Memory.{Message, Store}
use mailbox.Memory.Drafts.{delete_draft}
use mailbox.Memory.Maintenance.{collect, delete_ids, delete_where, delete_messages_by_ids}
use mailbox.Memory.Invariant.{IsValid, delete-IsValid}

load_and_delete-IsValid :
    (id : String) (ms : SyncMap Message) → IsValid ms → IsValid (load_and_delete id ms).1
unfolding load_and_delete
load_and_delete-IsValid id ms v = ground (arith, delete-IsValid id ms v)

pub delete_ids-IsValid :
    (ids : List String) (ms : SyncMap Message) → IsValid ms → IsValid (delete_ids ids ms).1
unfolding delete_ids
delete_ids-IsValid [] ms v = v
delete_ids-IsValid (id ∷ ids) ms v = delete_ids-IsValid ids _ (load_and_delete-IsValid id ms v)

pub delete_where-IsValid :
    (p : Message → Bool) (s : Store) → IsValid s.messages → IsValid (delete_where p s).1.messages
delete_where-IsValid p s v = ground (arith, delete_ids-IsValid (collect p s.messages) s.messages v)

pub delete_messages_by_ids-IsValid :
    (ids : List String) (s : Store)
    → IsValid s.messages
    → IsValid (delete_messages_by_ids ids s).1.messages
unfolding delete_messages_by_ids
delete_messages_by_ids-IsValid ids s v = ground (arith, delete_ids-IsValid ids s.messages v)

pub delete_draft-IsValid :
    (id : String) (s : Store) → IsValid s.messages → IsValid (delete_draft id s).1.messages
unfolding delete_draft
delete_draft-IsValid id s v = ground (arith, delete-IsValid id s.messages v)
