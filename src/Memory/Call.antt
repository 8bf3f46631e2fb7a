-- ===== src/Memory/Call.antt =====
-- The calls that change the backend, as data: a history of the backend is a list of them. What a call
-- draws from the clock and from uuid.New() is among its arguments.
use mailbox.Prelude.{ℕ, String, Bool, List, [], ◌∷◌}
use mailbox.Store.{Time, MessageData, IdempotentCreateEntry, MoveOption}
use mailbox.Store.Filter.{Filter}
use mailbox.Memory
use mailbox.Memory.{Message, Store}
use mailbox.Memory.Write
use mailbox.Memory.Create
use mailbox.Memory.Drafts
use mailbox.Memory.Maintenance
use mailbox.Memory.Bulk

pub data Call : Type 0 where
  connect close : Call
  create_message : MessageData → String → Time → Call
  create_messages : (ℕ → String) → (ℕ → Time) → List MessageData → Call
  create_message_idempotent : MessageData → String → (ℕ → String) → Time → Call
  create_messages_idempotent : (ℕ → ℕ → String) → (ℕ → Time) → List IdempotentCreateEntry → Call
  mark_read : String → Bool → Time → Time → Call
  mark_all_read : String → String → Time → Call
  move_to_folder : String → String → List MoveOption → Time → Call
  add_tag remove_tag : String → String → Time → Call
  delete restore : String → Time → Call
  hard_delete delete_draft : String → Call
  save_draft : Message → String → Time → Call
  delete_expired_trash delete_expired_messages delete_ttl_expired_messages : Time → Call
  delete_messages_by_ids : List String → Call
  mark_read_by_filter : String → List Filter → Bool → Time → Time → Call
  move_by_filter add_tag_by_filter remove_tag_by_filter :
      String → List Filter → String → Time → Call
  delete_by_filter : String → List Filter → Time → Call

-- The state after a call, whatever it returned
unfoldable pub perform : Call → Store → Store
perform Call.connect s = (Memory.connect s).1
perform Call.close s = (Memory.close s).1
perform (Call.create_message d fresh now) s = (Create.create_message d fresh now s).1
perform (Call.create_messages uuid clock ds) s = (Create.create_messages uuid clock ds s).1
perform (Call.create_message_idempotent d key uuid now) s =
    (Create.create_message_idempotent d key uuid now s).1
perform (Call.create_messages_idempotent uuid clock es) s =
    (Create.create_messages_idempotent uuid clock es s).1
perform (Call.mark_read id read now read_now) s = (Write.mark_read id read now read_now s).1
perform (Call.mark_all_read owner folder now) s = (Write.mark_all_read owner folder now s).1
perform (Call.move_to_folder id folder opts now) s = (Write.move_to_folder id folder opts now s).1
perform (Call.add_tag id tag now) s = (Write.add_tag id tag now s).1
perform (Call.remove_tag id tag now) s = (Write.remove_tag id tag now s).1
perform (Call.delete id now) s = (Write.delete id now s).1
perform (Call.restore id now) s = (Write.restore id now s).1
perform (Call.hard_delete id) s = (Write.hard_delete id s).1
perform (Call.delete_draft id) s = (Drafts.delete_draft id s).1
perform (Call.save_draft draft fresh now) s = (Drafts.save_draft draft fresh now s).1
perform (Call.delete_expired_trash t) s = (Maintenance.delete_expired_trash t s).1
perform (Call.delete_expired_messages t) s = (Maintenance.delete_expired_messages t s).1
perform (Call.delete_ttl_expired_messages t) s = (Maintenance.delete_ttl_expired_messages t s).1
perform (Call.delete_messages_by_ids ids) s = (Maintenance.delete_messages_by_ids ids s).1
perform (Call.mark_read_by_filter owner fs read read_now now) s =
    (Bulk.mark_read_by_filter owner fs read read_now now s).1
perform (Call.move_by_filter owner fs folder now) s = (Bulk.move_by_filter owner fs folder now s).1
perform (Call.add_tag_by_filter owner fs tag now) s = (Bulk.add_tag_by_filter owner fs tag now s).1
perform (Call.remove_tag_by_filter owner fs tag now) s =
    (Bulk.remove_tag_by_filter owner fs tag now s).1
perform (Call.delete_by_filter owner fs now) s = (Bulk.delete_by_filter owner fs now s).1

unfoldable pub run : List Call → Store → Store
run [] s = s
run (c ∷ cs) s = run cs (perform c s)
