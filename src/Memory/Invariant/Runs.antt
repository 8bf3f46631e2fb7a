-- ===== src/Memory/Invariant/Runs.antt =====
-- The invariant holds after every history of calls.
use mailbox.Prelude.{List, [], ◌∷◌, arith}
use mailbox.Memory.{Store, new, connect, close}
use mailbox.Memory.Call.{Call, perform, run}
use mailbox.Memory.Maintenance.{
  is_expired_trash, is_old, is_ttl_expired, delete_expired_trash, delete_expired_messages,
  delete_ttl_expired_messages,
}
use mailbox.Memory.Invariant.{IsValid, empty-IsValid}
use mailbox.Memory.Invariant.Writes
use mailbox.Memory.Invariant.Creates
use mailbox.Memory.Invariant.Deletes
use mailbox.Memory.Invariant.Bulks

perform-IsValid : (c : Call) (s : Store) → IsValid s.messages → IsValid (perform c s).messages
unfolding perform connect close delete_expired_trash delete_expired_messages
    delete_ttl_expired_messages
perform-IsValid Call.connect s v = ground arith
perform-IsValid Call.close s v = v
perform-IsValid (Call.create_message d fresh now) s v =
    Creates.create_message-IsValid d fresh now s v
perform-IsValid (Call.create_messages uuid clock ds) s v =
    Creates.create_messages-IsValid uuid clock ds s v
perform-IsValid (Call.create_message_idempotent d key uuid now) s v =
    Creates.create_message_idempotent-IsValid d key uuid now s v
perform-IsValid (Call.create_messages_idempotent uuid clock es) s v =
    Creates.create_messages_idempotent-IsValid uuid clock es s v
perform-IsValid (Call.mark_read id read now read_now) s v =
    Writes.mark_read-IsValid s v id read now read_now
perform-IsValid (Call.mark_all_read owner folder now) s v =
    Writes.mark_all_read-IsValid owner folder now s v
perform-IsValid (Call.move_to_folder id folder opts now) s v =
    Writes.move_to_folder-IsValid s v id folder opts now
perform-IsValid (Call.add_tag id tag now) s v = Writes.add_tag-IsValid s v id tag now
perform-IsValid (Call.remove_tag id tag now) s v = Writes.remove_tag-IsValid s v id tag now
perform-IsValid (Call.delete id now) s v = Writes.delete-IsValid_soft s v id now
perform-IsValid (Call.restore id now) s v = Writes.restore-IsValid s v id now
perform-IsValid (Call.hard_delete id) s v = Writes.hard_delete-IsValid s v id
perform-IsValid (Call.delete_draft id) s v = Deletes.delete_draft-IsValid id s v
perform-IsValid (Call.save_draft draft fresh now) s v =
    Creates.save_draft-IsValid draft fresh now s v
perform-IsValid (Call.delete_expired_trash t) s v =
    Deletes.delete_where-IsValid (is_expired_trash t) s v
perform-IsValid (Call.delete_expired_messages t) s v = Deletes.delete_where-IsValid (is_old t) s v
perform-IsValid (Call.delete_ttl_expired_messages t) s v =
    Deletes.delete_where-IsValid (is_ttl_expired t) s v
perform-IsValid (Call.delete_messages_by_ids ids) s v =
    Deletes.delete_messages_by_ids-IsValid ids s v
perform-IsValid (Call.mark_read_by_filter owner fs read read_now now) s v =
    Bulks.mark_read_by_filter-IsValid owner fs now s v read read_now
perform-IsValid (Call.move_by_filter owner fs folder now) s v =
    Bulks.move_by_filter-IsValid owner fs now s v folder
perform-IsValid (Call.add_tag_by_filter owner fs tag now) s v =
    Bulks.add_tag_by_filter-IsValid owner fs now s v tag
perform-IsValid (Call.remove_tag_by_filter owner fs tag now) s v =
    Bulks.remove_tag_by_filter-IsValid owner fs now s v tag
perform-IsValid (Call.delete_by_filter owner fs now) s v =
    Bulks.delete_by_filter-IsValid owner fs now s v

run_from-IsValid : (cs : List Call) (s : Store) → IsValid s.messages → IsValid (run cs s).messages
unfolding run
run_from-IsValid [] s v = v
run_from-IsValid (c ∷ cs) s v = run_from-IsValid cs (perform c s) (perform-IsValid c s v)

-- After any history of calls on a new backend, in any order and with any arguments, no identifier
-- has two entries and every message or draft stands under its own identifier.
pub run-IsValid : (cs : List Call) → IsValid (run cs new).messages
run-IsValid cs = run_from-IsValid cs new empty-IsValid
