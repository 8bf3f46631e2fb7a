-- ===== src/Memory/Tests.antt =====
-- Runs of the in-memory backend at concrete inputs, and instances of what is proved of it.
use mailbox.Prelude.{
  String, ◌≡◌, refl, Bool, true, false, none, some, List, [], ◌∷◌, arith, ok, err, eq_iff, contains,
  not, ◌&&◌,
}
use mailbox.SyncMap.{load, store}
use mailbox.Store.{
  ListOptions, desc, MessageData, from_folder, folder_inbox, folder_sent, folder_trash, status_sent,
  folder_mismatch, is_valid_folder_id,
}
use mailbox.Store.Filter.{owner_is}
use mailbox.Memory.{Message, Store, new, put, new_message_from_data}
use mailbox.Memory.Call.{Call, run}
use mailbox.Memory.Write.{move_to_folder, delete, restore}
use mailbox.Memory.Write.Edits.{Edit, Frame, apply_edit, apply_edit-Frame}
use mailbox.Memory.Write.Moves.{Stored, move_claims_once, restore-delete}
use mailbox.Memory.Create.{create_message_idempotent}
use mailbox.Memory.Create.Idempotent.{create_at_most_once}
use mailbox.Memory.Maintenance.{
  delete_messages_by_ids, delete_expired_trash, delete_expired_messages,
  delete_ttl_expired_messages,
}
use mailbox.Memory.Maintenance.Winners.{present, delete_winners}
use mailbox.Memory.Maintenance.Expiry.{Expiring, InOldTrash, Aged, PastExpiry, expiry_exact}
use mailbox.Memory.Matching.{matches_filters}
use mailbox.Memory.Query.{count, MessageList, find}
use mailbox.Memory.Query.Sorted.{Ordered, later_than, find-Ordered}
use mailbox.Memory.Stats.{MailboxStats, mailbox_stats}
use mailbox.Memory.Stats.Counts.{Counts, mailbox_stats_exact, count-owner_is}
use mailbox.Memory.Invariant.{IsValid}
use mailbox.Memory.Invariant.Runs.{run-IsValid}

abbrev hello : MessageData
hello = record {
  owner_id = "bob";
  sender_id = "ann";
  recipient_ids = "bob" ∷ [];
  subject = "hi";
  body = "there";
  headers = [];
  metadata = [];
  status = status_sent;
  folder_id = folder_inbox;
  attachments = [];
  tags = [];
  thread_id = "";
  reply_to_id = "";
  external_id = "";
  expires_at = some 9;
  available_at = none;
}

abbrev mail : Message
mail = new_message_from_data hello "m1" 5

abbrev other : Message
other = record (new_message_from_data hello "m2" 6) { folder_id = folder_trash; is_read = true }

abbrev two_messages : Store
two_messages = record {
  messages = ("m1", mail) ∷ ("m2", other) ∷ [];
  idempotency_idx = [];
  external_idx = [];
  connected = true;
}

abbrev history : List Call
history =
    Call.connect
    ∷ Call.create_message hello "m1" 5
    ∷ Call.mark_read "m1" true 6 6
    ∷ Call.delete "m1" 7
    ∷ Call.create_message_idempotent hello "k" (λ _. "m2") 8
    ∷ Call.delete_expired_trash 9
    ∷ []

two_messages-IsValid : IsValid two_messages.messages
unfolding load
two_messages-IsValid = record {
  distinct = (refl, (refl, tt));
  keyed = λ id m h. ground (arith, eq_iff "m1" id, eq_iff "m2" id);
}

Stored-mail : Stored two_messages "m1" mail
unfolding load
Stored-mail = record { connected = refl; named = refl; found = refl; sent = refl }

run-IsValid_example : IsValid (run history new).messages
run-IsValid_example = run-IsValid history

apply_edit-Frame_example :
    Frame "m1" two_messages (apply_edit (Edit.add_tag "x" 7) "m1" two_messages)
apply_edit-Frame_example = apply_edit-Frame (Edit.add_tag "x" 7) "m1" two_messages

move_claims_once_example :
    let moved = put two_messages "m1" (record mail { folder_id = folder_sent; updated_at = 7 }) in
    (move_to_folder "m1" folder_sent (from_folder folder_inbox ∷ []) 7 two_messages
      ≡ (ok tt, moved))
    × (move_to_folder "m1" "mine" (from_folder folder_inbox ∷ []) 8 moved
        ≡ (err folder_mismatch, moved))
unfolding is_valid_folder_id
move_claims_once_example =
    move_claims_once two_messages "m1" folder_inbox mail Stored-mail folder_sent "mine" 7 8 refl
      refl refl (ground (arith, eq_iff folder_inbox folder_sent))

restore-delete_example :
    let moved = put two_messages "m1" (record mail { folder_id = folder_trash; updated_at = 7 }) in
    let back = record mail { folder_id = folder_inbox; updated_at = 8 } in
    (delete "m1" 7 two_messages ≡ (ok tt, moved))
    × (restore "m1" 8 moved ≡ (ok tt, put moved "m1" back))
    × (load "m1" (put moved "m1" back).messages ≡ some back)
restore-delete_example = restore-delete two_messages "m1" folder_inbox mail Stored-mail 7 8

create_at_most_once_example :
    (m : Message) × (created : Bool) × (s' : Store) × (create_message_idempotent hello "k"
        (λ _. "m3")
        7
        two_messages
      ≡ (ok (m, created), s'))
    × (create_message_idempotent (record hello { subject = "again" }) "k" (λ _. "m4") 8 s'
        ≡ (ok (m, false), s'))
create_at_most_once_example =
    create_at_most_once hello (record hello { subject = "again" }) "k" (λ _. "m3") (λ _. "m4") 7 8
      two_messages refl refl refl

delete_winners_example :
    (won lost : List String) × (s' s'' : Store) × (delete_messages_by_ids
        ("m1" ∷ "m9" ∷ [])
        two_messages
      ≡ (ok won, s'))
    × (delete_messages_by_ids ("m1" ∷ "m2" ∷ []) s' ≡ (ok lost, s''))
    × ((j : String)
        → contains j won ≡ (contains j ("m1" ∷ "m9" ∷ []) && present j two_messages.messages))
    × ((j : String)
        → contains j lost ≡ (
            contains j ("m1" ∷ "m2" ∷ [])
            && (not (contains j ("m1" ∷ "m9" ∷ [])) && present j two_messages.messages)))
delete_winners_example = delete_winners ("m1" ∷ "m9" ∷ []) ("m1" ∷ "m2" ∷ []) two_messages refl

expiry_exact_example :
    Expiring (InOldTrash 10) delete_expired_trash 10 two_messages
    × Expiring (Aged 10) delete_expired_messages 10 two_messages
    × Expiring (PastExpiry 10) delete_ttl_expired_messages 10 two_messages
expiry_exact_example = expiry_exact 10 two_messages refl two_messages-IsValid

mailbox_stats_exact_example :
    (st : MailboxStats) × (mailbox_stats two_messages "bob" 7 ≡ ok st)
    × Counts "bob" 7 st two_messages.messages
mailbox_stats_exact_example = mailbox_stats_exact two_messages "bob" 7 refl

abbrev bob_stats : MailboxStats
bob_stats = record {
  total_messages = 2;
  unread_count = 1;
  draft_count = 0;
  folders =
      (folder_inbox, record { total = 1; unread = 1 })
      ∷ (folder_trash, record { total = 1; unread = 0 })
      ∷ [];
}

count-owner_is_example : count two_messages (owner_is "bob" ∷ []) 7 ≡ ok 2
unfolding mailbox_stats load store
count-owner_is_example = count-owner_is two_messages "bob" 7 bob_stats refl

abbrev newest_first : ListOptions
newest_first = record { limit = 2; offset = 0; sort_by = ""; sort_order = desc; start_after = "" }

abbrev listed : MessageList
listed = record { messages = other ∷ mail ∷ []; total = 2; has_more = false }

find-newest_first : find two_messages (owner_is "bob" ∷ []) newest_first 7 ≡ ok listed
unfolding find matches_filters
find-newest_first = refl

find-Ordered_example : Ordered (later_than desc) (other ∷ mail ∷ [])
find-Ordered_example =
    find-Ordered two_messages (owner_is "bob" ∷ []) newest_first 7 listed refl find-newest_first
