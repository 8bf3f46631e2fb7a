-- ===== src/Mailbox/Tests.antt =====
-- A user's mailbox at concrete inputs, and instances of what is proved of it.
use mailbox.Prelude.{
  String, ◌≡◌, refl, Bool, true, false, not, ◌&&◌, none, some, List, [], ◌∷◌, arith, err, eq_iff,
  ◌==◌, ℕ, ◌+◌, ◌-◌, leb, ltb, map, ok, ◌++◌,
}
use mailbox.Mailbox.Mutate
use mailbox.Memory
use mailbox.Memory.Write
use mailbox.SyncMap
use mailbox.Mailbox.Bulk.{bulk_op, success_count, failure_count, successful_ids}
use mailbox.Mailbox.Bulk.Results.{run_all, unreached, bulk_op_exact}
use mailbox.Mailbox.Bulk.Access.{BulkCall, apply_bulk, apply_bulk-Spares}
use mailbox.SyncMap.{SyncMap, load}
use mailbox.SyncMap.Counting.{count_values}
use mailbox.Store.{
  apply_move_options, MessageData, folder_inbox, folder_sent, folder_trash, status_sent,
}
use mailbox.Memory.{Message, new_message_from_data}
use mailbox.Memory.Invariant.{IsValid}
use mailbox.Memory.Stats.{MailboxStats, tally_all, empty_stats, counts_at}
use mailbox.Memory.Stats.Counts.{Counts-tally_all, is_unread}
use mailbox.StatsCache.{StatsEntry}
use mailbox.Mailbox.{Service, Config, UserMailbox, deliver, MailboxError, is_valid_user_id}
use mailbox.Mailbox.Mutate.{permanently_delete, update_flags}
use mailbox.Mailbox.Settling.{Right}
use mailbox.Mailbox.Runs.{Mutation, Action, run, run-Right}
use mailbox.Mailbox.Publishing.{Callable, update_flags_again, permanently_delete_outcome}
use mailbox.Mailbox.Access.Calls.{Call, after_call, after_call-Spares}
use mailbox.Mailbox.Access.Effects.{SparesCall}

abbrev letter : MessageData
letter = record {
  owner_id = "bob";
  sender_id = "ann";
  recipient_ids = "bob" ∷ [];
  subject = "hi";
  body = "there";
  headers = [];
  metadata = [];
  status = status_sent;
  folder_id = folder_inbox;
  attachments =
      record { id = "a1"; filename = "x"; content_type = "y"; size = 3; uri = "z"; created_at = 1 }
      ∷ [];
  tags = [];
  thread_id = "";
  reply_to_id = "";
  external_id = "";
  expires_at = none;
  available_at = none;
}

abbrev unread_mail : Message
unread_mail = new_message_from_data letter "m1" 5

abbrev thrown_mail : Message
thrown_mail = record (new_message_from_data letter "m2" 6) {
  folder_id = folder_trash;
  is_read = true;
}

abbrev anns_mail : Message
anns_mail = record (new_message_from_data letter "m3" 6) {
  owner_id = "ann";
  folder_id = folder_sent;
}

abbrev mails : SyncMap Message
mails = ("m1", unread_mail) ∷ ("m2", thrown_mail) ∷ ("m3", anns_mail) ∷ []

abbrev bob : UserMailbox
bob = record { user_id = "bob"; valid_user_id = true }

abbrev counted : MailboxStats
counted = tally_all "bob" 7 mails empty_stats

abbrev service : Service
service = record {
  connected = true;
  store = record { messages = mails; idempotency_idx = []; external_idx = []; connected = true };
  cache = record {
    enabled = true;
    interval = 60;
    entries = ("bob", record { stats = some counted; updated_at = 7 }) ∷ [];
  };
  published = [];
  released = [];
  referenced = [];
}

abbrev open_bus : Config
open_bus = record { accepts = λ _. true; event_errors_fatal = false; has_attachments = true }

abbrev closed_bus : Config
closed_bus = record { accepts = λ _. false; event_errors_fatal = true; has_attachments = true }

every : (Message → Bool) → SyncMap Message → Bool
every p [] = true
every p ((_, m) ∷ ms) = p m && every p ms

load-every :
    (p : Message → Bool) (id : String) (ms : SyncMap Message) {m : Message}
    → load id ms ≡ some m
    → every p ms ≡ true
    → p m ≡ true
unfolding load every
load-every p id [] h all = cc
load-every p id ((i, n) ∷ ms) {m} h all = ground (arith, load-every p id ms {m = m})

mails-IsValid : IsValid mails
unfolding load
mails-IsValid = record {
  distinct = (refl, (refl, (refl, tt)));
  keyed = λ id m h. ground (arith, eq_iff "m1" id, eq_iff "m2" id, eq_iff "m3" id);
}

Right-service : Right bob 7 service
unfolding deliver load every
Right-service =
    let counts = Counts-tally_all "bob" 7 mails in
    record {
      entry = record { stats = some counted; updated_at = 7 };
      stats = counted;
      cached = refl;
      holds = refl;
      tracks = record {
        total = counts.total;
        unread = counts.unread;
        folder_total = counts.folder_total;
        folder_unread = counts.folder_unread;
      };
      valid = mails-IsValid;
      in_folder =
          λ id m h. ground (arith, load-every (λ n. not (n.folder_id == "")) id mails h refl);
      available = λ id m h. ground arith;
    }

abbrev afternoon : List Action
afternoon =
    Action.call (Mutation.delete "m1" 8)
    ∷ Action.handle_next
    ∷ Action.call (Mutation.permanently_delete "m2")
    ∷ Action.call (Mutation.restore "m1" 9)
    ∷ Action.handle_next
    ∷ Action.call (Mutation.set_archived "m1" true 10)
    ∷ Action.call (Mutation.add_tag "m1" "t" 11)
    ∷ Action.call (Mutation.delete "m3" 12)
    ∷ []

run-Right_example : Right bob 7 (run open_bus bob afternoon service)
run-Right_example = run-Right open_bus bob 7 (λ _. refl) afternoon service Right-service

after_call-Spares_example :
    SparesCall open_bus bob service
      (after_call open_bus bob (Call.update_by_filter [] 1 (λ n k. 9) none 9 9 2) service)
after_call-Spares_example =
    after_call-Spares open_bus bob service mails-IsValid
      (Call.update_by_filter [] 1 (λ n k. 9) none 9 9 2)

Callable-thrown : Callable bob service "m2" thrown_mail
unfolding load
Callable-thrown = record {
  connected = refl;
  valid = refl;
  own = refl;
  stored = record { connected = refl; named = refl; found = refl; sent = refl };
}

permanently_delete_outcome_example :
    let (r, s') = permanently_delete closed_bus bob "m2" service in
    (load "m2" s'.store.messages ≡ none) × (r ≡ err MailboxError.event_publish) × (s'.released ≡ [])
permanently_delete_outcome_example =
    permanently_delete_outcome closed_bus bob service "m2" thrown_mail Callable-thrown refl refl

abbrev cached : StatsEntry
cached = record { stats = some counted; updated_at = 7 }

cached_there : load "bob" service.cache.entries ≡ some cached
unfolding load
cached_there = refl

update_flags_again_example :
    let s' =
      (update_flags open_bus bob "m2"
        (record { read = some true; archived = none })
        8
        8
        8
        service).1 in
    (count_values (is_unread "bob" 7) s'.store.messages ≡ count_values (is_unread "bob" 7) mails)
    × (stats' : MailboxStats) × (load "bob" (deliver s'.published s'.cache).entries
        ≡ some (record cached { stats = some stats' }))
    × (stats'.unread_count ≡ counted.unread_count - 1)
    × ((counts_at stats'.folders folder_trash).unread
        ≡ (counts_at counted.folders folder_trash).unread - 1)
update_flags_again_example =
    update_flags_again open_bus bob service "m2" thrown_mail Callable-thrown 8 8 8 7 cached counted
      refl refl refl refl cached_there refl

bob_is_valid : is_valid_user_id "bob" ≡ true
unfolding is_valid_user_id
bob_is_valid = refl

colons_are_invalid : is_valid_user_id "a:b" ≡ false
unfolding is_valid_user_id
colons_are_invalid = refl

abbrev targets : List String
targets = "m1" ∷ "missing" ∷ "m2" ∷ []

bulk_op_exact_example :
    let op = λ (i : ℕ) (id : String). Mutate.delete open_bus bob id (8 + i) in
    let (rs, s') = run_all op 0 ("m1" ∷ "missing" ∷ []) service in
    let all = rs ++ unreached ("m2" ∷ []) in
    (bulk_op (λ j. leb 2 j) bob op targets service
      ≡ (ok (record { results = all; failed = ltb 0 (failure_count all) }), s'))
    × (map (λ r. r.id) all ≡ targets)
    × (success_count all + failure_count all ≡ 3)
bulk_op_exact_example =
    bulk_op_exact (λ j. leb 2 j) (λ i id. Mutate.delete open_bus bob id (8 + i)) bob targets 2
      service (λ j. refl) refl

bulk_statuses :
    successful_ids (run_all (λ i id. Mutate.delete open_bus bob id (8 + i)) 0 targets service).0
    ≡ "m1" ∷ []
unfolding successful_ids Mutate.delete Memory.get load Write.move_to_folder SyncMap.store
    apply_move_options
bulk_statuses = refl

apply_bulk-Spares_example :
    SparesCall open_bus bob service
      (apply_bulk (λ j. false) open_bus bob ("m3" ∷ "m1" ∷ []) (BulkCall.delete (λ i. 8)) service).1
apply_bulk-Spares_example =
    apply_bulk-Spares (λ j. false) open_bus bob ("m3" ∷ "m1" ∷ []) service
      (BulkCall.delete (λ i. 8))
