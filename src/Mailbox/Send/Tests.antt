-- ===== src/Mailbox/Send/Tests.antt =====
-- A message that is sent, and instances of what is proved of sending.
use mailbox.Prelude.{
  ℕ, ◌+◌, is_ok, ◌+◌, ◌-◌, ◌≤◌, ◌<◌, ◌≡◌, refl, true, false, Option, none, some, [], ◌∷◌, ◌++◌,
  arith, ◌==◌, eqb, map, to_ℕ, contains, ok, err, ◌⊎◌, if◌then◌else◌,
}
use mailbox.SyncMap.{load}
use mailbox.Store.{Time, apply_move_options, folder_inbox}
use mailbox.Memory.{Message}
use mailbox.Memory.Create.{create_message}
use mailbox.Memory.Drafts.{new_draft, set_ttl, set_schedule_at}
use mailbox.StatsCache.{Event}
use mailbox.Validation.{MessageLimits}
use mailbox.Mailbox.{Service, Config, UserMailbox, MailboxError}
use mailbox.Mailbox.Attachments.References.{taken, create_sender_message-OverReleases}
use mailbox.Mailbox.Delivery.{
  Setting, Draws, Thread, create_sender_message, deliver_to_recipients, deduplicate_recipients,
}
use mailbox.Mailbox.Delivery.Recipients.{
  first_occurrences, occurrences, deduplicate_recipients-first,
}
use mailbox.Mailbox.Delivery.Counted.{Accounted}
use mailbox.Mailbox.Delivery.Accounting.{already, wanted, deliver_to_recipients-Accounts}
use mailbox.Mailbox.Delivery.Settled.{received}
use mailbox.Memory.Create.Idempotent.{HasCopy}
use mailbox.Mailbox.Delivery.Retry.{copy_key, deliver_to_recipients-once}
use mailbox.Mailbox.Send.{itoa_fuel, compute_ttl_fields, prepare, send_draft}
use mailbox.Mailbox.Draft.{Draft, compose, save}
use mailbox.Mailbox.Draft.Reload.{Restores, save-Restores}
use mailbox.Mailbox.Send.Expiry.{start, scheduled, Within, compute_ttl_fields-Bounds}
use mailbox.Mailbox.Send.Events.{Tells, send_draft-Tells}
use mailbox.Mailbox.Send.Preparation.{addressed}

abbrev limits : MessageLimits
limits = record {
  max_subject_length = 100;
  max_body_size = 100;
  max_attachment_size = 100;
  max_attachment_count = 4;
  max_recipient_count = 4;
  max_metadata_size = 100;
  max_metadata_keys = 4;
  max_header_count = 4;
  max_header_key_length = 50;
  max_header_value_length = 50;
  max_headers_total_size = 100;
}

-- The quota of cat cannot be read, and the second attachment is refused.
abbrev setting : Setting
setting = record {
  limits = limits;
  default_ttl = 0;
  min_ttl = 5;
  max_ttl = 50;
  min_schedule_delay = 2;
  max_schedule_delay = 20;
  resolve_user = none;
  before_send = λ user m. some m;
  after_send = λ user m. true;
  get_quota = some (λ id. if id == "cat" then none else some none);
  refuses_ref = λ id. id == "a2";
  has_l2 = false;
  l2 = λ id. none;
  acquires = true;
  lower = λ s. s;
  json_size = λ m. some 0;
  valid_utf8 = λ s. true;
}

abbrev draws : Draws
draws = record {
  thread_uuid = "t";
  sender_uuid = "s";
  copy_uuid = λ n k. if eqb n 0 then "c0" else "c1";
  now = 100;
  copy_now = λ n. 100 + n;
}

abbrev ann : UserMailbox
ann = record { user_id = "ann"; valid_user_id = true }

abbrev dans_mail : Message
dans_mail = record (new_draft "dan" 3) { id = "m1"; is_draft = false; folder_id = folder_inbox }

abbrev service : Service
service = record {
  connected = true;
  store = record {
    messages = ("m1", dans_mail) ∷ [];
    idempotency_idx = [];
    external_idx = [];
    connected = true;
  };
  cache = record { enabled = false; interval = 60; entries = [] };
  published = [];
  released = [];
  referenced = [];
}

abbrev config : Config
config = record { accepts = λ _. true; event_errors_fatal = false; has_attachments = true }

abbrev note : Message
note = record (new_draft "ann" 90) {
  recipient_ids = "bob" ∷ "cat" ∷ "bob" ∷ [];
  subject = "hi";
  body = "there";
}

abbrev photos : Message
photos = record note {
  attachments =
      record { id = "a1"; filename = "x"; content_type = "y"; size = 3; uri = "z"; created_at = 1 }
      ∷ record {
        id = "a2";
        filename = "x";
        content_type = "y";
        size = 3;
        uri = "z";
        created_at = 1;
      }
      ∷ [];
}

abbrev thread : Thread
thread = record {
  thread_id = "t";
  reply_to_id = "";
  external_id = "";
  expires_at = none;
  available_at = none;
}

note_sent :
    (send_draft config setting draws ann note "" "" "" 7 none [] service).1.published
    ≡ Event.message_received "bob" "ann" ∷ Event.message_sent "ann" ("bob" ∷ []) ∷ []
unfolding send_draft itoa_fuel create_message apply_move_options
note_sent = refl

deduplicate_recipients-first_example :
    (deduplicate_recipients note.recipient_ids ≡ first_occurrences note.recipient_ids)
    × (occurrences "bob" (deduplicate_recipients note.recipient_ids)
        ≡ to_ℕ (contains "bob" note.recipient_ids))
deduplicate_recipients-first_example = deduplicate_recipients-first note.recipient_ids "bob"

deliver_to_recipients-Accounts_example :
    let after = deliver_to_recipients config setting draws ann note thread "s" [] service in
    Accounted "bob" (occurrences "bob" (wanted config setting draws ann note [])) after.0
    × (occurrences "bob" after.0.delivered_to
        ≡ occurrences "bob" after.0.newly_delivered
          + already config setting draws ann note thread "s" [] service "bob")
    × (after.1.published ≡ service.published ++ received config ann after.0.newly_delivered)
deliver_to_recipients-Accounts_example =
    deliver_to_recipients-Accounts config setting draws ann note thread "s" [] service "bob"

-- The delivery of the note to bob was made before.
abbrev delivered_once : Service
delivered_once = record service {
  store = record service.store {
    messages = ("c9", record dans_mail { id = "c9"; owner_id = "bob" }) ∷ [];
    idempotency_idx = ("bob:s:bob", "c9") ∷ [];
  };
}

bob-HasCopy : HasCopy (copy_key config setting draws ann "bob" "s") delivered_once.store
unfolding load
bob-HasCopy = (record dans_mail { id = "c9"; owner_id = "bob" }, ("c9", refl, refl))

deliver_to_recipients-once_example :
    occurrences "bob"
      (deliver_to_recipients config setting draws ann note thread "s" []
        delivered_once).0.newly_delivered
    ≡ 0
deliver_to_recipients-once_example =
    deliver_to_recipients-once config setting draws ann "bob" note thread "s" [] delivered_once
      bob-HasCopy

send_draft-Tells_example :
    Tells config setting draws ann
      (addressed note [])
      (prepare setting draws ann config note "" "" "" 7 none [] service)
      service
      (send_draft config setting draws ann note "" "" "" 7 none [] service)
send_draft-Tells_example =
    send_draft-Tells config setting draws ann note "" "" "" 7 none [] service
      (λ m m' h. ground (arith, h))

create_sender_message-OverReleases_example :
    let (r, s') = create_sender_message config setting draws ann photos thread service in
    (r ≡ err MailboxError.attachment_ref_failed)
    × (load "s" s'.store.messages ≡ none)
    × (s'.referenced ≡ [] ++ taken setting.refuses_ref photos.attachments)
    × (s'.released
        ≡ []
          ++ (taken setting.refuses_ref photos.attachments ++ map (λ a. a.id) photos.attachments))
create_sender_message-OverReleases_example =
    create_sender_message-OverReleases config setting draws ann photos thread service refl refl refl
      refl

abbrev expiry : Option Time
expiry = some 117

abbrev planned : Option Time
planned = some 110

ttl_run : compute_ttl_fields setting draws ann 7 planned ≡ ok (expiry, planned)
unfolding compute_ttl_fields
ttl_run = refl

compute_ttl_fields-Bounds_example :
    let lifetime : ℕ = 7 in
    (planned ≡ scheduled setting draws ann planned)
    × ((expiry ≡ none) × (lifetime ≡ 0)
        ⊎ (expiry ≡ some (start setting draws ann planned + lifetime))
          × (0 < lifetime)
          × Within setting draws ann 5 50 lifetime)
    × ((start setting draws ann planned ≤ draws.now)
        ⊎ Within setting draws ann 2 20 (start setting draws ann planned - draws.now))
compute_ttl_fields-Bounds_example =
    compute_ttl_fields-Bounds setting draws ann 7 planned expiry planned ttl_run

abbrev composed : Draft
composed = record (compose ann 90) {
  message = set_schedule_at (set_ttl note 90 7 91) 92 200;
  thread_id = "t7";
  ttl = 7;
  schedule_at = some 200;
}

save-Restores_example :
    Restores config setting ann composed "d1" 95 (save config setting ann composed "d1" 95 service)
save-Restores_example = save-Restores config setting ann composed "d1" 95 service refl refl

composed_saved : is_ok (save config setting ann composed "d1" 95 service).0 ≡ true
unfolding save
composed_saved = refl
