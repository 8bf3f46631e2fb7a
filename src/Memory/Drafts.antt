-- ===== src/Memory/Drafts.antt =====
-- store/memory/store.go: the operations on drafts, and the setters of store/memory/message.go that a
-- draft goes through. SaveDraft is modelled for drafts of this backend, its fast path.
use mailbox.Prelude.{
  ℕ, ◌+◌, String, true, false, not, none, some, List, [], ◌∷◌, ◌++◌, ◌==◌, Result, ok, err, ◌>>=◌,
  ◌>>◌, fail_if, ok_or, eqb, if◌then◌else◌,
}
use mailbox.SyncMap
use mailbox.SyncMap.{load, store}
use mailbox.Store.{Error, Time, Value, Attachment, not_found, status_draft}
use mailbox.Memory.{Message, Store, Handler, clone, check_connected, checked, put}

-- NewDraft
abbrev pub new_draft : String → Time → Message
new_draft owner_id now = record {
  id = "";
  owner_id = owner_id;
  sender_id = owner_id;
  recipient_ids = [];
  subject = "";
  body = "";
  headers = [];
  metadata = [];
  status = status_draft;
  is_read = false;
  read_at = none;
  folder_id = "";
  tags = [];
  attachments = [];
  created_at = now;
  updated_at = now;
  is_draft = true;
  thread_id = "";
  reply_to_id = "";
  external_id = "";
  expires_at = none;
  available_at = none;
}

abbrev pub find_draft : Store → String → Result Error Message
find_draft s id = do
  m ← ok_or (load id s.messages) not_found
  fail_if (not m.is_draft) not_found
  ok m

-- GetDraft
unfoldable pub get_draft : Store → String → Result Error Message
get_draft s id = do checked s id; m ← find_draft s id; ok (clone m)

-- SaveDraft: a draft without an identifier gets a fresh one.
unfoldable pub save_draft : Message → String → Time → Handler Message
save_draft draft fresh now s = elim (check_connected s) [
  | err e ↦ (err e, s)
  | ok _ ↦
      let id = if draft.id == "" then fresh else draft.id in
      let m = record draft { id = id; updated_at = now; is_draft = true } in
      (ok (clone m), put s id (clone m))
]

-- DeleteDraft
unfoldable pub delete_draft : String → Handler (Unit {0})
delete_draft id s = elim (do checked s id; find_draft s id) [
  | ok m ↦ (ok tt, record s { messages = SyncMap.delete id s.messages })
  | err e ↦ (err e, s)
]

module _ (m : Message) (now : Time) where
  abbrev pub set_subject : String → Message
  set_subject subject = record m { subject = subject; updated_at = now }

  abbrev pub set_body : String → Message
  set_body body = record m { body = body; updated_at = now }

  abbrev pub set_recipients : List String → Message
  set_recipients recipient_ids = record m { recipient_ids = recipient_ids; updated_at = now }

  abbrev pub set_header : String → String → Message
  set_header key value = record m { headers = store key value m.headers; updated_at = now }

  abbrev pub set_metadata : String → Value → Message
  set_metadata key value = record m { metadata = store key value m.metadata; updated_at = now }

  abbrev pub add_attachment : Attachment → Message
  add_attachment attachment = record m {
    attachments = m.attachments ++ attachment ∷ [];
    updated_at = now;
  }

  -- SetTTL(d) at the clock's second reading; a length of time is not negative here.
  abbrev pub set_ttl : ℕ → Time → Message
  set_ttl d later = record m {
    expires_at = if eqb d 0 then none else some (now + d);
    updated_at = later;
  }

  abbrev pub set_external_id : String → Message
  set_external_id id = record m { external_id = id; updated_at = now }

  abbrev pub set_thread_id : String → Message
  set_thread_id id = record m { thread_id = id; updated_at = now }

  abbrev pub set_reply_to_id : String → Message
  set_reply_to_id id = record m { reply_to_id = id; updated_at = now }

  -- SetScheduleAt; the zero instant clears the schedule.
  abbrev pub set_schedule_at : Time → Message
  set_schedule_at t = record m { available_at = if eqb t 0 then none else some t; updated_at = now }
