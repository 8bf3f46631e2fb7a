-- ===== src/Mailbox/Draft.antt =====
-- draft.go, SendMessage and saveDraft of send.go: messages that are composed, saved and sent. A length
-- of time that is not positive is 0, and the instant 0 is Go's zero time. Each setter reads the clock.
-- The validation errors of AddAttachment, ReplyTo and Forward are told apart by their kind only.
pub mod Reload
use mailbox.Prelude.{
  ℕ, zero, suc, ◌+◌, String, Bool, true, false, not, ◌&&◌, ◌||◌, Option, none, some, List, [], ◌∷◌,
  ◌++◌, ◌==◌, Result, ok, err, ◌>>=◌, ◌>>◌, fail_if, ltb, leb, eqb, length, if◌then◌else◌,
}
use Prim.Native.String
use package.text.Mathlib.Text.{starts_with}
use mailbox.Store.{Error, Time, Value, Attachment}
use mailbox.Memory
use mailbox.Memory.{Message}
use mailbox.Memory.Drafts.{
  new_draft, set_subject, set_body, set_recipients, set_header, set_metadata, add_attachment,
  set_ttl, set_external_id, set_thread_id, set_reply_to_id, set_schedule_at, save_draft,
  delete_draft,
}
use mailbox.Validation
use mailbox.Validation.{ValidationError, MessageLimits}
use mailbox.Mailbox.{
  Service, Config, UserMailbox, Handler, MailboxError, check_access, checked, lift_error,
  can_access,
}
use mailbox.Mailbox.Attachments.{resolve_attachments}
use mailbox.Mailbox.Delivery.{Setting, Draws}
use mailbox.Mailbox.Send.{Sent, send_draft}

-- The draft of the mailbox layer, without its mailbox
pub record Draft : Type 0 where
  pub message : Message
  pub saved : Bool
  pub thread_id : String
  pub reply_to_id : String
  pub external_id : String
  pub ttl : ℕ
  pub schedule_at : Option Time
  pub deliver_to : List String

-- newDraft
abbrev pub compose : UserMailbox → Time → Draft
compose u now = record {
  message = new_draft u.user_id now;
  saved = false;
  thread_id = "";
  reply_to_id = "";
  external_id = "";
  ttl = 0;
  schedule_at = none;
  deliver_to = [];
}

-- newSavedDraft
abbrev pub new_saved_draft : Message → Draft
new_saved_draft m = record {
  message = m;
  saved = true;
  thread_id = m.thread_id;
  reply_to_id = m.reply_to_id;
  external_id = m.external_id;
  ttl = 0;
  schedule_at = m.available_at;
  deliver_to = [];
}

module _ (d : Draft) (now : Time) where
  -- SetRecipients, SetDeliverTo, SetSubject, SetBody, SetHeader, SetMetadata, SetTTL, SetScheduleAt
  abbrev pub with_recipients : List String → Draft
  with_recipients ids = record d { message = set_recipients d.message now ids }

  abbrev pub with_deliver_to : List String → Draft
  with_deliver_to ids = record d { deliver_to = ids }

  abbrev pub with_subject : String → Draft
  with_subject subject = record d { message = set_subject d.message now subject }

  abbrev pub with_body : String → Draft
  with_body body = record d { message = set_body d.message now body }

  abbrev pub with_header : String → String → Draft
  with_header key value = record d { message = set_header d.message now key value }

  abbrev pub with_metadata : String → Value → Draft
  with_metadata key value = record d { message = set_metadata d.message now key value }

  abbrev pub with_ttl : ℕ → Time → Draft
  with_ttl ttl later = record d { ttl = ttl; message = set_ttl d.message now ttl later }

  abbrev pub with_schedule_at : Time → Draft
  with_schedule_at t = record d {
    schedule_at = if eqb t 0 then none else some t;
    message = set_schedule_at d.message now t;
  }

  -- AddAttachment; a nil attachment is none.
  unfoldable pub attach : MessageLimits → Option Attachment → Result MailboxError Draft
  attach limits none = err (MailboxError.invalid_message ValidationError.invalid_attachment)
  attach limits (some a) = do
    fail_if ((a.filename == "") || (a.content_type == ""))
        (MailboxError.invalid_message ValidationError.invalid_attachment)
    fail_if (ltb limits.max_attachment_size a.size)
        (MailboxError.invalid_message ValidationError.attachment_too_large)
    fail_if (leb limits.max_attachment_count (length d.message.attachments))
        (MailboxError.invalid_message ValidationError.too_many_attachments)
    ok (record d { message = add_attachment d.message now a })

  -- The lookup of ReplyTo and Forward
  abbrev found : UserMailbox → String → Service → Result MailboxError Message
  found u message_id s = do
    fail_if (message_id == "") MailboxError.invalid_id
    m ← lift_error (Memory.get s.store message_id)
    fail_if (not (can_access u m)) MailboxError.unauthorized
    ok m

  -- ReplyTo
  unfoldable pub reply_to : UserMailbox → String → Service → Result MailboxError Draft
  unfolding Memory.get
  reply_to u message_id s = do
    parent ← found u message_id s
    ok (record d {
      reply_to_id = message_id;
      thread_id = if parent.thread_id == "" then message_id else parent.thread_id;
    })

  abbrev forward_subject : String → String
  forward_subject subject =
      if starts_with "Fwd:" subject then subject else String.◌++◌ "Fwd: " subject

  abbrev add_all : List Attachment → Message → Message
  add_all [] m = m
  add_all (a ∷ rest) m = add_all rest (add_attachment m now a)

  -- Forward
  unfoldable pub forward : UserMailbox → String → Service → Result MailboxError Draft
  unfolding Memory.get
  forward u message_id s = do
    original ← found u message_id s
    let m =
        set_body (set_subject d.message now (forward_subject original.subject)) now original.body
    ok (record d { message = add_all original.attachments m })

module _ (cfg : Config) (st : Setting) (u : UserMailbox) where
  abbrev pub valid : Result ValidationError (Unit {0}) → Result MailboxError (Unit {0})
  valid (ok _) = ok tt
  valid (err e) = err (MailboxError.invalid_message e)

  -- The checks of saveDraft: an empty subject or body is not checked.
  abbrev pub check_draft : Message → Result MailboxError (Unit {0})
  check_draft m = do
    if m.subject == ""
        then ok tt
        else valid (Validation.validate_subject st.valid_utf8 m.subject st.limits)
    if m.body == "" then ok tt else valid (Validation.validate_body st.valid_utf8 m.body st.limits)
    valid (Validation.validate_headers m.headers st.limits)
    valid (Validation.validate_metadata st.lower st.json_size (some m.metadata) st.limits)
    valid (Validation.validate_attachments st.lower m.attachments st.limits)

  abbrev pub stored :
      Service → Result Error Message × Memory.Store → Result MailboxError Message × Service
  stored s (ok m, store) = (ok m, record s { store = store })
  stored s (err e, store) = (err (MailboxError.store_error e), record s { store = store })

  -- saveDraft
  unfoldable pub save_message : Message → String → Time → Handler Message
  unfolding Validation.validate_subject Validation.validate_body Validation.validate_headers
      Validation.validate_metadata Validation.validate_attachments save_draft
  save_message m fresh now s =
      checked s (do check_access u s; check_draft m)
        λ _ s. stored s (save_draft m fresh now s.store)

  abbrev pub linked : Draft → Time → Message
  linked d now =
      set_external_id (set_reply_to_id (set_thread_id d.message now d.thread_id) now d.reply_to_id)
        now d.external_id

  abbrev pub saved_as :
      Draft → Result MailboxError Message × Service → Result MailboxError Draft × Service
  saved_as d (ok m, s) = (ok (record d { message = m; saved = true }), s)
  saved_as d (err e, s) = (err e, s)

  -- Save
  unfoldable pub save : Draft → String → Time → Handler Draft
  unfolding save_message
  save d fresh now s = saved_as d (save_message (linked d now) fresh now s)

  -- Delete
  unfoldable pub delete : Draft → Handler (Unit {0})
  unfolding delete_draft
  delete d s =
      if not d.saved || (d.message.id == "")
      then (ok tt, s)
      else (let (r, store) = delete_draft d.message.id s.store in
          (lift_error r, record s { store = store }))

  module _ (dr : Draws) where
    -- Send: the result of sendDraft, and the draft, which is marked as saved when it was sent
    abbrev mark_sent :
        Draft → Result MailboxError Sent × Service → Result MailboxError Sent × Draft × Service
    mark_sent d (ok sent, s) = (ok sent, record d { saved = true }, s)
    mark_sent d (err e, s) = (err e, d, s)

    unfoldable pub send : Draft → Service → Result MailboxError Sent × Draft × Service
    unfolding send_draft
    send d s = mark_sent d (
        send_draft cfg st dr u d.message d.thread_id d.reply_to_id d.external_id d.ttl d.schedule_at
          d.deliver_to s)

pub record SendRequest : Type 0 where
  pub recipient_ids : List String
  pub subject : String
  pub body : String
  pub headers : List (String × String)
  pub metadata : List (String × Value)
  pub attachments : List Attachment
  pub attachment_ids : List String
  pub thread_id : String
  pub reply_to_id : String
  pub external_id : String
  pub deliver_to : List String
  pub ttl : ℕ
  pub schedule_at : Option Time

module _ (now : Time) where
  abbrev set_headers : List (String × String) → Message → Message
  set_headers [] m = m
  set_headers ((key, value) ∷ rest) m = set_headers rest (set_header m now key value)

  abbrev set_all_metadata : List (String × Value) → Message → Message
  set_all_metadata [] m = m
  set_all_metadata ((key, value) ∷ rest) m = set_all_metadata rest (set_metadata m now key value)

  abbrev attach_all : List Attachment → Message → Message
  attach_all [] m = m
  attach_all (a ∷ rest) m = attach_all rest (add_attachment m now a)

  -- The transient draft of SendMessage
  abbrev pub draft_of : UserMailbox → SendRequest → List Attachment → Message
  draft_of u req attachments =
      let m =
        set_body
          (set_subject (set_recipients (new_draft u.user_id now) now req.recipient_ids) now
            req.subject)
          now req.body in
      attach_all attachments (set_all_metadata req.metadata (set_headers req.headers m))

abbrev resolve_named :
    Config
    → UserMailbox
    → (String → Option Attachment)
    → List String
    → Service
    → Result MailboxError (List Attachment)
resolve_named cfg u get_metadata ids s =
    if eqb (length ids) 0 then ok [] else resolve_attachments cfg u get_metadata ids s

-- SendMessage; the attachments that are named are resolved after those that are given.
unfoldable pub send_message :
    Config
    → Setting
    → Draws
    → UserMailbox
    → (String → Option Attachment)
    → SendRequest
    → Time
    → Handler Sent
unfolding resolve_attachments send_draft
send_message cfg st dr u get_metadata req now s =
    checked s (do check_access u s; resolve_named cfg u get_metadata req.attachment_ids s)
      λ resolved s.
        send_draft cfg st dr u (draft_of now u req (req.attachments ++ resolved)) req.thread_id
          req.reply_to_id req.external_id req.ttl req.schedule_at req.deliver_to s
