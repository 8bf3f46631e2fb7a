-- ===== src/Mailbox/Send.antt =====
-- send.go: sending a draft, from its validation to the event that reports it.
pub mod Expiry
mod Tests
pub mod Access
pub mod Events
pub mod Preparation
use mailbox.Prelude.{
  ℕ, zero, suc, ◌+◌, ◌-◌, ◌*◌, ◌/◌, ◌%◌, String, Bool, true, false, not, ◌&&◌, Option, none, some,
  List, [], ◌∷◌, ◌++◌, ◌==◌, Result, ok, err, ◌>>=◌, ◌>>◌, fail_if, ltb, eqb, length, contains,
  if◌then◌else◌,
}
use Prim.Native.String
use Prim.Native.String.{len}
use mailbox.SyncMap.{load}
use mailbox.Store.{Error, Time, Scalar, Value, Attachment, folder_sent}
use mailbox.Memory
use mailbox.Memory.{Message}
use mailbox.Memory.Write
use mailbox.Memory.Drafts.{
  new_draft, set_recipients, set_header, set_metadata, set_subject, set_body, add_attachment,
  delete_draft, save_draft,
}
use mailbox.StatsCache.{Event}
use mailbox.Validation
use mailbox.Validation.{ValidationError}
use mailbox.Mailbox.{
  Service, Config, UserMailbox, Handler, MailboxError, check_access, checked, can_access,
  lift_error, publish_only,
}
use mailbox.Mailbox.Mutate.{with_store}
use mailbox.Mailbox.Attachments.{resolve_attachments}
use mailbox.Mailbox.Delivery.{
  Setting, Draws, Thread, Delivered, deduplicate_recipients, create_sender_message,
  deliver_to_recipients, rollback_sender_message,
}

-- The errors that are returned beside a message that was sent
pub data SendError : Type 0 where
  event_failed : MailboxError → SendError
  hook_failed : SendError
  partial_delivery : List String → List String → SendError

-- What a send returns when the message was sent: the sender's copy, and the errors joined
pub record Sent : Type 0 where
  pub message : Message
  pub errors : List SendError

-- strconv.Itoa of a length
abbrev digit : ℕ → String
digit n =
    if eqb n 0
    then "0"
    else if eqb n 1
    then "1"
    else if eqb n 2
    then "2"
    else if eqb n 3
    then "3"
    else if eqb n 4
    then "4"
    else if eqb n 5
    then "5"
    else if eqb n 6
    then "6"
    else if eqb n 7
    then "7"
    else if eqb n 8
    then "8"
    else "9"

unfoldable pub itoa_fuel : ℕ → ℕ → String
itoa_fuel zero n = ""
itoa_fuel (suc f) n =
    let high = itoa_fuel f (n / 10) in
    if ltb n 10 then digit n else String.◌++◌ high (digit (n % 10))

abbrev pub itoa : ℕ → String
itoa n = itoa_fuel (suc n) n

module _ (st : Setting) (dr : Draws) (u : UserMailbox) where
  -- resolveThreadID: the context of a message that the sender does not own is not inherited.
  abbrev inherited : String → Result Error Message → String
  inherited reply_to_id (err _) = dr.thread_uuid
  inherited reply_to_id (ok orig) =
      if can_access u orig
      then if orig.thread_id == "" then reply_to_id else orig.thread_id
      else dr.thread_uuid

  unfoldable pub resolve_thread_id : String → String → Service → String
  unfolding Memory.get
  resolve_thread_id thread_id reply_to_id s =
      if not (thread_id == "")
      then thread_id
      else if not (reply_to_id == "")
      then inherited reply_to_id (Memory.get s.store reply_to_id)
      else dr.thread_uuid

  abbrev pub effective_ttl : ℕ → ℕ
  effective_ttl ttl = if eqb ttl 0 then st.default_ttl else ttl

  abbrev pub check_ttl : ℕ → Result MailboxError (Unit {0})
  check_ttl ttl = do
    fail_if (ltb 0 ttl && ltb ttl st.min_ttl) MailboxError.invalid_ttl
    fail_if (ltb 0 ttl && ltb 0 st.max_ttl && ltb st.max_ttl ttl) MailboxError.invalid_ttl

  -- The delay until `t`, when it is still to come
  abbrev pub check_delay : Time → Result MailboxError (Unit {0})
  check_delay t = do
    fail_if (ltb dr.now t && ltb 0 st.min_schedule_delay && ltb (t - dr.now) st.min_schedule_delay)
        MailboxError.invalid_schedule
    fail_if (ltb dr.now t && ltb 0 st.max_schedule_delay && ltb st.max_schedule_delay (t - dr.now))
        MailboxError.invalid_schedule

  -- The schedule, if there is one: the zero instant is none.
  abbrev pub schedule : Option Time → Result MailboxError (Option Time)
  schedule none = ok none
  schedule (some t) = if eqb t 0 then ok none else (do check_delay t; ok (some t))

  abbrev or_now : Option Time → Time
  or_now none = dr.now
  or_now (some t) = t

  -- computeTTLFields: when the message expires, and from when it is available; the two readings of the
  -- clock are taken as one.
  unfoldable pub compute_ttl_fields :
      ℕ → Option Time → Result MailboxError (Option Time × Option Time)
  compute_ttl_fields ttl schedule_at =
      let effective = effective_ttl ttl in
      do
        check_ttl effective
        available_at ← schedule schedule_at
        ok (if ltb 0 effective then some (or_now available_at + effective) else none, available_at)

  abbrev inject_if : String → String → Message → Message
  inject_if key text m =
      if text == "" then m else set_metadata m dr.now key (Value.scalar (Scalar.text text))

  abbrev inject : Option (String × String × String) → Message → Result MailboxError Message
  inject none draft = err MailboxError.user_resolve_failed
  inject (some (first, last, email)) draft = ok (
      inject_if "sender.email" email
        (inject_if "sender.lastname" last (inject_if "sender.firstname" first draft)))

  -- resolveAndInjectUserMetadata
  unfoldable pub resolve_and_inject_user_metadata : Message → Result MailboxError Message
  resolve_and_inject_user_metadata draft = elim st.resolve_user [
    | none ↦ ok draft
    | some resolve ↦ inject (resolve u.user_id) draft
  ]

  abbrev is_missing : Option String → Bool
  is_missing none = true
  is_missing (some v) = v == ""

  -- Step 2: the Content-Length header
  abbrev pub with_content_length : Message → Message
  with_content_length draft =
      if is_missing (load "Content-Length" draft.headers)
      then set_header draft dr.now "Content-Length" (itoa (len draft.body))
      else draft

  abbrev pub all_among : List String → List String → Bool
  all_among [] xs = true
  all_among (id ∷ ids) xs = let rest = all_among ids xs in if contains id xs then rest else false

  abbrev lift_validation : Result ValidationError (Unit {0}) → Result MailboxError (Unit {0})
  lift_validation (ok _) = ok tt
  lift_validation (err e) = err (MailboxError.invalid_message e)

  abbrev before : Option Message → Result MailboxError Message
  before none = err MailboxError.plugin_failed
  before (some draft) = ok draft

  -- The steps of sendDraft before the first write: the draft as it is sent, the targets, its thread
  -- and its times
  unfoldable pub prepare :
      Config
      → Message
      → String
      → String
      → String
      → ℕ
      → Option Time
      → List String
      → Service
      → Result MailboxError (Message × List String × Thread)
  unfolding deduplicate_recipients resolve_and_inject_user_metadata
      Validation.validate_message_reader resolve_thread_id compute_ttl_fields
  prepare cfg draft thread_id reply_to_id external_id ttl schedule_at deliver_to s =
      let d₁ = set_recipients draft dr.now (deduplicate_recipients draft.recipient_ids) in
      let targets = deduplicate_recipients deliver_to in
      do
        fail_if (not (all_among targets d₁.recipient_ids)) MailboxError.invalid_recipient
        d₂ ← resolve_and_inject_user_metadata (with_content_length d₁)
        lift_validation
            (Validation.validate_message_reader st.lower st.json_size st.valid_utf8 d₂ st.limits)
        fail_if (ltb 0 (length d₂.attachments) && not cfg.has_attachments)
            MailboxError.attachment_store_not_configured
        fail_if (not st.acquires) MailboxError.send_not_acquired
        d₃ ← before (st.before_send u.user_id d₂)
        times ← compute_ttl_fields ttl schedule_at
        ok (
          d₃,
          targets,
          record {
            thread_id = resolve_thread_id thread_id reply_to_id s;
            reply_to_id = reply_to_id;
            external_id = external_id;
            expires_at = times.0;
            available_at = times.1;
          },
        )

module _ (cfg : Config) (st : Setting) (dr : Draws) (u : UserMailbox) where
  -- finalizeDelivery: the message that is returned, and the error beside it
  abbrev pub fetched :
      Message
      → Result Error Message
      → List String
      → Service
      → (Message × Result MailboxError (Unit {0})) × Service
  fetched copy (err e) newly s = ((copy, err (MailboxError.store_error e)), s)
  fetched copy (ok m) newly s =
      let (r, s') = publish_only cfg (Event.message_sent copy.sender_id newly) s in ((m, r), s')

  abbrev pub drop_draft : Message → Memory.Store → Memory.Store
  drop_draft draft store = if draft.id == "" then store else (delete_draft draft.id store).1

  abbrev pub moved_to_sent :
      Message
      → List String
      → Message
      → Service
      → Result Error (Unit {0}) × Memory.Store
      → (Message × Result MailboxError (Unit {0})) × Service
  moved_to_sent copy newly draft s (err e, store) =
      ((copy, err (MailboxError.store_error e)), record s { store = store })
  moved_to_sent copy newly draft s (ok _, store) =
      let store' = drop_draft draft store in
      fetched copy (Memory.get store' copy.id) newly (record s { store = store' })

  unfoldable pub finalize_delivery :
      Message
      → List String
      → Message
      → Service
      → (Message × Result MailboxError (Unit {0})) × Service
  unfolding Write.move_to_folder Memory.get delete_draft
  finalize_delivery copy newly draft s =
      moved_to_sent copy newly draft s (Write.move_to_folder copy.id folder_sent [] dr.now s.store)

  abbrev pub partial : Delivered → List SendError
  partial d = if ltb 0 (length d.failed) then partial_delivery d.delivered_to d.failed ∷ [] else []

  abbrev pub report :
      Delivered
      → (Message × Result MailboxError (Unit {0})) × Service
      → Result MailboxError Sent × Service
  report d ((m, err e), s) = (ok (record { message = m; errors = event_failed e ∷ partial d }), s)
  report d ((m, ok _), s) = (
    ok (record {
      message = m;
      errors = if st.after_send u.user_id m then partial d else hook_failed ∷ partial d;
    }),
    s,
  )

  -- Steps 8 to 11
  abbrev pub conclude : Message → Message → Delivered × Service → Result MailboxError Sent × Service
  conclude copy draft (d, s) =
      if eqb (length d.delivered_to) 0
      then (err MailboxError.send_failed, rollback_sender_message cfg st dr u copy s)
      else report d (finalize_delivery copy d.newly_delivered draft s)

  abbrev pub deliver :
      Message
      → Thread
      → List String
      → Result MailboxError Message × Service
      → Result MailboxError Sent × Service
  deliver draft t targets (err e, s) = (err e, s)
  deliver draft t targets (ok copy, s) =
      conclude copy draft (deliver_to_recipients cfg st dr u draft t copy.id targets s)

  -- sendDraft
  unfoldable pub send_draft :
      Message → String → String → String → ℕ → Option Time → List String → Handler Sent
  unfolding prepare create_sender_message deliver_to_recipients finalize_delivery
  send_draft draft thread_id reply_to_id external_id ttl schedule_at deliver_to s =
      checked s
        (do
          check_access u s
          prepare st dr u cfg draft thread_id reply_to_id external_id ttl schedule_at deliver_to s)
        λ (d, targets, t) s. deliver d t targets (create_sender_message cfg st dr u d t s)
