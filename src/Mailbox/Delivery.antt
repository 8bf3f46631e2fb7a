-- ===== src/Mailbox/Delivery.antt =====
-- send.go: the copies of a message, of its sender and of its recipients. What the code draws and reads
-- is in `Draws`; what it asks of parts outside the program is in `Setting`.
pub mod Recipients
pub mod Counted
pub mod Settled
pub mod Eligible
pub mod Accounting
pub mod Access
pub mod Retry
pub mod SenderCopy
use mailbox.Prelude.{
  ℕ, zero, suc, ◌+◌, String, Bool, true, false, not, Option, none, some, List, [], ◌∷◌, ◌++◌, ◌==◌,
  map, Result, ok, err, eqb, length, contains, if◌then◌else◌,
}
use Prim.Native.String
use mailbox.SyncMap.{SyncMap, load, store}
use mailbox.Store.{
  Error, Time, Value, MessageData, IdempotentCreateEntry, folder_inbox, folder_outbox,
  status_delivered, status_queued,
}
use mailbox.Memory
use mailbox.Memory.{Message}
use mailbox.Memory.Write
use mailbox.Memory.Create.{create_message, create_messages_idempotent}
use mailbox.Memory.Stats.{MailboxStats}
use mailbox.StatsCache.{Event}
use mailbox.Validation.{MessageLimits}
use mailbox.Mailbox.{Service, Config, UserMailbox, Handler, MailboxError, publish_only}
use mailbox.Mailbox.Mutate.{release}
use mailbox.Mailbox.Attachments.{add_attachment_refs}
use mailbox.Mailbox.Quota.{QuotaPolicy, QuotaAction, reject, delete_oldest, check_quota_with_policy}

-- An operation without an error
abbrev pub Action : Type 0 → Type 0
Action A = Service → A × Service

-- The service's settings, and the answers of the user resolver, the plugins, the quota provider, the
-- attachment manager, the distributed cache and the semaphore. A time to live or a delay that is not
-- positive is 0, and the instant 0 is Go's zero time.
pub record Setting : Type 0 where
  pub limits : MessageLimits
  pub default_ttl : ℕ
  pub min_ttl : ℕ
  pub max_ttl : ℕ
  pub min_schedule_delay : ℕ
  pub max_schedule_delay : ℕ
  pub resolve_user : Option (String → Option (String × String × String))
  pub before_send : String → Message → Option Message
  pub after_send : String → Message → Bool
  pub get_quota : Option (String → Option (Option QuotaPolicy))
  pub refuses_ref : String → Bool
  pub has_l2 : Bool
  pub l2 : String → Option MailboxStats
  pub acquires : Bool
  pub lower : String → String
  pub json_size : List (String × Value) → Option ℕ
  pub valid_utf8 : String → Bool

-- The identifiers and the instants of one send
pub record Draws : Type 0 where
  pub thread_uuid : String
  pub sender_uuid : String
  pub copy_uuid : ℕ → ℕ → String
  pub now : Time
  pub copy_now : ℕ → Time

-- The context that all copies of a message share
pub record Thread : Type 0 where
  pub thread_id : String
  pub reply_to_id : String
  pub external_id : String
  pub expires_at : Option Time
  pub available_at : Option Time

-- deduplicateRecipients, its loop: `seen` and `unique`
unfoldable pub dedup : SyncMap Bool → List String → List String → List String
dedup seen unique [] = unique
dedup seen unique (id ∷ ids) = elim (load id seen) [
  | some _ ↦ dedup seen unique ids
  | none ↦ dedup (store id true seen) (unique ++ id ∷ []) ids
]

unfoldable pub deduplicate_recipients : List String → List String
unfolding dedup
deduplicate_recipients ids = dedup [] [] ids

abbrev pub copy_data : Message → Thread → String → String → String → String → MessageData
copy_data draft t owner_id sender_id status folder_id = record {
  owner_id = owner_id;
  sender_id = sender_id;
  recipient_ids = draft.recipient_ids;
  subject = draft.subject;
  body = draft.body;
  headers = draft.headers;
  metadata = draft.metadata;
  status = status;
  folder_id = folder_id;
  attachments = draft.attachments;
  tags = [];
  thread_id = t.thread_id;
  reply_to_id = t.reply_to_id;
  external_id = t.external_id;
  expires_at = t.expires_at;
  available_at = t.available_at;
}

-- An assignment to failedRecipients, a map of which only the keys are kept, each once and in some order
abbrev pub set_key : String → List String → List String
set_key id keys = if contains id keys then keys else keys ++ id ∷ []

abbrev pub set_keys : List String → List String → List String
set_keys [] keys = keys
set_keys (id ∷ ids) keys = set_keys ids (set_key id keys)

-- The copies that were delivered, the ones among them that this call created, and the keys of
-- failedRecipients
pub record Delivered : Type 0 where
  pub delivered_to : List String
  pub newly_delivered : List String
  pub failed : List String

module _ (cfg : Config) (st : Setting) (dr : Draws) (u : UserMailbox) where
  -- What follows a failure of addAttachmentRefs: its references are released once more and the copy
  -- is deleted. Errors of either are only logged or joined to the message.
  abbrev pub undo_copy : Message → Service → Service
  undo_copy m s =
      let s' = (release cfg u m s).1 in record s' { store = (Write.hard_delete m.id s'.store).1 }

  abbrev pub after_refs :
      Message → Result MailboxError (Unit {0}) × Service → Result MailboxError Message × Service
  after_refs m (ok _, s) = (ok m, s)
  after_refs m (err e, s) = (err e, undo_copy m s)

  abbrev pub ref_copy : Message → Handler Message
  ref_copy m s = after_refs m (add_attachment_refs cfg st.refuses_ref m s)

  -- createSenderMessage
  unfoldable pub create_sender_message : Message → Thread → Handler Message
  create_sender_message draft t s =
      let d = copy_data draft t u.user_id u.user_id status_queued folder_outbox in
      let (r, store') = create_message d dr.sender_uuid dr.now s.store in
      let s' = record s { store = store' } in
      elim r [ ok m ↦ ref_copy m s' | err e ↦ (err (MailboxError.store_error e), s') ]

  -- Phase 1 for one recipient: whether a copy may be made
  abbrev pub allowed_by : String → Option QuotaPolicy → Service → Bool × Service
  allowed_by id none s = (true, s)
  allowed_by id (some policy) s = elim policy.exceed_action [
    | delete_oldest ↦ (true, s)
    | reject ↦
        let (r, s') = check_quota_with_policy st.has_l2 (st.l2 id) id policy dr.now s in
        (elim r [ ok _ ↦ true | err _ ↦ false ], s')
  ]

  abbrev pub may_deliver : String → Service → Bool × Service
  may_deliver id s = elim st.get_quota [
    | none ↦ (true, s)
    | some get ↦ elim (get id) [ none ↦ (false, s) | some policy ↦ allowed_by id policy s ]
  ]

  -- Phase 1: the eligible recipients and the others
  unfoldable pub eligible_among : List String → Service → List String × List String × Service
  unfolding check_quota_with_policy
  eligible_among [] s = ([], [], s)
  eligible_among (id ∷ ids) s =
      let (allowed, s') = may_deliver id s in
      let (yes', no', s'') = eligible_among ids s' in
      if allowed then (id ∷ yes', no', s'') else (yes', set_key id no', s'')

  -- Phase 2
  abbrev pub entry_for : Message → Thread → String → String → IdempotentCreateEntry
  entry_for draft t sender_msg_id id = record {
    content = copy_data draft t id u.user_id status_delivered folder_inbox;
    idempotency_key = String.◌++◌ sender_msg_id (String.◌++◌ ":" id);
  }

  -- Phase 3 for one recipient with the result of its creation: a copy that was there already counts as
  -- delivered and has no other effect.
  abbrev pub after_copy :
      String → Delivered → Result MailboxError Message × Service → Delivered × Service
  after_copy id d (err e, s) = (record d { failed = set_key id d.failed }, s)
  after_copy id d (ok _, s) = (
    record d {
      delivered_to = d.delivered_to ++ id ∷ [];
      newly_delivered = d.newly_delivered ++ id ∷ [];
    },
    (publish_only cfg (Event.message_received id u.user_id) s).1,
  )

  abbrev pub settle_copy :
      String → Result Error (Message × Bool) → Delivered → Service → Delivered × Service
  settle_copy id (err e) d s = (record d { failed = set_key id d.failed }, s)
  settle_copy id (ok (m, false)) d s = (record d { delivered_to = d.delivered_to ++ id ∷ [] }, s)
  settle_copy id (ok (m, true)) d s = after_copy id d (ref_copy m s)

  -- Phase 3; the results are as many as the recipients.
  unfoldable pub settle_all :
      List String → List (Result Error (Message × Bool)) → Delivered → Service → Delivered × Service
  unfolding add_attachment_refs Write.hard_delete
  settle_all (id ∷ ids) (r ∷ rs) d s =
      let (d', s') = settle_copy id r d s in settle_all ids rs d' s'
  settle_all [] rs d s = (d, s)
  settle_all (id ∷ ids) [] d s = (d, s)

  abbrev pub after_batch :
      List String
      → Delivered
      → Service
      → Result Error (List (Result Error (Message × Bool))) × Memory.Store
      → Delivered × Service
  after_batch eligible d s (ok rs, store') = settle_all eligible rs d (record s { store = store' })
  after_batch eligible d s (err e, store') =
      (record d { failed = set_keys eligible d.failed }, record s { store = store' })

  abbrev pub deliver_batch : Message → Thread → String → List String → Delivered → Action Delivered
  deliver_batch draft t sender_msg_id eligible d s =
      if eqb (length eligible) 0
      then (d, s)
      else after_batch eligible d s (
          create_messages_idempotent dr.copy_uuid dr.copy_now
            (map (entry_for draft t sender_msg_id) eligible) s.store)

  -- deliverToRecipients
  unfoldable pub deliver_to_recipients : Message → Thread → String → List String → Action Delivered
  unfolding eligible_among settle_all create_messages_idempotent
  deliver_to_recipients draft t sender_msg_id targets s =
      let wanted = if eqb (length targets) 0 then draft.recipient_ids else targets in
      let (eligible, rejected, s') = eligible_among wanted s in
      deliver_batch draft t sender_msg_id eligible
        (record { delivered_to = []; newly_delivered = []; failed = rejected }) s'

  -- rollbackSenderMessage; its errors only go into the message of the caller's.
  abbrev pub rollback_sender_message : Message → Service → Service
  rollback_sender_message = undo_copy
