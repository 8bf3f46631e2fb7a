-- ===== src/Mailbox/Delivery/Accounting.antt =====
-- Where each recipient ends up in a delivery, and which events it publishes.
use mailbox.Prelude.{
  ℕ, suc, ◌+◌, String, ◌≡◌, refl, Bool, true, false, List, [], ◌∷◌, ◌++◌, arith, sym, subst, ◌∙◌,
  map, length, eqb, Result, ok, err, Bool-cases, inl, inr, if◌then◌else◌,
}
use mathlib.Core.List.{append-nil}
use mailbox.Store.{Error, Time, IdempotentCreateEntry}
use mailbox.Memory
use mailbox.Memory.{Message}
use mailbox.Memory.Create.{create_message_idempotent, create_each, create_messages_idempotent}
use mailbox.Mailbox.{Service, Config, UserMailbox}
use mailbox.Mailbox.Delivery.{
  Setting, Draws, Thread, Delivered, set_keys, eligible_among, after_batch, deliver_batch,
  deliver_to_recipients, entry_for,
}
use mailbox.Mailbox.Delivery.Recipients.{occurrences}
use mailbox.Mailbox.Delivery.Counted.{Accounted, old_copies, contains-set_keys}
use mailbox.Mailbox.Delivery.Settled.{received, Adds, no_change, settle_all-Adds}
use mailbox.Mailbox.Delivery.Eligible.{eligible_among-Quiet, eligible_among-Accounted}

length-create_each :
    (uuid : ℕ → ℕ → String) (clock : ℕ → Time) (i : ℕ) (es : List IdempotentCreateEntry)
    (s : Memory.Store)
    → length (create_each uuid clock i es s).0 ≡ length es
unfolding create_each
length-create_each uuid clock i [] s = refl
length-create_each uuid clock i (e ∷ es) s =
    let s' = (create_message_idempotent e.content e.idempotency_key (uuid i) (clock i) s).1 in
    omega (arith, length-create_each uuid clock (suc i) es s')

-- One result for each of `n` entries, unless the whole batch failed
abbrev pub Fits : ℕ → Result Error (List (Result Error (Message × Bool))) × Memory.Store → Type 0
Fits n (ok rs, s) = length rs ≡ n
Fits n (err e, s) = Unit

create_messages_idempotent-Fits :
    (uuid : ℕ → ℕ → String) (clock : ℕ → Time) (es : List IdempotentCreateEntry) (s : Memory.Store)
    → Fits (length es) (create_messages_idempotent uuid clock es s)
unfolding create_messages_idempotent
create_messages_idempotent-Fits uuid clock es s = elim (Bool-cases s.connected) [
  | inl connected ↦
      let s' : Memory.Store = record s { connected = true } in
      rw connected (length-create_each uuid clock 0 es s')
  | inr closed ↦ rw closed tt
]

-- The results for the entries; a batch that failed has none.
abbrev pub results_of :
    Result Error (List (Result Error (Message × Bool))) × Memory.Store
    → List (Result Error (Message × Bool))
results_of (ok rs, s) = rs
results_of (err e, s) = []

old_copies-none : (id : String) (ids : List String) → old_copies id ids [] ≡ 0
old_copies-none id [] = refl
old_copies-none id (x ∷ ids) = refl

pub length-map :
    (f : String → IdempotentCreateEntry) (ids : List String) → length (map f ids) ≡ length ids
length-map f [] = refl
length-map f (id ∷ ids) = omega (arith, length-map f ids)

module _ (cfg : Config) (st : Setting) (dr : Draws) (u : UserMailbox) where
  all_failed :
      (ids : List String) (d : Delivered) (s s' : Service)
      → s'.published ≡ s.published
      → Adds cfg u ids
          (λ id. old_copies id ids [])
          d
          (record d { failed = set_keys ids d.failed })
          s
          s'
  all_failed ids d s s' same = record {
    more = λ x. omega arith;
    few = λ x. omega arith;
    failures = λ x. ground (arith, contains-set_keys x ids d.failed);
    created = [];
    newly = sym (append-nil d.newly_delivered);
    among = λ x. omega (arith, old_copies-none x ids);
    events = same ∙ sym (append-nil s.published);
  }

  after_batch-Adds :
      (ids : List String) (d : Delivered) (s : Service)
      (r : Result Error (List (Result Error (Message × Bool))) × Memory.Store)
      → Fits (length ids) r
      → Adds cfg u ids
          (λ id. old_copies id ids (results_of r))
          d
          (after_batch cfg st dr u ids d s r).0
          s
          (after_batch cfg st dr u ids d s r).1
  after_batch-Adds ids d s (ok rs, store') fits =
      let s' : Service = record s { store = store' } in
      let a = settle_all-Adds cfg st dr u ids rs d s' fits in
      record {
        more = a.more;
        few = a.few;
        failures = a.failures;
        created = a.created;
        newly = a.newly;
        among = a.among;
        events = a.events;
      }
  after_batch-Adds ids d s (err e, store') fits =
      all_failed ids d s (record s { store = store' }) refl

  -- What the backend answers for the entries of the eligible recipients
  abbrev pub batch :
      Message
      → Thread
      → String
      → List String
      → Service
      → Result Error (List (Result Error (Message × Bool))) × Memory.Store
  batch draft t sender_msg_id ids s =
      create_messages_idempotent dr.copy_uuid dr.copy_now
        (map (entry_for cfg st dr u draft t sender_msg_id) ids) s.store

  deliver_batch-Adds :
      (draft : Message) (t : Thread) (sender_msg_id : String) (ids : List String) (d : Delivered)
      (s : Service)
      → Adds cfg u ids
          (λ id. old_copies id ids (results_of (batch draft t sender_msg_id ids s)))
          d
          (deliver_batch cfg st dr u draft t sender_msg_id ids d s).0
          s
          (deliver_batch cfg st dr u draft t sender_msg_id ids d s).1
  deliver_batch-Adds draft t sender_msg_id [] d s = no_change cfg st dr u d s
  deliver_batch-Adds draft t sender_msg_id (id ∷ ids) d s =
      let some_left : eqb (suc (length ids)) 0 ≡ false = ground arith in
      let es = map (entry_for cfg st dr u draft t sender_msg_id) (id ∷ ids) in
      let fits = create_messages_idempotent-Fits dr.copy_uuid dr.copy_now es s.store in
      rw some_left (
        after_batch-Adds (id ∷ ids) d s
          (create_messages_idempotent dr.copy_uuid dr.copy_now es s.store)
          (subst (λ n. Fits n (create_messages_idempotent dr.copy_uuid dr.copy_now es s.store))
            (length-map (entry_for cfg st dr u draft t sender_msg_id) (id ∷ ids)) fits))

  -- The recipients that a delivery is for
  abbrev pub wanted : Message → List String → List String
  wanted draft targets = if eqb (length targets) 0 then draft.recipient_ids else targets

  -- How often the backend answers for a wanted and eligible recipient that its copy was there already
  abbrev pub already : Message → Thread → String → List String → Service → String → ℕ
  already draft t sender_msg_id targets s id =
      let (eligible, _, s') = eligible_among cfg st dr u (wanted draft targets) s in
      old_copies id eligible (results_of (batch draft t sender_msg_id eligible s'))

  -- In a delivery each wanted recipient is delivered to at most as often as it is wanted, is among the
  -- failures exactly when it is delivered to less often, and no other recipient is among either. It is
  -- newly delivered as often as it is delivered, less the times that the backend answers that its copy
  -- was there already. The delivery publishes the received event of each newly delivered recipient
  -- that the bus accepts, in their order, and no other event.
  pub deliver_to_recipients-Accounts :
      (draft : Message) (t : Thread) (sender_msg_id : String) (targets : List String) (s : Service)
      (id : String)
      → let after = deliver_to_recipients cfg st dr u draft t sender_msg_id targets s in
        Accounted id (occurrences id (wanted draft targets)) after.0
        × (occurrences id after.0.delivered_to
            ≡ occurrences id after.0.newly_delivered + already draft t sender_msg_id targets s id)
        × (after.1.published ≡ s.published ++ received cfg u after.0.newly_delivered)
  unfolding deliver_to_recipients
  deliver_to_recipients-Accounts draft t sender_msg_id targets s id =
      let ids = wanted draft targets in
      let (eligible, rejected, s') = eligible_among cfg st dr u ids s in
      let d : Delivered = record { delivered_to = []; newly_delivered = []; failed = rejected } in
      let a = deliver_batch-Adds draft t sender_msg_id eligible d s' in
      let (fits, failed) = eligible_among-Accounted cfg st dr u id ids s in
      (
        (omega (arith, a.few id, fits), ground (arith, a.few id, a.failures id, fits, failed)),
        ground (arith, a.among id, a.newly),
        ground (arith, a.events, a.newly, (eligible_among-Quiet cfg st dr u ids s).0),
      )
