-- ===== src/Mailbox/Delivery/Retry.antt =====
-- A delivery that is repeated: a recipient who has a copy of the message is not announced once more.
use mailbox.Prelude.{
  ℕ, suc, ◌+◌, ◌≤◌, String, ◌≡◌, refl, Bool, true, false, ◌&&◌, List, [], ◌∷◌, arith, ◌==◌, eq_iff,
  subst, sym, map, length, eqb, to_ℕ, Result, ok, err, Bool-cases, inl, inr,
}
use Prim.Native.String
use mailbox.Store.{Error}
use mailbox.Memory
use mailbox.Memory.{Message}
use mailbox.Memory.Create.{
  create_message_idempotent, create_each, create_messages_idempotent, idempotency_index_key,
}
use mailbox.Memory.Create.Idempotent.{
  HasCopy, is_created, create_message_idempotent-HasCopy, create_message_idempotent-old,
}
use mailbox.Mailbox.{Service, Config, UserMailbox, MailboxError}
use mailbox.Mailbox.Delivery.{
  Setting, Draws, Thread, Delivered, ref_copy, after_copy, settle_copy, settle_all, after_batch,
  deliver_batch, deliver_to_recipients, entry_for, eligible_among,
}
use mailbox.Mailbox.Delivery.Recipients.{occurrences}
use mailbox.Mailbox.Delivery.Counted.{occurrences-append}
use mailbox.Mailbox.Delivery.Accounting.{results_of, wanted}
use mailbox.Mailbox.Delivery.Eligible.{eligible_among-Quiet}

-- How many of a recipient's results say that the copy is new
abbrev created_copies : String → List String → List (Result Error (Message × Bool)) → ℕ
created_copies id [] rs = 0
created_copies id (x ∷ xs) [] = 0
created_copies id (x ∷ xs) (r ∷ rs) = to_ℕ (x == id && is_created r) + created_copies id xs rs

module _ (cfg : Config) (st : Setting) (dr : Draws) (u : UserMailbox) (id : String) where
  after_copy-new :
      (x : String) (d : Delivered) (r : Result MailboxError Message × Service)
      → occurrences id (after_copy cfg st dr u x d r).0.newly_delivered
        ≤ occurrences id d.newly_delivered + to_ℕ (x == id)
  after_copy-new x d (err e, s) = ground arith
  after_copy-new x d (ok m, s) = ground (arith, occurrences-append id d.newly_delivered (x ∷ []))

  settle_copy-new :
      (x : String) (r : Result Error (Message × Bool)) (d : Delivered) (s : Service)
      → occurrences id (settle_copy cfg st dr u x r d s).0.newly_delivered
        ≤ occurrences id d.newly_delivered + to_ℕ (x == id && is_created r)
  settle_copy-new x (err e) d s = ground arith
  settle_copy-new x (ok (m, false)) d s = ground arith
  settle_copy-new x (ok (m, true)) d s =
      ground (arith, after_copy-new x d (ref_copy cfg st dr u m s))

  settle_all-new :
      (ids : List String) (rs : List (Result Error (Message × Bool))) (d : Delivered) (s : Service)
      → occurrences id (settle_all cfg st dr u ids rs d s).0.newly_delivered
        ≤ occurrences id d.newly_delivered + created_copies id ids rs
  unfolding settle_all
  settle_all-new [] rs d s = omega arith
  settle_all-new (x ∷ ids) [] d s = omega arith
  settle_all-new (x ∷ ids) (r ∷ rs) d s =
      let d' = (settle_copy cfg st dr u x r d s).0 in
      let s' = (settle_copy cfg st dr u x r d s).1 in
      omega (arith, settle_copy-new x r d s, settle_all-new ids rs d' s')

  -- The key under which the recipient's copy of the sender's message is created
  abbrev pub copy_key : String → String
  copy_key sender_msg_id = idempotency_index_key id (String.◌++◌ sender_msg_id (String.◌++◌ ":" id))

  create_each-old :
      (draft : Message) (t : Thread) (sender_msg_id : String) (i : ℕ) (ids : List String)
      (s : Memory.Store)
      → HasCopy (copy_key sender_msg_id) s
      → created_copies id ids
          (create_each dr.copy_uuid dr.copy_now i
            (map (entry_for cfg st dr u draft t sender_msg_id) ids)
            s).0
        ≡ 0
  unfolding create_each
  create_each-old draft t sender_msg_id i [] s h = refl
  create_each-old draft t sender_msg_id i (x ∷ ids) s h =
      let entry = entry_for cfg st dr u draft t sender_msg_id x in
      let made =
        create_message_idempotent entry.content entry.idempotency_key (dr.copy_uuid i)
          (dr.copy_now i) s in
      let rest = create_each-old draft t sender_msg_id (suc i) ids made.1 (
        create_message_idempotent-HasCopy entry.content entry.idempotency_key (dr.copy_uuid i)
          (dr.copy_now i) s (copy_key sender_msg_id) h) in
      elim (Bool-cases (x == id)) [
        | inr other ↦ rw other (omega (arith, rest))
        | inl this ↦
            let same : id ≡ x = sym (ground (arith, this, eq_iff x id)) in
            let old : is_created made.0 ≡ false =
              create_message_idempotent-old entry.content entry.idempotency_key (dr.copy_uuid i)
                (dr.copy_now i) s
                (subst
                  (λ y.
                    HasCopy
                      (idempotency_index_key y (String.◌++◌ sender_msg_id (String.◌++◌ ":" y))) s)
                  same h) in
            ground (arith, this, old, rest)
      ]

  after_batch-new :
      (ids : List String) (d : Delivered) (s : Service)
      (r : Result Error (List (Result Error (Message × Bool))) × Memory.Store)
      → occurrences id (after_batch cfg st dr u ids d s r).0.newly_delivered
        ≤ occurrences id d.newly_delivered + created_copies id ids (results_of r)
  after_batch-new ids d s (err e, store') = omega arith
  after_batch-new ids d s (ok rs, store') = settle_all-new ids rs d (record s { store = store' })

  no_results : (ids : List String) → created_copies id ids [] ≡ 0
  no_results [] = refl
  no_results (x ∷ ids) = refl

  batch-old :
      (draft : Message) (t : Thread) (sender_msg_id : String) (ids : List String) (s : Memory.Store)
      → HasCopy (copy_key sender_msg_id) s
      → created_copies id ids (
          results_of (
            create_messages_idempotent dr.copy_uuid dr.copy_now
              (map (entry_for cfg st dr u draft t sender_msg_id) ids)
              s))
        ≡ 0
  unfolding create_messages_idempotent
  batch-old draft t sender_msg_id ids s h = elim (Bool-cases s.connected) [
    | inr down ↦ rw down (no_results ids)
    | inl up ↦
        let s' : Memory.Store = record s { connected = true } in
        rw up (create_each-old draft t sender_msg_id 0 ids s' h)
  ]

  deliver_batch-old :
      (draft : Message) (t : Thread) (sender_msg_id : String) (ids : List String) (d : Delivered)
      (s : Service)
      → HasCopy (copy_key sender_msg_id) s.store
      → occurrences id (deliver_batch cfg st dr u draft t sender_msg_id ids d s).0.newly_delivered
        ≤ occurrences id d.newly_delivered
  deliver_batch-old draft t sender_msg_id [] d s h = omega arith
  deliver_batch-old draft t sender_msg_id (x ∷ ids) d s h =
      let some_left : eqb (suc (length ids)) 0 ≡ false = ground arith in
      let es = map (entry_for cfg st dr u draft t sender_msg_id) (x ∷ ids) in
      let r = create_messages_idempotent dr.copy_uuid dr.copy_now es s.store in
      rw some_left (
        omega (
          arith,
          after_batch-new (x ∷ ids) d s r,
          batch-old draft t sender_msg_id (x ∷ ids) s.store h,
        ))

  -- When the key of a recipient's copy leads to a message before a delivery, the recipient is not among
  -- the newly delivered afterwards, whoever else the delivery is for.
  pub deliver_to_recipients-once :
      (draft : Message) (t : Thread) (sender_msg_id : String) (targets : List String) (s : Service)
      → HasCopy (copy_key sender_msg_id) s.store
      → occurrences id
          (deliver_to_recipients cfg st dr u draft t sender_msg_id targets s).0.newly_delivered
        ≡ 0
  unfolding deliver_to_recipients
  deliver_to_recipients-once draft t sender_msg_id targets s h =
      let ids = wanted cfg st dr u draft targets in
      let (eligible, rejected, s') = eligible_among cfg st dr u ids s in
      let d : Delivered = record { delivered_to = []; newly_delivered = []; failed = rejected } in
      let same : s'.store ≡ s.store = (eligible_among-Quiet cfg st dr u ids s).1 in
      omega (
        arith,
        deliver_batch-old draft t sender_msg_id eligible d s'
            (subst (HasCopy (copy_key sender_msg_id)) (sym same) h),
      )
