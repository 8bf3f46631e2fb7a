-- ===== src/Mailbox/Delivery/Access.antt =====
-- Whose messages a delivery can change.
use mailbox.Prelude.{
  ℕ, suc, String, ◌≡◌, sym, Bool, true, false, List, [], ◌∷◌, arith, map, All, length, eqb, Result,
  ok, err,
}
use mailbox.Store.{Error}
use mailbox.Memory
use mailbox.Memory.{Message, new_message_from_data}
use mailbox.Memory.Create.{create_messages_idempotent}
use mailbox.Memory.Keeping.{Keeps, Free, Keeps-same, Keeps-trans, Keeps-Free, Keeps-hard_delete}
use mailbox.Memory.Keeping.Batches.{
  CreatedFree, CreatesBatch, Mine, create_messages_idempotent-Creates, All-CreatedFree,
}
use mailbox.Mailbox.{Service, Config, UserMailbox, MailboxError}
use mailbox.Mailbox.Attachments.{add_attachment_refs}
use mailbox.Mailbox.Attachments.References.{add_attachment_refs-store}
use mailbox.Mailbox.Delivery.Accounting.{wanted}
use mailbox.Mailbox.Delivery.Eligible.{eligible_among-Quiet, eligible_among-All}
use mailbox.Mailbox.Delivery.{
  Setting, Draws, Thread, Delivered, undo_copy, after_refs, ref_copy, eligible_among, entry_for,
  after_copy, settle_copy, settle_all, after_batch, deliver_batch, deliver_to_recipients,
}

module _ (cfg : Config) (st : Setting) (dr : Draws) (u : UserMailbox) (mine : String → Bool) where
  -- The messages of the others, before and after
  abbrev pub Spares : Service → Service → Type 0
  Spares s s' = Keeps mine s.store.messages s'.store.messages

  pub undo_copy-Spares :
      (m : Message) (s : Service)
      → Free mine m.id s.store.messages
      → Spares s (undo_copy cfg st dr u m s)
  undo_copy-Spares m s free j = ground (arith, Keeps-hard_delete mine m.id s.store free j)

  pub after_refs-Spares :
      (m : Message) (s : Service) (r : Result MailboxError (Unit {0}) × Service)
      → r.1.store ≡ s.store
      → Free mine m.id s.store.messages
      → Spares s (after_refs cfg st dr u m r).1
  after_refs-Spares m s (ok _, s') same free j = ground (arith, same)
  after_refs-Spares m s (err e, s') same free j =
      let free' : Free mine m.id s'.store.messages = rw same free in
      ground (arith, undo_copy-Spares m s' free' j, same)

  ref_copy-Spares :
      (m : Message) (s : Service)
      → Free mine m.id s.store.messages
      → Spares s (ref_copy cfg st dr u m s).1
  ref_copy-Spares m s free =
      after_refs-Spares m s (add_attachment_refs cfg st.refuses_ref m s)
        (add_attachment_refs-store cfg st.refuses_ref m s) free

  after_copy-Spares :
      (id : String) (d : Delivered) (s : Service) (r : Result MailboxError Message × Service)
      → Spares s r.1
      → Spares s (after_copy cfg st dr u id d r).1
  after_copy-Spares id d s (err e, s') k j = k j
  after_copy-Spares id d s (ok m, s') k j = ground (arith, k j)

  settle_copy-Spares :
      (id : String) (r : Result Error (Message × Bool)) (d : Delivered) (s : Service)
      → CreatedFree mine s.store.messages r
      → Spares s (settle_copy cfg st dr u id r d s).1
  settle_copy-Spares id (err e) d s free = Keeps-same mine s.store.messages
  settle_copy-Spares id (ok (m, false)) d s free = Keeps-same mine s.store.messages
  settle_copy-Spares id (ok (m, true)) d s free =
      after_copy-Spares id d s (ref_copy cfg st dr u m s) (ref_copy-Spares m s free)

  settle_all-Spares :
      (ids : List String) (rs : List (Result Error (Message × Bool))) (d : Delivered) (s : Service)
      → All (CreatedFree mine s.store.messages) rs
      → Spares s (settle_all cfg st dr u ids rs d s).1
  unfolding settle_all
  settle_all-Spares [] rs d s free = Keeps-same mine s.store.messages
  settle_all-Spares (id ∷ ids) [] d s free = Keeps-same mine s.store.messages
  settle_all-Spares (id ∷ ids) (r ∷ rs) d s free =
      let (d', s') = settle_copy cfg st dr u id r d s in
      let first = settle_copy-Spares id r d s free.0 in
      let free' =
        All-CreatedFree mine s'.store.messages s.store.messages rs (λ j. sym (first j)) free.1 in
      Keeps-trans mine s.store.messages s'.store.messages
        (settle_all cfg st dr u ids rs d' s').1.store.messages first
        (settle_all-Spares ids rs d' s' free')

  -- No identifier that a send draws names a message of another.
  pub record Fresh (s : Service) : Type 0 where
    pub sender : Free mine dr.sender_uuid s.store.messages
    pub copies : (n k : ℕ) → Free mine (dr.copy_uuid n k) s.store.messages

  pub Fresh-Spares : (s s' : Service) → Spares s s' → Fresh s → Fresh s'
  Fresh-Spares s s' k f = record {
    sender = Keeps-Free mine dr.sender_uuid s.store.messages s'.store.messages k f.sender;
    copies = λ n i.
        Keeps-Free mine (dr.copy_uuid n i) s.store.messages s'.store.messages k (f.copies n i);
  }

  after_batch-Spares :
      (ids : List String) (d : Delivered) (s : Service)
      (r : Result Error (List (Result Error (Message × Bool))) × Memory.Store)
      → CreatesBatch mine s.store r
      → Spares s (after_batch cfg st dr u ids d s r).1
  after_batch-Spares ids d s (err e, store') k = k
  after_batch-Spares ids d s (ok rs, store') (k, free) =
      let s' : Service = record s { store = store' } in
      let free' =
        All-CreatedFree mine s'.store.messages s.store.messages rs (λ j. sym (k j)) free in
      Keeps-trans mine s.store.messages s'.store.messages
        (settle_all cfg st dr u ids rs d s').1.store.messages k
        (settle_all-Spares ids rs d s' free')

  All-Mine :
      (draft : Message) (t : Thread) (sender_msg_id : String) (ids : List String)
      → All (λ id. mine id ≡ true) ids
      → All (Mine mine) (map (entry_for cfg st dr u draft t sender_msg_id) ids)
  All-Mine draft t sender_msg_id [] own = tt
  All-Mine draft t sender_msg_id (id ∷ ids) own = (own.0, All-Mine draft t sender_msg_id ids own.1)

  deliver_batch-Spares :
      (draft : Message) (t : Thread) (sender_msg_id : String) (ids : List String) (d : Delivered)
      (s : Service)
      → Fresh s
      → All (λ id. mine id ≡ true) ids
      → Spares s (deliver_batch cfg st dr u draft t sender_msg_id ids d s).1
  deliver_batch-Spares draft t sender_msg_id [] d s fresh own = Keeps-same mine s.store.messages
  deliver_batch-Spares draft t sender_msg_id (id ∷ ids) d s fresh own =
      let some_left : eqb (suc (length ids)) 0 ≡ false = ground arith in
      let es = map (entry_for cfg st dr u draft t sender_msg_id) (id ∷ ids) in
      rw some_left (
        after_batch-Spares (id ∷ ids) d s
          (create_messages_idempotent dr.copy_uuid dr.copy_now es s.store)
          (create_messages_idempotent-Creates mine dr.copy_uuid dr.copy_now es s.store fresh.copies
            (All-Mine draft t sender_msg_id (id ∷ ids) own)))

  pub deliver_to_recipients-Spares :
      (draft : Message) (t : Thread) (sender_msg_id : String) (targets : List String) (s : Service)
      → Fresh s
      → All (λ id. mine id ≡ true) (wanted cfg st dr u draft targets)
      → Spares s (deliver_to_recipients cfg st dr u draft t sender_msg_id targets s).1
  unfolding deliver_to_recipients
  deliver_to_recipients-Spares draft t sender_msg_id targets s fresh own =
      let ids = wanted cfg st dr u draft targets in
      let (eligible, rejected, s') = eligible_among cfg st dr u ids s in
      let d : Delivered = record { delivered_to = []; newly_delivered = []; failed = rejected } in
      let quiet = (eligible_among-Quiet cfg st dr u ids s).1 in
      let k : Spares s s' = λ j. ground (arith, quiet) in
      let own' = eligible_among-All cfg st dr u (λ id. mine id ≡ true) ids s own in
      Keeps-trans mine s.store.messages s'.store.messages
        (deliver_batch cfg st dr u draft t sender_msg_id eligible d s').1.store.messages k
        (deliver_batch-Spares draft t sender_msg_id eligible d s' (Fresh-Spares s s' k fresh) own')
