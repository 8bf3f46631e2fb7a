-- ===== src/Mailbox/Delivery/SenderCopy.antt =====
-- createSenderMessage of send.go: what it leaves alone, and whose copy it returns.
use mailbox.Prelude.{
  String, ◌≡◌, ◌∙◌, refl, Bool, true, arith, Result, ok, err, inl, inr, Bool-cases,
}
use mailbox.Store.{Error, status_queued, folder_outbox}
use mailbox.Memory
use mailbox.Memory.{Message, new_message_from_data}
use mailbox.Memory.Create.{create_message}
use mailbox.Memory.Keeping.{Keeps, Free, Keeps-same, Keeps-trans, Keeps-Free, Keeps-store}
use mailbox.Mailbox.{Service, Config, UserMailbox, MailboxError}
use mailbox.Mailbox.Attachments.{add_attachment_refs}
use mailbox.Mailbox.Attachments.References.{
  add_attachment_refs-store, add_attachment_refs-published,
}
use mailbox.Mailbox.Delivery.{
  Setting, Draws, Thread, copy_data, undo_copy, after_refs, ref_copy, create_sender_message,
}
use mailbox.Mailbox.Delivery.Access.{Spares, Fresh, after_refs-Spares}

module _ (cfg : Config) (st : Setting) (dr : Draws) (u : UserMailbox) (mine : String → Bool) where
  -- What createSenderMessage leaves alone, and whose copy it returns
  abbrev pub CreatesCopy : Service → Result MailboxError Message × Service → Type 0
  CreatesCopy s (ok m, s') =
      Spares cfg st dr u mine s s'
      × (m.id ≡ dr.sender_uuid)
      × (m.sender_id ≡ u.user_id)
      × (s'.published ≡ s.published)
  CreatesCopy s (err e, s') = Spares cfg st dr u mine s s' × (s'.published ≡ s.published)

  after_refs-CreatesCopy :
      (m : Message) (s s₁ : Service) (r : Result MailboxError (Unit {0}) × Service)
      → Spares cfg st dr u mine s s₁
      → s₁.published ≡ s.published
      → Free mine m.id s₁.store.messages
      → m.id ≡ dr.sender_uuid
      → m.sender_id ≡ u.user_id
      → r.1.store ≡ s₁.store
      → r.1.published ≡ s₁.published
      → CreatesCopy s (after_refs cfg st dr u m r)
  after_refs-CreatesCopy m s s₁ (ok _, s') k quiet free named sent stored told =
      ((λ j. ground (arith, k j, stored)), named, sent, told ∙ quiet)
  after_refs-CreatesCopy m s s₁ (err e, s') k quiet free named sent stored told = (
    Keeps-trans mine s.store.messages s₁.store.messages (undo_copy cfg st dr u m s').store.messages
        k (after_refs-Spares cfg st dr u mine m s₁ (err e, s') stored free),
    ground (arith, told, quiet),
  )

  -- What CreateMessage made of the sender's copy
  abbrev CopyMade : Service → Result Error Message × Memory.Store → Type 0
  CopyMade s (ok m, store') =
      Keeps mine s.store.messages store'.messages
      × (m.id ≡ dr.sender_uuid)
      × (m.sender_id ≡ u.user_id)
  CopyMade s (err e, store') = Keeps mine s.store.messages store'.messages

  create_message-CopyMade :
      (draft : Message) (t : Thread) (s : Service)
      → Fresh cfg st dr u mine s
      → mine u.user_id ≡ true
      → CopyMade s (
          create_message
            (copy_data draft t u.user_id u.user_id status_queued folder_outbox)
            dr.sender_uuid
            dr.now
            s.store)
  unfolding create_message
  create_message-CopyMade draft t s fresh own =
      let d = copy_data draft t u.user_id u.user_id status_queued folder_outbox in
      let m = new_message_from_data d dr.sender_uuid dr.now in
      elim (Bool-cases s.store.connected) [
        | inr down ↦ rw down (Keeps-same mine s.store.messages)
        | inl up ↦ rw up (
          Keeps-store mine dr.sender_uuid m s.store.messages fresh.sender (ground (arith, own)),
          refl,
          refl,
        )
      ]

  -- The rest of createSenderMessage
  abbrev with_refs :
      Service → Result Error Message × Memory.Store → Result MailboxError Message × Service
  with_refs s (r, store') =
      let s' = record s { store = store' } in
      elim r [ ok m ↦ ref_copy cfg st dr u m s' | err e ↦ (err (MailboxError.store_error e), s') ]

  with_refs-CreatesCopy :
      (s : Service) (r : Result Error Message × Memory.Store)
      → Fresh cfg st dr u mine s
      → CopyMade s r
      → CreatesCopy s (with_refs s r)
  with_refs-CreatesCopy s (err e, store') fresh k = (k, refl)
  with_refs-CreatesCopy s (ok m, store') fresh (k, named, sent) =
      let s₁ : Service = record s { store = store' } in
      let free : Free mine m.id s₁.store.messages =
        rw named (Keeps-Free mine dr.sender_uuid s.store.messages store'.messages k fresh.sender) in
      after_refs-CreatesCopy m s s₁ (add_attachment_refs cfg st.refuses_ref m s₁) k refl free named
        sent (add_attachment_refs-store cfg st.refuses_ref m s₁)
        (add_attachment_refs-published cfg st.refuses_ref m s₁)

  pub create_sender_message-CreatesCopy :
      (draft : Message) (t : Thread) (s : Service)
      → Fresh cfg st dr u mine s
      → mine u.user_id ≡ true
      → CreatesCopy s (create_sender_message cfg st dr u draft t s)
  unfolding create_sender_message
  create_sender_message-CreatesCopy draft t s fresh own =
      with_refs-CreatesCopy s
        (create_message (copy_data draft t u.user_id u.user_id status_queued folder_outbox)
          dr.sender_uuid dr.now s.store)
        fresh (create_message-CopyMade draft t s fresh own)
