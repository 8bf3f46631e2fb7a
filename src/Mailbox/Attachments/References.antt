-- ===== src/Mailbox/Attachments/References.antt =====
-- What a copy that fails on its attachments does to their references.
use mailbox.Prelude.{
  String, ◌≡◌, Bool, true, false, none, List, [], ◌∷◌, ◌++◌, arith, ◌==◌, eq_refl, map, ok, err,
  Bool-cases, inl, inr, if◌then◌else◌,
}
use mathlib.Core.List.{append_assoc, append-nil}
use mailbox.Store.{status_queued, folder_outbox, Attachment}
use mailbox.SyncMap.{load, load-delete, load-store_self}
use mailbox.Memory.{Message, new_message_from_data}
use mailbox.Memory.Write
use mailbox.Memory.Create.{create_message}
use mailbox.Mailbox.Delivery.{Setting, Draws, Thread, copy_data, create_sender_message}
use mailbox.Mailbox.{Service, Config, UserMailbox, MailboxError}
use mailbox.Mailbox.Attachments.{add_refs, add_attachment_refs}

-- The identifiers before the first one that AddRef refuses
abbrev pub taken : (String → Bool) → List Attachment → List String
taken refuses [] = []
taken refuses (a ∷ rest) = let more = taken refuses rest in if refuses a.id then [] else a.id ∷ more

abbrev pub any_refused : (String → Bool) → List Attachment → Bool
any_refused refuses [] = false
any_refused refuses (a ∷ rest) =
    let more = any_refused refuses rest in if refuses a.id then true else more

add_refs_lem :
    (refuses : String → Bool) (rest : List Attachment) (added : List String) (s : Service)
    → add_refs refuses rest added s ≡ (
        if any_refused refuses rest
        then (
          err MailboxError.attachment_ref_failed,
          record s {
            referenced = s.referenced ++ taken refuses rest;
            released = s.released ++ (added ++ taken refuses rest);
          },
        )
        else (ok tt, record s { referenced = s.referenced ++ taken refuses rest }))
unfolding add_refs
add_refs_lem refuses [] added s = ground (arith, append-nil s.referenced)
add_refs_lem refuses (a ∷ rest) added s = elim (Bool-cases (refuses a.id)) [
  | inl refused ↦ ground (arith, refused, append-nil s.referenced, append-nil added)
  | inr fine ↦
      let s' : Service = record s { referenced = s.referenced ++ a.id ∷ [] } in
      ground (
        arith,
        fine,
        add_refs_lem refuses rest (added ++ a.id ∷ []) s',
        append_assoc s.referenced (a.id ∷ []) (taken refuses rest),
        append_assoc added (a.id ∷ []) (taken refuses rest),
      )
]

pub add_attachment_refs-store :
    (cfg : Config) (refuses : String → Bool) (m : Message) (s : Service)
    → (add_attachment_refs cfg refuses m s).1.store ≡ s.store
unfolding add_attachment_refs
add_attachment_refs-store cfg refuses m s = ground (arith, add_refs_lem refuses m.attachments [] s)

pub add_attachment_refs-published :
    (cfg : Config) (refuses : String → Bool) (m : Message) (s : Service)
    → (add_attachment_refs cfg refuses m s).1.published ≡ s.published
unfolding add_attachment_refs
add_attachment_refs-published cfg refuses m s =
    ground (arith, add_refs_lem refuses m.attachments [] s)

module _ (cfg : Config) (st : Setting) (dr : Draws) (u : UserMailbox) where
  -- When AddRef refuses an attachment of a draft, createSenderMessage fails and leaves no copy, and it
  -- has released the references that were taken, and then once more a reference of every attachment,
  -- although only those before the refused one were taken.
  pub create_sender_message-OverReleases :
      (draft : Message) (t : Thread) (s : Service)
      → s.store.connected ≡ true
      → cfg.has_attachments ≡ true
      → any_refused st.refuses_ref draft.attachments ≡ true
      → (dr.sender_uuid == "") ≡ false
      → let (r, s') = create_sender_message cfg st dr u draft t s in
        (r ≡ err MailboxError.attachment_ref_failed)
        × (load dr.sender_uuid s'.store.messages ≡ none)
        × (s'.referenced ≡ s.referenced ++ taken st.refuses_ref draft.attachments)
        × (s'.released
            ≡ s.released
              ++ (taken st.refuses_ref draft.attachments ++ map (λ a. a.id) draft.attachments))
  unfolding create_sender_message create_message add_attachment_refs Write.hard_delete
  create_sender_message-OverReleases draft t s connected has refused named =
      let d = copy_data draft t u.user_id u.user_id status_queued folder_outbox in
      let m = new_message_from_data d dr.sender_uuid dr.now in
      let stored : Service = record s {
        store = (create_message d dr.sender_uuid dr.now s.store).1;
      } in
      let e = add_refs_lem st.refuses_ref draft.attachments [] stored in
      let l = load-store_self dr.sender_uuid m s.store.messages in
      let gone = load-delete dr.sender_uuid dr.sender_uuid stored.store.messages in
      let self = eq_refl dr.sender_uuid in
      let a =
        append_assoc s.released (taken st.refuses_ref draft.attachments)
          (map (λ a. a.id) draft.attachments) in
      (
        ground (arith, connected, has, refused, e),
        ground (arith, connected, has, refused, named, e, l, gone, self),
        ground (arith, connected, has, refused, e),
        ground (arith, connected, has, refused, e, a),
      )
