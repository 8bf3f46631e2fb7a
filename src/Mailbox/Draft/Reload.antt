-- ===== src/Mailbox/Draft/Reload.antt =====
-- A draft that is saved and loaded again.
use mailbox.Prelude.{
  String, ◌≡◌, refl, true, false, [], arith, ◌==◌, Result, ok, err, ◌>>◌, Bool-cases, inl, inr,
  if◌then◌else◌,
}
use mailbox.SyncMap.{load-store_self}
use mailbox.Store.{Time}
use mailbox.Memory.{Message}
use mailbox.Memory.Drafts.{save_draft, get_draft}
use mailbox.Mailbox.{Service, Config, UserMailbox, MailboxError, check_access}
use mailbox.Mailbox.Delivery.{Setting}
use mailbox.Mailbox.Send.Preparation.{checked_cases}
use mailbox.Mailbox.Draft.{
  Draft, new_saved_draft, save_message, save, linked, stored, saved_as, check_draft,
}

-- What a save of a draft did when it succeeded: the draft that is loaded by its identifier is the
-- one that was returned.
abbrev pub Reloads : Message → String → Time → Result MailboxError Message × Service → Type 0
Reloads m fresh now (ok saved, s) =
    (get_draft s.store saved.id ≡ ok saved)
    × (saved
        ≡ record m { id = if m.id == "" then fresh else m.id; updated_at = now; is_draft = true })
Reloads m fresh now (err e, s) = Unit

module _ (cfg : Config) (st : Setting) (u : UserMailbox) where
  save_draft-Reloads :
      (m : Message) (fresh : String) (now : Time) (s : Service)
      → (fresh == "") ≡ false
      → Reloads m fresh now (stored cfg st u s (save_draft m fresh now s.store))
  unfolding save_draft get_draft
  save_draft-Reloads m fresh now s named = elim (Bool-cases s.store.connected) [
    | inr down ↦ rw down tt
    | inl up ↦
        let id = if m.id == "" then fresh else m.id in
        let n : Message = record m { id = id; updated_at = now; is_draft = true } in
        let there = load-store_self id n s.store.messages in
        rw up (ground (arith, there, named), refl)
  ]

  save_message-Reloads :
      (m : Message) (fresh : String) (now : Time) (s : Service)
      → (fresh == "") ≡ false
      → Reloads m fresh now (save_message cfg st u m fresh now s)
  unfolding save_message
  save_message-Reloads m fresh now s named =
      checked_cases (Reloads m fresh now) s (check_access u s >> check_draft cfg st u m)
        (λ _ s. stored cfg st u s (save_draft m fresh now s.store)) (λ e. tt)
        (λ _ _. save_draft-Reloads m fresh now s named)

  -- What a draft keeps when it is saved and loaded again: the message that is loaded is that of the
  -- draft, with its links, under its identifier or the fresh one; and the draft made of it is the one
  -- that is returned, without what is not stored.
  abbrev pub Restores : Draft → String → Time → Result MailboxError Draft × Service → Type 0
  Restores d fresh now (err e, s) = Unit
  Restores d fresh now (ok d', s) =
      (m : Message) × (get_draft s.store m.id ≡ ok m)
      × (m ≡ record d.message {
        id = if d.message.id == "" then fresh else d.message.id;
        thread_id = d.thread_id;
        reply_to_id = d.reply_to_id;
        external_id = d.external_id;
        updated_at = now;
        is_draft = true;
      })
      × (d'.message ≡ m)
      × (new_saved_draft m ≡ record d { message = m; saved = true; ttl = 0; deliver_to = [] })

  saved_as-Restores :
      (d : Draft) (fresh : String) (now : Time) (r : Result MailboxError Message × Service)
      → d.schedule_at ≡ d.message.available_at
      → Reloads (linked cfg st u d now) fresh now r
      → Restores d fresh now (saved_as cfg st u d r)
  saved_as-Restores d fresh now (err e, s) at reloads = tt
  saved_as-Restores d fresh now (ok m, s) at (there, same) =
      (m, there, same, refl, ground (arith, same, at))

  -- When a draft whose schedule is mirrored in its message is saved, the message that is loaded by its
  -- identifier afterwards is the message of the draft that was saved, recipients, content, attachments
  -- and times included, with the thread, reply and external identifier of the draft and the time of
  -- the save. The draft made of it is the one that was saved but for two things: it has lost the
  -- delivery targets, and also the time to live.
  pub save-Restores :
      (d : Draft) (fresh : String) (now : Time) (s : Service)
      → (fresh == "") ≡ false
      → d.schedule_at ≡ d.message.available_at
      → Restores d fresh now (save cfg st u d fresh now s)
  unfolding save
  save-Restores d fresh now s named at =
      saved_as-Restores d fresh now (save_message cfg st u (linked cfg st u d now) fresh now s) at
        (save_message-Reloads (linked cfg st u d now) fresh now s named)
