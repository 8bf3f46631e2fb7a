-- ===== src/Mailbox/Send/Events.antt =====
-- What a send tells: its result, the events it publishes, and that they agree.
use mailbox.Prelude.{
  ℕ, ◌+◌, ap, ◌≤◌, ◌<◌, String, ◌≡◌, refl, sym, subst, Bool, true, false, not, Option, some, List,
  [], ◌∷◌, ◌++◌, arith, eq_refl, filter, length, eqb, Result, ok, err, is_ok, Bool-cases,
  Option-cases, inl, inr, if◌then◌else◌,
}
use mathlib.Core.List.{append_assoc, append-nil}
use mailbox.Store.{Error, Time, folder_sent}
use mailbox.SyncMap.{load}
use mailbox.Memory.Keeping.{Free}
use mailbox.Memory
use mailbox.Memory.{Message}
use mailbox.Memory.Write
use mailbox.StatsCache.{Event}
use mailbox.Mailbox.{Service, Config, UserMailbox, MailboxError}
use mailbox.Mailbox.Delivery.{
  Setting, Draws, Thread, Delivered, undo_copy, create_sender_message, deliver_to_recipients,
}
use mailbox.Mailbox.Delivery.Recipients.{occurrences}
use mailbox.Mailbox.Delivery.Counted.{Accounted}
use mailbox.Mailbox.Delivery.Accounting.{already, wanted, deliver_to_recipients-Accounts}
use mailbox.Mailbox.Delivery.Settled.{received}
use mailbox.Mailbox.Delivery.Access.{Fresh}
use mailbox.Mailbox.Delivery.SenderCopy.{CreatesCopy, create_sender_message-CreatesCopy}
use mailbox.Mailbox.Send.Preparation.{addressed, prepare-Addressed, send_draft_cases}
use mailbox.Mailbox.Send.{
  drop_draft, Sent, SendError, fetched, moved_to_sent, finalize_delivery, partial, report, conclude,
  deliver, send_draft, prepare,
}

-- The errors beside a message that was sent
abbrev pub event_missing : List SendError → Bool
event_missing [] = false
event_missing (SendError.event_failed e ∷ rest) = true
event_missing (SendError.hook_failed ∷ rest) = event_missing rest
event_missing (SendError.partial_delivery d f ∷ rest) = event_missing rest

abbrev pub partials : List SendError → List SendError
partials [] = []
partials (SendError.event_failed e ∷ rest) = partials rest
partials (SendError.hook_failed ∷ rest) = partials rest
partials (SendError.partial_delivery d f ∷ rest) = SendError.partial_delivery d f ∷ partials rest

module _ (cfg : Config) (st : Setting) (dr : Draws) (u : UserMailbox) where
  -- The sent event, unless it is missing or the bus does not accept it
  abbrev pub sent_event : Bool → List String → List Event
  sent_event missing newly =
      if missing then [] else filter cfg.accepts (Event.message_sent u.user_id newly ∷ [])

  -- What finalizeDelivery publishes
  abbrev Finalized :
      List String → Service → (Message × Result MailboxError (Unit {0})) × Service → Type 0
  Finalized newly s ((m, r), s') = s'.published ≡ s.published ++ sent_event (not (is_ok r)) newly

  fetched-Finalized :
      (copy : Message) (r : Result Error Message) (newly : List String) (s : Service)
      → copy.sender_id ≡ u.user_id
      → Finalized newly s (fetched cfg st dr u copy r newly s)
  fetched-Finalized copy (err e) newly s own = sym (append-nil s.published)
  fetched-Finalized copy (ok m) newly s own = ground (arith, own, append-nil s.published)

  moved-Finalized :
      (copy draft : Message) (newly : List String) (s : Service)
      (r : Result Error (Unit {0}) × Memory.Store)
      → copy.sender_id ≡ u.user_id
      → Finalized newly s (moved_to_sent cfg st dr u copy newly draft s r)
  moved-Finalized copy draft newly s (err e, store) own = sym (append-nil s.published)
  moved-Finalized copy draft newly s (ok _, store) own =
      let s' : Service = record s { store = drop_draft cfg st dr u draft store } in
      fetched-Finalized copy (Memory.get s'.store copy.id) newly s' own

  finalize_delivery-Finalized :
      (copy draft : Message) (newly : List String) (s : Service)
      → copy.sender_id ≡ u.user_id
      → Finalized newly s (finalize_delivery cfg st dr u copy newly draft s)
  unfolding finalize_delivery
  finalize_delivery-Finalized copy draft newly s own =
      moved-Finalized copy draft newly s
        (Write.move_to_folder copy.id folder_sent [] dr.now s.store) own

  -- How a message that was sent went out to the recipients `ids`, where the backend answered so often
  -- for each that its copy was there already: each is delivered to or failed; some were delivered to;
  -- the new copies are those that were not there; the failures are reported; and the received events
  -- of the new copies are published, followed by the sent event.
  pub record SentOut (ids : List String) (old : String → ℕ) (s : Service) (d : Delivered)
      (sent : Sent) (s' : Service) : Type 0 where
    pub accounts : (id : String) → Accounted id (occurrences id ids) d
    pub some_delivered : 0 < length d.delivered_to
    pub new_copies :
        (id : String) → occurrences id d.delivered_to ≡ occurrences id d.newly_delivered + old id
    pub failures : partials sent.errors ≡ partial cfg st dr u d
    pub events :
        s'.published
        ≡ s.published
          ++ (received cfg u d.newly_delivered
              ++ sent_event (event_missing sent.errors) d.newly_delivered)

  -- A send that fails publishes nothing.
  abbrev Told : List String → (String → ℕ) → Service → Result MailboxError Sent × Service → Type 0
  Told ids old s (err e, s') = s'.published ≡ s.published
  Told ids old s (ok sent, s') = (d : Delivered) × SentOut ids old s d sent s'

  -- How often the backend answers in a send, as it was prepared, that a copy was there already
  abbrev pub already_there : Message × List String × Thread → Service → String → ℕ
  already_there (draft, targets, t) s =
      already cfg st dr u draft t dr.sender_uuid targets
        (create_sender_message cfg st dr u draft t s).1

  abbrev pub Tells :
      List String
      → Result MailboxError (Message × List String × Thread)
      → Service
      → Result MailboxError Sent × Service
      → Type 0
  Tells ids prepared s (err e, s') = s'.published ≡ s.published
  Tells ids prepared s (ok sent, s') =
      (p : Message × List String × Thread) × (prepared ≡ ok p)
      × (d : Delivered) × SentOut ids (already_there p s) s d sent s'

  Tells-Told :
      (ids : List String) (prepared : Result MailboxError (Message × List String × Thread))
      (p : Message × List String × Thread) (s : Service) (r : Result MailboxError Sent × Service)
      → prepared ≡ ok p
      → Told ids (already_there p s) s r
      → Tells ids prepared s r
  Tells-Told ids prepared p s (err e, s') h told = told
  Tells-Told ids prepared p s (ok sent, s') h (d, out) = (p, h, d, out)

  none_new : (newly : List String) → ((id : String) → occurrences id newly ≤ 0) → newly ≡ []
  none_new [] few = refl
  none_new (id ∷ ids) few = absurd (ground (arith, few id, eq_refl id))

  occurrences-Empty :
      (id : String) (ids : List String) → eqb (length ids) 0 ≡ true → occurrences id ids ≡ 0
  occurrences-Empty id [] empty = refl
  occurrences-Empty id (x ∷ ids) empty = absurd (ground (arith, empty))

  report-Told :
      (ids : List String) (old : String → ℕ) (d : Delivered) (s₀ s : Service)
      (r : (Message × Result MailboxError (Unit {0})) × Service)
      → ((id : String) → Accounted id (occurrences id ids) d)
      → 0 < length d.delivered_to
      → ((id : String) → occurrences id d.delivered_to ≡ occurrences id d.newly_delivered + old id)
      → s.published ≡ s₀.published ++ received cfg u d.newly_delivered
      → Finalized d.newly_delivered s r
      → Told ids old s₀ (report cfg st dr u d r)
  report-Told ids old d s₀ s ((m, err e), s') accounts some_delivered copies before after = (
    d,
    record {
      accounts = accounts;
      some_delivered = some_delivered;
      new_copies = copies;
      failures = ground arith;
      events =
          ground
            (arith, before, after, append_assoc s₀.published (received cfg u d.newly_delivered) []);
    },
  )
  report-Told ids old d s₀ s ((m, ok _), s') accounts some_delivered copies before after = (
    d,
    record {
      accounts = accounts;
      some_delivered = some_delivered;
      new_copies = copies;
      failures = ground arith;
      events = ground (
        arith,
        before,
        after,
        append_assoc s₀.published (received cfg u d.newly_delivered)
            (sent_event false d.newly_delivered),
      );
    },
  )

  undo_copy-published :
      (m : Message) (s : Service) → (undo_copy cfg st dr u m s).published ≡ s.published
  undo_copy-published m s = ground arith

  conclude-Told :
      (ids : List String) (old : String → ℕ) (copy draft : Message) (s₀ : Service)
      (r : Delivered × Service)
      → copy.sender_id ≡ u.user_id
      → ((id : String)
          → Accounted id (occurrences id ids) r.0
            × (occurrences id r.0.delivered_to ≡ occurrences id r.0.newly_delivered + old id)
            × (r.1.published ≡ s₀.published ++ received cfg u r.0.newly_delivered))
      → Told ids old s₀ (conclude cfg st dr u copy draft r)
  conclude-Told ids old copy draft s₀ (d, s) own delivery =
      elim (Bool-cases (eqb (length d.delivered_to) 0)) [
        | inl nobody ↦
            let fresh =
              none_new d.newly_delivered (λ id.
                omega (arith, (delivery id).1, occurrences-Empty id d.delivered_to nobody)) in
            rw nobody (
              ground (
                arith,
                undo_copy-published copy s,
                (delivery "").2,
                fresh,
                append-nil s₀.published,
              ))
        | inr somebody ↦
            let finished = finalize_delivery cfg st dr u copy d.newly_delivered draft s in
            rw somebody (
              report-Told ids old d s₀ s finished (λ id. (delivery id).0) (ground (arith, somebody))
                (λ id. (delivery id).1) (delivery "").2
                (finalize_delivery-Finalized copy draft d.newly_delivered s own))
      ]

  all_free : (s : Service) → Fresh cfg st dr u (λ _. true) s
  all_free s =
      let free : (id : String) → Free (λ _. true) id s.store.messages = λ id.
        elim (Option-cases (load id s.store.messages)) [
          | inl absent ↦ ground (arith, absent)
          | inr (m, there) ↦ ground (arith, there)
        ] in
      record { sender = free dr.sender_uuid; copies = λ n k. free (dr.copy_uuid n k) }

  deliver-Told :
      (draft : Message) (t : Thread) (targets : List String) (s₀ : Service)
      (r : Result MailboxError Message × Service)
      → CreatesCopy cfg st dr u (λ _. true) s₀ r
      → Told
          (wanted cfg st dr u draft targets)
          (already cfg st dr u draft t dr.sender_uuid targets r.1)
          s₀
          (deliver cfg st dr u draft t targets r)
  deliver-Told draft t targets s₀ (err e, s) (k, quiet) = quiet
  deliver-Told draft t targets s₀ (ok copy, s) (k, named, own, quiet) =
      conclude-Told (wanted cfg st dr u draft targets)
        (already cfg st dr u draft t dr.sender_uuid targets s) copy draft s₀
        (deliver_to_recipients cfg st dr u draft t copy.id targets s) own
        (λ id.
          let (a, b, c) = deliver_to_recipients-Accounts cfg st dr u draft t copy.id targets s id in
          let same = ap (λ c. already cfg st dr u draft t c targets s id) named in
          (a, omega (arith, b, same), ground (arith, c, quiet)))

  -- Sending either fails and publishes nothing, or goes out to the recipients, or to the subset that
  -- the caller names, each once: every one of them is delivered to or is among the failures, at least
  -- one is delivered to, and the failures are reported as a partial delivery. The new copies are those
  -- of the recipients delivered to, less the times that the backend answers, to the batch of the draft
  -- as it was prepared, that a copy was there already. What is published is the received event of
  -- each new copy and then the sent event with these recipients, as far as the bus accepts them,
  -- unless the sent event is reported as failed. The plugins are taken to leave the recipients alone.
  pub send_draft-Tells :
      (draft : Message) (thread_id reply_to_id external_id : String) (ttl : ℕ)
      (schedule_at : Option Time) (deliver_to : List String) (s : Service)
      → ((m m' : Message)
          → st.before_send u.user_id m ≡ some m'
          → m'.recipient_ids ≡ m.recipient_ids)
      → Tells
          (addressed draft deliver_to)
          (prepare st dr u cfg draft thread_id reply_to_id external_id ttl schedule_at deliver_to s)
          s
          (send_draft cfg st dr u draft thread_id reply_to_id external_id ttl schedule_at deliver_to
            s)
  send_draft-Tells draft thread_id reply_to_id external_id ttl schedule_at deliver_to s keeps =
      let prepared =
        prepare st dr u cfg draft thread_id reply_to_id external_id ttl schedule_at deliver_to s in
      send_draft_cases cfg st dr u (Tells (addressed draft deliver_to) prepared s) draft thread_id
        reply_to_id external_id ttl schedule_at deliver_to s (λ e. refl)
        (λ d targets t h.
          let to =
            prepare-Addressed st dr u cfg draft thread_id reply_to_id external_id ttl schedule_at
              deliver_to s d targets t h keeps in
          Tells-Told (addressed draft deliver_to) prepared (d, targets, t) s
            (deliver cfg st dr u d t targets (create_sender_message cfg st dr u d t s)) h
            (subst
              (λ ids.
                Told ids (already_there (d, targets, t) s) s
                  (deliver cfg st dr u d t targets (create_sender_message cfg st dr u d t s)))
              to
              (deliver-Told d t targets s (create_sender_message cfg st dr u d t s) (
                create_sender_message-CreatesCopy cfg st dr u (λ _. true) d t s (all_free s)
                  refl))))
