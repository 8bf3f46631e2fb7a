-- ===== src/Mailbox/Send/Preparation.antt =====
-- The steps of sendDraft before its first write, as far as they decide who gets a copy.
use mailbox.Prelude.{
  ℕ, String, ◌≡◌, refl, Option, some, List, [], ◌∷◌, arith, eqb, length, Result, ok, err, ◌>>◌,
  Result-cases, Option-cases, inl, inr, if◌then◌else◌,
}
use mailbox.Store.{Time}
use mailbox.Memory.{Message}
use mailbox.Memory.Drafts.{set_recipients}
use mailbox.Mailbox.{Service, Config, UserMailbox, MailboxError, Handler, checked, check_access}
use mailbox.Mailbox.Delivery.{Setting, Draws, Thread, create_sender_message, deduplicate_recipients}
use mailbox.Mailbox.Delivery.Recipients.{deduplicate_recipients-first}
use mailbox.Mailbox.Delivery.Accounting.{wanted}
use mailbox.Mailbox.Send.{
  Sent, deliver, send_draft, prepare, with_content_length, resolve_and_inject_user_metadata,
}

-- Whom a message is delivered to: the recipients, or the subset that the caller names, each once
abbrev pub addressed : Message → List String → List String
addressed draft deliver_to =
    deduplicate_recipients (if eqb (length deliver_to) 0 then draft.recipient_ids else deliver_to)

deduplicate-Empty :
    (ids : List String) → eqb (length (deduplicate_recipients ids)) 0 ≡ eqb (length ids) 0
deduplicate-Empty [] = rw ((deduplicate_recipients-first [] "").0) refl
deduplicate-Empty (id ∷ ids) = rw ((deduplicate_recipients-first (id ∷ ids) "").0) (ground arith)

module _ (st : Setting) (dr : Draws) (u : UserMailbox) where
  resolve-Recipients :
      (m m' : Message)
      → resolve_and_inject_user_metadata st dr u m ≡ ok m'
      → m'.recipient_ids ≡ m.recipient_ids
  unfolding resolve_and_inject_user_metadata
  resolve-Recipients m m' h = elim (Option-cases st.resolve_user) [
    | inl nobody ↦ ground (arith, h, nobody)
    | inr (resolve, has) ↦ elim (Option-cases (resolve u.user_id)) [
      | inl unknown ↦ ground (arith, h, has, unknown)
      | inr (user, known) ↦ ground (arith, h, has, known)
    ]
  ]

  prepare-Recipients :
      (cfg : Config) (draft : Message) (thread_id reply_to_id external_id : String) (ttl : ℕ)
      (schedule_at : Option Time) (deliver_to : List String) (s : Service) (d : Message)
      (targets : List String) (t : Thread)
      → prepare st dr u cfg draft thread_id reply_to_id external_id ttl schedule_at deliver_to s
        ≡ ok (d, targets, t)
      → ((m m' : Message)
          → st.before_send u.user_id m ≡ some m'
          → m'.recipient_ids ≡ m.recipient_ids)
      → (d.recipient_ids ≡ deduplicate_recipients draft.recipient_ids)
        × (targets ≡ deduplicate_recipients deliver_to)
  unfolding prepare
  prepare-Recipients cfg draft thread_id reply_to_id external_id ttl schedule_at deliver_to s d
        targets t h keeps =
      let d₁ =
        with_content_length st dr u
          (set_recipients draft dr.now (deduplicate_recipients draft.recipient_ids)) in
      elim (Result-cases (resolve_and_inject_user_metadata st dr u d₁)) [
        | inr (e, failed) ↦ absurd (ground (arith, h, failed))
        | inl (d₂, resolved) ↦ elim (Option-cases (st.before_send u.user_id d₂)) [
          | inl refused ↦ absurd (ground (arith, h, resolved, refused))
          | inr (d₃, hooked) ↦
              let same = resolve-Recipients d₁ d₂ resolved in
              let kept = keeps d₂ d₃ hooked in
              (ground (arith, h, resolved, hooked, same, kept), ground (arith, h, resolved, hooked))
        ]
      ]

  pub prepare-Addressed :
      (cfg : Config) (draft : Message) (thread_id reply_to_id external_id : String) (ttl : ℕ)
      (schedule_at : Option Time) (deliver_to : List String) (s : Service) (d : Message)
      (targets : List String) (t : Thread)
      → prepare st dr u cfg draft thread_id reply_to_id external_id ttl schedule_at deliver_to s
        ≡ ok (d, targets, t)
      → ((m m' : Message)
          → st.before_send u.user_id m ≡ some m'
          → m'.recipient_ids ≡ m.recipient_ids)
      → wanted cfg st dr u d targets ≡ addressed draft deliver_to
  prepare-Addressed cfg draft thread_id reply_to_id external_id ttl schedule_at deliver_to s d
        targets t h keeps =
      let (a, b) =
        prepare-Recipients cfg draft thread_id reply_to_id external_id ttl schedule_at deliver_to s
          d targets t h keeps in
      ground (arith, a, b, deduplicate-Empty deliver_to)

-- A failure of the checks, or what is done with the value that they found
pub checked_cases {ℓ} :
    {A : Type ℓ} {B : Type 0} (P : Result MailboxError B × Service → Type 0) (s : Service)
    (r : Result MailboxError A) (k : A → Handler B)
    → ((e : MailboxError) → P (err e, s))
    → ((a : A) → r ≡ ok a → P (k a s))
    → P (checked s r k)
checked_cases P s (ok a) k failed done = done a refl
checked_cases P s (err e) k failed done = failed e

granted {ℓ} :
    {A : Type ℓ} (c : Result MailboxError (Unit {0})) (r : Result MailboxError A) (a : A)
    → (c >> r) ≡ ok a
    → r ≡ ok a
granted (ok _) r a h = h
granted (err e) r a h = absurd (ground (arith, h))

-- What holds of a send: what holds when it fails before its first write, and after every delivery
-- that is prepared.
pub send_draft_cases :
    (cfg : Config) (st : Setting) (dr : Draws) (u : UserMailbox)
    (P : Result MailboxError Sent × Service → Type 0) (draft : Message)
    (thread_id reply_to_id external_id : String) (ttl : ℕ) (schedule_at : Option Time)
    (deliver_to : List String) (s : Service)
    → ((e : MailboxError) → P (err e, s))
    → ((d : Message) (targets : List String) (t : Thread)
        → prepare st dr u cfg draft thread_id reply_to_id external_id ttl schedule_at deliver_to s
          ≡ ok (d, targets, t)
        → P (deliver cfg st dr u d t targets (create_sender_message cfg st dr u d t s)))
    → P (
        send_draft cfg st dr u draft thread_id reply_to_id external_id ttl schedule_at deliver_to s)
unfolding send_draft
send_draft_cases cfg st dr u P draft thread_id reply_to_id external_id ttl schedule_at deliver_to s
      failed done =
    let prepared =
      prepare st dr u cfg draft thread_id reply_to_id external_id ttl schedule_at deliver_to s in
    checked_cases P s (check_access u s >> prepared)
      (λ (d, targets, t) s.
        deliver cfg st dr u d t targets (create_sender_message cfg st dr u d t s))
      failed
      (λ (d, targets, t) h.
        done d targets t (granted (check_access u s) prepared (d, targets, t) h))
