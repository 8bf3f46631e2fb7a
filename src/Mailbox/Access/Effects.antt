-- ===== src/Mailbox/Access/Effects.antt =====
-- What the parts of the handlers of mutate.go change, of the messages of other owners: nothing.
use mailbox.Prelude.{
  String, ◌≡◌, ◌∙◌, Option-cases, refl, Option, some, arith, eq_iff, Result, ok, err, inl, inr,
  Bool-cases,
}
use mailbox.SyncMap.{load, load-delete}
use mailbox.Store.{Error}
use mailbox.Memory
use mailbox.Memory.{Message, find_message}
use mailbox.Memory.Write
use mailbox.Memory.Write.{with_read, with_folder, with_tag, without_tag, check_source, home_folder}
use mailbox.Memory.Write.Edits.{Outcome, edit-Outcome}
use mailbox.StatsCache.{Event}
use mailbox.Mailbox.{
  Service, Config, UserMailbox, Handler, MailboxError, checked, op_and_publish, publish_only,
  publish_after,
}
use mailbox.Mailbox.Mutate.{then_do, with_store, release}
use mailbox.Mailbox.Access.{Spares, Spares-same, Spares-store}

-- What a handler of the backend spares, when the user owns the message that it is called for
module _ (user id : String) (st : Memory.Store)
    (own : (m : Message) → load id st.messages ≡ some m → m.owner_id ≡ user) where
  pub Spares-Outcome :
      (f : Message → Result Error (Option Message)) (r : Result Error (Unit {0}) × Memory.Store)
      → ((m m' : Message) → f m ≡ ok (some m') → m'.owner_id ≡ m.owner_id)
      → Outcome id f st r
      → Spares user st.messages r.1.messages
  Spares-Outcome f r keeps (Outcome.failed e h) = rw h (Spares-same user st.messages)
  Spares-Outcome f r keeps (Outcome.kept h) = rw h (Spares-same user st.messages)
  Spares-Outcome f r keeps (Outcome.written m m' found live e h) =
      rw h (Spares-store user id m st.messages found (own m found) m' (keeps m m' e ∙ own m found))

  pub Spares-edit :
      (before : Result Error (Unit {0})) (f : Message → Result Error (Option Message))
      → ((m m' : Message) → f m ≡ ok (some m') → m'.owner_id ≡ m.owner_id)
      → Spares user st.messages (Memory.edit id before f st).1.messages
  Spares-edit before f keeps = Spares-Outcome f _ keeps (edit-Outcome id f st before)

  pub Spares-hard_delete : Spares user st.messages (Write.hard_delete id st).1.messages
  unfolding Write.hard_delete
  Spares-hard_delete j = elim (Option-cases (load id st.messages)) [
    | inl gone ↦ ground (arith, gone, load-delete id j st.messages, eq_iff id j)
    | inr (n, there) ↦ ground (
      arith,
      there,
      own n there,
      load-delete id j st.messages,
      eq_iff id j,
      eq_iff n.owner_id user,
    )
  ]

-- A service whose messages of other owners are those of `s`
module _ (cfg : Config) (u : UserMailbox) (s : Service) where
  abbrev pub SparesCall : Service → Type 0
  SparesCall s' = Spares u.user_id s.store.messages s'.store.messages

  pub SparesCall-checked :
      {A : Type 0} {B : Type 0} (r : Result MailboxError A) (k : A → Handler B)
      → ((a : A) → r ≡ ok a → SparesCall (k a s).1)
      → SparesCall (checked s r k).1
  SparesCall-checked (ok a) k f = f a refl
  SparesCall-checked (err e) k f = Spares-same u.user_id s.store.messages

  pub SparesCall-publish :
      (ev : Event) (s' : Service) → SparesCall s' → SparesCall (publish_only cfg ev s').1
  SparesCall-publish ev s' h = elim (Bool-cases (cfg.accepts ev)) [
    | inl taken ↦ rw taken h
    | inr refused ↦ elim (Bool-cases cfg.event_errors_fatal) [
      | inl fatal ↦ rw refused (rw fatal h)
      | inr mild ↦ rw refused (rw mild h)
    ]
  ]

  pub SparesCall-after :
      (ev : Event) (r : Result Error (Unit {0}) × Memory.Store)
      → Spares u.user_id s.store.messages r.1.messages
      → SparesCall (publish_after cfg ev s r).1
  SparesCall-after ev (ok a, st) h = SparesCall-publish ev (record s { store = st }) h
  SparesCall-after ev (err e, st) h = h

  pub SparesCall-op :
      (ev : Event) (op : Memory.Handler (Unit {0}))
      → Spares u.user_id s.store.messages (op s.store).1.messages
      → SparesCall (op_and_publish cfg ev op s).1
  SparesCall-op ev op h = SparesCall-after ev (op s.store) h

  pub SparesCall-then :
      (r : Result MailboxError (Unit {0}) × Service) (k : Handler (Unit {0}))
      → SparesCall r.1
      → ((s' : Service) → SparesCall s' → SparesCall (k s').1)
      → SparesCall (then_do r k).1
  SparesCall-then (ok a, s') k h f = f s' h
  SparesCall-then (err e, s') k h f = h

  pub SparesCall-store :
      {A : Type 0} (r : Result Error A × Memory.Store)
      → Spares u.user_id s.store.messages r.1.messages
      → SparesCall (with_store s r).1
  SparesCall-store (ok a, st) h = h
  SparesCall-store (err e, st) h = h

  pub SparesCall-release :
      (m : Message) (s' : Service) → SparesCall s' → SparesCall (release cfg u m s').1
  SparesCall-release m s' h = elim (Bool-cases cfg.has_attachments) [
    | inl held ↦ rw held h
    | inr unheld ↦ rw unheld h
  ]
