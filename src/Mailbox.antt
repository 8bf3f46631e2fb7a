-- ===== src/Mailbox.antt =====
-- mailbox.go, mutate.go, outbox_helpers.go: the mailbox of one user over the in-memory backend. The
-- backend has no outbox, so an event is published after its write. The event bus and the attachment
-- manager are not part of the program: `bus` says which events Publish accepts, and the references
-- that are released are recorded. What `fmt.Errorf` adds to an error is left out, the cause is kept.
pub mod Mutate
pub mod Attachments
pub mod Quota
pub mod Delivery
pub mod Send
pub mod Cleanup
pub mod Draft
pub mod Enforcement
pub mod Statistics
pub mod Verified
pub mod Settling
pub mod Runs
pub mod Publishing
pub mod Bulk
pub mod Access
mod Tests
use mailbox.Prelude.{
  ℕ, String, Bool, true, false, not, ◌||◌, List, [], ◌∷◌, ◌++◌, ◌==◌, Result, ok, err, ◌>>=◌, ◌>>◌,
  fail_if, if◌then◌else◌, eqb, ltb,
}
use Prim.Native.Char.{Char, code}
use Prim.Native.String
use mailbox.SyncMap.{load, SyncMap}
use mailbox.Store
use mailbox.Memory
use mailbox.Memory.{Message}
use mailbox.Memory.Stats.{MailboxStats}
use mailbox.StatsCache.{StatsCache, Event, handle}
use mailbox.Validation.{ValidationError}

-- The errors of the service; `store_error` is an error that the backend returned.
pub data MailboxError : Type 0 where
  not_connected invalid_user_id unauthorized : MailboxError
  already_in_trash not_in_trash : MailboxError
  invalid_folder_id invalid_id event_publish : MailboxError
  invalid_recipient user_resolve_failed attachment_store_not_configured : MailboxError
  attachment_not_found send_not_acquired plugin_failed invalid_ttl invalid_schedule : MailboxError
  attachment_ref_failed send_failed context_done quota_exceeded quota_unknown users_unknown
        lister_not_configured :
      MailboxError
  invalid_message : ValidationError → MailboxError
  store_error : Store.Error → MailboxError

-- What the service mutates: the backend, the statistics, the events that were published, and the
-- attachments that the manager was asked to release and those that it took a reference to.
pub record Service : Type 0 where
  pub connected : Bool
  pub store : Memory.Store
  pub cache : StatsCache
  pub published : List Event
  pub released : List String
  pub referenced : List String

-- What is fixed for a service: which events the bus accepts, whether a failure of Publish is an
-- error (eventErrorsFatal), and whether there is an attachment manager.
pub record Config : Type 0 where
  pub accepts : Event → Bool
  pub event_errors_fatal : Bool
  pub has_attachments : Bool

pub record UserMailbox : Type 0 where
  pub user_id : String
  pub valid_user_id : Bool

abbrev pub Handler : Type 0 → Type 0
Handler A = Service → Result MailboxError A × Service

-- `*`, `:`, `/`, the backslash, the space, tab, line feed, carriage return and control characters
abbrev is_unsafe : Char → Bool
is_unsafe c =
    let n = code c in
    eqb n 42
    || eqb n 58
    || eqb n 47
    || eqb n 92
    || eqb n 32
    || eqb n 9
    || eqb n 10
    || eqb n 13
    || ltb n 32
    || eqb n 127

has_unsafe : String → Bool
has_unsafe String.[] = Bool.false
has_unsafe (String.◌∷◌ c s) = let rest = has_unsafe s in if is_unsafe c then Bool.true else rest

-- isValidUserID
unfoldable pub is_valid_user_id : String → Bool
unfolding has_unsafe
is_valid_user_id user_id = if user_id == "" then false else not (has_unsafe user_id)

-- Client
abbrev pub client : String → UserMailbox
client user_id = record { user_id = user_id; valid_user_id = is_valid_user_id user_id }

-- checkAccess
abbrev pub check_access : UserMailbox → Service → Result MailboxError (Unit {0})
check_access u s = do
  fail_if (not s.connected) MailboxError.not_connected
  fail_if (not u.valid_user_id) MailboxError.invalid_user_id

abbrev pub lift_error {ℓ} : {A : Type ℓ} → Result Store.Error A → Result MailboxError A
lift_error (ok a) = ok a
lift_error (err e) = err (MailboxError.store_error e)

-- canAccess
abbrev pub can_access : UserMailbox → Message → Bool
can_access u m = m.owner_id == u.user_id

-- getAndVerify
abbrev pub get_and_verify : UserMailbox → Service → String → Result MailboxError Message
get_and_verify u s id = do
  m ← lift_error (Memory.get s.store id)
  fail_if (not (can_access u m)) MailboxError.unauthorized
  ok m

-- A failure before the first write, or what is done with the value that the checks found
abbrev pub checked {ℓ} :
    {A : Type ℓ} {B : Type 0}
    → Service
    → Result MailboxError A
    → (A → Handler B)
    → Result MailboxError B × Service
checked s (ok a) k = k a s
checked s (err e) k = (err e, s)

module _ (cfg : Config) where
  -- publishTypedEvent, and what its two callers do with its result
  abbrev pub publish_only : Event → Handler (Unit {0})
  publish_only ev s =
      if cfg.accepts ev
      then (ok tt, record s { published = s.published ++ ev ∷ [] })
      else if cfg.event_errors_fatal
      then (err MailboxError.event_publish, s)
      else (ok tt, s)

  abbrev pub publish_after :
      Event
      → Service
      → Result Store.Error (Unit {0}) × Memory.Store
      → Result MailboxError (Unit {0}) × Service
  publish_after ev s (ok _, st) = publish_only ev (record s { store = st })
  publish_after ev s (err e, st) = (err (MailboxError.store_error e), record s { store = st })

  -- opAndPublish, its direct path
  abbrev pub op_and_publish : Event → Memory.Handler (Unit {0}) → Handler (Unit {0})
  op_and_publish ev op s = publish_after ev s (op s.store)

-- The handlers of the cache, run on the events in the order in which they were published
unfoldable pub deliver : List Event → StatsCache → StatsCache
deliver [] c = c
deliver (ev ∷ evs) c = deliver evs (handle ev c).0
