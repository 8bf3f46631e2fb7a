-- ===== src/Mailbox/Verified.antt =====
-- mutate.go: what the checks establish with which the handlers of one message begin.
use mailbox.Prelude.{
  String, ◌≡◌, Bool, false, some, arith, eq_iff, Result, ok, err, ◌>>=◌, ◌>>◌, fail_if,
}
use mailbox.SyncMap.{load}
use mailbox.Memory
use mailbox.Memory.{Message}
use mailbox.Mailbox.{MailboxError, Service, UserMailbox, get_and_verify}

-- What the checks of the handlers of one message establish
pub record Verified (u : UserMailbox) (s : Service) (id : String) (m : Message) : Type 0 where
  pub found : load id s.store.messages ≡ some m
  pub own : m.owner_id ≡ u.user_id
  pub live : m.is_draft ≡ false

get-ok :
    (st : Memory.Store) (id : String) (m : Message)
    → Memory.get st id ≡ ok m
    → (load id st.messages ≡ some m) × (m.is_draft ≡ false)
unfolding Memory.get
get-ok st id m h = ground arith

pub get_and_verify-Verified :
    (u : UserMailbox) (s : Service) (id : String) (m : Message)
    → get_and_verify u s id ≡ ok m
    → Verified u s id m
get_and_verify-Verified u s id m h =
    let got : Memory.get s.store id ≡ ok m = ground arith in
    let (found, live) = get-ok s.store id m got in
    record { found = found; own = ground (arith, eq_iff m.owner_id u.user_id); live = live }

pub then-ok :
    {A : Type 0} (r : Result MailboxError (Unit {0})) (k : Result MailboxError A) (a : A)
    → (do r; k) ≡ ok a
    → k ≡ ok a
then-ok r k a h = ground arith

pub guard-ok :
    (r : Result MailboxError Message) (bad : Message → Bool) (e : MailboxError) (m : Message)
    → (do n ← r; fail_if (bad n) e; ok n) ≡ ok m
    → (r ≡ ok m) × (bad m ≡ false)
guard-ok (ok n) bad e m h = ground arith
guard-ok (err x) bad e m h = ground arith
