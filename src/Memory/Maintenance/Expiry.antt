-- ===== src/Memory/Maintenance/Expiry.antt =====
-- What the expiry operations delete, and what they count.
use mailbox.Prelude.{
  ℕ, ◌+◌, String, ◌≡◌, refl, Bool, true, false, Option, none, some, [], ◌∷◌, arith, ok, eq_iff,
  contains, length, if◌then◌else◌, ◌<◌, ◌⊎◌, inl, inr, Bool-cases, Option-cases, subst, sym,
}
use mailbox.SyncMap.{SyncMap, load, Distinct}
use mailbox.Store.{Time, folder_trash}
use mailbox.Memory.{Message, Store, Handler}
use mailbox.Memory.Invariant.{IsValid}
use mailbox.Memory.Maintenance.{
  collect, delete_ids, delete_where, is_expired_trash, is_old, is_ttl_expired, delete_expired_trash,
  delete_expired_messages, delete_ttl_expired_messages,
}
use mailbox.Memory.Maintenance.Winners.{load-delete_ids, size-delete_ids, size}

-- What is left of an entry that a test expires
abbrev pub unless : (Message → Bool) → Option Message → Option Message
unless p none = none
unless p (some m) = if p m then none else some m

abbrev passes : (Message → Bool) → Option Message → Bool
passes p none = false
passes p (some m) = p m

contains-collect_absent :
    (p : Message → Bool) (id : String) (ms : SyncMap Message)
    → load id ms ≡ none
    → contains id (collect p ms) ≡ false
unfolding collect load
contains-collect_absent p id [] h = refl
contains-collect_absent p id ((j, m) ∷ ms) h = ground (arith, contains-collect_absent p id ms)

contains-collect :
    (p : Message → Bool) (id : String) (ms : SyncMap Message)
    → Distinct ms
    → contains id (collect p ms) ≡ passes p (load id ms)
unfolding collect load
contains-collect p id [] d = refl
contains-collect p id ((j, m) ∷ ms) d =
    ground (arith, contains-collect p id ms d.1, contains-collect_absent p id ms, eq_iff j id)

-- What is expired, by each operation; never a draft
abbrev pub InOldTrash : Time → Message → Type 0
InOldTrash t m = (m.is_draft ≡ false) × (m.folder_id ≡ folder_trash) × (m.updated_at < t)

abbrev pub Aged : Time → Message → Type 0
Aged t m = (m.is_draft ≡ false) × (m.created_at < t)

abbrev pub PastExpiry : Time → Message → Type 0
PastExpiry t m = (m.is_draft ≡ false) × (e : Time) × (m.expires_at ≡ some e) × (e < t)

-- What is left of an entry: nothing of none and of an expired one, else the entry as it was
abbrev pub Leaves : (Message → Type 0) → Option Message → Option Message → Type 0
Leaves P none after = after ≡ none
Leaves P (some m) after = P m × (after ≡ none) ⊎ (¬ P m) × (after ≡ some m)

-- What an expiry operation does that returns `n`
pub record Clears (P : Message → Type 0) (s : Store) (n : ℕ) (s' : Store) : Type 0 where
  pub left : (id : String) → Leaves P (load id s.messages) (load id s'.messages)
  pub counted : size s'.messages + n ≡ size s.messages
  pub idempotency_idx : s'.idempotency_idx ≡ s.idempotency_idx

-- A test decides a property.
abbrev Decides : (Message → Bool) → (Message → Type 0) → Type 0
Decides p P = (m : Message) → P m × (p m ≡ true) ⊎ (¬ P m) × (p m ≡ false)

-- Both passes together
pub record Expires (p : Message → Bool) (s : Store) (n : ℕ) (s' : Store) : Type 0 where
  pub left : (id : String) → load id s'.messages ≡ unless p (load id s.messages)
  pub counted : size s'.messages + n ≡ size s.messages
  pub idempotency_idx : s'.idempotency_idx ≡ s.idempotency_idx

delete_where-Expires :
    (p : Message → Bool) (s : Store)
    → s.connected ≡ true
    → IsValid s.messages
    → (n : ℕ) × (s' : Store) × (delete_where p s ≡ (ok n, s')) × Expires p s n s'
delete_where-Expires p s c v =
    let (deleted, ms) = delete_ids (collect p s.messages) s.messages in
    (
      length deleted,
      record s { messages = ms },
      ground arith,
      record {
        left = λ id. ground (
          arith,
          load-delete_ids id (collect p s.messages) s.messages,
          contains-collect p id s.messages v.distinct,
        );
        counted = size-delete_ids (collect p s.messages) s.messages v.distinct;
        idempotency_idx = refl;
      },
    )

is_expired_trash-Decides : (t : Time) → Decides (is_expired_trash t) (InOldTrash t)
is_expired_trash-Decides t m = elim (Bool-cases (is_expired_trash t m)) [
  | inl yes' ↦ inl (
    (
      ground (arith, yes'),
      ground (arith, yes', eq_iff m.folder_id folder_trash),
      ground (arith, yes'),
    ),
    yes',
  )
  | inr no' ↦ inr (
    λ (q : InOldTrash t m). ground (arith, no', q.0, q.1, q.2, eq_iff m.folder_id folder_trash),
    no',
  )
]

is_old-Decides : (t : Time) → Decides (is_old t) (Aged t)
is_old-Decides t m = elim (Bool-cases (is_old t m)) [
  | inl yes' ↦ inl ((ground (arith, yes'), ground (arith, yes')), yes')
  | inr no' ↦ inr (λ (q : Aged t m). ground (arith, no', q.0, q.1), no')
]

is_ttl_expired-Decides : (t : Time) → Decides (is_ttl_expired t) (PastExpiry t)
is_ttl_expired-Decides t m = elim (Option-cases m.expires_at) [
  | inl never ↦ inr (λ (q : PastExpiry t m). ground (arith, never, q.2), ground (arith, never))
  | inr (e, at) ↦ elim (Bool-cases (is_ttl_expired t m)) [
    | inl yes' ↦ inl ((ground (arith, yes', at), e, at, ground (arith, yes', at)), yes')
    | inr no' ↦ inr (λ (q : PastExpiry t m). ground (arith, no', at, q.0, q.2, q.3), no')
  ]
]

Leaves-unless :
    (p : Message → Bool) (P : Message → Type 0) (o : Option Message)
    → Decides p P
    → Leaves P o (unless p o)
Leaves-unless p P none decides = refl
Leaves-unless p P (some m) decides = elim (decides m) [
  | inl (expired, test) ↦ inl (expired, rw test refl)
  | inr (live, test) ↦ inr (live, rw test refl)
]

-- What an operation returns and does on a connected and valid backend
abbrev pub Expiring : (Message → Type 0) → (Time → Handler ℕ) → Time → Store → Type 0
Expiring P op t s = (n : ℕ) × (s' : Store) × (op t s ≡ (ok n, s')) × Clears P s n s'

delete_where-Clears :
    (p : Message → Bool) (P : Message → Type 0) (s : Store)
    → Decides p P
    → s.connected ≡ true
    → IsValid s.messages
    → (n : ℕ) × (s' : Store) × (delete_where p s ≡ (ok n, s')) × Clears P s n s'
delete_where-Clears p P s decides c v =
    let (n, s', run, x) = delete_where-Expires p s c v in
    (
      n,
      s',
      run,
      record {
        left = λ id.
            subst (Leaves P (load id s.messages)) (sym (x.left id))
              (Leaves-unless p P (load id s.messages) decides);
        counted = x.counted;
        idempotency_idx = x.idempotency_idx;
      },
    )

-- On a connected and valid backend, DeleteExpiredTrash, DeleteExpiredMessages and
-- DeleteTTLExpiredMessages each remove exactly the entries that are expired in their sense (in the
-- trash and updated before the cutoff; created before it; with an expiry before now; never a draft),
-- keep every other entry as it was, and return the number of entries removed.
pub expiry_exact :
    (t : Time) (s : Store)
    → s.connected ≡ true
    → IsValid s.messages
    → Expiring (InOldTrash t) delete_expired_trash t s
      × Expiring (Aged t) delete_expired_messages t s
      × Expiring (PastExpiry t) delete_ttl_expired_messages t s
unfolding delete_expired_trash delete_expired_messages delete_ttl_expired_messages
expiry_exact t s c v = (
  delete_where-Clears (is_expired_trash t) (InOldTrash t) s (is_expired_trash-Decides t) c v,
  delete_where-Clears (is_old t) (Aged t) s (is_old-Decides t) c v,
  delete_where-Clears (is_ttl_expired t) (PastExpiry t) s (is_ttl_expired-Decides t) c v,
)
