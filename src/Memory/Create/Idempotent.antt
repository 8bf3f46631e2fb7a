-- ===== src/Memory/Create/Idempotent.antt =====
-- CreateMessageIdempotent creates at most once for each owner and key.
use mailbox.Prelude.{
  ℕ, suc, String, ◌≡◌, refl, Bool, true, false, some, ap, ◌∙◌, Result, eq_refl, arith, ok, err,
  ◌==◌, Option-cases, Bool-cases, eq_iff, subst, sym, inl, inr,
}
use mailbox.SyncMap
use mailbox.SyncMap.{SyncMap, load, store, load_or_store, load-store, load-store_self, load-delete}
use mailbox.Store.{Error, Time, MessageData}
use mailbox.Memory.{Message, Store, new_message_from_data}
use mailbox.Memory.Create.{
  Claim, claim, finish_claim, idempotency_index_key, create_message_idempotent,
}

-- The key leads to the message through both maps.
abbrev pub Claimed : Store → String → Message → Type 0
Claimed s key m =
    (id : String) × (load key s.idempotency_idx ≡ some id) × (load id s.messages ≡ some m)

-- A key that is claimed is found at the first attempt, and nothing changes.
claim-Claimed :
    (left : ℕ) (uuid : ℕ → String) (key : String) (s : Store) (m : Message)
    → Claimed s key m
    → claim (suc left) 0 uuid key "" s ≡ (Claim.existing m, s)
unfolding claim load_or_store
claim-Claimed left uuid key s m (id, e, f) = ground arith

-- How the two attempts end: at a message that is there, or with an identifier under the key. The
-- second attempt never meets a mapping again, since the first one removed it.
pub data TwoAttempts (key : String) (s : Store) (r : Claim × Store) : Type 0 where
  found : (m : Message) → Claimed s key m → r ≡ (Claim.existing m, s) → TwoAttempts key s r
  drawn :
      (id : String) (idx : SyncMap String)
      → load key idx ≡ some id
      → r ≡ (Claim.reserved id, record s { idempotency_idx = idx })
      → TwoAttempts key s r

pub claim-TwoAttempts :
    (uuid : ℕ → String) (key : String) (s : Store) → TwoAttempts key s (claim 2 0 uuid key "" s)
unfolding claim load_or_store
claim-TwoAttempts uuid key s = elim (Option-cases (load key s.idempotency_idx)) [
  | inl unused ↦
      TwoAttempts.drawn (uuid 0) (store key (uuid 0) s.idempotency_idx)
        (load-store_self key (uuid 0) s.idempotency_idx) (ground arith)
  | inr (id, used) ↦ elim (Option-cases (load id s.messages)) [
    | inr (m, there) ↦ TwoAttempts.found m (id, used, there) (ground arith)
    | inl gone ↦
        let idx = SyncMap.delete key s.idempotency_idx in
        TwoAttempts.drawn (uuid 1) (store key (uuid 1) idx) (load-store_self key (uuid 1) idx)
          (ground (arith, load-delete key key s.idempotency_idx, eq_refl key))
  ]
]

-- The call returns a message, and its key leads to that message afterwards.
abbrev Returns : String → Store → Result Error (Message × Bool) × Store → Type 0
Returns key s r =
    (m : Message) × (created : Bool) × (s' : Store) × (r ≡ (ok (m, created), s'))
    × Claimed s' key m
    × (s'.connected ≡ s.connected)

finish_claim-Returns :
    (d : MessageData) (key : String) (now : Time) (s : Store) (r : Claim × Store)
    → TwoAttempts key s r
    → Returns key s (finish_claim d now r)
finish_claim-Returns d key now s r (TwoAttempts.found m c e) = (m, false, s, rw e, c, refl)
finish_claim-Returns d key now s r (TwoAttempts.drawn id idx used e) =
    let m = new_message_from_data d id now in
    let s' = record s { idempotency_idx = idx; messages = store id m s.messages } in
    (m, true, s', rw e, (id, used, load-store_self id m s.messages), refl)

past_checks :
    (d : MessageData) (key : String) (uuid : ℕ → String) (now : Time) (s : Store)
    → s.connected ≡ true
    → (key == "") ≡ false
    → create_message_idempotent d key uuid now s
      ≡ finish_claim d now (claim 2 0 uuid (idempotency_index_key d.owner_id key) "" s)
unfolding create_message_idempotent
past_checks d key uuid now s c named = ground arith

-- On a connected backend, with a key that is not empty, CreateMessageIdempotent returns a message
-- within its two attempts; and a second call with the same owner and key, made on the state that the
-- first one leaves, returns that same message as not created and changes nothing, whatever the
-- content, the identifiers and the time that it is made with.
pub create_at_most_once :
    (d d' : MessageData) (key : String) (uuid uuid' : ℕ → String) (now later : Time) (s : Store)
    → s.connected ≡ true
    → (key == "") ≡ false
    → d'.owner_id ≡ d.owner_id
    → (m : Message) × (created : Bool) × (s' : Store) × (create_message_idempotent d key uuid now s
        ≡ (ok (m, created), s'))
      × (create_message_idempotent d' key uuid' later s' ≡ (ok (m, false), s'))
create_at_most_once d d' key uuid uuid' now later s c named same =
    let idx = idempotency_index_key d.owner_id key in
    let (m, created, s', e, claimed, live) =
      finish_claim-Returns d idx now s _ (claim-TwoAttempts uuid idx s) in
    (
      m,
      created,
      s',
      past_checks d key uuid now s c named ∙ e,
      past_checks d' key uuid' later s' (live ∙ c) named
          ∙ ap (λ o. finish_claim d' later (claim 2 0 uuid' (idempotency_index_key o key) "" s'))
              same
          ∙ ap (finish_claim d' later) (claim-Claimed 1 uuid' idx s' m claimed),
    )

-- A key that leads to a message, whichever it is
abbrev pub HasCopy : String → Store → Type 0
HasCopy key s = (m : Message) × Claimed s key m

claim-HasCopy :
    (uuid : ℕ → String) (idx k : String) (s : Store)
    → HasCopy k s
    → HasCopy k (claim 2 0 uuid idx "" s).1
unfolding claim load_or_store
claim-HasCopy uuid idx k s (m, (id, e, f)) = elim (Option-cases (load idx s.idempotency_idx)) [
  | inl unused ↦ (
    m,
    (
      id,
      ground (arith, e, unused, load-store idx k (uuid 0) s.idempotency_idx, eq_iff idx k),
      ground (arith, f, unused),
    ),
  )
  | inr (j, used) ↦ elim (Option-cases (load j s.messages)) [
    | inr (n, there) ↦ (m, (id, ground (arith, e, used, there), ground (arith, f, used, there)))
    | inl gone ↦
        let idx' = SyncMap.delete idx s.idempotency_idx in
        (
          m,
          (
            id,
            ground (
              arith,
              e,
              f,
              used,
              gone,
              load-delete idx k s.idempotency_idx,
              load-delete idx idx s.idempotency_idx,
              load-store idx k (uuid 1) idx',
              eq_iff idx k,
              eq_refl idx,
            ),
            ground (arith, f, used, gone, load-delete idx idx s.idempotency_idx, eq_refl idx),
          ),
        )
  ]
]

finish_claim-HasCopy :
    (d : MessageData) (now : Time) (k : String) (r : Claim × Store)
    → HasCopy k r.1
    → HasCopy k (finish_claim d now r).1
finish_claim-HasCopy d now k (Claim.existing n, s) h = h
finish_claim-HasCopy d now k (Claim.reserved j, s) (m, (id, e, f)) =
    let n = new_message_from_data d j now in
    elim (Bool-cases (j == id)) [
      | inl same ↦ (n, (id, e, ground (arith, same, load-store j id n s.messages)))
      | inr other ↦ (m, (id, e, ground (arith, other, f, load-store j id n s.messages)))
    ]

-- Every call keeps the keys that lead to a message.
pub create_message_idempotent-HasCopy :
    (d : MessageData) (key : String) (uuid : ℕ → String) (now : Time) (s : Store) (k : String)
    → HasCopy k s
    → HasCopy k (create_message_idempotent d key uuid now s).1
unfolding create_message_idempotent
create_message_idempotent-HasCopy d key uuid now s k h = elim (Bool-cases s.connected) [
  | inr down ↦ rw down h
  | inl up ↦ elim (Bool-cases (key == "")) [
    | inl unnamed ↦ rw (up, unnamed) h
    | inr named ↦
        subst (λ t. HasCopy k t.1) (sym (past_checks d key uuid now s up named))
          (finish_claim-HasCopy d now k (claim 2 0 uuid (idempotency_index_key d.owner_id key) "" s)
            (claim-HasCopy uuid (idempotency_index_key d.owner_id key) k s h))
  ]
]

-- A result that says that its call created the message
abbrev pub is_created : Result Error (Message × Bool) → Bool
is_created (ok (m, created)) = created
is_created (err e) = false

-- A call whose key leads to a message creates none.
pub create_message_idempotent-old :
    (d : MessageData) (key : String) (uuid : ℕ → String) (now : Time) (s : Store)
    → HasCopy (idempotency_index_key d.owner_id key) s
    → is_created (create_message_idempotent d key uuid now s).0 ≡ false
unfolding create_message_idempotent
create_message_idempotent-old d key uuid now s (m, h) = elim (Bool-cases s.connected) [
  | inr down ↦ rw down refl
  | inl up ↦ elim (Bool-cases (key == "")) [
    | inl unnamed ↦ rw (up, unnamed) refl
    | inr named ↦
        let idx = idempotency_index_key d.owner_id key in
        ap (λ r. is_created r.0)
          (past_checks d key uuid now s up named
            ∙ ap (finish_claim d now) (claim-Claimed 1 uuid idx s m h))
  ]
]
