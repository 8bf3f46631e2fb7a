-- ===== src/Memory/Create.antt =====
-- store/memory/create.go: the operations that create messages. `uuid n` is the n-th identifier that
-- a call draws, `clock n` the n-th reading of the clock.
pub mod Idempotent
use mailbox.Prelude.{
  ℕ, zero, suc, String, Bool, true, false, none, some, List, [], ◌∷◌, ◌==◌, Result, ok, err, ◌>>=◌,
  if◌then◌else◌,
}
use Prim.Native.String.{◌++◌}
use mailbox.SyncMap
use mailbox.SyncMap.{SyncMap, load, store, load_or_store}
use mailbox.Store.{Error, Time, MessageData, IdempotentCreateEntry, invalid_idempotency_key}
use mailbox.Memory.{Message, Store, Handler, clone, check_connected, new_message_from_data}

-- CreateMessage also fills the index of external identifiers.
unfoldable pub create_message : MessageData → String → Time → Handler Message
create_message d fresh now s = elim (check_connected s) [
  | err e ↦ (err e, s)
  | ok _ ↦
      let m = new_message_from_data d fresh now in
      let idx =
        if d.external_id == "" then s.external_idx else store d.external_id fresh s.external_idx in
      (ok (clone m), record s { messages = store fresh m s.messages; external_idx = idx })
]

unfoldable pub create_all :
    (ℕ → String) → (ℕ → Time) → ℕ → List MessageData → Handler (List Message)
unfolding create_message
create_all uuid clock i [] s = (ok [], s)
create_all uuid clock i (d ∷ rest) s =
    let (r, s') = create_message d (uuid i) (clock i) s in
    let (rs, s'') = create_all uuid clock (suc i) rest s' in
    elim r [ err e ↦ (err e, s') | ok m ↦ (do ms ← rs; ok (m ∷ ms), s'') ]

-- CreateMessages
unfoldable pub create_messages :
    (ℕ → String) → (ℕ → Time) → List MessageData → Handler (List Message)
unfolding create_all
create_messages uuid clock ds s = elim (check_connected s) [
  | err e ↦ (err e, s)
  | ok _ ↦ create_all uuid clock 0 ds s
]

-- How the loop over the attempts ends: a stored message, or the identifier to create under.
pub data Claim : Type 0 where
  existing : Message → Claim
  reserved : String → Claim

-- The loop: a mapping whose message is gone is removed, and the next attempt tries again.
unfoldable pub claim : ℕ → ℕ → (ℕ → String) → String → String → Store → Claim × Store
claim zero attempt uuid idx_key new_id s = (Claim.reserved new_id, s)
claim (suc left) attempt uuid idx_key new_id s =
    let (id, loaded, idx) = load_or_store idx_key (uuid attempt) s.idempotency_idx in
    elim loaded [
      | false ↦ (Claim.reserved (uuid attempt), record s { idempotency_idx = idx })
      | true ↦ elim (load id s.messages) [
        | some m ↦ (Claim.existing (clone m), record s { idempotency_idx = idx })
        | none ↦
            claim left (suc attempt) uuid idx_key (uuid attempt)
              (record s { idempotency_idx = SyncMap.delete idx_key idx })
      ]
    ]

-- The key of the index
abbrev pub idempotency_index_key : String → String → String
idempotency_index_key owner_id key = owner_id ++ (":" ++ key)

abbrev pub finish_claim : MessageData → Time → Claim × Store → Result Error (Message × Bool) × Store
finish_claim d now (Claim.existing m, s) = (ok (m, false), s)
finish_claim d now (Claim.reserved id, s) =
    let m = new_message_from_data d id now in
    (ok (clone m, true), record s { messages = store id m s.messages })

-- CreateMessageIdempotent: the message, and whether this call created it; two attempts.
unfoldable pub create_message_idempotent :
    MessageData → String → (ℕ → String) → Time → Handler (Message × Bool)
unfolding claim load_or_store
create_message_idempotent d key uuid now s = elim (check_connected s) [
  | err e ↦ (err e, s)
  | ok _ ↦
      if key == ""
      then (err invalid_idempotency_key, s)
      else finish_claim d now (claim 2 0 uuid (idempotency_index_key d.owner_id key) "" s)
]

unfoldable pub create_each :
    (ℕ → ℕ → String)
    → (ℕ → Time)
    → ℕ
    → List IdempotentCreateEntry
    → Store
    → List (Result Error (Message × Bool)) × Store
unfolding create_message_idempotent
create_each uuid clock i [] s = ([], s)
create_each uuid clock i (entry ∷ rest) s =
    let (r, s') =
      create_message_idempotent entry.content entry.idempotency_key (uuid i) (clock i) s in
    let (rs, s'') = create_each uuid clock (suc i) rest s' in (r ∷ rs, s'')

-- CreateMessagesIdempotent: one result for each entry, errors of an entry included.
unfoldable pub create_messages_idempotent :
    (ℕ → ℕ → String)
    → (ℕ → Time)
    → List IdempotentCreateEntry
    → Handler (List (Result Error (Message × Bool)))
unfolding create_each
create_messages_idempotent uuid clock entries s = elim (check_connected s) [
  | err e ↦ (err e, s)
  | ok _ ↦ let (rs, s') = create_each uuid clock 0 entries s in (ok rs, s')
]
