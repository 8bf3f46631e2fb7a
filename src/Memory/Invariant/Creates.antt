-- ===== src/Memory/Invariant/Creates.antt =====
-- The operations that create messages, and SaveDraft, keep the invariant.
use mailbox.Prelude.{
  ℕ, zero, suc, String, ◌≡◌, refl, true, List, [], ◌∷◌, arith, ◌==◌, Bool-cases, inl, inr,
}
use mailbox.SyncMap
use mailbox.SyncMap.{SyncMap, load, load_or_store}
use mailbox.Store.{Time, MessageData, IdempotentCreateEntry}
use mailbox.Memory.{Message, Store, new_message_from_data}
use mailbox.Memory.Create.{
  Claim, create_message, create_all, create_messages, claim, idempotency_index_key, finish_claim,
  create_message_idempotent, create_each, create_messages_idempotent,
}
use mailbox.Memory.Drafts.{save_draft}
use mailbox.Memory.Invariant.{IsValid, store-IsValid}

pub create_message-IsValid :
    (d : MessageData) (fresh : String) (now : Time) (s : Store)
    → IsValid s.messages
    → IsValid (create_message d fresh now s).1.messages
unfolding create_message
create_message-IsValid d fresh now s v =
    ground (arith, store-IsValid (new_message_from_data d fresh now) s.messages refl v)

create_all-IsValid :
    (uuid : ℕ → String) (clock : ℕ → Time) (i : ℕ) (ds : List MessageData) (s : Store)
    → IsValid s.messages
    → IsValid (create_all uuid clock i ds s).1.messages
unfolding create_all
create_all-IsValid uuid clock i [] s v = v
create_all-IsValid uuid clock i (d ∷ ds) s v =
    let v' = create_message-IsValid d (uuid i) (clock i) s v in
    ground
      (arith, create_all-IsValid uuid clock (suc i) ds (create_message d (uuid i) (clock i) s).1 v')

pub create_messages-IsValid :
    (uuid : ℕ → String) (clock : ℕ → Time) (ds : List MessageData) (s : Store)
    → IsValid s.messages
    → IsValid (create_messages uuid clock ds s).1.messages
unfolding create_messages
create_messages-IsValid uuid clock ds s v = ground (arith, create_all-IsValid uuid clock 0 ds s v)

-- The loop over the attempts leaves the messages alone.
pub messages-claim :
    (left attempt : ℕ) (uuid : ℕ → String) (key new_id : String) (s : Store)
    → (claim left attempt uuid key new_id s).1.messages ≡ s.messages
unfolding claim load_or_store
messages-claim zero attempt uuid key new_id s = refl
messages-claim (suc left) attempt uuid key new_id s = ground (
  arith,
  messages-claim left (suc attempt) uuid key (uuid attempt)
      (record s { idempotency_idx = SyncMap.delete key s.idempotency_idx }),
)

finish_claim-IsValid :
    (d : MessageData) (now : Time) (c : Claim) (s : Store)
    → IsValid s.messages
    → IsValid (finish_claim d now (c, s)).1.messages
finish_claim-IsValid d now (Claim.existing m) s v = v
finish_claim-IsValid d now (Claim.reserved id) s v =
    store-IsValid (new_message_from_data d id now) s.messages refl v

pub create_message_idempotent-IsValid :
    (d : MessageData) (key : String) (uuid : ℕ → String) (now : Time) (s : Store)
    → IsValid s.messages
    → IsValid (create_message_idempotent d key uuid now s).1.messages
unfolding create_message_idempotent
create_message_idempotent-IsValid d key uuid now s v =
    let idx = idempotency_index_key d.owner_id key in
    let (c, s') = claim 2 0 uuid idx "" s in
    let v' : IsValid s'.messages = rw messages-claim v in
    ground (arith, finish_claim-IsValid d now c s' v')

create_each-IsValid :
    (uuid : ℕ → ℕ → String) (clock : ℕ → Time) (i : ℕ) (es : List IdempotentCreateEntry) (s : Store)
    → IsValid s.messages
    → IsValid (create_each uuid clock i es s).1.messages
unfolding create_each
create_each-IsValid uuid clock i [] s v = v
create_each-IsValid uuid clock i (e ∷ es) s v =
    create_each-IsValid uuid clock (suc i) es _
      (create_message_idempotent-IsValid e.content e.idempotency_key (uuid i) (clock i) s v)

pub create_messages_idempotent-IsValid :
    (uuid : ℕ → ℕ → String) (clock : ℕ → Time) (es : List IdempotentCreateEntry) (s : Store)
    → IsValid s.messages
    → IsValid (create_messages_idempotent uuid clock es s).1.messages
unfolding create_messages_idempotent
create_messages_idempotent-IsValid uuid clock es s v =
    ground (arith, create_each-IsValid uuid clock 0 es s v)

pub save_draft-IsValid :
    (draft : Message) (fresh : String) (now : Time) (s : Store)
    → IsValid s.messages
    → IsValid (save_draft draft fresh now s).1.messages
unfolding save_draft
save_draft-IsValid draft fresh now s v = elim (Bool-cases (draft.id == "")) [
  | inl e ↦ ground (
    arith,
    store-IsValid (record draft { id = fresh; updated_at = now; is_draft = true }) s.messages refl
        v,
  )
  | inr e ↦
      ground (
        arith,
        store-IsValid (record draft { updated_at = now; is_draft = true }) s.messages refl v,
      )
]
