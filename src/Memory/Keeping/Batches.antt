-- ===== src/Memory/Keeping/Batches.antt =====
-- Which messages the creation of copies can change: CreateMessagesIdempotent of store/memory/create.go.
use mailbox.Prelude.{
  ℕ, suc, String, ◌≡◌, ◌⊎◌, Bool, true, false, List, [], ◌∷◌, arith, ◌==◌, eq_refl, Result, ok, err,
  inl, inr, Bool-cases, Option-cases, All,
}
use mailbox.SyncMap.{SyncMap, load, store, delete, load_or_store, load-delete}
use mailbox.Store.{
  Error, Time, MessageData, IdempotentCreateEntry, not_connected, invalid_idempotency_key,
}
use mailbox.Memory
use mailbox.Memory.{Message, Handler, clone, find_message, check_connected, new_message_from_data}
use mailbox.Memory.Create.{
  Claim, claim, finish_claim, create_message_idempotent, create_each, create_messages_idempotent,
  idempotency_index_key,
}
use mailbox.Memory.Keeping.{Keeps, Free, Keeps-same, Keeps-trans, Keeps-Free, Keeps-store}

module _ (mine : String → Bool) where
  -- How the claim of a key ends: at a message that is there, or at an identifier that was drawn
  data Claims (uuid : ℕ → String) (s : Memory.Store) (r : Claim × Memory.Store) : Type 0 where
    existing : (m : Message) → r ≡ (Claim.existing m, s) → Claims uuid s r
    drawn :
        (n : ℕ) (idx : SyncMap String)
        → r ≡ (Claim.reserved (uuid n), record s { idempotency_idx = idx })
        → Claims uuid s r

  claim-Claims :
      (uuid : ℕ → String) (key : String) (s : Memory.Store)
      → Claims uuid s (claim 2 0 uuid key "" s)
  unfolding claim load_or_store
  claim-Claims uuid key s = elim (Option-cases (load key s.idempotency_idx)) [
    | inl unused ↦ Claims.drawn 0 (store key (uuid 0) s.idempotency_idx) (ground (arith, unused))
    | inr (id, used) ↦ elim (Option-cases (load id s.messages)) [
      | inr (m, there) ↦ Claims.existing m (ground (arith, used, there))
      | inl gone ↦
          let same = load-delete key key s.idempotency_idx in
          Claims.drawn 1 (store key (uuid 1) (delete key s.idempotency_idx))
            (ground (arith, used, gone, same, eq_refl key))
    ]
  ]

  -- A copy that was created stands under an identifier that is free.
  abbrev pub CreatedFree : SyncMap Message → Result Error (Message × Bool) → Type 0
  CreatedFree ms (ok (m, true)) = Free mine m.id ms
  CreatedFree ms (ok (m, false)) = Unit
  CreatedFree ms (err e) = Unit

  -- What creating leaves alone
  record Creates (s : Memory.Store) (r : Result Error (Message × Bool) × Memory.Store)
      : Type 0 where
    pub keeps : Keeps mine s.messages r.1.messages
    pub created : CreatedFree s.messages r.0

  finish_claim-Creates :
      (d : MessageData) (uuid : ℕ → String) (now : Time) (s : Memory.Store)
      (r : Claim × Memory.Store)
      → ((n : ℕ) → Free mine (uuid n) s.messages)
      → mine d.owner_id ≡ true
      → Claims uuid s r
      → Creates s (finish_claim d now r)
  finish_claim-Creates d uuid now s r free own (Claims.existing m e) =
      rw e (record { keeps = Keeps-same mine s.messages; created = tt })
  finish_claim-Creates d uuid now s r free own (Claims.drawn n idx e) =
      let m = new_message_from_data d (uuid n) now in
      rw e (record {
        keeps = Keeps-store mine (uuid n) m s.messages (free n) (ground (arith, own));
        created = free n;
      })

  -- A call creates nothing, or it does what its claim says.
  create_cases :
      (d : MessageData) (key : String) (uuid : ℕ → String) (now : Time) (s : Memory.Store)
      → ((e : Error) × (create_message_idempotent d key uuid now s ≡ (err e, s)))
        ⊎ (create_message_idempotent d key uuid now s
            ≡ finish_claim d now (claim 2 0 uuid (idempotency_index_key d.owner_id key) "" s))
  unfolding create_message_idempotent
  create_cases d key uuid now s = elim (Bool-cases s.connected) [
    | inr down ↦ inl (not_connected, ground (arith, down))
    | inl up ↦ elim (Bool-cases (key == "")) [
      | inl empty ↦ inl (invalid_idempotency_key, ground (arith, up, empty))
      | inr named ↦ inr (ground (arith, up, named))
    ]
  ]

  create_message_idempotent-Creates :
      (d : MessageData) (key : String) (uuid : ℕ → String) (now : Time) (s : Memory.Store)
      → ((n : ℕ) → Free mine (uuid n) s.messages)
      → mine d.owner_id ≡ true
      → Creates s (create_message_idempotent d key uuid now s)
  create_message_idempotent-Creates d key uuid now s free own =
      elim (create_cases d key uuid now s) [
        | inl (e, none_made) ↦
            rw none_made (record { keeps = Keeps-same mine s.messages; created = tt })
        | inr made ↦ rw made (
            finish_claim-Creates d uuid now s
              (claim 2 0 uuid (idempotency_index_key d.owner_id key) "" s) free own
              (claim-Claims uuid (idempotency_index_key d.owner_id key) s))
      ]

  -- Created messages stay free while others are kept.
  pub CreatedFree-Keeps :
      (ms ms' : SyncMap Message) (r : Result Error (Message × Bool))
      → Keeps mine ms ms'
      → CreatedFree ms' r
      → CreatedFree ms r
  CreatedFree-Keeps ms ms' (ok (m, true)) k f = ground (arith, k m.id, f)
  CreatedFree-Keeps ms ms' (ok (m, false)) k f = tt
  CreatedFree-Keeps ms ms' (err e) k f = tt

  pub All-CreatedFree :
      (ms ms' : SyncMap Message) (rs : List (Result Error (Message × Bool)))
      → Keeps mine ms ms'
      → All (CreatedFree ms') rs
      → All (CreatedFree ms) rs
  All-CreatedFree ms ms' [] k a = tt
  All-CreatedFree ms ms' (r ∷ rs) k a =
      (CreatedFree-Keeps ms ms' r k a.0, All-CreatedFree ms ms' rs k a.1)

  -- The owners of all entries are among them.
  abbrev pub Mine : IdempotentCreateEntry → Type 0
  Mine e = mine e.content.owner_id ≡ true

  create_each-Creates :
      (uuid : ℕ → ℕ → String) (clock : ℕ → Time) (i : ℕ) (es : List IdempotentCreateEntry)
      (s : Memory.Store)
      → ((n k : ℕ) → Free mine (uuid n k) s.messages)
      → All Mine es
      → let r = create_each uuid clock i es s in
        Keeps mine s.messages r.1.messages × All (CreatedFree s.messages) r.0
  unfolding create_each
  create_each-Creates uuid clock i [] s free own = (Keeps-same mine s.messages, tt)
  create_each-Creates uuid clock i (e ∷ es) s free own =
      let first =
        create_message_idempotent-Creates e.content e.idempotency_key (uuid i) (clock i) s (free i)
          own.0 in
      let s' = (create_message_idempotent e.content e.idempotency_key (uuid i) (clock i) s).1 in
      let rest =
        create_each-Creates uuid clock (suc i) es s'
          (λ n k. Keeps-Free mine (uuid n k) s.messages s'.messages first.keeps (free n k)) own.1 in
      let s'' = (create_each uuid clock (suc i) es s').1 in
      (
        Keeps-trans mine s.messages s'.messages s''.messages first.keeps rest.0,
        (
          first.created,
          All-CreatedFree s.messages s'.messages (create_each uuid clock (suc i) es s').0
              first.keeps rest.1,
        ),
      )

  -- What a batch leaves alone
  abbrev pub CreatesBatch :
      Memory.Store → Result Error (List (Result Error (Message × Bool))) × Memory.Store → Type 0
  CreatesBatch s (ok rs, s') = Keeps mine s.messages s'.messages × All (CreatedFree s.messages) rs
  CreatesBatch s (err e, s') = Keeps mine s.messages s'.messages

  pub create_messages_idempotent-Creates :
      (uuid : ℕ → ℕ → String) (clock : ℕ → Time) (es : List IdempotentCreateEntry)
      (s : Memory.Store)
      → ((n k : ℕ) → Free mine (uuid n k) s.messages)
      → All Mine es
      → CreatesBatch s (create_messages_idempotent uuid clock es s)
  unfolding create_messages_idempotent
  create_messages_idempotent-Creates uuid clock es s free own = elim (Bool-cases s.connected) [
    | inr down ↦ rw down (Keeps-same mine s.messages)
    | inl up ↦
        let s' : Memory.Store = record s { connected = true } in
        rw up (create_each-Creates uuid clock 0 es s' free own)
  ]
