-- ===== src/Memory/Keeping.antt =====
-- Which messages the operations that deliver can change: create.go, HardDelete and MoveToFolder of
-- write.go, and DeleteDraft.
pub mod Batches
use mailbox.Prelude.{
  ℕ, zero, suc, String, ◌≡◌, ◌∙◌, ◌⊎◌, refl, Bool, true, false, not, ◌||◌, Option, none, some, List,
  [], ◌∷◌, ◌++◌, arith, ◌==◌, eq_iff, eq_refl, Result, ok, err, ◌>>=◌, ◌>>◌, fail_if, inl, inr,
  Bool-cases, Result-cases, Option-cases, All, if◌then◌else◌,
}
use mailbox.SyncMap.{SyncMap, load, store, delete, load_or_store, load-store, load-delete}
use mailbox.Store.{
  Error, Time, MessageData, apply_move_options, IdempotentCreateEntry, not_connected,
  invalid_idempotency_key,
}
use mailbox.Memory
use mailbox.Memory.{Message, Handler, clone, find_message, check_connected, new_message_from_data}
use mailbox.Memory.Create.{
  create_message, Claim, claim, finish_claim, create_message_idempotent, create_each,
  create_messages_idempotent, idempotency_index_key,
}
use mailbox.Memory.Create.Idempotent.{TwoAttempts, claim-TwoAttempts}
use mailbox.Memory.Write
use mailbox.Memory.Write.{check_source, with_folder}
use mailbox.Memory.Write.Edits.{Outcome, edit-Outcome}
use mailbox.Memory.Drafts.{delete_draft}

-- The messages of the owners for whom `mine` is false; drafts are not counted.
module _ (mine : String → Bool) where
  abbrev pub hidden : Message → Bool
  hidden m = m.is_draft || mine m.owner_id

  abbrev pub others : Option Message → Option Message
  others none = none
  others (some m) = if hidden m then none else some m

  abbrev pub Keeps : SyncMap Message → SyncMap Message → Type 0
  Keeps ms ms' = (j : String) → others (load j ms') ≡ others (load j ms)

  -- No message of another stands under the identifier.
  abbrev pub Free : String → SyncMap Message → Type 0
  Free id ms = others (load id ms) ≡ none

  pub Keeps-same : (ms : SyncMap Message) → Keeps ms ms
  Keeps-same ms j = refl

  pub Keeps-trans : (ms₁ ms₂ ms₃ : SyncMap Message) → Keeps ms₁ ms₂ → Keeps ms₂ ms₃ → Keeps ms₁ ms₃
  Keeps-trans ms₁ ms₂ ms₃ f g j = g j ∙ f j

  pub Keeps-Free :
      (id : String) (ms ms' : SyncMap Message) → Keeps ms ms' → Free id ms → Free id ms'
  Keeps-Free id ms ms' k f = k id ∙ f

  pub Keeps-store :
      (id : String) (m : Message) (ms : SyncMap Message)
      → Free id ms
      → hidden m ≡ true
      → Keeps ms (store id m ms)
  Keeps-store id m ms free own j = ground (arith, free, own, load-store id j m ms, eq_iff id j)

  pub Keeps-delete : (id : String) (ms : SyncMap Message) → Free id ms → Keeps ms (delete id ms)
  Keeps-delete id ms free j = ground (arith, free, load-delete id j ms, eq_iff id j)

  pub Keeps-create_message :
      (d : MessageData) (id : String) (now : Time) (s : Memory.Store)
      → Free id s.messages
      → mine d.owner_id ≡ true
      → Keeps s.messages (create_message d id now s).1.messages
  unfolding create_message
  Keeps-create_message d id now s free own = elim (Bool-cases s.connected) [
    | inl up ↦
        rw up
          (Keeps-store id (new_message_from_data d id now) s.messages free (ground (arith, own)))
    | inr down ↦ rw down (Keeps-same s.messages)
  ]

  pub Keeps-hard_delete :
      (id : String) (s : Memory.Store)
      → Free id s.messages
      → Keeps s.messages (Write.hard_delete id s).1.messages
  unfolding Write.hard_delete
  Keeps-hard_delete id s free j =
      ground (arith, free, load-delete id j s.messages, Keeps-delete id s.messages free j)

  pub Keeps-move_to_folder :
      (id folder : String) (now : Time) (s : Memory.Store)
      → Free id s.messages
      → Keeps s.messages (Write.move_to_folder id folder [] now s).1.messages
  unfolding Write.move_to_folder apply_move_options
  Keeps-move_to_folder id folder now s free =
      elim (edit-Outcome id (with_folder now "" folder) s (check_source "")) [
        | Outcome.failed e r ↦ rw r (Keeps-same s.messages)
        | Outcome.kept r ↦ rw r (Keeps-same s.messages)
        | Outcome.written m m' found live computed r ↦
            rw r (Keeps-store id m' s.messages free (ground (arith, free, found, live, computed)))
      ]

  pub Keeps-delete_draft :
      (id : String) (s : Memory.Store) → Keeps s.messages (delete_draft id s).1.messages
  unfolding delete_draft
  Keeps-delete_draft id s j = ground (arith, load-delete id j s.messages, eq_iff id j)
