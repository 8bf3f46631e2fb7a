-- ===== src/Rules/Effects.antt =====
-- What the rules for one message do to the others.
use mailbox.Prelude.{
  String, ◌≡◌, ◌≢◌, refl, subst, sym, Bool, true, false, Option, none, some, List, [], ◌∷◌, arith,
  ◌==◌, eq_iff, Result, ok, err, Bool-cases, Option-cases, inl, inr, ◌⊎◌,
}
use mailbox.SyncMap.{load, load-delete}
use mailbox.Store.{Error, Time, folder_archived, folder_spam}
use mailbox.Memory
use mailbox.Memory.{Message}
use mailbox.Memory.Write
use mailbox.Memory.Write.Edits.{Edit, apply_edit, apply_edit-Frame}
use mailbox.Rules.{
  ActionType, set_folder, add_tag, remove_tag, mark_read, delete, hard_delete, archive, spam,
  webhook, forward, unknown_action, Action, Rule, Engine, of_store, of_forwarder, received, Outcome,
  apply_action, apply_actions, then_actions, after_actions, run_rules, run_fetched, receive,
  fetch_rules, on_message_received,
}

-- Every entry but the one under the identifier is as before.
abbrev pub Others : String → Memory.Store → Memory.Store → Type 0
Others id s s' = (j : String) → id ≢ j → load j s'.messages ≡ load j s.messages

edit-Others : (x : Edit) (id : String) (s : Memory.Store) → Others id s (apply_edit x id s).1
edit-Others x id s j other = (apply_edit-Frame x id s).others j other

hard_delete-Others : (id : String) (s : Memory.Store) → Others id s (Write.hard_delete id s).1
unfolding Write.hard_delete
hard_delete-Others id s j other = ground (arith, other, load-delete id j s.messages, eq_iff id j)

-- A message changes only if the recipient owns it.
abbrev pub OwnOnly : String → String → Memory.Store → Memory.Store → Type 0
OwnOnly id recipient_id s s' =
    (load id s'.messages ≡ load id s.messages)
    ⊎ (m : Message) × (load id s.messages ≡ some m) × ((m.owner_id == recipient_id) ≡ true)

abbrev pub ForwardCall : Type 0
ForwardCall = String → String → Memory.Store → Bool × Memory.Store

-- What the rules for one message do to a store, in steps: a write that leaves all other entries as
-- they are, or a call of the forwarder for this very message
pub data Steps (forwarder : Option ForwardCall) (id : String) (s : Memory.Store)
    : Memory.Store → Type 0 where
  done : Steps forwarder id s s
  edited : {t t' : Memory.Store} → Steps forwarder id s t → Others id t t' → Steps forwarder id s t'
  forwarded :
      {t t' : Memory.Store} (f : ForwardCall) (to : String)
      → Steps forwarder id s t
      → forwarder ≡ some f
      → t' ≡ (f id to t).1
      → Steps forwarder id s t'

Steps-trans :
    (fw : Option ForwardCall) (id : String) (s₁ s₂ : Memory.Store) {s₃ : Memory.Store}
    → Steps fw id s₁ s₂
    → Steps fw id s₂ s₃
    → Steps fw id s₁ s₃
Steps-trans fw id s₁ s₂ f Steps.done = f
Steps-trans fw id s₁ s₂ f (Steps.edited g h) = Steps.edited (Steps-trans fw id s₁ s₂ f g) h
Steps-trans fw id s₁ s₂ f (Steps.forwarded w to g h k) =
    Steps.forwarded w to (Steps-trans fw id s₁ s₂ f g) h k

module _ (e : Engine) where
  of_edit-Steps :
      (id : String) (s : Memory.Store) (r : Result Error (Unit {0}) × Memory.Store)
      → Others id s r.1
      → Steps e.forwarder id s (of_store e r).1
  of_edit-Steps id s (ok _, s') h = Steps.edited Steps.done h
  of_edit-Steps id s (err x, s') h = Steps.edited Steps.done h

  of_forwarder-Steps :
      (id : String) (s : Memory.Store) (r : Bool × Memory.Store)
      → Steps e.forwarder id s r.1
      → Steps e.forwarder id s (of_forwarder e r).1
  of_forwarder-Steps id s (true, s') h = h
  of_forwarder-Steps id s (false, s') h = h

  apply_action-Steps :
      (id : String) (now : Time) (t : ActionType) (value : String) (s : Memory.Store)
      → Steps e.forwarder id s (apply_action e id now t value s).1
  unfolding apply_action apply_edit
  apply_action-Steps id now set_folder value s =
      of_edit-Steps id s _ (edit-Others (Edit.move_to_folder value [] now) id s)
  apply_action-Steps id now add_tag value s =
      of_edit-Steps id s _ (edit-Others (Edit.add_tag value now) id s)
  apply_action-Steps id now remove_tag value s =
      of_edit-Steps id s _ (edit-Others (Edit.remove_tag value now) id s)
  apply_action-Steps id now mark_read value s =
      of_edit-Steps id s _ (edit-Others (Edit.mark_read true now now) id s)
  apply_action-Steps id now delete value s =
      of_edit-Steps id s _ (edit-Others (Edit.delete now) id s)
  apply_action-Steps id now hard_delete value s = of_edit-Steps id s _ (hard_delete-Others id s)
  apply_action-Steps id now archive value s =
      of_edit-Steps id s _ (edit-Others (Edit.move_to_folder folder_archived [] now) id s)
  apply_action-Steps id now spam value s =
      of_edit-Steps id s _ (edit-Others (Edit.move_to_folder folder_spam [] now) id s)
  apply_action-Steps id now webhook value s = Steps.done
  apply_action-Steps id now forward value s = elim (Option-cases e.forwarder) [
    | inl absent ↦
        let skipped : apply_action e id now forward value s ≡ (ok tt, s) = ground (arith, absent) in
        subst (λ r. Steps e.forwarder id s r.1) (sym skipped) Steps.done
    | inr (f, present) ↦
        let called : apply_action e id now forward value s ≡ of_forwarder e (f id value s) =
          ground (arith, present) in
        subst (λ r. Steps e.forwarder id s r.1) (sym called)
          (of_forwarder-Steps id s (f id value s) (Steps.forwarded f value Steps.done present refl))
  ]
  apply_action-Steps id now (unknown_action name) value s = Steps.done

  then_actions-Steps :
      (id : String) (s : Memory.Store) (r : Outcome) (rest : Memory.Store → Outcome)
      → Steps e.forwarder id s r.1
      → ((s' : Memory.Store) → Steps e.forwarder id s' (rest s').1)
      → Steps e.forwarder id s (then_actions e r rest).1
  then_actions-Steps id s (ok _, s') rest h next = Steps-trans e.forwarder id s s' h (next s')
  then_actions-Steps id s (err x, s') rest h next = h

  apply_actions-Steps :
      (allowed : ActionType → Bool) (id : String) (now : Time) (actions : List Action)
      (s : Memory.Store)
      → Steps e.forwarder id s (apply_actions e allowed id now actions s).1
  unfolding apply_actions
  apply_actions-Steps allowed id now [] s = Steps.done
  apply_actions-Steps allowed id now (a ∷ rest) s = elim (Bool-cases (allowed a.action_type)) [
    | inl applied ↦
        rw (applied, apply_actions)
          (then_actions-Steps id s (apply_action e id now a.action_type a.value s)
            (λ s'. apply_actions e allowed id now rest s')
            (apply_action-Steps id now a.action_type a.value s)
            (apply_actions-Steps allowed id now rest))
    | inr skipped ↦ rw (skipped, apply_actions) (apply_actions-Steps allowed id now rest s)
  ]

  after_actions-Steps :
      (stop : Bool) (id : String) (s : Memory.Store) (r : Outcome) (rest : Memory.Store → Outcome)
      → Steps e.forwarder id s r.1
      → ((s' : Memory.Store) → Steps e.forwarder id s' (rest s').1)
      → Steps e.forwarder id s (after_actions e stop r rest).1
  after_actions-Steps stop id s (err x, s') rest h next = h
  after_actions-Steps true id s (ok _, s') rest h next = h
  after_actions-Steps false id s (ok _, s') rest h next =
      Steps-trans e.forwarder id s s' h (next s')

  run_rules-Steps :
      (allowed : ActionType → Bool) (id : String) (m : Message) (now : Time) (rules : List Rule)
      (s : Memory.Store)
      → Steps e.forwarder id s (run_rules e allowed id m now rules s).1
  unfolding run_rules
  run_rules-Steps allowed id m now [] s = Steps.done
  run_rules-Steps allowed id m now (r ∷ rules) s = elim (Option-cases (e.evaluate r m)) [
    | inl failed ↦ elim (Bool-cases e.strict_mode) [
      | inl strict ↦ rw (failed, run_rules, strict) Steps.done
      | inr lax ↦ rw (failed, run_rules, lax) (run_rules-Steps allowed id m now rules s)
    ]
    | inr (true, matched) ↦
        rw (matched, run_rules)
          (after_actions-Steps r.stop_on_match id s (apply_actions e allowed id now r.actions s)
            (λ s'. run_rules e allowed id m now rules s')
            (apply_actions-Steps allowed id now r.actions s)
            (run_rules-Steps allowed id m now rules))
    | inr (false, matched) ↦ rw (matched, run_rules) (run_rules-Steps allowed id m now rules s)
  ]

  run_fetched-Steps :
      (allowed : ActionType → Bool) (id : String) (m : Message) (now : Time)
      (rules : Option (List Rule)) (s : Memory.Store)
      → Steps e.forwarder id s (run_fetched e allowed id m now rules s).1
  run_fetched-Steps allowed id m now none s = Steps.done
  run_fetched-Steps allowed id m now (some rules) s = run_rules-Steps allowed id m now rules s

  received-Steps :
      (id recipient_id : String) (now : Time) (r : Result Error Message) (s : Memory.Store)
      → Steps e.forwarder id s (received e id recipient_id now r s).1
  received-Steps id recipient_id now (err x) s = Steps.done
  received-Steps id recipient_id now (ok m) s = elim (Bool-cases (m.owner_id == recipient_id)) [
    | inl own ↦
        rw own (run_fetched-Steps (λ _. true) id m now (fetch_rules e recipient_id receive) s)
    | inr strange ↦ rw strange Steps.done
  ]

  received-OwnOnly :
      (id recipient_id : String) (now : Time) (r : Result Error Message) (s : Memory.Store)
      → Memory.get s id ≡ r
      → OwnOnly id recipient_id s (received e id recipient_id now r s).1
  unfolding Memory.get
  received-OwnOnly id recipient_id now (err x) s h = inl refl
  received-OwnOnly id recipient_id now (ok m) s h = elim (Bool-cases (m.owner_id == recipient_id)) [
    | inl own ↦ inr (m, ground (arith, h), own)
    | inr strange ↦ rw strange (inl refl)
  ]

  -- Whatever the rules are, handling a received message changes the backend only in steps of two
  -- kinds: writes that leave every other entry as it is, and calls of the forwarder, if there is one,
  -- for this very message. The message itself is touched only if it belongs to the recipient.
  pub on_message_received-Steps :
      (message_id recipient_id : String) (now : Time) (s : Memory.Store)
      → let s' = (on_message_received e message_id recipient_id now s).1 in
        Steps e.forwarder message_id s s' × OwnOnly message_id recipient_id s s'
  unfolding on_message_received
  on_message_received-Steps message_id recipient_id now s = (
    received-Steps message_id recipient_id now (Memory.get s message_id) s,
    received-OwnOnly message_id recipient_id now (Memory.get s message_id) s refl,
  )
