-- ===== src/Rules.antt =====
-- rules/engine.go and rules/rule.go: the rules that are applied to a message that was sent or received.
-- What the provider returns, how sort.Slice orders rules of equal priority (`sorted`), the value of a
-- condition and the forwarder are parameters. A webhook is fire-and-forget and is left out.
pub mod Effects
mod Tests
use mailbox.Prelude.{
  ℕ, String, Bool, true, false, not, Option, none, some, List, [], ◌∷◌, ◌++◌, ◌==◌, Result, ok, err,
  ◌>>=◌, if◌then◌else◌,
}
use mailbox.Store.{Error, Time, folder_archived, folder_spam}
use mailbox.Memory
use mailbox.Memory.{Message}
use mailbox.Memory.Write

pub data RuleScope : Type 0 where
  unspecified receive send : RuleScope

pub data ActionType : Type 0 where
  set_folder add_tag remove_tag mark_read delete hard_delete archive spam webhook forward :
      ActionType
  unknown_action : String → ActionType

pub record Action : Type 0 where
  pub action_type : ActionType
  pub value : String

-- The condition is a parameter, by the identifier of the rule.
pub record Rule : Type 0 where
  pub id : String
  pub scope : RuleScope
  pub actions : List Action
  pub priority : ℕ
  pub stop_on_match : Bool

pub data RuleError : Type 0 where
  store_failed : Error → RuleError
  provider_failed evaluation_failed not_owned unknown_type forward_failed : RuleError

-- What is fixed for an engine
pub record Engine : Type 0 where
  pub strict_mode : Bool
  pub global_rules : RuleScope → Option (List Rule)
  pub user_rules : String → RuleScope → Option (List Rule)
  pub sorted : List Rule → List Rule
  pub evaluate : Rule → Message → Option Bool
  pub forwarder : Option (String → String → Memory.Store → Bool × Memory.Store)

abbrev pub Outcome : Type 0
Outcome = Result RuleError (Unit {0}) × Memory.Store

-- isValidSendAction
abbrev pub is_valid_send_action : ActionType → Bool
is_valid_send_action set_folder = true
is_valid_send_action add_tag = true
is_valid_send_action remove_tag = true
is_valid_send_action archive = true
is_valid_send_action webhook = true
is_valid_send_action _ = false

-- effectiveScope and filterByScope
abbrev pub has_scope : RuleScope → RuleScope → Bool
has_scope receive receive = true
has_scope unspecified receive = true
has_scope send send = true
has_scope _ _ = false

unfoldable pub filter_by_scope : List Rule → RuleScope → List Rule
filter_by_scope [] scope = []
filter_by_scope (r ∷ rs) scope =
    let rest = filter_by_scope rs scope in if has_scope r.scope scope then r ∷ rest else rest

module _ (e : Engine) where
  -- handleError
  abbrev pub handle_error : RuleError → Result RuleError (Unit {0})
  handle_error x = if e.strict_mode then err x else ok tt

  abbrev pub of_store : Result Error (Unit {0}) × Memory.Store → Outcome
  of_store (ok _, s) = (ok tt, s)
  of_store (err x, s) = (err (RuleError.store_failed x), s)

  abbrev pub of_forwarder : Bool × Memory.Store → Outcome
  of_forwarder (true, s) = (ok tt, s)
  of_forwarder (false, s) = (err RuleError.forward_failed, s)

  -- applyAction
  unfoldable pub apply_action : String → Time → ActionType → String → Memory.Store → Outcome
  unfolding Write.move_to_folder Write.add_tag Write.remove_tag Write.mark_read Write.delete
      Write.hard_delete
  apply_action id now set_folder value s = of_store (Write.move_to_folder id value [] now s)
  apply_action id now add_tag value s = of_store (Write.add_tag id value now s)
  apply_action id now remove_tag value s = of_store (Write.remove_tag id value now s)
  apply_action id now mark_read value s = of_store (Write.mark_read id true now now s)
  apply_action id now delete value s = of_store (Write.delete id now s)
  apply_action id now hard_delete value s = of_store (Write.hard_delete id s)
  apply_action id now archive value s = of_store (Write.move_to_folder id folder_archived [] now s)
  apply_action id now spam value s = of_store (Write.move_to_folder id folder_spam [] now s)
  apply_action id now webhook value s = (ok tt, s)
  apply_action id now forward value s = elim e.forwarder [
    | none ↦ (ok tt, s)
    | some f ↦ of_forwarder (f id value s)
  ]
  apply_action id now (unknown_action name) value s =
      (if e.strict_mode then err RuleError.unknown_type else ok tt, s)

  -- The loops of applySendActions and applyReceiveActions; `allowed` says which actions are applied.
  abbrev then_actions : Outcome → (Memory.Store → Outcome) → Outcome
  then_actions (ok _, s) rest = rest s
  then_actions (err x, s) rest = (err x, s)

  unfoldable pub apply_actions :
      (ActionType → Bool) → String → Time → List Action → Memory.Store → Outcome
  unfolding apply_action
  apply_actions allowed id now [] s = (ok tt, s)
  apply_actions allowed id now (a ∷ rest) s =
      if allowed a.action_type
      then then_actions (apply_action id now a.action_type a.value s)
          (λ s'. apply_actions allowed id now rest s')
      else apply_actions allowed id now rest s

  abbrev after_actions : Bool → Outcome → (Memory.Store → Outcome) → Outcome
  after_actions stop (err x, s) rest = (handle_error x, s)
  after_actions stop (ok _, s) rest = if stop then (ok tt, s) else rest s

  -- The loop over the rules, for the message `id` as it was when the rules were fetched
  unfoldable pub run_rules :
      (ActionType → Bool) → String → Message → Time → List Rule → Memory.Store → Outcome
  unfolding apply_actions
  run_rules allowed id m now [] s = (ok tt, s)
  run_rules allowed id m now (r ∷ rules) s = elim (e.evaluate r m) [
    | none ↦
        if e.strict_mode
        then (err RuleError.evaluation_failed, s)
        else run_rules allowed id m now rules s
    | some matched ↦
        if matched
        then after_actions r.stop_on_match (apply_actions allowed id now r.actions s)
            (λ s'. run_rules allowed id m now rules s')
        else run_rules allowed id m now rules s
  ]

  -- fetchRules
  abbrev pub fetch_rules : String → RuleScope → Option (List Rule)
  fetch_rules user_id scope = elim (e.global_rules scope) [
    | none ↦ none
    | some global ↦ elim (e.user_rules user_id scope) [
      | none ↦ none
      | some own ↦ some (e.sorted (global ++ own))
    ]
  ]

  abbrev pub run_fetched :
      (ActionType → Bool) → String → Message → Time → Option (List Rule) → Memory.Store → Outcome
  run_fetched allowed id m now none s = (handle_error RuleError.provider_failed, s)
  run_fetched allowed id m now (some rules) s = run_rules allowed id m now rules s

  -- AfterSend
  unfoldable pub after_send : String → Message → Time → Memory.Store → Outcome
  unfolding run_rules
  after_send user_id m now s =
      run_fetched is_valid_send_action m.id m now (fetch_rules user_id send) s

  abbrev pub received : String → String → Time → Result Error Message → Memory.Store → Outcome
  received message_id recipient_id now (err x) s = (err (RuleError.store_failed x), s)
  received message_id recipient_id now (ok m) s =
      if not (m.owner_id == recipient_id)
      then (err RuleError.not_owned, s)
      else run_fetched (λ _. true) message_id m now (fetch_rules recipient_id receive) s

  -- OnMessageReceived
  unfoldable pub on_message_received : String → String → Time → Memory.Store → Outcome
  unfolding run_rules Memory.get
  on_message_received message_id recipient_id now s =
      received message_id recipient_id now (Memory.get s message_id) s
