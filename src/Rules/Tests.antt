-- ===== src/Rules/Tests.antt =====
-- Rules for a message that was received, and an instance of what is proved of them.
use mailbox.Prelude.{◌≡◌, refl, true, false, none, some, [], ◌∷◌}
use mailbox.Store.{folder_inbox, folder_trash}
use mailbox.SyncMap.{load, store}
use mailbox.Memory
use mailbox.Memory.{Message}
use mailbox.Memory.Drafts.{new_draft}
use mailbox.Rules.{Engine, Rule, add_tag, delete, forward, receive, on_message_received}
use mailbox.Rules.Effects.{Steps, OwnOnly, on_message_received-Steps}

abbrev spam_rule : Rule
spam_rule = record {
  id = "r1";
  scope = receive;
  actions =
      record { action_type = add_tag; value = "junk" }
      ∷ record { action_type = delete; value = "" }
      ∷ [];
  priority = 1;
  stop_on_match = true;
}

abbrev engine : Engine
engine = record {
  strict_mode = true;
  global_rules = λ scope. some (spam_rule ∷ []);
  user_rules = λ user scope. some [];
  sorted = λ rules. rules;
  evaluate = λ rule m. some true;
  forwarder = none;
}

abbrev mail : Message
mail = record (new_draft "bob" 3) { id = "m1"; is_draft = false; folder_id = folder_inbox }

abbrev backend : Memory.Store
backend = record {
  messages = ("m1", mail) ∷ ("m2", record mail { id = "m2" }) ∷ [];
  idempotency_idx = [];
  external_idx = [];
  connected = true;
}

mail_trashed :
    load "m1" (on_message_received engine "m1" "bob" 9 backend).1.messages
    ≡ some (record mail { tags = "junk" ∷ []; folder_id = folder_trash; updated_at = 9 })
unfolding on_message_received load store
mail_trashed = refl

-- A forwarder that leaves a copy for the user, and rules that forward
abbrev forwarding : Engine
forwarding = record engine {
  global_rules = λ scope. some (
      record spam_rule {
        actions = record { action_type = forward; value = "cat" } ∷ spam_rule.actions;
      }
      ∷ []);
  forwarder = some (λ id to st. (
    true,
    record st { messages = store "copy" (record mail { id = "copy"; owner_id = to }) st.messages },
  ));
}

mail_forwarded :
    load "copy" (on_message_received forwarding "m1" "bob" 9 backend).1.messages
    ≡ some (record mail { id = "copy"; owner_id = "cat" })
unfolding on_message_received load store
mail_forwarded = refl

on_message_received-Steps_example :
    Steps forwarding.forwarder "m1" backend (on_message_received forwarding "m1" "bob" 9 backend).1
    × OwnOnly "m1" "bob" backend (on_message_received forwarding "m1" "bob" 9 backend).1
on_message_received-Steps_example = on_message_received-Steps forwarding "m1" "bob" 9 backend
