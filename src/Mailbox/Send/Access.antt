-- ===== src/Mailbox/Send/Access.antt =====
-- Whose messages a send can change.
use mailbox.Prelude.{String, Bool, ◌||◌, List, ◌==◌, contains}
use mailbox.Memory
use mailbox.Memory.Write
use mailbox.Mailbox.{UserMailbox}

-- The sender and those that a message is delivered to
abbrev pub is_party : UserMailbox → List String → String → Bool
is_party u ids owner = owner == u.user_id || contains owner ids
