-- ===== src/Memory/Write/MarkAll.antt =====
-- What one round of MarkAllRead's Range can do.
use mailbox.Prelude.{String, ◌≡◌, true, some, arith, ◌⊎◌, inl, inr, Bool-cases, Option-cases}
use mailbox.SyncMap.{SyncMap, load, store}
use mailbox.Store.{Time}
use mailbox.Memory.{Message}
use mailbox.Memory.Write.{is_unread_in, mark_one, mark_entry}

-- A round writes nothing, or it marks the message that is there now.
pub mark_entry_cases :
    (owner folder : String) (now : Time) (key : String) (seen : Message) (ms : SyncMap Message)
    → (mark_entry owner folder now key seen ms ≡ (0, ms))
      ⊎ ((orig : Message) × (load key ms ≡ some orig)
          × (is_unread_in owner folder orig ≡ true)
          × (mark_entry owner folder now key seen ms ≡ (1, store key (mark_one now orig) ms)))
unfolding mark_entry
mark_entry_cases owner folder now key seen ms = elim (Bool-cases (is_unread_in owner folder seen)) [
  | inr skip ↦ inl (rw skip)
  | inl go ↦ elim (Option-cases (load key ms)) [
    | inl gone ↦ inl (ground arith)
    | inr (orig, found) ↦ elim (Bool-cases (is_unread_in owner folder orig)) [
      | inr skip ↦ inl (ground arith)
      | inl still ↦ inr (orig, found, still, ground arith)
    ]
  ]
]
