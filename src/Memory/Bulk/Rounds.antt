-- ===== src/Memory/Bulk/Rounds.antt =====
-- What one round of iterateFiltered can do.
use mailbox.Prelude.{
  String, ◌≡◌, true, List, some, arith, ◌⊎◌, inl, inr, ◌||◌, not, ◌==◌, Bool-cases, Option-cases,
}
use mailbox.SyncMap.{SyncMap, load, store}
use mailbox.Store.{Time}
use mailbox.Store.Filter.{Filter}
use mailbox.Memory.{Message, clone}
use mailbox.Memory.Bulk.{is_selected, update_entry}

-- A round writes nothing, or it updates the message that is there now and that passes the tests.
pub update_entry_cases :
    (owner : String) (filters : List Filter) (now : Time) (fn : Message → Message) (key : String)
    (seen : Message) (ms : SyncMap Message)
    → (update_entry owner filters now fn key seen ms ≡ (0, ms))
      ⊎ ((orig : Message) × (load key ms ≡ some orig)
          × (is_selected owner filters now orig ≡ true)
          × (update_entry owner filters now fn key seen ms
              ≡ (1, store key (record (fn (clone orig)) { updated_at = now }) ms)))
unfolding update_entry
update_entry_cases owner filters now fn key seen ms =
    elim (Bool-cases (seen.is_draft || not (seen.owner_id == owner))) [
      | inl skip ↦ inl (rw skip)
      | inr go ↦ elim (Option-cases (load key ms)) [
        | inl gone ↦ inl (ground arith)
        | inr (orig, found) ↦ elim (Bool-cases (is_selected owner filters now orig)) [
          | inr skip ↦ inl (rw go (rw found (rw skip)))
          | inl still ↦ inr (orig, found, still, rw go (rw found (rw still)))
        ]
      ]
    ]
