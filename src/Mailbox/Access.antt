-- ===== src/Mailbox/Access.antt =====
-- Whose messages the handlers of a user's mailbox can change.
pub mod Effects
pub mod Pages
pub mod Calls
use mailbox.Prelude.{
  ℕ, String, ◌≡◌, ◌∙◌, refl, Bool, true, false, not, ◌||◌, Option, none, some, List, [], ◌∷◌, ◌++◌,
  arith, ◌==◌, eq_iff, Result, ok, err, ◌>>=◌, ◌>>◌, fail_if, inl, inr, Bool-cases, Result-cases,
  ltb, if◌then◌else◌,
}
use mailbox.SyncMap.{SyncMap, load, store, delete, load-store, load-delete}
use mailbox.Store.{Error, Time, MoveOption, apply_move_options, folder_trash}
use mailbox.Store.Filter.{Filter}
use mailbox.Memory
use mailbox.Memory.{Message, Handler, clone, find_message, check_connected}
use mailbox.Memory.Write
use mailbox.Memory.Write.{mark_one, mark_entry, mark_entries}
use mailbox.Memory.Write.MarkAll.{mark_entry_cases}
use mailbox.Memory.Write.Edits.{Outcome, edit-Outcome}
use mailbox.Memory.Bulk
use mailbox.Memory.Bulk.{update_entry, update_entries, iterate_filtered}
use mailbox.Memory.Bulk.Rounds.{update_entry_cases}

-- What there is under an identifier, unless it is a message of the user
abbrev pub foreign : String → Option Message → Option Message
foreign user none = none
foreign user (some m) = if m.owner_id == user then none else some m

-- The messages of the other owners are the same, and none is new.
abbrev pub Spares : String → SyncMap Message → SyncMap Message → Type 0
Spares user ms ms' = (j : String) → foreign user (load j ms') ≡ foreign user (load j ms)

module _ (user : String) where
  pub Spares-same : (ms : SyncMap Message) → Spares user ms ms
  Spares-same ms j = refl

  pub Spares-trans :
      (ms₁ ms₂ ms₃ : SyncMap Message)
      → Spares user ms₁ ms₂
      → Spares user ms₂ ms₃
      → Spares user ms₁ ms₃
  Spares-trans ms₁ ms₂ ms₃ f g j = g j ∙ f j

  module _ (id : String) (m : Message) (ms : SyncMap Message) (found : load id ms ≡ some m)
      (own : m.owner_id ≡ user) where
    pub Spares-store : (m' : Message) → m'.owner_id ≡ user → Spares user ms (store id m' ms)
    Spares-store m' own' j = ground (
      arith,
      found,
      own,
      own',
      load-store id j m' ms,
      eq_iff id j,
      eq_iff m.owner_id user,
      eq_iff m'.owner_id user,
    )

  module _ (folder : String) (now : Time) where
    Spares-mark_entry :
        (key : String) (seen : Message) (ms : SyncMap Message)
        → Spares user ms (mark_entry user folder now key seen ms).1
    Spares-mark_entry key seen ms = elim (mark_entry_cases user folder now key seen ms) [
      | inl same ↦ rw same (Spares-same ms)
      | inr (orig, found, mine, new) ↦
          let own : orig.owner_id ≡ user = (ground (arith, eq_iff orig.owner_id user)) in
          rw new (Spares-store key orig ms found own (mark_one now orig) own)
    ]

    pub Spares-mark_entries :
        (entries ms : SyncMap Message) → Spares user ms (mark_entries user folder now entries ms).1
    unfolding mark_entries
    Spares-mark_entries [] ms = Spares-same ms
    Spares-mark_entries ((key, seen) ∷ rest) ms =
        let ms' = (mark_entry user folder now key seen ms).1 in
        Spares-trans ms ms' (mark_entries user folder now rest ms').1
          (Spares-mark_entry key seen ms) (Spares-mark_entries rest ms')

  module _ (filters : List Filter) (now : Time) (fn : Message → Message)
      (keeps : (m : Message) → (fn m).owner_id ≡ m.owner_id) where
    Spares-update_entry :
        (key : String) (seen : Message) (ms : SyncMap Message)
        → Spares user ms (update_entry user filters now fn key seen ms).1
    Spares-update_entry key seen ms = elim (update_entry_cases user filters now fn key seen ms) [
      | inl same ↦ rw same (Spares-same ms)
      | inr (orig, found, mine, new) ↦
          let own : orig.owner_id ≡ user = ground (arith, eq_iff orig.owner_id user) in
          rw new (
            Spares-store key orig ms found own (record (fn (clone orig)) { updated_at = now })
              (keeps orig ∙ own))
    ]

    Spares-update_entries :
        (entries ms : SyncMap Message)
        → Spares user ms (update_entries user filters now fn entries ms).1
    unfolding update_entries
    Spares-update_entries [] ms = Spares-same ms
    Spares-update_entries ((key, seen) ∷ rest) ms =
        let ms' = (update_entry user filters now fn key seen ms).1 in
        Spares-trans ms ms' (update_entries user filters now fn rest ms').1
          (Spares-update_entry key seen ms) (Spares-update_entries rest ms')

    pub Spares-iterate_filtered :
        (s : Memory.Store)
        → Spares user s.messages (iterate_filtered user filters now fn s).1.messages
    unfolding iterate_filtered
    Spares-iterate_filtered s = elim (Bool-cases s.connected) [
      | inl up ↦ rw up (Spares-update_entries s.messages s.messages)
      | inr down ↦ rw down (Spares-same s.messages)
    ]
