-- ===== src/Mailbox/Cleanup/Release.antt =====
-- Which references a cleanup releases, also beside another instance that scanned the same messages.
use mailbox.Prelude.{
  String, ◌≡◌, ap, ◌∙◌, true, not, ◌&&◌, List, [], ◌∷◌, ◌++◌, arith, contains, length, ok,
}
use mathlib.Core.List.{append_assoc, append-nil}
use mailbox.SyncMap.{SyncMap, load}
use mailbox.Memory
use mailbox.Memory.Maintenance.{delete_messages_by_ids}
use mailbox.Memory.Maintenance.Winners.{present, delete_winners}
use mailbox.Mailbox.{Service}
use mailbox.Mailbox.Cleanup.{Scanned, attachments_of, release_deleted, delete_scanned}

-- The references of the messages
abbrev pub references : List String → SyncMap (List String) → List String
references [] attachments = []
references (id ∷ ids) attachments =
    attachments_of (load id attachments) ++ references ids attachments

release_deleted_lem :
    (ids : List String) (attachments : SyncMap (List String)) (s : Service)
    → release_deleted ids attachments s
      ≡ record s { released = s.released ++ references ids attachments }
unfolding release_deleted
release_deleted_lem [] attachments s = ground (arith, append-nil s.released)
release_deleted_lem (id ∷ ids) attachments s =
    let more = attachments_of (load id attachments) in
    let s' : Service = record s { released = s.released ++ more } in
    ground (
      arith,
      release_deleted_lem ids attachments s',
      append_assoc s.released more (references ids attachments),
    )

pub delete_scanned_lem :
    (sc : Scanned) (s : Service) (won : List String) (store' : Memory.Store)
    → delete_messages_by_ids sc.ids s.store ≡ (ok won, store')
    → delete_scanned sc s ≡ (
      ok (length won),
      record s { store = store'; released = s.released ++ references won sc.attachments },
    )
unfolding delete_scanned
delete_scanned_lem sc s won store' deleted =
    let s' : Service = record s { store = store' } in
    ground (arith, deleted, release_deleted_lem won sc.attachments s')

-- Two cleanups on a connected backend, one after the other, whatever they have scanned, as two
-- instances that scanned the same messages: each reports how many messages it deleted, and releases
-- exactly the references that it scanned for these. The first deletes the messages of its scan that
-- are there, the second those of its own scan that are there and not in the first one, so for no
-- message references are released by both.
pub delete_scanned_once :
    (sc sc' : Scanned) (s : Service)
    → s.store.connected ≡ true
    → (won lost : List String) × ((delete_scanned sc s).0 ≡ ok (length won))
      × ((delete_scanned sc s).1.released ≡ s.released ++ references won sc.attachments)
      × ((delete_scanned sc' (delete_scanned sc s).1).0 ≡ ok (length lost))
      × ((delete_scanned sc' (delete_scanned sc s).1).1.released
          ≡ (s.released ++ references won sc.attachments) ++ references lost sc'.attachments)
      × ((j : String) → contains j won ≡ (contains j sc.ids && present j s.store.messages))
      × ((j : String)
          → contains j lost
            ≡ (contains j sc'.ids && (not (contains j sc.ids) && present j s.store.messages)))
delete_scanned_once sc sc' s connected =
    let (won, lost, store', store'', first, second, a, b) =
      delete_winners sc.ids sc'.ids s.store connected in
    let e = delete_scanned_lem sc s won store' first in
    let s' : Service = record s {
      store = store';
      released = s.released ++ references won sc.attachments;
    } in
    let e' = delete_scanned_lem sc' s' lost store'' second in
    (
      won,
      lost,
      ap (λ r. r.0) e,
      ap (λ r. r.1.released) e,
      ap (λ r. (delete_scanned sc' r.1).0) e ∙ ap (λ r. r.0) e',
      ap (λ r. (delete_scanned sc' r.1).1.released) e ∙ ap (λ r. r.1.released) e',
      a,
      b,
    )
