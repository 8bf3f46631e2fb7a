-- ===== src/Memory/Maintenance/Winners.antt =====
-- DeleteMessagesByIDs: the identifiers that a call returns are those that it removed.
use mailbox.Prelude.{
  ℕ, ◌+◌, to_ℕ, length, Option-cases, String, ◌≡◌, refl, Bool, true, false, not, ◌&&◌, none, some,
  List, [], ◌∷◌, arith, ok, ◌==◌, eq_iff, contains, if◌then◌else◌, inl, inr,
}
use mailbox.SyncMap.{SyncMap, load, load_and_delete, load-delete, Distinct, delete-Distinct}
use mailbox.SyncMap.Counting.{count_values, count-delete}
use mailbox.Memory.{Message, Store}
use mailbox.Memory.Maintenance.{delete_ids, delete_messages_by_ids}

abbrev pub present : String → SyncMap Message → Bool
present id ms = elim (load id ms) [ none ↦ false | some _ ↦ true ]

load-load_and_delete :
    (id j : String) (ms : SyncMap Message)
    → (load j (load_and_delete id ms).1 ≡ (if id == j then none else load j ms))
      × ((load_and_delete id ms).0 ≡ present id ms)
unfolding load_and_delete
load-load_and_delete id j ms = (ground (arith, load-delete id j ms, eq_iff id j), ground arith)

-- After the second pass exactly the listed identifiers are gone.
pub load-delete_ids :
    (j : String) (ids : List String) (ms : SyncMap Message)
    → load j (delete_ids ids ms).1 ≡ (if contains j ids then none else load j ms)
unfolding delete_ids
load-delete_ids j [] ms = refl
load-delete_ids j (id ∷ ids) ms =
    ground
      (arith, load-delete_ids j ids (load_and_delete id ms).1, (load-load_and_delete id j ms).0)

pub contains-delete_ids :
    (j : String) (ids : List String) (ms : SyncMap Message)
    → contains j (delete_ids ids ms).0 ≡ (contains j ids && present j ms)
unfolding delete_ids
contains-delete_ids j [] ms = refl
contains-delete_ids j (id ∷ ids) ms = ground (
  arith,
  contains-delete_ids j ids (load_and_delete id ms).1,
  (load-load_and_delete id j ms).0,
  (load-load_and_delete id j ms).1,
  eq_iff id j,
)

-- The total over a map, with `count_values` at the test that all entries pass
abbrev pub size : SyncMap Message → ℕ
size = count_values (λ _. true)

size-load_and_delete :
    (id : String) (ms : SyncMap Message)
    → Distinct ms
    → size (load_and_delete id ms).1 + to_ℕ (load_and_delete id ms).0 ≡ size ms
unfolding load_and_delete
size-load_and_delete id ms d = elim (Option-cases (load id ms)) [
  | inl gone ↦ ground arith
  | inr (m, there) ↦ ground (arith, count-delete (λ (_ : Message). true) id m ms d there)
]

load_and_delete-Distinct :
    (id : String) (ms : SyncMap Message) → Distinct ms → Distinct (load_and_delete id ms).1
unfolding load_and_delete
load_and_delete-Distinct id ms d = ground (arith, delete-Distinct id ms d)

-- The list that a call returns is as long as the map has lost entries.
pub size-delete_ids :
    (ids : List String) (ms : SyncMap Message)
    → Distinct ms
    → size (delete_ids ids ms).1 + length (delete_ids ids ms).0 ≡ size ms
unfolding delete_ids
size-delete_ids [] ms d = omega arith
size-delete_ids (id ∷ ids) ms d = ground (
  arith,
  size-delete_ids ids (load_and_delete id ms).1 (load_and_delete-Distinct id ms d),
  size-load_and_delete id ms d,
)

-- Two calls of DeleteMessagesByIDs, one after the other, with any two lists, on a connected backend:
-- the first returns exactly the listed identifiers that were there, the second exactly its listed
-- ones that were there and not in the first list. So no identifier is returned by both, and every
-- message that was there under a listed identifier is returned by one.
pub delete_winners :
    (ids others : List String) (s : Store)
    → s.connected ≡ true
    → (won lost : List String) × (s' s'' : Store) × (delete_messages_by_ids ids s ≡ (ok won, s'))
      × (delete_messages_by_ids others s' ≡ (ok lost, s''))
      × ((j : String) → contains j won ≡ (contains j ids && present j s.messages))
      × ((j : String)
          → contains j lost ≡ (contains j others && (not (contains j ids) && present j s.messages)))
unfolding delete_messages_by_ids
delete_winners ids others s c =
    let (won, ms) = delete_ids ids s.messages in
    let (lost, ms') = delete_ids others ms in
    (
      won,
      lost,
      record s { messages = ms },
      record s { messages = ms' },
      ground arith,
      ground arith,
      λ j. contains-delete_ids j ids s.messages,
      λ j. ground (arith, contains-delete_ids j others ms, load-delete_ids j ids s.messages),
    )
