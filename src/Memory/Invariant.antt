-- ===== src/Memory/Invariant.antt =====
-- The invariant of the in-memory backend's message map, kept by the two ways to change it.
pub mod Writes
pub mod Creates
pub mod Deletes
pub mod Bulks
pub mod Runs
use mailbox.Prelude.{
  ℕ, String, ◌≡◌, refl, Bool, true, false, Option, none, some, List, [], ◌∷◌, arith, eq_iff, subst,
  ok, err, Result, ◌>>=◌, ◌>>◌,
}
use mailbox.SyncMap.{
  SyncMap, load, store, delete, Distinct, load-store, load-delete, store-Distinct, delete-Distinct,
}
use mailbox.Store.{Error}
use mailbox.Memory.{Message, Store, write_back, edit, checked, find_message}

-- Each key has one entry, and every message stands under its own identifier.
pub record IsValid (ms : SyncMap Message) : Type 0 where
  pub distinct : Distinct ms
  pub keyed : (id : String) (m : Message) → load id ms ≡ some m → m.id ≡ id

pub empty-IsValid : IsValid []
unfolding load
empty-IsValid = record { distinct = tt; keyed = λ id m h. cc }

pub store-IsValid :
    {id : String} (m : Message) (ms : SyncMap Message)
    → m.id ≡ id
    → IsValid ms
    → IsValid (store id m ms)
store-IsValid {id} m ms e v = record {
  distinct = store-Distinct id m ms v.distinct;
  keyed = λ j n h. ground (arith, load-store id j m ms, eq_iff id j, v.keyed j n);
}

pub delete-IsValid : (id : String) (ms : SyncMap Message) → IsValid ms → IsValid (delete id ms)
delete-IsValid id ms v = record {
  distinct = delete-Distinct id ms v.distinct;
  keyed = λ j n h. ground (arith, load-delete id j ms, v.keyed j n);
}

-- What a handler computes to write back keeps the identifier.
abbrev pub KeepsId : String → Result Error (Option Message) → Type 0
KeepsId id (ok (some m)) = m.id ≡ id
KeepsId id _ = Unit

write_back-IsValid :
    (s : Store) (id : String) (r : Result Error (Option Message))
    → KeepsId id r
    → IsValid s.messages
    → IsValid (write_back s id r).1.messages
write_back-IsValid s id (ok (some m)) k v = store-IsValid m s.messages k v
write_back-IsValid s id (ok none) k v = v
write_back-IsValid s id (err e) k v = v

KeepsId-bind :
    {A : Type 0} (id : String) (r : Result Error A) (g : A → Result Error (Option Message))
    → ((a : A) → r ≡ ok a → KeepsId id (g a))
    → KeepsId id (r >>= g)
KeepsId-bind id (ok a) g h = h a refl
KeepsId-bind id (err e) g h = tt

pub find_message-ok :
    (s : Store) (id : String) (m : Message)
    → find_message s id ≡ ok m
    → (load id s.messages ≡ some m) × (m.is_draft ≡ false)
find_message-ok s id m h = ground arith

-- An edit that never changes an identifier keeps the invariant.
pub edit-IsValid :
    (id : String) (before : Result Error (Unit {0})) (f : Message → Result Error (Option Message))
    → ((m : Message) → KeepsId m.id (f m))
    → (s : Store) → IsValid s.messages
    → IsValid (edit id before f s).1.messages
edit-IsValid id before f keeps s v =
    write_back-IsValid s id _
      (KeepsId-bind id (checked s id) _ λ _ _. KeepsId-bind id before _ λ _ _.
        KeepsId-bind id (find_message s id) f
          λ m e. subst (λ i. KeepsId i (f m)) (v.keyed id m (find_message-ok s id m e).0) (keeps m))
      v
