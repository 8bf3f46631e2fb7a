-- ===== src/SyncMap.antt =====
-- Go's `sync.Map` and `map` with text keys, as association lists. The order of the list stands for
-- the order in which `Range` visits the entries; no client relies on a particular order.
pub mod Counting
use mailbox.Prelude.{
  String, ◌≡◌, refl, Bool, true, false, Option, none, some, List, [], ◌∷◌, arith, ◌==◌, eq_iff,
  eq_refl, if◌then◌else◌,
}

abbrev pub SyncMap {ℓ} : Type ℓ → Type ℓ
SyncMap V = List (String × V)

module _ {ℓ} {V : Type ℓ} where
  -- m.Load(k)
  unfoldable pub load : String → SyncMap V → Option V
  load k [] = none
  load k ((j, v) ∷ m) = if j == k then some v else load k m

  -- m.Store(k, v): a key that is there keeps its place.
  unfoldable pub store : String → V → SyncMap V → SyncMap V
  store k v [] = (k, v) ∷ []
  store k v ((j, w) ∷ m) = if j == k then (j, v) ∷ m else (j, w) ∷ store k v m

  -- m.Delete(k)
  unfoldable pub delete : String → SyncMap V → SyncMap V
  delete k [] = []
  delete k ((j, w) ∷ m) = let rest = delete k m in if j == k then rest else (j, w) ∷ rest

  -- m.LoadOrStore(k, v): the value under the key, and whether it was there.
  unfoldable pub load_or_store : String → V → SyncMap V → V × Bool × SyncMap V
  unfolding load store
  load_or_store k v m = elim (load k m) [ none ↦ (v, false, store k v m) | some w ↦ (w, true, m) ]

  -- m.LoadAndDelete(k): whether this call removed an entry.
  unfoldable pub load_and_delete : String → SyncMap V → Bool × SyncMap V
  unfolding load delete
  load_and_delete k m = elim (load k m) [ none ↦ (false, m) | some w ↦ (true, delete k m) ]

  pub load-store :
      (k j : String) (v : V) (m : SyncMap V)
      → load j (store k v m) ≡ (if k == j then some v else load j m)
  unfolding load store
  load-store k j v [] = refl
  load-store k j v ((i, w) ∷ m) =
      ground (arith, eq_iff k j, eq_iff i k, eq_iff i j, load-store k j v m)

  pub load-delete :
      (k j : String) (m : SyncMap V) → load j (delete k m) ≡ (if k == j then none else load j m)
  unfolding load delete
  load-delete k j [] = ground arith
  load-delete k j ((i, w) ∷ m) =
      ground (arith, eq_iff k j, eq_iff i k, eq_iff i j, load-delete k j m)

  pub load-store_self : (k : String) (v : V) (m : SyncMap V) → load k (store k v m) ≡ some v
  load-store_self k v m = ground (arith, load-store k k v m, eq_refl k)

  -- Every key has one entry.
  abbrev pub Distinct : SyncMap V → Type ℓ
  Distinct [] = Unit
  Distinct ((k, _) ∷ m) = (load k m ≡ none) × Distinct m

  pub store-Distinct : (k : String) (v : V) (m : SyncMap V) → Distinct m → Distinct (store k v m)
  unfolding load store
  store-Distinct k v [] d = (refl, tt)
  store-Distinct k v ((i, w) ∷ m) d =
      ground (arith, eq_iff i k, eq_iff k i, store-Distinct k v m d.1, load-store k i v m)

  pub delete-Distinct : (k : String) (m : SyncMap V) → Distinct m → Distinct (delete k m)
  unfolding load delete
  delete-Distinct k [] d = tt
  delete-Distinct k ((i, w) ∷ m) d =
      ground (arith, eq_iff k i, delete-Distinct k m d.1, load-delete k i m)

  pub delete_absent : (k : String) (m : SyncMap V) → load k m ≡ none → delete k m ≡ m
  unfolding load delete
  delete_absent k [] h = refl
  delete_absent k ((i, w) ∷ m) h = ground (arith, delete_absent k m)

pub ruleset map_laws = (load-store, load-delete, load-store_self)
