-- ===== src/SyncMap/Counting.antt =====
-- How many entries of a map pass a test, and how `store` and `delete` change that.
use mailbox.Prelude.{ℕ, ◌+◌, String, ◌≡◌, Bool, none, some, [], ◌∷◌, arith, eq_iff, to_ℕ}
use mailbox.SyncMap.{SyncMap, load, store, delete, Distinct, delete_absent}

module _ {ℓ} {V : Type ℓ} where
  abbrev pub count_values : (V → Bool) → SyncMap V → ℕ
  count_values p [] = 0
  count_values p ((_, v) ∷ m) = to_ℕ (p v) + count_values p m

  module _ (p : V → Bool) (k : String) (v : V) where
    -- A new key adds its entry.
    pub count-store_new :
        (m : SyncMap V)
        → load k m ≡ none
        → count_values p (store k v m) ≡ count_values p m + to_ℕ (p v)
    unfolding load store
    count-store_new [] h = omega arith
    count-store_new ((i, w) ∷ m) h = ground (arith, count-store_new m)

    -- A key that is there exchanges its entry.
    pub count-store_old :
        (m : SyncMap V) {w : V}
        → load k m ≡ some w
        → count_values p (store k v m) + to_ℕ (p w) ≡ count_values p m + to_ℕ (p v)
    unfolding load store
    count-store_old [] h = ground arith
    count-store_old ((i, u) ∷ m) {w} h = ground (arith, count-store_old m {w = w})

    -- Deletion takes exactly the entry of its key away.
    pub count-delete :
        (m : SyncMap V)
        → Distinct m
        → load k m ≡ some v
        → count_values p (delete k m) + to_ℕ (p v) ≡ count_values p m
    unfolding load delete
    count-delete [] d h = ground arith
    count-delete ((i, w) ∷ m) d h =
        ground (arith, count-delete m d.1, eq_iff i k, delete_absent k m)
