-- ===== src/Mailbox/Delivery/Counted.antt =====
-- How often a recipient stands in the results of a delivery.
use mailbox.Prelude.{
  ℕ, ◌+◌, ◌≤◌, String, ◌≡◌, Bool, false, List, [], ◌∷◌, ◌++◌, arith, Result, ok, err, not, ◌&&◌,
  ◌||◌, ◌==◌, eq_iff, to_ℕ, ltb, contains,
}
use mailbox.Store.{Error}
use mailbox.Memory.{Message}
use mailbox.Mailbox.Delivery.{Delivered, set_key, set_keys}
use mailbox.Mailbox.Delivery.Recipients.{occurrences}

pub occurrences-append :
    (id : String) (xs ys : List String)
    → occurrences id (xs ++ ys) ≡ occurrences id xs + occurrences id ys
occurrences-append id [] ys = omega arith
occurrences-append id (x ∷ xs) ys = omega (arith, occurrences-append id xs ys)

contains_end :
    (x y : String) (ids : List String) → contains x (ids ++ y ∷ []) ≡ contains x ids || y == x
contains_end x y [] = ground arith
contains_end x y (id ∷ ids) = ground (arith, contains_end x y ids)

-- How a recipient stands in a delivery's results, of which so many were wanted: it is delivered to at
-- most as often, and a key of the failures exactly when it is delivered to less often.
abbrev pub Accounted : String → ℕ → Delivered → Type 0
Accounted id n d =
    (occurrences id d.delivered_to ≤ n)
    × (contains id d.failed ≡ ltb (occurrences id d.delivered_to) n)

-- How many of a recipient's results say that the copy was there already
abbrev pub old_copy : Result Error (Message × Bool) → Bool
old_copy (ok (m, created)) = not created
old_copy (err e) = false

abbrev pub old_copies : String → List String → List (Result Error (Message × Bool)) → ℕ
old_copies id [] rs = 0
old_copies id (x ∷ xs) [] = 0
old_copies id (x ∷ xs) (r ∷ rs) = to_ℕ (x == id && old_copy r) + old_copies id xs rs

pub contains-set_key :
    (id x : String) (keys : List String) → contains x (set_key id keys) ≡ contains x keys || id == x
contains-set_key id x keys = ground (arith, contains_end x id keys, eq_iff id x)

pub contains-set_keys :
    (x : String) (ids keys : List String)
    → contains x (set_keys ids keys) ≡ contains x keys || ltb 0 (occurrences x ids)
contains-set_keys x [] keys = ground arith
contains-set_keys x (id ∷ ids) keys =
    ground (arith, contains-set_keys x ids (set_key id keys), contains-set_key id x keys)
