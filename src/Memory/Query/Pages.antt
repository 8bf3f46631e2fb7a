-- ===== src/Memory/Query/Pages.antt =====
-- The pages of Find by a cursor: no message is left out and none comes twice.
use mailbox.Prelude.{
  ℕ, zero, suc, ◌+◌, ◌-◌, ◌≤◌, ◌<◌, String, ◌≡◌, refl, ap, Bool, true, false, Option, none, some,
  List, [], ◌∷◌, ◌++◌, arith, ◌==◌, eq_iff, eq_refl, to_ℕ, map, count, length, take, drop, ltb,
  Bool-cases, inl, inr,
}
use mathlib.Core.List.{append_assoc}
use mailbox.SyncMap.{SyncMap, load, Distinct}
use mailbox.Store.{SortOrder}
use mailbox.Memory.{Message, clone}
use mailbox.Memory.Query.{
  select, sweep, sort_fuel, sort_messages, MessageList, page_end, page_at, position_after, paginate,
}
use mailbox.Memory.Query.Listed.{Entries}

module _ (p : Message → Bool) where
  pub count-append : (xs ys : List Message) → count p (xs ++ ys) ≡ count p xs + count p ys
  count-append [] ys = omega arith
  count-append (x ∷ xs) ys = omega (arith, count-append xs ys)

  count-sweep :
      (swap : Message → Message → Bool) (x : Message) (xs : List Message)
      → count p ((sweep swap x xs).0 ∷ (sweep swap x xs).1) ≡ count p (x ∷ xs)
  unfolding sweep
  count-sweep swap x [] = refl
  count-sweep swap x (y ∷ ys) = elim (Bool-cases (swap x y)) [
    | inl swapped ↦ let same = count-sweep swap y ys in rw (swapped, sweep) (omega (arith, same))
    | inr kept ↦ let same = count-sweep swap x ys in rw (kept, sweep) (omega (arith, same))
  ]

  count-sort_fuel :
      (swap : Message → Message → Bool) (n : ℕ) (ms : List Message)
      → count p (sort_fuel swap n ms) ≡ count p ms
  unfolding sort_fuel
  count-sort_fuel swap zero ms = refl
  count-sort_fuel swap (suc n) [] = refl
  count-sort_fuel swap (suc n) (x ∷ xs) =
      let same = count-sort_fuel swap n (sweep swap x xs).1 in
      let swept = count-sweep swap x xs in omega (arith, same, swept)

  -- Sorting keeps how many messages pass a test.
  pub count-sort_messages :
      (sort_by : String) (order : SortOrder) (ms : List Message)
      → count p (sort_messages sort_by order ms) ≡ count p ms
  unfolding sort_messages
  count-sort_messages sort_by order ms = count-sort_fuel _ (length ms) ms

-- Whether a message stands under the identifier and passes a test
abbrev pub passes_at : (Message → Bool) → Option Message → Bool
passes_at p none = false
passes_at p (some m) = p m

-- A map lists each message under its identifier once.
pub count-select :
    (p : Message → Bool) (id : String) (ms : SyncMap Message)
    → Distinct ms
    → Entries (λ k m. m.id ≡ k) ms
    → count (λ m. m.id == id) (select p ms) ≡ to_ℕ (passes_at p (load id ms))
unfolding select load
count-select p id [] d e = refl
count-select p id ((k, m) ∷ ms) d e =
    ground (arith, d.0, e.0, eq_iff k id, eq_iff m.id id, count-select p id ms d.1 e.1)

-- No identifier comes twice.
abbrev pub UniqueIds : List Message → Type 0
UniqueIds ms = (id : String) → count (λ m. m.id == id) ms ≤ 1

position_after-at :
    (before rest : List Message) (m : Message)
    → count (λ n. n.id == m.id) (before ++ m ∷ rest) ≤ 1
    → position_after m.id (before ++ m ∷ rest) ≡ some (suc (length before))
position_after-at [] rest m once = ground (arith, eq_refl m.id)
position_after-at (n ∷ before) rest m once = ground (
  arith,
  once,
  eq_refl m.id,
  count-append (λ n. n.id == m.id) before (m ∷ rest),
  position_after-at before rest m,
)

pub take_all : (n : ℕ) (ms : List Message) → length ms ≤ n → take n ms ≡ ms
take_all zero [] short = refl
take_all zero (m ∷ ms) short = absurd (omega (arith, short))
take_all (suc n) [] short = refl
take_all (suc n) (m ∷ ms) short = ap (λ t. m ∷ t) (take_all n ms (omega (arith, short)))

drop-append : (xs ys : List Message) → drop (length xs) (xs ++ ys) ≡ ys
drop-append [] ys = refl
drop-append (x ∷ xs) ys = drop-append xs ys

pub length-append : (xs ys : List Message) → length (xs ++ ys) ≡ length xs + length ys
length-append [] ys = omega arith
length-append (x ∷ xs) ys = omega (arith, length-append xs ys)

-- The page that follows what was listed already
abbrev pub next_page : ℕ → List Message → List Message → MessageList
next_page limit seen rest = record {
  messages = map clone (take limit rest);
  total = length (seen ++ rest);
  has_more = ltb limit (length rest);
}

page_at-next_page :
    (limit : ℕ) (seen rest : List Message)
    → 0 < limit
    → page_at (length seen) limit (seen ++ rest) ≡ next_page limit seen rest
page_at-next_page limit seen rest positive =
    let n = length-append seen rest in
    let rest_left = drop-append seen rest in
    let end = page_end (length seen) limit (length (seen ++ rest)) in
    elim (Bool-cases (ltb limit (length rest))) [
      | inl more ↦
          let size : end - length seen ≡ limit = ground (arith, more, positive, n) in
          let all_seen : ltb end (length (seen ++ rest)) ≡ true =
            ground (arith, more, positive, n) in
          ground (arith, size, all_seen, rest_left, more)
      | inr last ↦
          let size : end - length seen ≡ length rest = ground (arith, last, positive, n) in
          let all_seen : ltb end (length (seen ++ rest)) ≡ false =
            ground (arith, last, positive, n) in
          let whole = take_all (length rest) rest (omega arith) in
          let whole' = take_all limit rest (ground (arith, last)) in
          ground (arith, size, all_seen, rest_left, last, whole, whole')
    ]

-- The first page
pub paginate-first :
    (limit : ℕ) (all : List Message) → 0 < limit → paginate "" limit all ≡ next_page limit [] all
unfolding paginate
paginate-first limit all positive = page_at-next_page limit [] all positive

-- The page after the cursor of the last message that was listed
pub paginate-next :
    (limit : ℕ) (before rest : List Message) (m : Message)
    → 0 < limit
    → (m.id == "") ≡ false
    → UniqueIds (before ++ m ∷ rest)
    → paginate m.id limit (before ++ m ∷ rest) ≡ next_page limit (before ++ m ∷ []) rest
unfolding paginate
paginate-next limit before rest m positive named unique =
    let at = position_after-at before rest m (unique m.id) in
    let shift : (before ++ m ∷ []) ++ rest ≡ before ++ m ∷ rest =
      append_assoc before (m ∷ []) rest in
    let n : length (before ++ m ∷ []) ≡ suc (length before) =
      omega (arith, length-append before (m ∷ [])) in
    let page = page_at-next_page limit (before ++ m ∷ []) rest positive in
    ground (arith, named, at, shift, n, page)
