-- ===== src/Memory/Query/Listed.antt =====
-- What Find lists.
use mailbox.Prelude.{
  ℕ, zero, suc, ◌-◌, ◌≤◌, ◌<◌, String, ◌≡◌, refl, sym, subst, Bool, true, some, List, [], ◌∷◌,
  arith, ◌==◌, eq_iff, eq_refl, map, All, length, take, drop, length-take, ok, Bool-cases,
  Option-cases, inl, inr, if◌then◌else◌,
}
use mailbox.SyncMap.{SyncMap, load, Distinct}
use mailbox.Store.{Time, ListOptions, SortOrder}
use mailbox.Store.Filter.{Filter}
use mailbox.Memory.{Message, Store, clone}
use mailbox.Memory.Invariant.{IsValid}
use mailbox.Memory.Query.{
  select, sweep, sort_fuel, sort_messages, MessageList, page_end, page_at, position_after, paginate,
  is_listed, find,
}

-- The entries of a map
abbrev pub Entries : (String → Message → Type 0) → SyncMap Message → Type 0
Entries Q [] = Unit
Entries Q ((k, m) ∷ ms) = Q k m × Entries Q ms

pub Entries-weaken :
    (P Q : String → Message → Type 0) (ms : SyncMap Message)
    → ((k : String) (m : Message) → P k m → Q k m)
    → Entries P ms
    → Entries Q ms
Entries-weaken P Q [] h e = tt
Entries-weaken P Q ((k, m) ∷ ms) h e = (h k m e.0, Entries-weaken P Q ms h e.1)

pub Entries-load : (ms : SyncMap Message) → Distinct ms → Entries (λ k m. load k ms ≡ some m) ms
unfolding load
Entries-load [] d = tt
Entries-load ((k, m) ∷ ms) d = (
  ground (arith, eq_refl k),
  Entries-weaken (λ j n. load j ms ≡ some n) (λ j n. load j ((k, m) ∷ ms) ≡ some n) ms
      (λ j n h. ground (arith, h, d.0, eq_iff k j)) (Entries-load ms d.1),
)

module _ (P : Message → Type 0) where
  pub All-take : (n : ℕ) (ms : List Message) → All P ms → All P (take n ms)
  All-take zero ms all = tt
  All-take (suc n) [] all = tt
  All-take (suc n) (m ∷ ms) all = (all.0, All-take n ms all.1)

  All-drop : (n : ℕ) (ms : List Message) → All P ms → All P (drop n ms)
  All-drop zero ms all = all
  All-drop (suc n) [] all = tt
  All-drop (suc n) (m ∷ ms) all = All-drop n ms all.1

  pub All-map : (ms : List Message) → All P ms → All P (map clone ms)
  All-map [] all = tt
  All-map (m ∷ ms) all = (all.0, All-map ms all.1)

  All-sweep :
      (swap : Message → Message → Bool) (x : Message) (xs : List Message)
      → P x
      → All P xs
      → P (sweep swap x xs).0 × All P (sweep swap x xs).1
  unfolding sweep
  All-sweep swap x [] p all = (p, tt)
  All-sweep swap x (y ∷ ys) p all = elim (Bool-cases (swap x y)) [
    | inl swapped ↦ let (a, b) = All-sweep swap y ys all.0 all.1 in rw (swapped, sweep) (a, (p, b))
    | inr kept ↦ let (a, b) = All-sweep swap x ys p all.1 in rw (kept, sweep) (a, (all.0, b))
  ]

  pub All-sort_fuel :
      (swap : Message → Message → Bool) (n : ℕ) (ms : List Message)
      → All P ms
      → All P (sort_fuel swap n ms)
  unfolding sort_fuel
  All-sort_fuel swap zero ms all = all
  All-sort_fuel swap (suc n) [] all = tt
  All-sort_fuel swap (suc n) (x ∷ xs) all =
      let (a, b) = All-sweep swap x xs all.0 all.1 in
      (a, All-sort_fuel swap n (sweep swap x xs).1 b)

  All-sort_messages :
      (sort_by : String) (order : SortOrder) (ms : List Message)
      → All P ms
      → All P (sort_messages sort_by order ms)
  unfolding sort_messages
  All-sort_messages sort_by order ms all = All-sort_fuel _ (length ms) ms all

  All-page_at :
      (start limit : ℕ) (all : List Message) → All P all → All P (page_at start limit all).messages
  All-page_at start limit all h =
      let n = page_end start limit (length all) - start in
      All-map (take n (drop start all)) (All-take n (drop start all) (All-drop start all h))

  All-paginate :
      (start_after : String) (limit : ℕ) (all : List Message)
      → All P all
      → All P (paginate start_after limit all).messages
  unfolding paginate
  All-paginate start_after limit all h = elim (Bool-cases (start_after == "")) [
    | inl first ↦ rw first (All-page_at 0 limit all h)
    | inr later ↦ elim (Option-cases (position_after start_after all)) [
      | inl lost ↦ rw (later, lost) tt
      | inr (start, found) ↦ rw (later, found) (All-page_at start limit all h)
    ]
  ]

  All-select :
      (p : Message → Bool) (Q : String → Message → Type 0) (ms : SyncMap Message)
      → Entries Q ms
      → ((k : String) (m : Message) → Q k m → p m ≡ true → P m)
      → All P (select p ms)
  unfolding select
  All-select p Q [] e h = tt
  All-select p Q ((k, m) ∷ ms) e h = elim (Bool-cases (p m)) [
    | inl passes ↦ rw passes (h k m e.0 passes, All-select p Q ms e.1 h)
    | inr fails ↦ rw fails (All-select p Q ms e.1 h)
  ]

-- A message that is stored under its identifier and passes the filters
abbrev pub Listed : Store → List Filter → Time → Message → Type 0
Listed s filters now m = (load m.id s.messages ≡ some m) × (is_listed filters now m ≡ true)

-- Find lists a page of what passes, in its order.
pub find-paginate :
    (s : Store) (filters : List Filter) (opts : ListOptions) (now : Time) (list : MessageList)
    → find s filters opts now ≡ ok list
    → list
      ≡ paginate opts.start_after opts.limit (
          sort_messages
            (if opts.sort_by == "" then "created_at" else opts.sort_by)
            opts.sort_order
            (select (is_listed filters now) s.messages))
unfolding find
find-paginate s filters opts now list found = ground (arith, found)

find-All :
    (P : Message → Type 0) (s : Store) (filters : List Filter) (opts : ListOptions) (now : Time)
    (list : MessageList)
    → All P (select (is_listed filters now) s.messages)
    → find s filters opts now ≡ ok list
    → All P list.messages
find-All P s filters opts now list all found =
    let key = if opts.sort_by == "" then "created_at" else opts.sort_by in
    let sorted = sort_messages key opts.sort_order (select (is_listed filters now) s.messages) in
    let same = find-paginate s filters opts now list found in
    rw same (
      All-paginate P opts.start_after opts.limit sorted
        (All-sort_messages P key opts.sort_order (select (is_listed filters now) s.messages) all))

pub find-Listed :
    (s : Store) (filters : List Filter) (opts : ListOptions) (now : Time) (list : MessageList)
    → IsValid s.messages
    → find s filters opts now ≡ ok list
    → All (Listed s filters now) list.messages
find-Listed s filters opts now list valid found =
    find-All (Listed s filters now) s filters opts now list
      (All-select (Listed s filters now) (is_listed filters now) (λ k m. load k s.messages ≡ some m)
        s.messages (Entries-load s.messages valid.distinct)
        (λ k m there passes.
          (subst (λ i. load i s.messages ≡ some m) (sym (valid.keyed k m there)) there, passes)))
      found

length-clones : (ms : List Message) → length (map clone ms) ≡ length ms
length-clones [] = refl
length-clones (m ∷ ms) = omega (arith, length-clones ms)

length-page_at :
    (limit : ℕ) (all : List Message) → 0 < limit → length (page_at 0 limit all).messages ≤ limit
length-page_at limit all limited =
    let n = page_end 0 limit (length all) - 0 in
    ground (arith, limited, length-clones (take n all), length-take n all)

length-paginate :
    (start_after : String) (limit : ℕ) (all : List Message)
    → (start_after == "") ≡ true
    → 0 < limit
    → length (paginate start_after limit all).messages ≤ limit
unfolding paginate
length-paginate start_after limit all first limited =
    ground (arith, first, length-page_at limit all limited)

pub find-length :
    (s : Store) (filters : List Filter) (opts : ListOptions) (now : Time) (list : MessageList)
    → find s filters opts now ≡ ok list
    → (opts.start_after == "") ≡ true
    → 0 < opts.limit
    → length list.messages ≤ opts.limit
find-length s filters opts now list found first limited =
    let key = if opts.sort_by == "" then "created_at" else opts.sort_by in
    let sorted = sort_messages key opts.sort_order (select (is_listed filters now) s.messages) in
    let same = find-paginate s filters opts now list found in
    rw same (length-paginate opts.start_after opts.limit sorted first limited)
