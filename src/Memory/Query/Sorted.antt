-- ===== src/Memory/Query/Sorted.antt =====
-- The order in which Find lists: sortMessages of store/memory/helpers.go and the pages of its result.
use mailbox.Prelude.{
  ℕ, zero, suc, ◌-◌, ◌≤◌, String, ◌≡◌, refl, sym, subst, Bool, true, false, List, [], ◌∷◌, arith,
  ◌==◌, All, map, length, take, drop, ltb, ok, Bool-cases, Option-cases, inl, inr,
}
use mailbox.Store.{Time, ListOptions, SortOrder, unset, asc, desc}
use mailbox.Store.Filter.{Filter}
use mailbox.Memory.{Message, Store, clone}
use mailbox.Memory.Query.{
  select, sweep, sort_fuel, sort_messages, MessageList, page_end, page_at, position_after, paginate,
  is_listed, find,
}
use mailbox.Memory.Query.Listed.{find-paginate, All-sort_fuel, All-take, All-map}

module _ (swap : Message → Message → Bool) where
  -- Each message stands before the later ones rightly.
  abbrev pub Ordered : List Message → Type 0
  Ordered [] = Unit
  Ordered (m ∷ ms) = All (λ n. swap m n ≡ false) ms × Ordered ms

  -- The first message of a sweep stands before all others rightly.
  abbrev First : Message → Message × List Message → Type 0
  First x r = (swap r.0 x ≡ false) × All (λ n. swap r.0 n ≡ false) r.1

  sweep_swapped :
      (x y : Message) (ys : List Message)
      → swap x y ≡ true
      → sweep swap x (y ∷ ys) ≡ ((sweep swap y ys).0, x ∷ (sweep swap y ys).1)
  unfolding sweep
  sweep_swapped x y ys swapped = rw (swapped, sweep) refl

  sweep_kept :
      (x y : Message) (ys : List Message)
      → swap x y ≡ false
      → sweep swap x (y ∷ ys) ≡ ((sweep swap x ys).0, y ∷ (sweep swap x ys).1)
  unfolding sweep
  sweep_kept x y ys kept = rw (kept, sweep) refl

  length-sweep : (x : Message) (xs : List Message) → length (sweep swap x xs).1 ≡ length xs
  unfolding sweep
  length-sweep x [] = refl
  length-sweep x (y ∷ ys) = ground (arith, length-sweep y ys, length-sweep x ys)

  Ordered-drop : (n : ℕ) (ms : List Message) → Ordered ms → Ordered (drop n ms)
  Ordered-drop zero ms o = o
  Ordered-drop (suc n) [] o = tt
  Ordered-drop (suc n) (m ∷ ms) o = Ordered-drop n ms o.1

  Ordered-take : (n : ℕ) (ms : List Message) → Ordered ms → Ordered (map clone (take n ms))
  Ordered-take zero ms o = tt
  Ordered-take (suc n) [] o = tt
  Ordered-take (suc n) (m ∷ ms) o = (
    All-map (λ k. swap m k ≡ false) (take n ms) (All-take (λ k. swap m k ≡ false) n ms o.0),
    Ordered-take n ms o.1,
  )

  Ordered-page_at :
      (start limit : ℕ) (all : List Message)
      → Ordered all
      → Ordered (page_at start limit all).messages
  Ordered-page_at start limit all o =
      Ordered-take (page_end start limit (length all) - start) (drop start all)
        (Ordered-drop start all o)

  pub Ordered-paginate :
      (start_after : String) (limit : ℕ) (all : List Message)
      → Ordered all
      → Ordered (paginate start_after limit all).messages
  unfolding paginate
  Ordered-paginate start_after limit all o = elim (Bool-cases (start_after == "")) [
    | inl first ↦ rw first (Ordered-page_at 0 limit all o)
    | inr later ↦ elim (Option-cases (position_after start_after all)) [
      | inl lost ↦ rw (later, lost) tt
      | inr (start, found) ↦ rw (later, found) (Ordered-page_at start limit all o)
    ]
  ]

module _ (swap : Message → Message → Bool)
    (asym : (a b : Message) → swap a b ≡ true → swap b a ≡ false)
    (trans : (a b c : Message) → swap a b ≡ false → swap b c ≡ false → swap a c ≡ false) where
  same : (a : Message) → swap a a ≡ false
  same a = elim (Bool-cases (swap a a)) [ inl swapped ↦ asym a a swapped | inr kept ↦ kept ]

  sweep-First : (x : Message) (xs : List Message) → First swap x (sweep swap x xs)
  unfolding sweep
  sweep-First x [] = (same x, tt)
  sweep-First x (y ∷ ys) = elim (Bool-cases (swap x y)) [
    | inl swapped ↦
        let (low, all) = sweep-First y ys in
        let below = trans (sweep swap y ys).0 y x low (asym x y swapped) in
        subst (First swap x) (sym (sweep_swapped swap x y ys swapped)) (below, (below, all))
    | inr kept ↦
        let (low, all) = sweep-First x ys in
        let below = trans (sweep swap x ys).0 x y low kept in
        subst (First swap x) (sym (sweep_kept swap x y ys kept)) (low, (below, all))
  ]

  sort_fuel-Ordered :
      (n : ℕ) (ms : List Message) → length ms ≤ n → Ordered swap (sort_fuel swap n ms)
  unfolding sort_fuel
  sort_fuel-Ordered zero [] enough = tt
  sort_fuel-Ordered zero (m ∷ ms) enough = absurd (omega (arith, enough))
  sort_fuel-Ordered (suc n) [] enough = tt
  sort_fuel-Ordered (suc n) (x ∷ xs) enough =
      let rest = (sweep swap x xs).1 in
      (
        All-sort_fuel (λ m. swap (sweep swap x xs).0 m ≡ false) swap n rest (sweep-First x xs).1,
        sort_fuel-Ordered n rest (omega (arith, enough, length-sweep swap x xs)),
      )

-- Oldest first in ascending order, newest first otherwise
abbrev pub later_than : SortOrder → Message → Message → Bool
later_than asc a b = ltb b.created_at a.created_at
later_than desc a b = ltb a.created_at b.created_at
later_than unset a b = ltb a.created_at b.created_at

ltb_trans : (a b c : ℕ) → ltb b a ≡ false → ltb c b ≡ false → ltb c a ≡ false
ltb_trans a b c ba cb = ground (arith, ba, cb)

later_than-asym :
    (order : SortOrder) (a b : Message) → later_than order a b ≡ true → later_than order b a ≡ false
later_than-asym asc a b later = ground (arith, later)
later_than-asym desc a b later = ground (arith, later)
later_than-asym unset a b later = ground (arith, later)

later_than_trans :
    (order : SortOrder) (a b c : Message)
    → later_than order a b ≡ false
    → later_than order b c ≡ false
    → later_than order a c ≡ false
later_than_trans asc a b c ab bc = ltb_trans a.created_at b.created_at c.created_at ab bc
later_than_trans desc a b c ab bc = ltb_trans c.created_at b.created_at a.created_at bc ab
later_than_trans unset a b c ab bc = ltb_trans c.created_at b.created_at a.created_at bc ab

sort_messages-Ordered :
    (order : SortOrder) (ms : List Message)
    → Ordered (later_than order) (sort_messages "created_at" order ms)
unfolding sort_messages
sort_messages-Ordered asc ms =
    sort_fuel-Ordered (later_than asc) (later_than-asym asc) (later_than_trans asc) (length ms) ms
      (omega arith)
sort_messages-Ordered desc ms =
    sort_fuel-Ordered (later_than desc) (later_than-asym desc) (later_than_trans desc) (length ms)
      ms (omega arith)
sort_messages-Ordered unset ms =
    sort_fuel-Ordered (later_than unset) (later_than-asym unset) (later_than_trans unset)
      (length ms) ms (omega arith)

-- When Find succeeds without a named sort field, of any two messages of its page the earlier is
-- created no later than the other in ascending order, and no earlier in any other.
pub find-Ordered :
    (s : Store) (filters : List Filter) (opts : ListOptions) (now : Time) (list : MessageList)
    → (opts.sort_by == "") ≡ true
    → find s filters opts now ≡ ok list
    → Ordered (later_than opts.sort_order) list.messages
find-Ordered s filters opts now list plain found =
    let all = select (is_listed filters now) s.messages in
    let order = opts.sort_order in
    rw (find-paginate s filters opts now list found, plain)
      (Ordered-paginate (later_than order) opts.start_after opts.limit
        (sort_messages "created_at" order all) (sort_messages-Ordered order all))
