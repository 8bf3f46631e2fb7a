-- ===== src/Mailbox/Delivery/Recipients.antt =====
-- deduplicateRecipients against a description without a map.
use mailbox.Prelude.{
  ℕ, String, ◌≡◌, refl, Bool, true, false, not, ◌&&◌, none, some, List, [], ◌∷◌, ◌++◌, arith, ◌==◌,
  eq_iff, sym, ap, ◌∙◌, to_ℕ, count, filter, contains, Option-cases, inl, inr, if◌then◌else◌,
}
use mathlib.Core.List.{append_assoc, append-nil}
use mailbox.SyncMap.{SyncMap, load, store, load-store}
use mailbox.Mailbox.Delivery.{dedup, deduplicate_recipients}

-- Each text where it stands first
abbrev pub first_occurrences : List String → List String
first_occurrences [] = []
first_occurrences (x ∷ xs) = x ∷ filter (λ y. not (x == y)) (first_occurrences xs)

-- How often a text stands in a list
abbrev pub occurrences : String → List String → ℕ
occurrences id xs = count (λ x. x == id) xs

abbrev is_new : SyncMap Bool → String → Bool
is_new seen id = elim (load id seen) [ none ↦ true | some _ ↦ false ]

filter-filter :
    (p q : String → Bool) (xs : List String) → filter p (filter q xs) ≡ filter (λ x. q x && p x) xs
filter-filter p q [] = refl
filter-filter p q (x ∷ xs) = ground (arith, filter-filter p q xs)

filter-congr :
    (p q : String → Bool) (xs : List String)
    → ((x : String) → p x ≡ q x)
    → filter p xs ≡ filter q xs
filter-congr p q [] h = refl
filter-congr p q (x ∷ xs) h = ground (arith, h x, filter-congr p q xs h)

dedup_lem :
    (seen : SyncMap Bool) (unique ids : List String)
    → dedup seen unique ids ≡ unique ++ filter (is_new seen) (first_occurrences ids)
unfolding dedup
dedup_lem seen unique [] = sym (append-nil unique)
dedup_lem seen unique (id ∷ ids) = elim (Option-cases (load id seen)) [
  | inr (b, there) ↦
      let same =
        filter-filter (is_new seen) (λ y. not (id == y)) (first_occurrences ids)
        ∙ filter-congr (λ y. not (id == y) && is_new seen y) (is_new seen) (first_occurrences ids)
            (λ y. ground (arith, there, eq_iff id y)) in
      ground (arith, there, dedup_lem seen unique ids, same)
  | inl fresh ↦
      let same =
        filter-filter (is_new seen) (λ y. not (id == y)) (first_occurrences ids)
        ∙ filter-congr (λ y. not (id == y) && is_new seen y) (is_new (store id true seen))
            (first_occurrences ids) (λ y. ground (arith, load-store id y true seen)) in
      ground (
        arith,
        fresh,
        same,
        dedup_lem (store id true seen) (unique ++ id ∷ []) ids,
        append_assoc unique (id ∷ [])
            (filter (is_new (store id true seen)) (first_occurrences ids)),
      )
]

occurrences-filter :
    (p : String → Bool) (id : String) (xs : List String)
    → occurrences id (filter p xs) ≡ (if p id then occurrences id xs else 0)
occurrences-filter p id [] = ground arith
occurrences-filter p id (x ∷ xs) = ground (arith, occurrences-filter p id xs, eq_iff x id)

occurrences-first :
    (id : String) (xs : List String) → occurrences id (first_occurrences xs) ≡ to_ℕ (contains id xs)
occurrences-first id [] = refl
occurrences-first id (x ∷ xs) = ground (
  arith,
  occurrences-first id xs,
  occurrences-filter (λ y. not (x == y)) id (first_occurrences xs),
)

filter-true : (xs : List String) → filter (is_new []) xs ≡ xs
unfolding load
filter-true [] = refl
filter-true (x ∷ xs) = ap (λ r. x ∷ r) (filter-true xs)

-- The recipients after the deduplication are the given ones in their order, each where it stands
-- first: one that was given is there once, and one that was not given is not there.
pub deduplicate_recipients-first :
    (ids : List String) (id : String)
    → (deduplicate_recipients ids ≡ first_occurrences ids)
      × (occurrences id (deduplicate_recipients ids) ≡ to_ℕ (contains id ids))
unfolding deduplicate_recipients
deduplicate_recipients-first ids id =
    let e = dedup_lem [] [] ids ∙ filter-true (first_occurrences ids) in
    (e, ap (occurrences id) e ∙ occurrences-first id ids)
