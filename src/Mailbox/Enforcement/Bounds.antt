-- ===== src/Mailbox/Enforcement/Bounds.antt =====
-- Which messages the enforcement of a quota removes, how many, and that it ends.
use mailbox.Prelude.{
  ℕ, suc, ◌+◌, ap, ◌≤◌, String, ◌≡◌, refl, sym, ◌∙◌, Bool, true, not, ◌&&◌, none, some, List, [],
  ◌∷◌, arith, ◌==◌, eq_iff, All, length, ltb, Result, ok, err, ◌>>◌, Bool-cases, Result-cases, ◌⊎◌,
  inl, inr,
}
use mailbox.SyncMap.{SyncMap, load, delete, load-delete}
use mailbox.SyncMap.Counting.{count-delete}
use mailbox.Memory.Maintenance.Winners.{size}
use mailbox.Store.{Error, Time}
use mailbox.Memory
use mailbox.Memory.{Message, checked, find_message}
use mailbox.Memory.Write
use mailbox.Memory.Invariant.{IsValid}
use mailbox.Memory.Invariant.Writes.{hard_delete-IsValid}
use mailbox.Mailbox.{Service, Config}
use mailbox.Mailbox.Enforcement.{count_deleted, release_attachments, delete_each}

-- A message of the user that is no draft and was created before the instant
abbrev pub is_excess : String → Time → Message → Bool
is_excess user_id cutoff m = not m.is_draft && (m.owner_id == user_id && ltb m.created_at cutoff)

hard_delete_cases :
    (id : String) (s : Memory.Store)
    → ((e : Error) × (Write.hard_delete id s ≡ (err e, s)))
      ⊎ (m : Message) × (load id s.messages ≡ some m)
        × (Write.hard_delete id s ≡ (ok tt, record s { messages = delete id s.messages }))
unfolding Write.hard_delete
hard_delete_cases id s = elim (Result-cases (do checked s id; find_message s id)) [
  | inl (m, found) ↦ inr (m, ground (arith, found), ground (arith, found))
  | inr (e, failed) ↦ inl (e, ground (arith, failed))
]

-- The count of the loop follows the number of entries.
hard_delete-counted :
    (cfg : Config) (id : String) (s : Memory.Store) (n : ℕ)
    → IsValid s.messages
    → size (Write.hard_delete id s).1.messages + count_deleted cfg (Write.hard_delete id s).0 n
      ≡ size s.messages + n
hard_delete-counted cfg id s n valid = elim (hard_delete_cases id s) [
  | inl (e, failed) ↦ rw failed refl
  | inr (m, there, deleted) ↦
      let one_less = count-delete (λ (_ : Message). true) id m s.messages valid.distinct there in
      rw deleted (omega (arith, one_less))
]

module _ (p : Message → Bool) where
  -- What happens to each entry: it is kept as it is, or it passes the test and is gone.
  abbrev pub Removes : SyncMap Message → SyncMap Message → Type 0
  Removes ms ms' =
      (j : String)
      → (load j ms' ≡ load j ms)
        ⊎ (m : Message) × (load j ms ≡ some m) × (p m ≡ true) × (load j ms' ≡ none)

  pub Removes-trans :
      (ms₁ ms₂ ms₃ : SyncMap Message) → Removes ms₁ ms₂ → Removes ms₂ ms₃ → Removes ms₁ ms₃
  Removes-trans ms₁ ms₂ ms₃ f g j = elim (f j) [
    | inl same ↦ elim (g j) [
      | inl again ↦ inl (again ∙ same)
      | inr (m, there, passes, gone) ↦ inr (m, sym same ∙ there, passes, gone)
    ]
    | inr (m, there, passes, gone) ↦ elim (g j) [
      | inl again ↦ inr (m, there, passes, again ∙ gone)
      | inr (n, still, _, _) ↦ absurd (ground (arith, gone, still))
    ]
  ]

  -- A message that passes the test, or is not there any more
  abbrev pub Removable : SyncMap Message → String → Type 0
  Removable ms id = (load id ms ≡ none) ⊎ (m : Message) × (load id ms ≡ some m) × (p m ≡ true)

  Removable-Removes :
      (ms ms' : SyncMap Message) (id : String) → Removes ms ms' → Removable ms id → Removable ms' id
  Removable-Removes ms ms' id f r = elim (f id) [
    | inr (m, there, passes, gone) ↦ inl gone
    | inl same ↦ elim r [
      | inl absent ↦ inl (same ∙ absent)
      | inr (m, there, passes) ↦ inr (m, same ∙ there, passes)
    ]
  ]

  Removes-delete :
      (id : String) (ms : SyncMap Message) → Removable ms id → Removes ms (delete id ms)
  Removes-delete id ms r j = elim (Bool-cases (id == j)) [
    | inr other ↦ inl (ground (arith, other, load-delete id j ms))
    | inl this ↦
        let gone : load j (delete id ms) ≡ none = ground (arith, this, load-delete id j ms) in
        elim r [
          | inl absent ↦ inl (ground (arith, gone, absent, this, eq_iff id j))
          | inr (m, there, passes) ↦ inr (m, ground (arith, there, this, eq_iff id j), passes, gone)
        ]
  ]

  Removes-hard_delete :
      (id : String) (s : Memory.Store)
      → Removable s.messages id
      → Removes s.messages (Write.hard_delete id s).1.messages
  Removes-hard_delete id s r = elim (hard_delete_cases id s) [
    | inl (e, failed) ↦ rw failed (λ j. inl refl)
    | inr (m, there, deleted) ↦ rw deleted (Removes-delete id s.messages r)
  ]

  All-Removable :
      (ms ms' : SyncMap Message) (page : List Message)
      → Removes ms ms'
      → All (λ m. Removable ms m.id) page
      → All (λ m. Removable ms' m.id) page
  All-Removable ms ms' [] f all = tt
  All-Removable ms ms' (m ∷ page) f all =
      (Removable-Removes ms ms' m.id f all.0, All-Removable ms ms' page f all.1)

  -- What deleting some messages does: it removes only such messages, keeps the map valid, and counts
  -- the entries that are gone, no more than it was given.
  pub record Deletes (n : ℕ) (s : Service) (r : ℕ × Bool × Service) : Type 0 where
    pub removes : Removes s.store.messages r.2.store.messages
    pub valid : IsValid r.2.store.messages
    pub few : r.0 ≤ n
    pub counted : size r.2.store.messages + r.0 ≡ size s.store.messages

  count_deleted-few :
      (cfg : Config) (r : Result Error (Unit {0})) (n : ℕ) → count_deleted cfg r n ≤ suc n
  count_deleted-few cfg (ok _) n = omega arith
  count_deleted-few cfg (err e) n = omega arith

  pub delete_each-Deletes :
      (cfg : Config) (stops_in : ℕ → Bool) (k : ℕ) (ms : List Message) (s : Service)
      → IsValid s.store.messages
      → All (λ m. Removable s.store.messages m.id) ms
      → Deletes (length ms) s (delete_each cfg stops_in k ms s)
  unfolding delete_each
  delete_each-Deletes cfg stops_in k [] s valid all = record {
    removes = λ j. inl refl;
    valid = valid;
    few = omega arith;
    counted = omega arith;
  }
  delete_each-Deletes cfg stops_in k (m ∷ ms) s valid all =
      let s' = release_attachments cfg m s in
      let same : s'.store ≡ s.store = ground arith in
      let deletion = Write.hard_delete m.id s'.store in
      let s'' : Service = record s' { store = deletion.1 } in
      let first : Removes s.store.messages s''.store.messages =
        rw same (Removes-hard_delete m.id s.store all.0) in
      let valid' : IsValid s''.store.messages = rw same (hard_delete-IsValid s.store valid m.id) in
      let one : size s''.store.messages
            + count_deleted cfg deletion.0 (delete_each cfg stops_in (suc k) ms s'').0
          ≡ size s.store.messages + (delete_each cfg stops_in (suc k) ms s'').0 =
        hard_delete-counted cfg m.id s'.store (delete_each cfg stops_in (suc k) ms s'').0
          (rw same valid)
        ∙ ap (λ t. size t.messages + (delete_each cfg stops_in (suc k) ms s'').0) same in
      let rest =
        delete_each-Deletes cfg stops_in (suc k) ms s'' valid'
          (All-Removable s.store.messages s''.store.messages ms first all.1) in
      elim (Bool-cases (stops_in k)) [
        | inl stopped ↦ rw stopped (record {
          removes = λ j. inl refl;
          valid = valid;
          few = omega arith;
          counted = omega arith;
        })
        | inr going ↦ rw going (record {
          removes =
              Removes-trans s.store.messages s''.store.messages
                (delete_each cfg stops_in (suc k) ms s'').2.store.messages first rest.removes;
          valid = rest.valid;
          few = omega (
            arith,
            rest.few,
            count_deleted-few cfg deletion.0 (delete_each cfg stops_in (suc k) ms s'').0,
          );
          counted = omega (arith, rest.counted, one);
        })
      ]
