-- ===== src/Mailbox/Access/Pages.antt =====
-- What the loop of UpdateByFilter over pages does to the messages of other owners.
use mailbox.Prelude.{
  ℕ, zero, suc, ◌+◌, ◌||◌, String, ◌≡◌, Bool, true, not, Option, some, List, [], ◌∷◌, arith, eq_iff,
  All, length, eqb, ok, inl, inr, Bool-cases, Result-cases,
}
use mailbox.SyncMap.{SyncMap, load}
use mailbox.Store.{Time}
use mailbox.Store.Filter.{Filter}
use mailbox.Memory
use mailbox.Memory.{Message}
use mailbox.Memory.Matching.{matches_filters}
use mailbox.Memory.Write
use mailbox.Memory.Write.{with_read}
use mailbox.Memory.Invariant.{IsValid}
use mailbox.Memory.Invariant.Writes.{mark_read-IsValid}
use mailbox.Memory.Query.{find, is_listed}
use mailbox.Memory.Query.Listed.{Listed, find-Listed}
use mailbox.Mailbox.{Service, Config, UserMailbox}
use mailbox.Mailbox.Mutate.{
  scoped_filters, mark_page, update_pages, page_from, cursor_after, is_set,
}
use mailbox.Mailbox.Access.{Spares, Spares-same, Spares-trans}
use mailbox.Mailbox.Access.Effects.{SparesCall, Spares-edit}

module _ (cfg : Config) (u : UserMailbox) (filters : List Filter) where
  -- A message that the user owns stands under the identifier.
  abbrev Own : SyncMap Message → Message → Type 0
  Own ms m = (n : Message) × (load m.id ms ≡ some n) × (n.owner_id ≡ u.user_id)

  scoped-own :
      (now : Time) (m : Message)
      → is_listed (scoped_filters cfg u filters) now m ≡ true
      → m.owner_id ≡ u.user_id
  unfolding matches_filters
  scoped-own now m h = ground (arith, h, eq_iff m.owner_id u.user_id)

  All-Own :
      (s : Memory.Store) (now : Time) (page : List Message)
      → All (Listed s (scoped_filters cfg u filters) now) page
      → All (Own s.messages) page
  All-Own s now [] all = tt
  All-Own s now (m ∷ page) all = ((m, all.0.0, scoped-own now m all.0.1), All-Own s now page all.1)

  -- What a loop has done since the state `ms`
  pub record Marks (ms ms' : SyncMap Message) : Type 0 where
    pub spares : Spares u.user_id ms ms'
    pub valid : IsValid ms'

  mark_page-Marks :
      (ms : SyncMap Message) (read : Bool) (clock : ℕ → Time) (k : ℕ) (page : List Message)
      (st : Memory.Store)
      → All (Own ms) page
      → Marks ms st.messages
      → Marks ms (mark_page cfg u filters read clock k page st).1.messages
  unfolding mark_page Write.mark_read
  mark_page-Marks ms read clock k [] st own m = m
  mark_page-Marks ms read clock k (x ∷ page) st own m =
      let st' = (Write.mark_read x.id read (clock k) (clock k) st).1 in
      let (n, found, mine) = own.0 in
      let own' : (y : Message) → load x.id st.messages ≡ some y → y.owner_id ≡ u.user_id =
        λ y there. ground (
          arith,
          found,
          mine,
          there,
          m.spares x.id,
          eq_iff n.owner_id u.user_id,
          eq_iff y.owner_id u.user_id,
        ) in
      let step : Spares u.user_id st.messages st'.messages =
        Spares-edit u.user_id x.id st own' (ok tt) (with_read (clock k) read (clock k))
          (λ y y' e. ground arith) in
      mark_page-Marks ms read clock (suc k) page st' own.1 (record {
        spares = Spares-trans u.user_id ms st.messages st'.messages m.spares step;
        valid = mark_read-IsValid st m.valid x.id read (clock k) (clock k);
      })

  pub update_pages-Spares :
      (limit : ℕ) (clock : ℕ → ℕ → Time) (read : Option Bool) (pages n : ℕ) (cursor : String)
      (count : ℕ) (s : Service)
      → IsValid s.store.messages
      → SparesCall cfg u s (update_pages cfg u filters limit clock read pages n cursor count s).1
  unfolding update_pages
  update_pages-Spares limit clock read zero n cursor count s v =
      Spares-same u.user_id s.store.messages
  update_pages-Spares limit clock read (suc pages) n cursor count s v =
      let scoped = scoped_filters cfg u filters in
      let opts = page_from cfg u filters limit clock read cursor in
      elim (Result-cases (find s.store scoped opts (clock n 0))) [
        | inr (e, failed) ↦ rw (failed, update_pages) (Spares-same u.user_id s.store.messages)
        | inl (list, found) ↦
            let marked =
              mark_page cfg u filters (is_set cfg u filters read) (clock n) 1 list.messages
                s.store in
            let s' : Service = record s { store = marked.1 } in
            let marks : Marks s.store.messages s'.store.messages =
              mark_page-Marks s.store.messages (is_set cfg u filters read) (clock n) 1 list.messages
                s.store
                (All-Own s.store (clock n 0) list.messages
                  (find-Listed s.store scoped opts (clock n 0) list v found))
                (record { spares = Spares-same u.user_id s.store.messages; valid = v }) in
            let cursor' = cursor_after cfg u filters list.messages in
            let rest =
              update_pages cfg u filters limit clock read pages (suc n) cursor' (count + marked.0)
                s' in
            elim (Bool-cases (not list.has_more || eqb (length list.messages) 0)) [
              | inl over ↦ rw (found, update_pages, over) marks.spares
              | inr more ↦
                  rw (found, update_pages, more)
                    (Spares-trans u.user_id s.store.messages s'.store.messages rest.1.store.messages
                      marks.spares
                      (update_pages-Spares limit clock read pages (suc n) cursor' (count + marked.0)
                        s' marks.valid))
            ]
      ]
