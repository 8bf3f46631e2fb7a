-- ===== src/Mailbox/Bulk/Results.antt =====
-- What a bulk operation returns and leaves, against the operations one after the other.
use mailbox.Prelude.{
  ℕ, suc, zero, ◌+◌, String, ◌≡◌, refl, Bool, true, false, List, [], ◌∷◌, ◌++◌, arith, Result, ok,
  err, map, take, drop, length, leb, ltb, ap, sym, subst, ◌∙◌, Bool-cases, inl, inr, Option, none,
  some, is_ok,
}
use mailbox.Mailbox.{Service, UserMailbox, Handler, MailboxError, check_access}
use mailbox.Mailbox.Bulk.{
  ItemError, context_cancelled, operation_failed, OperationResult, success_count, failure_count,
  has_failures, cancelled_result, result_of, run_each, bulk_op,
}

-- The error that a caller reads of an item whose operation returned, and what the caller reads of
-- such an item, of one that was not reached, and of a whole list of those
abbrev pub reported_error : Result MailboxError (Unit {0}) → Option ItemError
reported_error (ok _) = none
reported_error (err e) = some (operation_failed e)

abbrev pub reported : String → Result MailboxError (Unit {0}) → OperationResult
reported id r = record { id = id; success = is_ok r; error = reported_error r }

abbrev pub unreached : List String → List OperationResult
unreached [] = []
unreached (id ∷ ids) =
    record { id = id; success = false; error = some context_cancelled } ∷ unreached ids

-- The operations one after the other, whatever the context says
abbrev pub run_all :
    (ℕ → String → Handler (Unit {0})) → ℕ → List String → Service → List OperationResult × Service
run_all op i [] s = ([], s)
run_all op i (id ∷ ids) s =
    let (r, s') = op i id s in
    let (rs, s'') = run_all op (suc i) ids s' in (reported id r ∷ rs, s'')

has_failures-count : (rs : List OperationResult) → has_failures rs ≡ ltb 0 (failure_count rs)
unfolding has_failures
has_failures-count [] = refl
has_failures-count (r ∷ rs) = ground (arith, has_failures-count rs)

counts_lem : (rs : List OperationResult) → success_count rs + failure_count rs ≡ length rs
counts_lem [] = refl
counts_lem (r ∷ rs) = ground (arith, counts_lem rs)

result_of-id : (id : String) (r : Result MailboxError (Unit {0})) → (result_of id r).id ≡ id
result_of-id id (ok a) = refl
result_of-id id (err e) = refl

result_of_lem : (id : String) (r : Result MailboxError (Unit {0})) → result_of id r ≡ reported id r
result_of_lem id (ok a) = refl
result_of_lem id (err e) = refl

map-cancelled_result : (ids : List String) → map cancelled_result ids ≡ unreached ids
map-cancelled_result [] = refl
map-cancelled_result (id ∷ ids) = ap (λ rest. cancelled_result id ∷ rest) (map-cancelled_result ids)

cancelled_result-ids : (ids : List String) → map (λ r. r.id) (map cancelled_result ids) ≡ ids
cancelled_result-ids [] = refl
cancelled_result-ids (id ∷ ids) = ap (λ rest. id ∷ rest) (cancelled_result-ids ids)

length-map :
    (f : OperationResult → String) (rs : List OperationResult) → length (map f rs) ≡ length rs
length-map f [] = refl
length-map f (r ∷ rs) = omega (arith, length-map f rs)

module _ (cancelled : ℕ → Bool) (op : ℕ → String → Handler (Unit {0})) where
  -- every item has its result, in order
  run_each-ids :
      (i : ℕ) (ids : List String) (s : Service)
      → map (λ r. r.id) (run_each cancelled op i ids s).0 ≡ ids
  unfolding run_each
  run_each-ids i [] s = refl
  run_each-ids i (id ∷ ids) s = elim (Bool-cases (cancelled i)) [
    | inl stop ↦ rw (stop, run_each, map) (cancelled_result-ids (id ∷ ids))
    | inr go ↦
        rw (go, result_of-id, run_each, map)
          (ap (λ rest. id ∷ rest) (run_each-ids (suc i) ids (op i id s).1))
  ]

  -- with the context cancelled from the item `k` on
  run_each-stops :
      (k i : ℕ) (ids : List String) (s : Service)
      → ((j : ℕ) → cancelled j ≡ leb (i + k) j)
      → run_each cancelled op i ids s
        ≡ (let (rs, s') = run_all op i (take k ids) s in (rs ++ unreached (drop k ids), s'))
  unfolding run_each
  run_each-stops zero i [] s h = refl
  run_each-stops zero i (id ∷ ids) s h =
      let stop : cancelled i ≡ true = ground (arith, h i) in
      rw (stop, run_each) (ap (λ rs. (rs, s)) (map-cancelled_result (id ∷ ids)))
  run_each-stops (suc k) i [] s h = refl
  run_each-stops (suc k) i (id ∷ ids) s h =
      let go : cancelled i ≡ false = ground (arith, h i) in
      rw (go, run_each, result_of_lem)
        (ap (λ r. (reported id (op i id s).0 ∷ r.0, r.1))
          (run_each-stops k (suc i) ids (op i id s).1 (λ j. ground (arith, h j))))

-- A bulk operation of a user who passes the checks, with a context that is cancelled before the item
-- `k` (and stays so), does exactly what the operations on the first `k` items do one after the other,
-- failures included; it returns their results in order, a success exactly for an operation that
-- succeeded and else its error, with the other items reported as cancelled, one result for each item. It counts as failed exactly when some item failed.
pub bulk_op_exact :
    (cancelled : ℕ → Bool) (op : ℕ → String → Handler (Unit {0})) (u : UserMailbox)
    (ids : List String) (k : ℕ) (s : Service)
    → ((j : ℕ) → cancelled j ≡ leb k j)
    → check_access u s ≡ ok tt
    → let (rs, s') = run_all op 0 (take k ids) s in
      let all = rs ++ unreached (drop k ids) in
      (bulk_op cancelled u op ids s
        ≡ (ok (record { results = all; failed = ltb 0 (failure_count all) }), s'))
      × (map (λ r. r.id) all ≡ ids)
      × (success_count all + failure_count all ≡ length ids)
unfolding bulk_op
bulk_op_exact cancelled op u ids k s sticky allowed =
    let all = (run_all op 0 (take k ids) s).0 ++ unreached (drop k ids) in
    let stops = run_each-stops cancelled op k 0 ids s (λ j. ground (arith, sticky j)) in
    let lined_up : map (λ r. r.id) all ≡ ids =
      subst (λ r. map (λ q. q.id) r.0 ≡ ids) stops (run_each-ids cancelled op 0 ids s) in
    (
      rw (allowed, stops, has_failures-count all) refl,
      lined_up,
      counts_lem all ∙ (sym (length-map (λ r. r.id) all) ∙ ap length lined_up),
    )
