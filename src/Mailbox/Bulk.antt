-- ===== src/Mailbox/Bulk.antt =====
-- bulk.go: an operation on several messages, with a result for each. `cancelled` says what the context
-- answers before each item, and an operation is given the position of its item, on which its reading
-- of the clock depends; the errors are told apart only as far as the handlers tell them.
pub mod Results
pub mod Access
use mailbox.Prelude.{
  ℕ, suc, zero, String, Bool, true, false, not, Option, none, some, List, [], ◌∷◌, Result, ok, err,
  map, count, if◌then◌else◌,
}
use mailbox.Store.{Time, MoveOption}
use mailbox.Mailbox.{Service, Config, UserMailbox, Handler, MailboxError, check_access, checked}
use mailbox.Mailbox.Mutate
use mailbox.Mailbox.Mutate.{Flags}

-- The error of an item: that of the context, or that of the handler
pub data ItemError : Type 0 where
  context_cancelled : ItemError
  operation_failed : MailboxError → ItemError

pub record OperationResult : Type 0 where
  pub id : String
  pub success : Bool
  pub error : Option ItemError

-- What the bulk operations return: BulkResult, and whether its Err is not nil
pub record BulkResult : Type 0 where
  pub results : List OperationResult
  pub failed : Bool

-- SuccessCount, FailureCount
abbrev pub success_count : List OperationResult → ℕ
success_count rs = count (λ r. r.success) rs

abbrev pub failure_count : List OperationResult → ℕ
failure_count rs = count (λ r. not r.success) rs

-- HasFailures
unfoldable pub has_failures : List OperationResult → Bool
has_failures [] = false
has_failures (r ∷ rs) = let rest = has_failures rs in if r.success then rest else true

-- FailedIDs, SuccessfulIDs
unfoldable pub failed_ids : List OperationResult → List String
failed_ids [] = []
failed_ids (r ∷ rs) = let rest = failed_ids rs in if r.success then rest else r.id ∷ rest

unfoldable pub successful_ids : List OperationResult → List String
successful_ids [] = []
successful_ids (r ∷ rs) = let rest = successful_ids rs in if r.success then r.id ∷ rest else rest

abbrev pub cancelled_result : String → OperationResult
cancelled_result id = record { id = id; success = false; error = some context_cancelled }

abbrev pub result_of : String → Result MailboxError (Unit {0}) → OperationResult
result_of id (ok _) = record { id = id; success = true; error = none }
result_of id (err e) = record { id = id; success = false; error = some (operation_failed e) }

-- The loop of bulkOp
unfoldable pub run_each :
    (ℕ → Bool)
    → (ℕ → String → Handler (Unit {0}))
    → ℕ
    → List String
    → Service
    → List OperationResult × Service
run_each cancelled op i [] s = ([], s)
run_each cancelled op i (id ∷ ids) s = elim (cancelled i) [
  | true ↦ (map cancelled_result (id ∷ ids), s)
  | false ↦
      let (r, s') = op i id s in
      let (rs, s'') = run_each cancelled op (suc i) ids s' in (result_of id r ∷ rs, s'')
]

abbrev finish : List OperationResult × Service → Result MailboxError BulkResult × Service
finish (rs, s) = (ok (record { results = rs; failed = has_failures rs }), s)

-- bulkOp
unfoldable pub bulk_op :
    (ℕ → Bool) → UserMailbox → (ℕ → String → Handler (Unit {0})) → List String → Handler BulkResult
unfolding run_each has_failures
bulk_op cancelled u op ids s =
    checked s (check_access u s) λ _ s. finish (run_each cancelled op 0 ids s)

module _ (cancelled : ℕ → Bool) (cfg : Config) (u : UserMailbox) (ids : List String) where
  -- BulkUpdateFlags
  unfoldable pub bulk_update_flags :
      Flags → (ℕ → Time) → (ℕ → Time) → (ℕ → Time) → Handler BulkResult
  unfolding bulk_op Mutate.update_flags
  bulk_update_flags flags now later read_now =
      bulk_op cancelled u
        (λ i id. Mutate.update_flags cfg u id flags (now i) (later i) (read_now i)) ids

  -- BulkMove
  unfoldable pub bulk_move : String → List MoveOption → (ℕ → Time) → Handler BulkResult
  unfolding bulk_op Mutate.move_to_folder
  bulk_move folder_id opts now =
      bulk_op cancelled u (λ i id. Mutate.move_to_folder cfg u id folder_id opts (now i)) ids

  -- BulkDelete
  unfoldable pub bulk_delete : (ℕ → Time) → Handler BulkResult
  unfolding bulk_op Mutate.delete
  bulk_delete now = bulk_op cancelled u (λ i id. Mutate.delete cfg u id (now i)) ids

  -- BulkPermanentlyDelete
  unfoldable pub bulk_permanently_delete : Handler BulkResult
  unfolding bulk_op Mutate.permanently_delete
  bulk_permanently_delete = bulk_op cancelled u (λ i id. Mutate.permanently_delete cfg u id) ids

  -- BulkAddTag
  unfoldable pub bulk_add_tag : String → (ℕ → Time) → Handler BulkResult
  unfolding bulk_op Mutate.add_tag
  bulk_add_tag tag_id now = bulk_op cancelled u (λ i id. Mutate.add_tag cfg u id tag_id (now i)) ids

  -- BulkRemoveTag
  unfoldable pub bulk_remove_tag : String → (ℕ → Time) → Handler BulkResult
  unfolding bulk_op Mutate.remove_tag
  bulk_remove_tag tag_id now =
      bulk_op cancelled u (λ i id. Mutate.remove_tag cfg u id tag_id (now i)) ids
