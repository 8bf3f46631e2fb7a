-- ===== src/Mailbox/Bulk/Access.antt =====
-- The bulk operations, too, spare the messages of other owners.
use mailbox.Prelude.{ℕ, suc, String, Bool, List, [], ◌∷◌, Bool-cases, inl, inr}
use mailbox.Store.{Time, MoveOption}
use mailbox.Mailbox.{Service, Config, UserMailbox, Handler, check_access}
use mailbox.Mailbox.Mutate.{Flags}
use mailbox.Mailbox.Access.{Spares-same, Spares-trans}
use mailbox.Mailbox.Access.Effects.{SparesCall, SparesCall-checked}
use mailbox.Mailbox.Access.Calls.{Call, call-Spares}
use mailbox.Mailbox.Bulk
use mailbox.Mailbox.Bulk.{BulkResult, run_each, bulk_op}

-- The bulk operations of bulk.go
pub data BulkCall : Type 0 where
  update_flags : Flags → (ℕ → Time) → (ℕ → Time) → (ℕ → Time) → BulkCall
  move : String → List MoveOption → (ℕ → Time) → BulkCall
  delete : (ℕ → Time) → BulkCall
  permanently_delete : BulkCall
  add_tag remove_tag : String → (ℕ → Time) → BulkCall

module _ (cancelled : ℕ → Bool) (cfg : Config) (u : UserMailbox) (ids : List String) where
  abbrev pub apply_bulk : BulkCall → Handler BulkResult
  apply_bulk (BulkCall.update_flags flags now later read_now) =
      Bulk.bulk_update_flags cancelled cfg u ids flags now later read_now
  apply_bulk (BulkCall.move folder opts now) = Bulk.bulk_move cancelled cfg u ids folder opts now
  apply_bulk (BulkCall.delete now) = Bulk.bulk_delete cancelled cfg u ids now
  apply_bulk BulkCall.permanently_delete = Bulk.bulk_permanently_delete cancelled cfg u ids
  apply_bulk (BulkCall.add_tag tag now) = Bulk.bulk_add_tag cancelled cfg u ids tag now
  apply_bulk (BulkCall.remove_tag tag now) = Bulk.bulk_remove_tag cancelled cfg u ids tag now

module _ (cancelled : ℕ → Bool) (cfg : Config) (u : UserMailbox)
    (op : ℕ → String → Handler (Unit {0}))
    (spares : (i : ℕ) (id : String) (s : Service) → SparesCall cfg u s (op i id s).1) where
  run_each-SparesCall :
      (i : ℕ) (ids : List String) (s : Service)
      → SparesCall cfg u s (run_each cancelled op i ids s).1
  unfolding run_each
  run_each-SparesCall i [] s = Spares-same u.user_id s.store.messages
  run_each-SparesCall i (id ∷ ids) s = elim (Bool-cases (cancelled i)) [
    | inl stop ↦ rw (stop, run_each) (Spares-same u.user_id s.store.messages)
    | inr go ↦
        let s' = (op i id s).1 in
        rw (go, run_each)
          (Spares-trans u.user_id s.store.messages s'.store.messages
            (run_each cancelled op (suc i) ids s').1.store.messages (spares i id s)
            (run_each-SparesCall (suc i) ids s'))
  ]

  bulk_op-SparesCall :
      (ids : List String) (s : Service) → SparesCall cfg u s (bulk_op cancelled u op ids s).1
  unfolding bulk_op
  bulk_op-SparesCall ids s =
      SparesCall-checked cfg u s (check_access u s) _ λ _ _. run_each-SparesCall 0 ids s

module _ (cancelled : ℕ → Bool) (cfg : Config) (u : UserMailbox) (ids : List String)
    (s : Service) where
  -- Whatever bulk operation a user calls, on whatever identifiers, and wherever its context is
  -- cancelled, the messages of all other owners are afterwards the same.
  pub apply_bulk-Spares : (c : BulkCall) → SparesCall cfg u s (apply_bulk cancelled cfg u ids c s).1
  unfolding Bulk.bulk_update_flags Bulk.bulk_move Bulk.bulk_delete Bulk.bulk_permanently_delete
      Bulk.bulk_add_tag Bulk.bulk_remove_tag
  apply_bulk-Spares (BulkCall.update_flags flags now later read_now) =
      bulk_op-SparesCall cancelled cfg u _
        (λ i id s.
          call-Spares cfg u s (Call.update_flags id flags (now i) (later i) (read_now i)) tt)
        ids s
  apply_bulk-Spares (BulkCall.move folder opts now) =
      bulk_op-SparesCall cancelled cfg u _
        (λ i id s. call-Spares cfg u s (Call.move_to_folder id folder opts (now i)) tt) ids s
  apply_bulk-Spares (BulkCall.delete now) =
      bulk_op-SparesCall cancelled cfg u _
        (λ i id s. call-Spares cfg u s (Call.delete id (now i)) tt) ids s
  apply_bulk-Spares BulkCall.permanently_delete =
      bulk_op-SparesCall cancelled cfg u _
        (λ i id s. call-Spares cfg u s (Call.permanently_delete id) tt) ids s
  apply_bulk-Spares (BulkCall.add_tag tag now) =
      bulk_op-SparesCall cancelled cfg u _
        (λ i id s. call-Spares cfg u s (Call.add_tag id tag (now i)) tt) ids s
  apply_bulk-Spares (BulkCall.remove_tag tag now) =
      bulk_op-SparesCall cancelled cfg u _
        (λ i id s. call-Spares cfg u s (Call.remove_tag id tag (now i)) tt) ids s
