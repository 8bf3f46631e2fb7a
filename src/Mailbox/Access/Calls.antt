-- ===== src/Mailbox/Access/Calls.antt =====
-- Every handler of a user's mailbox, by name, spares the messages of other owners.
use mailbox.Prelude.{
  ℕ, String, ◌≡◌, refl, Bool, true, false, not, Option, none, some, List, [], arith, ◌==◌, eq_iff,
  Result, ok, err, inl, inr, Bool-cases, ◌&&◌, ltb, Result-cases,
}
use mailbox.SyncMap.{load}
use mailbox.Store.{Error, Time, MoveOption, apply_move_options, folder_trash}
use mailbox.Store.Filter.{Filter}
use mailbox.Memory
use mailbox.Memory.{Message, find_message}
use mailbox.Memory.Write
use mailbox.Memory.Write.{with_read, with_folder, with_tag, without_tag, check_source, home_folder}
use mailbox.Memory.Bulk
use mailbox.Memory.Bulk.{set_read, set_folder, append_tag, drop_tag}
use mailbox.StatsCache.{Event, update_cached_stats}
use mailbox.Mailbox.{Service, Config, UserMailbox, MailboxError, check_access, get_and_verify}
use mailbox.Mailbox.Verified.{guard-ok, Verified, get_and_verify-Verified}
use mailbox.Mailbox.Mutate
use mailbox.Mailbox.Mutate.{
  Flags, verified, in_trash, check_folders, check_tag, archive_folder, current_folder, then_do,
  with_store, move_and_publish, update_archived, update_read, release, finish_marking,
  scoped_filters, bulk, is_none, all_read, return_count,
}
use mailbox.Mailbox.Runs.{
  verified-Verified, in_trash-Verified, tag_checks-Verified, move_checks-Verified,
}
use mailbox.Mailbox.Access.Effects.{
  Spares-edit, Spares-hard_delete, SparesCall, SparesCall-checked, SparesCall-publish,
  SparesCall-op, SparesCall-then, SparesCall-store, SparesCall-release,
}
use mailbox.Memory.Invariant.{IsValid}
use mailbox.Mailbox.Access.Pages.{update_pages-Spares}
use mailbox.Mailbox.Access.{
  Spares, Spares-same, Spares-trans, Spares-mark_entries, Spares-iterate_filtered,
}

-- The handlers of mutate.go
pub data Call : Type 0 where
  update_flags : String → Flags → Time → Time → Time → Call
  delete restore : String → Time → Call
  permanently_delete : String → Call
  move_to_folder : String → String → List MoveOption → Time → Call
  add_tag remove_tag : String → String → Time → Call
  mark_all_read : String → Time → Call
  update_by_filter : List Filter → ℕ → (ℕ → ℕ → Time) → Option Bool → Time → Time → ℕ → Call
  move_by_filter : List Filter → String → Time → Call
  delete_by_filter : List Filter → Time → Call
  tag_by_filter untag_by_filter : List Filter → String → Time → Call

module _ (cfg : Config) (u : UserMailbox) where
  -- The service after a call
  abbrev pub after_call : Call → Service → Service
  after_call (Call.update_flags id flags now later read_now) s =
      (Mutate.update_flags cfg u id flags now later read_now s).1
  after_call (Call.delete id t) s = (Mutate.delete cfg u id t s).1
  after_call (Call.restore id t) s = (Mutate.restore cfg u id t s).1
  after_call (Call.permanently_delete id) s = (Mutate.permanently_delete cfg u id s).1
  after_call (Call.move_to_folder id folder opts t) s =
      (Mutate.move_to_folder cfg u id folder opts t s).1
  after_call (Call.add_tag id tag t) s = (Mutate.add_tag cfg u id tag t s).1
  after_call (Call.remove_tag id tag t) s = (Mutate.remove_tag cfg u id tag t s).1
  after_call (Call.mark_all_read folder t) s = (Mutate.mark_all_read cfg u folder t s).1
  after_call (Call.update_by_filter fs limit clock read read_now t pages) s =
      (Mutate.update_by_filter cfg u fs limit clock read read_now t pages s).1
  after_call (Call.move_by_filter fs folder t) s = (Mutate.move_by_filter cfg u fs folder t s).1
  after_call (Call.delete_by_filter fs t) s = (Mutate.delete_by_filter cfg u fs t s).1
  after_call (Call.tag_by_filter fs tag t) s = (Mutate.tag_by_filter cfg u fs tag t s).1
  after_call (Call.untag_by_filter fs tag t) s = (Mutate.untag_by_filter cfg u fs tag t s).1

module _ (cfg : Config) (u : UserMailbox) (s : Service) (id : String) (m : Message)
    (v : Verified u s id m) where
  owner_lem : (n : Message) → load id s.store.messages ≡ some n → n.owner_id ≡ u.user_id
  owner_lem n there = ground (arith, v.found, v.own)

  later_owner_lem :
      (s' : Service)
      → SparesCall cfg u s s'
      → (n : Message) → load id s'.store.messages ≡ some n
      → n.owner_id ≡ u.user_id
  later_owner_lem s' h n there =
      ground (
        arith,
        v.found,
        v.own,
        there,
        h id,
        eq_iff m.owner_id u.user_id,
        eq_iff n.owner_id u.user_id,
      )

  SparesCall-update_read :
      (read : Option Bool) (folder : String) (t read_now : Time) (s' : Service)
      → SparesCall cfg u s s'
      → SparesCall cfg u s (update_read cfg u id read folder t read_now s').1
  unfolding Write.mark_read
  SparesCall-update_read none folder t read_now s' h = h
  SparesCall-update_read (some true) folder t read_now s' h =
      Spares-trans u.user_id s.store.messages s'.store.messages _ h (
        SparesCall-op cfg u s' (Event.message_read u.user_id folder)
          (Write.mark_read id true t read_now)
          (Spares-edit u.user_id id s'.store (later_owner_lem s' h) (ok tt)
            (with_read t true read_now) (λ n n' e. ground arith)))
  SparesCall-update_read (some false) folder t read_now s' h =
      Spares-trans u.user_id s.store.messages s'.store.messages _ h (
        Spares-edit u.user_id id s'.store (later_owner_lem s' h) (ok tt)
          (with_read t false read_now) (λ n n' e. ground arith))

  SparesCall-move :
      (from to : String) (was_unread : Bool) (opts : List MoveOption) (t : Time)
      → SparesCall cfg u s (move_and_publish cfg u id from to was_unread opts t s).1
  unfolding Write.move_to_folder
  SparesCall-move from to was_unread opts t = elim (Bool-cases (from == to)) [
    | inl same ↦ rw same (Spares-same u.user_id s.store.messages)
    | inr apart ↦ rw apart (
        SparesCall-op cfg u s (Event.message_moved u.user_id from to was_unread)
          (Write.move_to_folder id to opts t)
          (Spares-edit u.user_id id s.store owner_lem (check_source (apply_move_options opts))
            (with_folder t (apply_move_options opts) to) (λ n n' e. ground arith)))
  ]

  SparesCall-archived :
      (archived : Option Bool) (t : Time)
      → SparesCall cfg u s (update_archived cfg u id archived m t s).1
  SparesCall-archived none t = Spares-same u.user_id s.store.messages
  SparesCall-archived (some archived) t =
      SparesCall-move m.folder_id (archive_folder archived m) (not m.is_read) [] t

module _ (cfg : Config) (u : UserMailbox) (s : Service) where
  bulk-SparesCall :
      (fs : List Filter) (op : String → List Filter → Memory.Handler ℕ)
      → Spares u.user_id s.store.messages
          (op u.user_id (scoped_filters cfg u fs) s.store).1.messages
      → SparesCall cfg u s (bulk cfg u fs op s).1
  bulk-SparesCall fs op h =
      SparesCall-checked cfg u s (check_access u s) _
        λ _ _. SparesCall-store cfg u s (op u.user_id (scoped_filters cfg u fs) s.store) h

  return_count-SparesCall :
      (n : ℕ) (r : Result MailboxError (Unit {0}) × Service)
      → SparesCall cfg u s r.1
      → SparesCall cfg u s (return_count n r).1
  return_count-SparesCall n (ok a, s') h = h
  return_count-SparesCall n (err e, s') h = h

  finish_marking-SparesCall :
      (folder : String) (r : Result Error ℕ × Memory.Store)
      → Spares u.user_id s.store.messages r.1.messages
      → SparesCall cfg u s (finish_marking cfg u folder r s).1
  finish_marking-SparesCall folder (ok n, st) h = elim (Bool-cases (ltb 0 n)) [
    | inl some_read ↦ rw some_read (
        return_count-SparesCall n _ (
          SparesCall-publish cfg u s (Event.mark_all_read u.user_id folder n)
            (record s {
              store = st;
              cache = update_cached_stats u.user_id (all_read folder n) s.cache;
            })
            h))
    | inr none_read ↦ rw none_read h
  ]
  finish_marking-SparesCall folder (err e, st) h = h

  mark_all_read-Spares :
      (folder : String) (t : Time)
      → Spares u.user_id s.store.messages
          (Write.mark_all_read u.user_id folder t s.store).1.messages
  unfolding Write.mark_all_read
  mark_all_read-Spares folder t = elim (Bool-cases s.store.connected) [
    | inl up ↦ rw up (Spares-mark_entries u.user_id folder t s.store.messages s.store.messages)
    | inr down ↦ rw down (Spares-same u.user_id s.store.messages)
  ]

  scoped-Spares :
      (fs : List Filter) (t : Time) (fn : Message → Message)
      → ((m : Message) → (fn m).owner_id ≡ m.owner_id)
      → Spares u.user_id s.store.messages
          (Bulk.iterate_filtered u.user_id (scoped_filters cfg u fs) t fn s.store).1.messages
  scoped-Spares fs t fn keeps =
      Spares-iterate_filtered u.user_id (scoped_filters cfg u fs) t fn keeps s.store

  -- What a call asks of the backend: that it is valid, if the call reads pages from it
  abbrev pub Needs : Call → Type 0
  Needs (Call.update_by_filter fs limit clock read read_now t pages) = IsValid s.store.messages
  Needs _ = Unit

  pub call-Spares : (c : Call) → Needs c → SparesCall cfg u s (after_call cfg u c s)
  unfolding Mutate.update_flags Mutate.delete Mutate.restore Mutate.permanently_delete
      Mutate.move_to_folder Mutate.add_tag Mutate.remove_tag Mutate.mark_all_read
      Mutate.update_by_filter Mutate.move_by_filter Mutate.delete_by_filter Mutate.tag_by_filter
      Mutate.untag_by_filter Bulk.mark_read_by_filter Bulk.move_by_filter Bulk.delete_by_filter
      Bulk.add_tag_by_filter Bulk.remove_tag_by_filter Write.add_tag Write.remove_tag
  call-Spares (Call.update_flags id flags now later read_now) _ =
      SparesCall-checked cfg u s (check_access u s) _ λ _ _.
        elim (Bool-cases (is_none flags.read && is_none flags.archived)) [
          | inl neither ↦ rw neither (Spares-same u.user_id s.store.messages)
          | inr one ↦ rw one (
              SparesCall-checked cfg u s (get_and_verify u s id) _ λ m e.
                let v = get_and_verify-Verified u s id m e in
                SparesCall-then cfg u s _ _ (SparesCall-archived cfg u s id m v flags.archived now)
                  (SparesCall-update_read cfg u s id m v flags.read
                    (current_folder cfg u flags.archived m) later read_now))
        ]
  call-Spares (Call.delete id t) _ = SparesCall-checked cfg u s _ _ λ m e.
      let (good, _) =
        guard-ok (verified cfg u s id) (λ n. n.folder_id == folder_trash)
          MailboxError.already_in_trash m e in
      SparesCall-move cfg u s id m (verified-Verified cfg u s id m good) m.folder_id folder_trash
        (not m.is_read) [] t
  call-Spares (Call.restore id t) _ = SparesCall-checked cfg u s _ _ λ m e.
      SparesCall-move cfg u s id m (in_trash-Verified cfg u s id m e).0 folder_trash (home_folder m)
        (not m.is_read) [] t
  call-Spares (Call.permanently_delete id) _ = SparesCall-checked cfg u s _ _ λ m e.
      let v = (in_trash-Verified cfg u s id m e).0 in
      SparesCall-then cfg u s _ _
        (SparesCall-op cfg u s (Event.message_deleted u.user_id m.folder_id (not m.is_read))
          (Write.hard_delete id)
          (Spares-hard_delete u.user_id id s.store (owner_lem cfg u s id m v)))
        (SparesCall-release cfg u s m)
  call-Spares (Call.move_to_folder id folder opts t) _ = SparesCall-checked cfg u s _ _ λ m e.
      SparesCall-move cfg u s id m (move_checks-Verified cfg u s id m folder opts e) m.folder_id
        folder (not m.is_read) opts t
  call-Spares (Call.add_tag id tag t) _ = SparesCall-checked cfg u s _ _ λ m e.
      SparesCall-store cfg u s (Write.add_tag id tag t s.store) (
        Spares-edit u.user_id id s.store
          (owner_lem cfg u s id m (tag_checks-Verified u s id m tag e)) (ok tt) (with_tag t tag)
          (λ n n' e. ground arith))
  call-Spares (Call.remove_tag id tag t) _ = SparesCall-checked cfg u s _ _ λ m e.
      SparesCall-store cfg u s (Write.remove_tag id tag t s.store) (
        Spares-edit u.user_id id s.store
          (owner_lem cfg u s id m (tag_checks-Verified u s id m tag e)) (ok tt) (without_tag t tag)
          (λ n n' e. ground arith))
  call-Spares (Call.mark_all_read folder t) _ =
      SparesCall-checked cfg u s (check_access u s)
        (λ _ s. finish_marking cfg u folder (Write.mark_all_read u.user_id folder t s.store) s)
        λ _ _.
          finish_marking-SparesCall folder (Write.mark_all_read u.user_id folder t s.store)
            (mark_all_read-Spares folder t)
  call-Spares (Call.update_by_filter fs limit clock (some read) read_now t pages) v =
      elim (Result-cases (check_access u s)) [
        | inr (e, denied) ↦ rw (denied, after_call) (Spares-same u.user_id s.store.messages)
        | inl (a, allowed) ↦
            rw (allowed, after_call)
              (SparesCall-store cfg u s
                (Bulk.mark_read_by_filter u.user_id (scoped_filters cfg u fs) read read_now t
                  s.store)
                (scoped-Spares fs t (set_read read read_now) (λ m. refl)))
      ]
  call-Spares (Call.update_by_filter fs limit clock none read_now t pages) v =
      elim (Result-cases (check_access u s)) [
        | inr (e, denied) ↦ rw (denied, after_call) (Spares-same u.user_id s.store.messages)
        | inl (a, allowed) ↦
            rw (allowed, after_call)
              (update_pages-Spares cfg u fs limit clock none pages 0 "" 0 s v)
      ]
  call-Spares (Call.move_by_filter fs folder t) _ =
      bulk-SparesCall fs (λ o gs. Bulk.move_by_filter o gs folder t)
        (scoped-Spares fs t (set_folder folder) (λ m. refl))
  call-Spares (Call.delete_by_filter fs t) _ =
      bulk-SparesCall fs (λ o gs. Bulk.delete_by_filter o gs t)
        (scoped-Spares fs t (set_folder folder_trash) (λ m. refl))
  call-Spares (Call.tag_by_filter fs tag t) _ =
      bulk-SparesCall fs (λ o gs. Bulk.add_tag_by_filter o gs tag t)
        (scoped-Spares fs t (append_tag tag) (λ m. ground arith))
  call-Spares (Call.untag_by_filter fs tag t) _ =
      bulk-SparesCall fs (λ o gs. Bulk.remove_tag_by_filter o gs tag t)
        (scoped-Spares fs t (drop_tag tag) (λ m. refl))

  -- Whatever handler of mutate.go a user calls on a valid backend, and whether it succeeds or fails, the
  -- messages of all other owners are afterwards the same: none is changed, none is gone and none is
  -- new. UpdateByFilter without a read flag goes page by page, and this holds after any number of its
  -- pages.
  pub after_call-Spares :
      IsValid s.store.messages → (c : Call) → SparesCall cfg u s (after_call cfg u c s)
  after_call-Spares v (Call.update_flags id flags now later read_now) =
      call-Spares (Call.update_flags id flags now later read_now) tt
  after_call-Spares v (Call.delete id t) = call-Spares (Call.delete id t) tt
  after_call-Spares v (Call.restore id t) = call-Spares (Call.restore id t) tt
  after_call-Spares v (Call.permanently_delete id) = call-Spares (Call.permanently_delete id) tt
  after_call-Spares v (Call.move_to_folder id folder opts t) =
      call-Spares (Call.move_to_folder id folder opts t) tt
  after_call-Spares v (Call.add_tag id tag t) = call-Spares (Call.add_tag id tag t) tt
  after_call-Spares v (Call.remove_tag id tag t) = call-Spares (Call.remove_tag id tag t) tt
  after_call-Spares v (Call.mark_all_read folder t) = call-Spares (Call.mark_all_read folder t) tt
  after_call-Spares v (Call.update_by_filter fs limit clock read read_now t pages) =
      call-Spares (Call.update_by_filter fs limit clock read read_now t pages) v
  after_call-Spares v (Call.move_by_filter fs folder t) =
      call-Spares (Call.move_by_filter fs folder t) tt
  after_call-Spares v (Call.delete_by_filter fs t) = call-Spares (Call.delete_by_filter fs t) tt
  after_call-Spares v (Call.tag_by_filter fs tag t) = call-Spares (Call.tag_by_filter fs tag t) tt
  after_call-Spares v (Call.untag_by_filter fs tag t) =
      call-Spares (Call.untag_by_filter fs tag t) tt
