-- ===== src/Mailbox/Runs.antt =====
-- Calls of a user's mailbox and the handlers of the events that they publish, in any interleaving.
use mailbox.Prelude.{
  String, ◌≡◌, refl, Bool, true, false, not, none, some, List, [], ◌∷◌, arith, ◌==◌, eq_iff, ok,
  ◌>>◌, Bool-cases, inl, inr,
}
use mailbox.Store.{Time, MoveOption, folder_trash, is_valid_folder_id, is_sent_by_owner}
use mailbox.Memory.{Message}
use mailbox.Memory.Write.{home_folder}
use mailbox.StatsCache.{Event, handle}
use mailbox.Mailbox.{
  MailboxError, Service, Config, UserMailbox, Handler, deliver, get_and_verify, check_access,
}
use mailbox.Mailbox.Verified.{Verified, get_and_verify-Verified, then-ok, guard-ok}
use mailbox.Mailbox.Mutate
use mailbox.Mailbox.Mutate.{
  Flags, verified, in_trash, check_folders, check_tag, archive_folder, current_folder,
  update_archived,
}
use mailbox.Mailbox.Settling.{
  Right, Right-move, Right-hard_delete, Tagged-Right, Right-checked, Right-then, Right-release,
  Tagged-add, Tagged-remove,
}

-- The handlers of the mailbox that change one message, without the read flag
pub data Mutation : Type 0 where
  set_archived : String → Bool → Time → Mutation
  delete restore : String → Time → Mutation
  permanently_delete : String → Mutation
  move_to_folder : String → String → List MoveOption → Time → Mutation
  add_tag remove_tag : String → String → Time → Mutation

-- A call, or the handler of the event that was published first and not handled yet
pub data Action : Type 0 where
  call : Mutation → Action
  handle_next : Action

module _ (cfg : Config) (u : UserMailbox) where
  abbrev pub apply : Mutation → Handler (Unit {0})
  apply (Mutation.set_archived id archived t) =
      Mutate.update_flags cfg u id (record { read = none; archived = some archived }) t t t
  apply (Mutation.delete id t) = Mutate.delete cfg u id t
  apply (Mutation.restore id t) = Mutate.restore cfg u id t
  apply (Mutation.permanently_delete id) = Mutate.permanently_delete cfg u id
  apply (Mutation.move_to_folder id folder opts t) = Mutate.move_to_folder cfg u id folder opts t
  apply (Mutation.add_tag id tag t) = Mutate.add_tag cfg u id tag t
  apply (Mutation.remove_tag id tag t) = Mutate.remove_tag cfg u id tag t

  abbrev pub take_event : List Event → Service → Service
  take_event [] s = s
  take_event (ev ∷ evs) s = record s { cache = (handle ev s.cache).0; published = evs }

  abbrev pub act : Action → Service → Service
  act (Action.call op) s = (apply op s).1
  act Action.handle_next s = take_event s.published s

  pub run : List Action → Service → Service
  run [] s = s
  run (a ∷ rest) s = run rest (act a s)

pub tag_checks-Verified :
    (u : UserMailbox) (s : Service) (id : String) (m : Message) (tag : String)
    → (do check_access u s; check_tag tag; get_and_verify u s id) ≡ ok m
    → Verified u s id m
tag_checks-Verified u s id m tag h =
    let checks = then-ok (check_access u s) (do check_tag tag; get_and_verify u s id) m h in
    get_and_verify-Verified u s id m (then-ok (check_tag tag) (get_and_verify u s id) m checks)

module _ (cfg : Config) (u : UserMailbox) (s : Service) (id : String) (m : Message) where
  pub verified-Verified : verified cfg u s id ≡ ok m → Verified u s id m
  verified-Verified h =
      get_and_verify-Verified u s id m (then-ok (check_access u s) (get_and_verify u s id) m h)

  pub in_trash-Verified :
      in_trash cfg u s id ≡ ok m → Verified u s id m × (m.folder_id ≡ folder_trash)
  in_trash-Verified h =
      let (e, t) =
        guard-ok (verified cfg u s id) (λ n. not (n.folder_id == folder_trash))
          MailboxError.not_in_trash m h in
      (verified-Verified e, ground (arith, eq_iff m.folder_id folder_trash))

  pub move_checks-Verified :
      (folder : String) (opts : List MoveOption)
      → (do check_access u s; check_folders cfg u folder opts; get_and_verify u s id) ≡ ok m
      → Verified u s id m
  move_checks-Verified folder opts h =
      let checks =
        then-ok (check_access u s) (do check_folders cfg u folder opts; get_and_verify u s id) m
          h in
      get_and_verify-Verified u s id m
        (then-ok (check_folders cfg u folder opts) (get_and_verify u s id) m checks)

valid_folder-named : (f : String) → is_valid_folder_id f ≡ true → (f == "") ≡ false
unfolding is_valid_folder_id
valid_folder-named f h = ground arith

home_folder-named : (m : Message) → (home_folder m == "") ≡ false
home_folder-named m = elim (Bool-cases (is_sent_by_owner m.owner_id m.sender_id)) [
  | inl sent ↦ rw sent refl
  | inr received ↦ rw received refl
]

archive_folder-named : (b : Bool) (m : Message) → (archive_folder b m == "") ≡ false
archive_folder-named true m = refl
archive_folder-named false m = home_folder-named m

module _ (cfg : Config) (u : UserMailbox) (now : Time)
    (accepts : (ev : Event) → cfg.accepts ev ≡ true) (s : Service) (h : Right u now s) where
  Right-set_archived :
      (id : String) (archived : Bool) (t : Time)
      → Right u now (apply cfg u (Mutation.set_archived id archived t) s).1
  unfolding Mutate.update_flags
  Right-set_archived id archived t = Right-checked cfg u now accepts s h (check_access u s) _ λ _ _.
      Right-checked cfg u now accepts s h (get_and_verify u s id) _ λ m e.
        Right-then cfg u now accepts _ _
          (Right-move cfg u now accepts s h id m (get_and_verify-Verified u s id m e) m.folder_id
            (archive_folder archived m) [] t refl (archive_folder-named archived m))
          (λ s' h'. h')

  Right-delete : (id : String) (t : Time) → Right u now (Mutate.delete cfg u id t s).1
  unfolding Mutate.delete
  Right-delete id t = Right-checked cfg u now accepts s h _ _ λ m e.
      let (good, _) =
        guard-ok (verified cfg u s id) (λ n. n.folder_id == folder_trash)
          MailboxError.already_in_trash m e in
      Right-move cfg u now accepts s h id m (verified-Verified cfg u s id m good) m.folder_id
        folder_trash [] t refl refl

  Right-restore : (id : String) (t : Time) → Right u now (Mutate.restore cfg u id t s).1
  unfolding Mutate.restore
  Right-restore id t = Right-checked cfg u now accepts s h (in_trash cfg u s id) _ λ m e.
      let (v, trash) = in_trash-Verified cfg u s id m e in
      Right-move cfg u now accepts s h id m v folder_trash (home_folder m) [] t trash
        (home_folder-named m)

  Right-permanently_delete : (id : String) → Right u now (Mutate.permanently_delete cfg u id s).1
  unfolding Mutate.permanently_delete
  Right-permanently_delete id = Right-checked cfg u now accepts s h (in_trash cfg u s id) _ λ m e.
      Right-then cfg u now accepts _ _
        (Right-hard_delete cfg u now accepts s h id m (in_trash-Verified cfg u s id m e).0)
        (Right-release cfg u now accepts m)

  Right-move_to_folder :
      (id folder : String) (opts : List MoveOption) (t : Time)
      → Right u now (Mutate.move_to_folder cfg u id folder opts t s).1
  unfolding Mutate.move_to_folder
  Right-move_to_folder id folder opts t = Right-checked cfg u now accepts s h _ _ λ m e.
      let v = move_checks-Verified cfg u s id m folder opts e in
      Right-move cfg u now accepts s h id m v m.folder_id folder opts t refl
        (valid_folder-named folder (ground arith))

  Right-add_tag : (id tag : String) (t : Time) → Right u now (Mutate.add_tag cfg u id tag t s).1
  unfolding Mutate.add_tag
  Right-add_tag id tag t = Right-checked cfg u now accepts s h _ _ λ m e.
      let v = tag_checks-Verified u s id m tag e in
      Tagged-Right cfg u now accepts s h id m v _ (Tagged-add s.store id m v.found tag t)

  Right-remove_tag :
      (id tag : String) (t : Time) → Right u now (Mutate.remove_tag cfg u id tag t s).1
  unfolding Mutate.remove_tag
  Right-remove_tag id tag t = Right-checked cfg u now accepts s h _ _ λ m e.
      let v = tag_checks-Verified u s id m tag e in
      Tagged-Right cfg u now accepts s h id m v _ (Tagged-remove s.store id m v.found tag t)

module _ (cfg : Config) (u : UserMailbox) (now : Time)
    (accepts : (ev : Event) → cfg.accepts ev ≡ true) where
  Right-apply : (op : Mutation) (s : Service) → Right u now s → Right u now (apply cfg u op s).1
  Right-apply (Mutation.set_archived id a t) s h = Right-set_archived cfg u now accepts s h id a t
  Right-apply (Mutation.delete id t) s h = Right-delete cfg u now accepts s h id t
  Right-apply (Mutation.restore id t) s h = Right-restore cfg u now accepts s h id t
  Right-apply (Mutation.permanently_delete id) s h =
      Right-permanently_delete cfg u now accepts s h id
  Right-apply (Mutation.move_to_folder id f opts t) s h =
      Right-move_to_folder cfg u now accepts s h id f opts t
  Right-apply (Mutation.add_tag id tag t) s h = Right-add_tag cfg u now accepts s h id tag t
  Right-apply (Mutation.remove_tag id tag t) s h = Right-remove_tag cfg u now accepts s h id tag t

  take_event-Right :
      (evs : List Event) (s : Service)
      → s.published ≡ evs
      → Right u now s
      → Right u now (take_event cfg u evs s)
  unfolding deliver
  take_event-Right [] s e h = h
  take_event-Right (ev ∷ evs) s e h = ground (arith, e, h)

  Right-act : (a : Action) (s : Service) → Right u now s → Right u now (act cfg u a s)
  unfolding deliver
  Right-act (Action.call op) s h = Right-apply op s h
  Right-act Action.handle_next s h = take_event-Right s.published s refl h

  -- Over any interleaving of the calls of a user with the handlers of the events that they publish, the
  -- cached statistics stay right: once the events that wait are handled, they are the numbers of
  -- the user's messages and unread ones, in all and in each folder. The calls are the ones that move,
  -- archive, delete or tag one message, failures included. The bus accepts every event, and at the
  -- start the statistics are right and the messages are all available and in a folder.
  pub run-Right :
      (actions : List Action) (s : Service) → Right u now s → Right u now (run cfg u actions s)
  unfolding run
  run-Right [] s h = h
  run-Right (a ∷ rest) s h = run-Right rest (act cfg u a s) (Right-act a s h)
