-- ===== src/Mailbox/Mutate.antt =====
-- mutate.go and attachment.go: the handlers of a user's mailbox that change messages.
use mailbox.Prelude.{
  ℕ, ◌-◌, String, Bool, true, false, not, ◌&&◌, ◌||◌, Option, none, some, List, [], ◌∷◌, ◌++◌, ◌==◌,
  Result, ok, err, ◌>>=◌, ◌>>◌, fail_if, if◌then◌else◌, ltb, eqb, map, zero, suc, ◌+◌, length,
}
use Prim.Native.Char.{Char, code}
use Prim.Native.String.{len}
use mailbox.SyncMap.{store}
use mailbox.Store.{
  Time, MoveOption, Error, ListOptions, unset, apply_move_options, is_valid_folder_id, folder_trash,
  folder_archived,
}
use mailbox.Store.Filter.{Filter, owner_is, is_draft_filter}
use mailbox.Memory
use mailbox.Memory.{Message}
use mailbox.Memory.Write
use mailbox.Memory.Write.{home_folder}
use mailbox.Memory.Bulk
use mailbox.Memory.Query.{find}
use mailbox.Memory.Stats.{MailboxStats, counts_at}
use mailbox.StatsCache.{Event, update_cached_stats}
use mailbox.Mailbox.{
  MailboxError, Service, Config, UserMailbox, Handler, check_access, get_and_verify, checked,
  lift_error, publish_only, op_and_publish,
}

-- Flags; `none` is a nil pointer.
pub record Flags : Type 0 where
  pub read : Option Bool
  pub archived : Option Bool

abbrev max_tag_id_length : ℕ
max_tag_id_length = 256

abbrev is_unsafe_in_tag : Char → Bool
is_unsafe_in_tag c =
    ltb (code c) 32 || eqb (code c) 127 || eqb (code c) 47 || eqb (code c) 92 || eqb (code c) 58

has_unsafe_in_tag : String → Bool
has_unsafe_in_tag String.[] = Bool.false
has_unsafe_in_tag (String.◌∷◌ c s) =
    let rest = has_unsafe_in_tag s in if is_unsafe_in_tag c then Bool.true else rest

-- isValidTagID
unfoldable pub is_valid_tag_id : String → Bool
unfolding has_unsafe_in_tag
is_valid_tag_id tag_id = not (has_unsafe_in_tag tag_id)

abbrev pub check_tag : String → Result MailboxError (Unit {0})
check_tag tag_id = do
  fail_if (tag_id == "") MailboxError.invalid_id
  fail_if (not (is_valid_tag_id tag_id)) MailboxError.invalid_id
  fail_if (ltb max_tag_id_length (len tag_id)) MailboxError.invalid_id

abbrev pub is_none {ℓ} : {A : Type ℓ} → Option A → Bool
is_none none = true
is_none (some _) = false

-- The folder that the archived flag asks for
abbrev pub archive_folder : Bool → Message → String
archive_folder archived m = if archived then folder_archived else home_folder m

-- A call of the backend, without an event
abbrev pub with_store {ℓ} :
    {A : Type ℓ} → Service → Result Error A × Memory.Store → Result MailboxError A × Service
with_store s (r, st) = (lift_error r, record s { store = st })

abbrev pub then_do :
    (Result MailboxError (Unit {0}) × Service)
    → Handler (Unit {0})
    → Result MailboxError (Unit {0}) × Service
then_do (ok _, s) k = k s
then_do (err e, s) k = (err e, s)

-- `return count, err`; the count beside an error is left out.
abbrev pub return_count :
    ℕ → Result MailboxError (Unit {0}) × Service → Result MailboxError ℕ × Service
return_count n (ok _, s) = (ok n, s)
return_count n (err e, s) = (err e, s)

-- What MarkAllRead does to the statistics of its user
abbrev pub all_read : String → ℕ → MailboxStats → MailboxStats
all_read folder_id n stats =
    let c = counts_at stats.folders folder_id in
    record stats {
      unread_count = stats.unread_count - n;
      folders = store folder_id (record c { unread = c.unread - n }) stats.folders;
    }

module _ (cfg : Config) (u : UserMailbox) where
  -- The checks of every handler of one message
  abbrev pub verified : Service → String → Result MailboxError Message
  verified s id = do check_access u s; get_and_verify u s id

  -- moveAndPublish
  abbrev pub move_and_publish :
      String → String → String → Bool → List MoveOption → Time → Handler (Unit {0})
  move_and_publish id from to was_unread opts now s =
      if from == to
      then (ok tt, s)
      else op_and_publish cfg (Event.message_moved u.user_id from to was_unread)
          (Write.move_to_folder id to opts now) s

  -- UpdateFlags, its two halves: the archived flag, then the read flag
  abbrev pub update_archived : String → Option Bool → Message → Time → Handler (Unit {0})
  update_archived id none m now s = (ok tt, s)
  update_archived id (some archived) m now s =
      move_and_publish id m.folder_id (archive_folder archived m) (not m.is_read) [] now s

  abbrev pub current_folder : Option Bool → Message → String
  current_folder none m = m.folder_id
  current_folder (some archived) m = archive_folder archived m

  abbrev pub update_read : String → Option Bool → String → Time → Time → Handler (Unit {0})
  update_read id none folder now read_now s = (ok tt, s)
  update_read id (some true) folder now read_now s =
      op_and_publish cfg (Event.message_read u.user_id folder)
        (Write.mark_read id true now read_now) s
  update_read id (some false) folder now read_now s =
      with_store s (Write.mark_read id false now read_now s.store)

  -- UpdateFlags
  unfoldable pub update_flags : String → Flags → Time → Time → Time → Handler (Unit {0})
  unfolding Write.move_to_folder Write.mark_read
  update_flags id flags now later read_now s = checked s (check_access u s) λ _ s.
      if is_none flags.read && is_none flags.archived
      then (ok tt, s)
      else checked s (get_and_verify u s id) λ m s.
        then_do (update_archived id flags.archived m now s)
          (update_read id flags.read (current_folder flags.archived m) later read_now)

  -- Delete
  unfoldable pub delete : String → Time → Handler (Unit {0})
  unfolding Write.move_to_folder
  delete id now s =
      checked s
        (do
          m ← verified s id
          fail_if (m.folder_id == folder_trash) MailboxError.already_in_trash
          ok m)
        λ m. move_and_publish id m.folder_id folder_trash (not m.is_read) [] now

  abbrev pub in_trash : Service → String → Result MailboxError Message
  in_trash s id = do
    m ← verified s id
    fail_if (not (m.folder_id == folder_trash)) MailboxError.not_in_trash
    ok m

  -- Restore
  unfoldable pub restore : String → Time → Handler (Unit {0})
  unfolding Write.move_to_folder
  restore id now s =
      checked s (in_trash s id)
        λ m. move_and_publish id folder_trash (home_folder m) (not m.is_read) [] now

  -- releaseAttachmentRefs: the manager's errors are only logged by its caller.
  abbrev pub release : Message → Handler (Unit {0})
  release m s = (
    ok tt,
    if cfg.has_attachments
        then record s { released = s.released ++ map (λ a. a.id) m.attachments }
        else s,
  )

  -- PermanentlyDelete
  unfoldable pub permanently_delete : String → Handler (Unit {0})
  unfolding Write.hard_delete
  permanently_delete id s = checked s (in_trash s id) λ m s.
      then_do
        (op_and_publish cfg (Event.message_deleted u.user_id m.folder_id (not m.is_read))
          (Write.hard_delete id) s)
        (release m)

  abbrev pub check_folders : String → List MoveOption → Result MailboxError (Unit {0})
  check_folders folder_id opts =
      let from = apply_move_options opts in
      do
        fail_if (not (is_valid_folder_id folder_id)) MailboxError.invalid_folder_id
        fail_if (not (from == "") && not (is_valid_folder_id from)) MailboxError.invalid_folder_id

  -- MoveToFolder
  unfoldable pub move_to_folder : String → String → List MoveOption → Time → Handler (Unit {0})
  unfolding Write.move_to_folder
  move_to_folder id folder_id opts now s =
      checked s (do check_access u s; check_folders folder_id opts; get_and_verify u s id)
        λ m. move_and_publish id m.folder_id folder_id (not m.is_read) opts now

  -- AddTag
  unfoldable pub add_tag : String → String → Time → Handler (Unit {0})
  unfolding Write.add_tag
  add_tag id tag_id now s =
      checked s (do check_access u s; check_tag tag_id; get_and_verify u s id)
        λ m s. with_store s (Write.add_tag id tag_id now s.store)

  -- RemoveTag
  unfoldable pub remove_tag : String → String → Time → Handler (Unit {0})
  unfolding Write.remove_tag
  remove_tag id tag_id now s =
      checked s (do check_access u s; check_tag tag_id; get_and_verify u s id)
        λ m s. with_store s (Write.remove_tag id tag_id now s.store)

  abbrev pub after_marking : String → ℕ → Handler ℕ
  after_marking folder_id n s =
      if ltb 0 n
      then return_count n (
          publish_only cfg (Event.mark_all_read u.user_id folder_id n)
            (record s { cache = update_cached_stats u.user_id (all_read folder_id n) s.cache }))
      else (ok n, s)

  abbrev pub finish_marking : String → Result Error ℕ × Memory.Store → Handler ℕ
  finish_marking folder_id (ok n, st) s = after_marking folder_id n (record s { store = st })
  finish_marking folder_id (err e, st) s =
      (err (MailboxError.store_error e), record s { store = st })

  -- MarkAllRead: the backend is a BulkReadMarker.
  unfoldable pub mark_all_read : String → Time → Handler ℕ
  unfolding Write.mark_all_read update_cached_stats
  mark_all_read folder_id now s =
      checked s (check_access u s)
        λ _ s. finish_marking folder_id (Write.mark_all_read u.user_id folder_id now s.store) s

  -- scopedFilters
  abbrev pub scoped_filters : List Filter → List Filter
  scoped_filters filters = owner_is u.user_id ∷ is_draft_filter Bool.false ∷ filters

  -- The operations by filter: the backend is a BulkUpdater.
  module _ (filters : List Filter) where
    abbrev pub bulk : (String → List Filter → Memory.Handler ℕ) → Handler ℕ
    bulk op s =
        checked s (check_access u s)
          λ _ s. with_store s (op u.user_id (scoped_filters filters) s.store)

    -- The loop of UpdateByFilter over one page, from its k-th message: how many calls of MarkRead
    -- succeeded. The clock's second reading in MarkRead is used only when it marks as read, which the
    -- loop does not do.
    abbrev count_marked : Result Error (Unit {0}) → ℕ → ℕ
    count_marked (ok _) n = suc n
    count_marked (err e) n = n

    unfoldable pub mark_page :
        Bool → (ℕ → Time) → ℕ → List Message → Memory.Store → ℕ × Memory.Store
    unfolding Write.mark_read
    mark_page read clock k [] st = (0, st)
    mark_page read clock k (m ∷ ms) st =
        let (r, st') = Write.mark_read m.id read (clock k) (clock k) st in
        let (n, st'') = mark_page read clock (suc k) ms st' in (count_marked r n, st'')

    abbrev pub cursor_after : List Message → String
    cursor_after [] = ""
    cursor_after (m ∷ []) = m.id
    cursor_after (m ∷ n ∷ ms) = cursor_after (n ∷ ms)

    -- `*flags.Read`, and false for nil
    abbrev pub is_set : Option Bool → Bool
    is_set none = false
    is_set (some read) = read

    -- The slow path of UpdateByFilter on its first `pages` pages; the result is none while the loop is
    -- still running after them. `clock n k` is read in the n-th Find, for k = 0, and for its k-th
    -- message.
    module _ (limit : ℕ) (clock : ℕ → ℕ → Time) (read : Option Bool) where
      abbrev pub page_from : String → ListOptions
      page_from cursor = record {
        limit = limit;
        offset = 0;
        sort_by = "";
        sort_order = unset;
        start_after = cursor;
      }

      unfoldable pub update_pages :
          ℕ → ℕ → String → ℕ → Service → Option (Result MailboxError ℕ) × Service
      unfolding find mark_page
      update_pages zero n cursor count s = (none, s)
      update_pages (suc pages) n cursor count s =
          elim (find s.store (scoped_filters filters) (page_from cursor) (clock n 0)) [
            | err e ↦ (some (err (MailboxError.store_error e)), s)
            | ok list ↦
                let (k, st) = mark_page (is_set read) (clock n) 1 list.messages s.store in
                let s' = record s { store = st } in
                let rest = update_pages pages (suc n) (cursor_after list.messages) (count + k) s' in
                if not list.has_more || eqb (length list.messages) 0
                then (some (ok (count + k)), s')
                else rest
          ]

      -- UpdateByFilter: the fast path when the read flag is set
      abbrev pub update_filtered :
          Option Bool → Time → Time → ℕ → Service → Option (Result MailboxError ℕ) × Service
      update_filtered (some r) read_now now pages s =
          let (res, s') =
            with_store s (
              Bulk.mark_read_by_filter u.user_id (scoped_filters filters) r read_now now s.store) in
          (some res, s')
      update_filtered none read_now now pages s = update_pages pages 0 "" 0 s

      unfoldable pub update_by_filter :
          Time → Time → ℕ → Service → Option (Result MailboxError ℕ) × Service
      unfolding Bulk.mark_read_by_filter update_pages
      update_by_filter read_now now pages s = elim (check_access u s) [
        | err e ↦ (some (err e), s)
        | ok _ ↦ update_filtered read read_now now pages s
      ]

    -- MoveByFilter
    unfoldable pub move_by_filter : String → Time → Handler ℕ
    unfolding Bulk.move_by_filter
    move_by_filter folder_id now = bulk (λ o fs. Bulk.move_by_filter o fs folder_id now)

    -- DeleteByFilter
    unfoldable pub delete_by_filter : Time → Handler ℕ
    unfolding Bulk.delete_by_filter
    delete_by_filter now = bulk (λ o fs. Bulk.delete_by_filter o fs now)

    -- TagByFilter
    unfoldable pub tag_by_filter : String → Time → Handler ℕ
    unfolding Bulk.add_tag_by_filter
    tag_by_filter tag_id now = bulk (λ o fs. Bulk.add_tag_by_filter o fs tag_id now)

    -- UntagByFilter
    unfoldable pub untag_by_filter : String → Time → Handler ℕ
    unfolding Bulk.remove_tag_by_filter
    untag_by_filter tag_id now = bulk (λ o fs. Bulk.remove_tag_by_filter o fs tag_id now)
