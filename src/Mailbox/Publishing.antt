-- ===== src/Mailbox/Publishing.antt =====
-- The events of UpdateFlags and PermanentlyDelete, where they do not fit what was stored.
use mailbox.Prelude.{
  ◌-◌, false, ◌==◌, String, ◌≡◌, refl, true, not, ◌&&◌, none, some, [], ◌∷◌, ◌++◌, arith, eq_iff,
  eq_refl, Bool-cases, inl, inr, ok, err, map, if◌then◌else◌,
}
use mailbox.SyncMap.{load, delete, load-delete, load-store_self}
use mailbox.SyncMap.Counting.{count_values, count-store_old}
use mailbox.Store.{Time, folder_trash}
use mailbox.Memory
use mailbox.Memory.{Message, put}
use mailbox.Memory.Write
use mailbox.Memory.Write.Moves.{Stored}
use mailbox.Memory.Stats.Counts.{is_unread}
use mailbox.Memory.Stats.{MailboxStats, counts_at}
use mailbox.StatsCache.{StatsEntry, Event, handle, update_cached_stats, on_message_read, read_one}
use mailbox.Mailbox.{
  Service, Config, UserMailbox, MailboxError, deliver, check_access, get_and_verify,
}
use mailbox.Mailbox.Mutate.{update_flags, permanently_delete}

-- A user whose calls pass the checks, and a message of theirs
pub record Callable (u : UserMailbox) (s : Service) (id : String) (m : Message) : Type 0 where
  pub connected : s.connected ≡ true
  pub valid : u.valid_user_id ≡ true
  pub own : m.owner_id ≡ u.user_id
  pub stored : Stored s.store id m

module _ (cfg : Config) (u : UserMailbox) (s : Service) (id : String) (m : Message)
    (h : Callable u s id m) where
  get-ok_own : get_and_verify u s id ≡ ok m
  unfolding Memory.get
  get-ok_own = ground (
    arith,
    h.own,
    h.stored.connected,
    h.stored.named,
    h.stored.found,
    h.stored.sent,
    eq_iff m.owner_id u.user_id,
  )

  check_access-ok : check_access u s ≡ ok tt
  check_access-ok = ground (arith, h.connected, h.valid)

  mark_read-ok :
      (later read_now : Time)
      → Write.mark_read id true later read_now s.store ≡ (
        ok tt,
        put s.store id (record m { is_read = true; read_at = some read_now; updated_at = later }),
      )
  unfolding Write.mark_read
  mark_read-ok later read_now =
      ground (arith, h.stored.connected, h.stored.named, h.stored.found, h.stored.sent)

  hard_delete-ok :
      Write.hard_delete id s.store
      ≡ (ok tt, record s.store { messages = delete id s.store.messages })
  unfolding Write.hard_delete
  hard_delete-ok = ground (arith, h.stored.connected, h.stored.named, h.stored.found, h.stored.sent)

  update_flags-read :
      (now later read_now : Time)
      → cfg.accepts (Event.message_read u.user_id m.folder_id) ≡ true
      → let m' = record m { is_read = true; read_at = some read_now; updated_at = later } in
        let ev = Event.message_read u.user_id m.folder_id in
        update_flags cfg u id (record { read = some true; archived = none }) now later read_now s
        ≡ (ok tt, record s { store = put s.store id m'; published = s.published ++ ev ∷ [] })
  unfolding update_flags
  update_flags-read now later read_now accepted =
      rw (check_access-ok, get-ok_own, mark_read-ok later read_now, accepted) refl

  -- UpdateFlags that marks a message read which is read already publishes a MessageRead event, when
  -- the bus accepts it and nothing waits. When statistics of the user are cached, the handler takes one
  -- from their unread counts, of the user and of the folder, if these are not 0 yet, although the
  -- number of unread messages in the store stays the same.
  pub update_flags_again :
      (now later read_now t : Time) (e : StatsEntry) (stats : MailboxStats)
      → m.is_read ≡ true
      → (m.folder_id == "") ≡ false
      → s.published ≡ []
      → cfg.accepts (Event.message_read u.user_id m.folder_id) ≡ true
      → load u.user_id s.cache.entries ≡ some e
      → e.stats ≡ some stats
      → let s' =
          (update_flags cfg u id
            (record { read = some true; archived = none })
            now
            later
            read_now
            s).1 in
        (count_values (is_unread u.user_id t) s'.store.messages
          ≡ count_values (is_unread u.user_id t) s.store.messages)
        × (stats' : MailboxStats) × (load u.user_id (deliver s'.published s'.cache).entries
            ≡ some (record e { stats = some stats' }))
        × (stats'.unread_count ≡ stats.unread_count - 1)
        × ((counts_at stats'.folders m.folder_id).unread
            ≡ (counts_at stats.folders m.folder_id).unread - 1)
  unfolding deliver handle on_message_read update_cached_stats
  update_flags_again now later read_now t e stats read named idle accepted there held =
      let m' = record m { is_read = true; read_at = some read_now; updated_at = later } in
      let stats' = read_one m.folder_id stats in
      let c = counts_at stats.folders m.folder_id in
      rw (update_flags-read now later read_now accepted) (
        ground (
          arith,
          read,
          count-store_old (is_unread u.user_id t) id m' s.store.messages h.stored.found,
        ),
        stats',
        rw idle (
            ground (
              arith,
              there,
              held,
              load-store_self u.user_id (record e { stats = some stats' }) s.cache.entries,
            )),
        refl,
        ground (
          arith,
          named,
          load-store_self m.folder_id (record c { unread = c.unread - 1 }) stats.folders,
        ),
      )

  deleted_lem : load id (delete id s.store.messages) ≡ none
  deleted_lem = ground (arith, load-delete id id s.store.messages, eq_refl id)

  -- PermanentlyDelete of a message in the trash removes it. It succeeds and releases the message's
  -- attachments when the bus accepts the event or a failure to publish is no error; when such a
  -- failure is an error it returns that error, and the attachments of the removed message stay
  -- referenced.
  pub permanently_delete_outcome :
      m.folder_id ≡ folder_trash
      → cfg.has_attachments ≡ true
      → let ev = Event.message_deleted u.user_id folder_trash (not m.is_read) in
        let (r, s') = permanently_delete cfg u id s in
        let fails = cfg.event_errors_fatal && not (cfg.accepts ev) in
        (load id s'.store.messages ≡ none)
        × (r ≡ (if fails then err MailboxError.event_publish else ok tt))
        × (s'.released
            ≡ (if fails then s.released else s.released ++ map (λ a. a.id) m.attachments))
  unfolding permanently_delete
  permanently_delete_outcome trash attached =
      let accepted = cfg.accepts (Event.message_deleted u.user_id folder_trash (not m.is_read)) in
      rw (check_access-ok, get-ok_own, trash, hard_delete-ok, attached)
        (elim (Bool-cases cfg.event_errors_fatal) [
          | inl fatal ↦ elim (Bool-cases accepted) [
            | inl taken ↦ rw (fatal, taken) (deleted_lem, refl, refl)
            | inr refused ↦ rw (fatal, refused) (deleted_lem, refl, refl)
          ]
          | inr mild ↦ elim (Bool-cases accepted) [
            | inl taken ↦ rw (mild, taken) (deleted_lem, refl, refl)
            | inr refused ↦ rw (mild, refused) (deleted_lem, refl, refl)
          ]
        ])
