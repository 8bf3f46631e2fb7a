-- ===== src/Mailbox/Statistics.antt =====
-- The cached statistics of a user across the changes of one message and the event that each publishes.
use mailbox.Prelude.{String, ◌≡◌, ◌≢◌, true, false, not, refl, some, List, arith, ◌==◌, eq_iff}
use mailbox.SyncMap.{SyncMap, load, store, load-store, load-store_self, load-delete, delete}
use mailbox.SyncMap.Counting.{count-store_old}
use mailbox.Store.{Time}
use mailbox.Memory.{Message}
use mailbox.Memory.Matching.{is_available_now}
use mailbox.Memory.Query.{is_visible_to}
use mailbox.Memory.Stats.{MailboxStats}
use mailbox.Memory.Stats.Counts.{is_unread, is_in, is_unread_in_folder}
use mailbox.Memory.Invariant.{IsValid, store-IsValid, delete-IsValid}
use mailbox.StatsCache.{
  StatsCache, StatsEntry, Event, handle, update_cached_stats, on_message_moved, on_message_deleted,
  on_message_read, moved_one, deleted_one, read_one,
}
use mailbox.StatsCache.Tracking.{
  Tracks, Counted, moved_one-Tracks, deleted_one-Tracks, read_one-Tracks,
}

-- The cache holds the statistics that the store would compute for the owner, whose messages are all
-- in a folder and available.
pub record Settled (owner : String) (now : Time) (c : StatsCache) (ms : SyncMap Message)
    : Type 0 where
  pub entry : StatsEntry
  pub stats : MailboxStats
  pub cached : load owner c.entries ≡ some entry
  pub holds : entry.stats ≡ some stats
  pub tracks : Tracks owner now stats ms
  pub valid : IsValid ms
  pub in_folder : (id : String) (m : Message) → load id ms ≡ some m → (m.folder_id == "") ≡ false
  pub available : (id : String) (m : Message) → load id ms ≡ some m → is_available_now now m ≡ true

module _ (owner : String) (now : Time) (c : StatsCache) (ms : SyncMap Message)
    (h : Settled owner now c ms) where
  -- an update of the entry, and the store after it
  updated-Settled :
      (fn : MailboxStats → MailboxStats) (ms' : SyncMap Message)
      → Tracks owner now (fn h.stats) ms'
      → IsValid ms'
      → ((id : String) (m : Message) → load id ms' ≡ some m → ((m.folder_id == "") ≡ false))
      → ((id : String) (m : Message) → load id ms' ≡ some m → (is_available_now now m ≡ true))
      → Settled owner now (update_cached_stats owner fn c) ms'
  unfolding update_cached_stats
  updated-Settled fn ms' tracking v f a = record {
    entry = record h.entry { stats = some (fn h.stats) };
    stats = fn h.stats;
    cached = ground (
      arith,
      h.cached,
      h.holds,
      load-store_self owner (record h.entry { stats = some (fn h.stats) }) c.entries,
    );
    holds = refl;
    tracks = tracking;
    valid = v;
    in_folder = f;
    available = a;
  }

  module _ (id : String) (m : Message) (found : load id ms ≡ some m) (own : m.owner_id ≡ owner)
      (live : m.is_draft ≡ false) where
    Counted-own : Counted owner now ms id m
    Counted-own = record {
      found = found;
      visible = ground (arith, own, live, h.available id m found, eq_iff m.owner_id owner);
    }

    pub moved-Settled :
        (to : String) (t : Time)
        → (to == "") ≡ false
        → m.folder_id ≢ to
        → Settled owner now
            (handle (Event.message_moved owner m.folder_id to (not m.is_read)) c).0
            (store id (record m { folder_id = to; updated_at = t }) ms)
    unfolding handle on_message_moved
    moved-Settled to t named apart =
        let m' = record m { folder_id = to; updated_at = t } in
        updated-Settled (moved_one m.folder_id to (not m.is_read)) (store id m' ms)
          (moved_one-Tracks owner now id m h.stats ms h.tracks Counted-own to t
            (h.in_folder id m found) named apart)
          (store-IsValid m' ms (h.valid.keyed id m found) h.valid)
          (λ j n e. ground (arith, load-store id j m' ms, h.in_folder j n))
          (λ j n e. ground (arith, load-store id j m' ms, h.available j n, h.available id m found))

    pub deleted-Settled :
        Settled owner now
          (handle (Event.message_deleted owner m.folder_id (not m.is_read)) c).0
          (delete id ms)
    unfolding handle on_message_deleted
    deleted-Settled =
        updated-Settled (deleted_one m.folder_id (not m.is_read)) (delete id ms)
          (deleted_one-Tracks owner now id m h.stats ms h.tracks Counted-own
            (h.in_folder id m found) h.valid.distinct)
          (delete-IsValid id ms h.valid)
          (λ j n e. ground (arith, load-delete id j ms, h.in_folder j n))
          (λ j n e. ground (arith, load-delete id j ms, h.available j n))

    pub read-Settled :
        (t read_at : Time)
        → m.is_read ≡ false
        → Settled owner now
            (handle (Event.message_read owner m.folder_id) c).0
            (store id (record m { is_read = true; read_at = some read_at; updated_at = t }) ms)
    unfolding handle on_message_read
    read-Settled t read_at unread =
        let m' = record m { is_read = true; read_at = some read_at; updated_at = t } in
        updated-Settled (read_one m.folder_id) (store id m' ms)
          (read_one-Tracks owner now id m h.stats ms h.tracks Counted-own read_at t
            (h.in_folder id m found) unread)
          (store-IsValid m' ms (h.valid.keyed id m found) h.valid)
          (λ j n e. ground (arith, load-store id j m' ms, h.in_folder j n, h.in_folder id m found))
          (λ j n e. ground (arith, load-store id j m' ms, h.available j n, h.available id m found))

    -- a change of the tags, which no statistics see
    pub tagged-Settled :
        (tags : List String) (t : Time)
        → Settled owner now c (store id (record m { tags = tags; updated_at = t }) ms)
    tagged-Settled tags t =
        let m' = record m { tags = tags; updated_at = t } in
        record {
          entry = h.entry;
          stats = h.stats;
          cached = h.cached;
          holds = h.holds;
          tracks = record {
            total =
                ground
                  (arith, h.tracks.total, count-store_old (is_visible_to owner now) id m' ms found);
            unread =
                ground
                  (arith, h.tracks.unread, count-store_old (is_unread owner now) id m' ms found);
            folder_total = λ f. ground (
              arith,
              h.tracks.folder_total f,
              count-store_old (is_in owner now f) id m' ms found,
            );
            folder_unread = λ f. ground (
              arith,
              h.tracks.folder_unread f,
              count-store_old (is_unread_in_folder owner now f) id m' ms found,
            );
          };
          valid = store-IsValid m' ms (h.valid.keyed id m found) h.valid;
          in_folder = λ j n e.
              ground (arith, load-store id j m' ms, h.in_folder j n, h.in_folder id m found);
          available = λ j n e.
              ground (arith, load-store id j m' ms, h.available j n, h.available id m found);
        }
