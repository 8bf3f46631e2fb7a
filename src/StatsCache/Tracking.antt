-- ===== src/StatsCache/Tracking.antt =====
-- The statistics that the event handlers maintain against those that the store would compute.
use mailbox.Prelude.{
  ◌+◌, ◌-◌, String, ◌≡◌, ◌≢◌, Bool, true, false, not, ◌&&◌, some, arith, ◌==◌, eq_iff, ltb,
  if◌then◌else◌, to_ℕ,
}
use mailbox.SyncMap.{SyncMap, load, store, load-store, delete, Distinct}
use mailbox.SyncMap.Counting.{count_values, count-store_old, count-delete}
use mailbox.Store.{Time, FolderCounts}
use mailbox.Memory.{Message}
use mailbox.Memory.Query.{is_visible_to}
use mailbox.Memory.Stats.{MailboxStats, counts_at}
use mailbox.Memory.Stats.Counts.{is_unread, is_in, is_unread_in_folder}
use mailbox.StatsCache.{moved_one, read_one, deleted_one, leave_folder, enter_folder}

-- `Counts` of Memory/Stats/Counts without the drafts, which no event reports
pub record Tracks (owner : String) (now : Time) (st : MailboxStats) (ms : SyncMap Message)
    : Type 0 where
  pub total : st.total_messages ≡ count_values (is_visible_to owner now) ms
  pub unread : st.unread_count ≡ count_values (is_unread owner now) ms
  pub folder_total :
      (f : String) → (counts_at st.folders f).total ≡ count_values (is_in owner now f) ms
  pub folder_unread :
      (f : String)
      → (counts_at st.folders f).unread ≡ count_values (is_unread_in_folder owner now f) ms

module _ (f : String) (u : Bool) (folders : SyncMap FolderCounts) where
  counts_at-leave :
      (from : String)
      → (from == "") ≡ false
      → ((counts_at (leave_folder from u folders) f).total
          ≡ (counts_at folders f).total - to_ℕ (from == f))
        × ((counts_at (leave_folder from u folders) f).unread
            ≡ (counts_at folders f).unread - to_ℕ ((from == f) && u))
  counts_at-leave from h = ground (
    arith,
    load-store from f
        (record {
          total = (counts_at folders from).total - 1;
          unread =
              if u then (counts_at folders from).unread - 1 else (counts_at folders from).unread;
        })
        folders,
    eq_iff from f,
  )

  counts_at-enter :
      (to : String)
      → (to == "") ≡ false
      → ((counts_at (enter_folder to u folders) f).total
          ≡ (counts_at folders f).total + to_ℕ (to == f))
        × ((counts_at (enter_folder to u folders) f).unread
            ≡ (counts_at folders f).unread + to_ℕ ((to == f) && u))
  counts_at-enter to h = ground (
    arith,
    load-store to f
        (record {
          total = (counts_at folders to).total + 1;
          unread = if u then (counts_at folders to).unread + 1 else (counts_at folders to).unread;
        })
        folders,
    eq_iff to f,
  )

counts_at-read :
    (f : String) (folders : SyncMap FolderCounts) (folder : String)
    → (folder == "") ≡ false
    → let after =
        (if not (folder == "") && ltb 0 (counts_at folders folder).unread
          then store folder
              (record (counts_at folders folder) { unread = (counts_at folders folder).unread - 1 })
              folders
          else folders) in
      ((counts_at after f).total ≡ (counts_at folders f).total)
      × ((counts_at after f).unread ≡ (counts_at folders f).unread - to_ℕ (folder == f))
counts_at-read f folders folder h = ground (
  arith,
  load-store folder f
      (record (counts_at folders folder) { unread = (counts_at folders folder).unread - 1 })
      folders,
  eq_iff folder f,
)

-- A visible message of the owner, which the statistics count
pub record Counted (owner : String) (now : Time) (ms : SyncMap Message) (id : String) (m : Message)
    : Type 0 where
  pub found : load id ms ≡ some m
  pub visible : is_visible_to owner now m ≡ true

module _ (owner : String) (now : Time) (id : String) (m : Message) (st : MailboxStats)
    (ms : SyncMap Message) (tr : Tracks owner now st ms) (h : Counted owner now ms id m) where
  -- moving the message, and what onMessageMoved does
  pub moved_one-Tracks :
      (to : String) (t : Time)
      → (m.folder_id == "") ≡ false
      → (to == "") ≡ false
      → m.folder_id ≢ to
      → Tracks owner now
          (moved_one m.folder_id to (not m.is_read) st)
          (store id (record m { folder_id = to; updated_at = t }) ms)
  moved_one-Tracks to t from_named to_named apart =
      let m' = record m { folder_id = to; updated_at = t } in
      let u = not m.is_read in
      let left = leave_folder m.folder_id u st.folders in
      record {
        total = ground (
          arith,
          tr.total,
          h.visible,
          count-store_old (is_visible_to owner now) id m' ms h.found,
        );
        unread =
            ground
              (arith, tr.unread, h.visible, count-store_old (is_unread owner now) id m' ms h.found);
        folder_total = λ f. ground (
          arith,
          tr.folder_total f,
          h.visible,
          count-store_old (is_in owner now f) id m' ms h.found,
          counts_at-leave f u st.folders m.folder_id from_named,
          counts_at-enter f u left to to_named,
          eq_iff m.folder_id f,
          eq_iff to f,
        );
        folder_unread = λ f. ground (
          arith,
          tr.folder_unread f,
          h.visible,
          count-store_old (is_unread_in_folder owner now f) id m' ms h.found,
          counts_at-leave f u st.folders m.folder_id from_named,
          counts_at-enter f u left to to_named,
          eq_iff m.folder_id f,
          eq_iff to f,
        );
      }

  -- marking the message read, and what onMessageRead does
  pub read_one-Tracks :
      (read_at t : Time)
      → (m.folder_id == "") ≡ false
      → m.is_read ≡ false
      → Tracks owner now
          (read_one m.folder_id st)
          (store id (record m { is_read = true; read_at = some read_at; updated_at = t }) ms)
  read_one-Tracks read_at t named was_unread =
      let m' = record m { is_read = true; read_at = some read_at; updated_at = t } in
      record {
        total = ground (
          arith,
          tr.total,
          h.visible,
          count-store_old (is_visible_to owner now) id m' ms h.found,
        );
        unread =
            ground
              (arith, tr.unread, h.visible, count-store_old (is_unread owner now) id m' ms h.found);
        folder_total = λ f. ground (
          arith,
          tr.folder_total f,
          h.visible,
          count-store_old (is_in owner now f) id m' ms h.found,
          counts_at-read f st.folders m.folder_id named,
        );
        folder_unread = λ f. ground (
          arith,
          tr.folder_unread f,
          h.visible,
          count-store_old (is_unread_in_folder owner now f) id m' ms h.found,
          counts_at-read f st.folders m.folder_id named,
          eq_iff m.folder_id f,
        );
      }

  -- deleting the message, and what onMessageDeleted does
  pub deleted_one-Tracks :
      (m.folder_id == "") ≡ false
      → Distinct ms
      → Tracks owner now (deleted_one m.folder_id (not m.is_read) st) (delete id ms)
  deleted_one-Tracks named d =
      let u = not m.is_read in
      record {
        total =
            ground (
              arith,
              tr.total,
              h.visible,
              count-delete (is_visible_to owner now) id m ms d h.found,
            );
        unread =
            ground
              (arith, tr.unread, h.visible, count-delete (is_unread owner now) id m ms d h.found);
        folder_total = λ f. ground (
          arith,
          tr.folder_total f,
          h.visible,
          count-delete (is_in owner now f) id m ms d h.found,
          counts_at-leave f u st.folders m.folder_id named,
        );
        folder_unread = λ f. ground (
          arith,
          tr.folder_unread f,
          h.visible,
          count-delete (is_unread_in_folder owner now f) id m ms d h.found,
          counts_at-leave f u st.folders m.folder_id named,
        );
      }
