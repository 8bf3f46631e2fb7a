-- ===== src/Memory/Stats/Counts.antt =====
-- The loops of stats.go against their specification: how many messages there are of each kind.
use mailbox.Prelude.{
  ◌+◌, String, ◌≡◌, refl, Bool, true, not, ◌&&◌, [], ◌∷◌, arith, ◌==◌, eq_iff, ok, to_ℕ, length,
}
use mathlib.Core.Path.{fun_ext}
use mailbox.SyncMap.{SyncMap, load, load-store}
use mailbox.SyncMap.Counting.{count_values}
use mailbox.Store.{Time, FolderCounts}
use mailbox.Store.Filter.{owner_is}
use mailbox.Memory.{Message, Store}
use mailbox.Memory.Matching.{matches_filters}
use mailbox.Memory.Query.{is_visible_to, is_listed, select, count}
use mailbox.Memory.Stats.{
  MailboxStats, counts_at, empty_stats, add_to_folder, count_message, tally, tally_all,
  mailbox_stats,
}

-- A visible message of the owner, in a folder, and unread there
module _ (owner : String) (now : Time) where
  abbrev pub is_unread : Message → Bool
  is_unread m = is_visible_to owner now m && not m.is_read

  abbrev pub is_in : String → Message → Bool
  is_in folder m = is_visible_to owner now m && m.folder_id == folder

  abbrev pub is_unread_in_folder : String → Message → Bool
  is_unread_in_folder folder m = is_in folder m && not m.is_read

  abbrev pub is_own_draft : Message → Bool
  is_own_draft m = m.is_draft && m.owner_id == owner

  -- What a record of statistics says, against the messages
  pub record Counts (st : MailboxStats) (ms : SyncMap Message) : Type 0 where
    pub total : st.total_messages ≡ count_values (is_visible_to owner now) ms
    pub unread : st.unread_count ≡ count_values is_unread ms
    pub drafts : st.draft_count ≡ count_values is_own_draft ms
    pub folder_total : (f : String) → (counts_at st.folders f).total ≡ count_values (is_in f) ms
    pub folder_unread :
        (f : String) → (counts_at st.folders f).unread ≡ count_values (is_unread_in_folder f) ms

  counts_at-add :
      (m : Message) (folders : SyncMap FolderCounts) (f : String)
      → ((counts_at (add_to_folder m folders) f).total
          ≡ (counts_at folders f).total + to_ℕ (m.folder_id == f))
        × ((counts_at (add_to_folder m folders) f).unread
            ≡ (counts_at folders f).unread + to_ℕ ((m.folder_id == f) && not m.is_read))
  counts_at-add m folders f = ground (
    arith,
    load-store m.folder_id f (count_message m (counts_at folders m.folder_id)) folders,
    eq_iff m.folder_id f,
  )

  tally_total :
      (m : Message) (st : MailboxStats)
      → (tally owner now m st).total_messages ≡ st.total_messages + to_ℕ (is_visible_to owner now m)
  unfolding tally
  tally_total m st = ground arith

  tally_unread :
      (m : Message) (st : MailboxStats)
      → (tally owner now m st).unread_count ≡ st.unread_count + to_ℕ (is_unread m)
  unfolding tally
  tally_unread m st = ground arith

  tally_drafts :
      (m : Message) (st : MailboxStats)
      → (tally owner now m st).draft_count ≡ st.draft_count + to_ℕ (is_own_draft m)
  unfolding tally
  tally_drafts m st = ground arith

  tally_folder_total :
      (m : Message) (st : MailboxStats) (f : String)
      → (counts_at (tally owner now m st).folders f).total
        ≡ (counts_at st.folders f).total + to_ℕ (is_in f m)
  unfolding tally
  tally_folder_total m st f = ground (arith, counts_at-add m st.folders f)

  tally_folder_unread :
      (m : Message) (st : MailboxStats) (f : String)
      → (counts_at (tally owner now m st).folders f).unread
        ≡ (counts_at st.folders f).unread + to_ℕ (is_unread_in_folder f m)
  unfolding tally
  tally_folder_unread m st f = ground (arith, counts_at-add m st.folders f)

  all_total :
      (ms : SyncMap Message) (st : MailboxStats)
      → (tally_all owner now ms st).total_messages
        ≡ st.total_messages + count_values (is_visible_to owner now) ms
  unfolding tally_all
  all_total [] st = omega arith
  all_total ((_, m) ∷ ms) st = omega (arith, all_total ms (tally owner now m st), tally_total m st)

  all_unread :
      (ms : SyncMap Message) (st : MailboxStats)
      → (tally_all owner now ms st).unread_count ≡ st.unread_count + count_values is_unread ms
  unfolding tally_all
  all_unread [] st = omega arith
  all_unread ((_, m) ∷ ms) st =
      omega (arith, all_unread ms (tally owner now m st), tally_unread m st)

  all_drafts :
      (ms : SyncMap Message) (st : MailboxStats)
      → (tally_all owner now ms st).draft_count ≡ st.draft_count + count_values is_own_draft ms
  unfolding tally_all
  all_drafts [] st = omega arith
  all_drafts ((_, m) ∷ ms) st =
      omega (arith, all_drafts ms (tally owner now m st), tally_drafts m st)

  all_folder_total :
      (f : String) (ms : SyncMap Message) (st : MailboxStats)
      → (counts_at (tally_all owner now ms st).folders f).total
        ≡ (counts_at st.folders f).total + count_values (is_in f) ms
  unfolding tally_all
  all_folder_total f [] st = omega arith
  all_folder_total f ((_, m) ∷ ms) st =
      omega (arith, all_folder_total f ms (tally owner now m st), tally_folder_total m st f)

  all_folder_unread :
      (f : String) (ms : SyncMap Message) (st : MailboxStats)
      → (counts_at (tally_all owner now ms st).folders f).unread
        ≡ (counts_at st.folders f).unread + count_values (is_unread_in_folder f) ms
  unfolding tally_all
  all_folder_unread f [] st = omega arith
  all_folder_unread f ((_, m) ∷ ms) st =
      omega (arith, all_folder_unread f ms (tally owner now m st), tally_folder_unread m st f)

  pub Counts-tally_all : (ms : SyncMap Message) → Counts (tally_all owner now ms empty_stats) ms
  unfolding load
  Counts-tally_all ms = record {
    total = omega (arith, all_total ms empty_stats);
    unread = omega (arith, all_unread ms empty_stats);
    drafts = omega (arith, all_drafts ms empty_stats);
    folder_total = λ f. omega (arith, all_folder_total f ms empty_stats);
    folder_unread = λ f. omega (arith, all_folder_unread f ms empty_stats);
  }

-- On a connected backend MailboxStats returns, and its five kinds of counts are the numbers of the
-- owner's visible messages, unread ones, drafts, and visible and unread messages of each folder.
pub mailbox_stats_exact :
    (s : Store) (owner : String) (now : Time)
    → s.connected ≡ true
    → (st : MailboxStats) × (mailbox_stats s owner now ≡ ok st) × Counts owner now st s.messages
unfolding mailbox_stats
mailbox_stats_exact s owner now c = (
  tally_all owner now s.messages empty_stats,
  ground arith,
  Counts-tally_all owner now s.messages,
)

length-select :
    (p : Message → Bool) (ms : SyncMap Message) → length (select p ms) ≡ count_values p ms
unfolding select
length-select p [] = refl
length-select p ((_, m) ∷ ms) = ground (arith, length-select p ms)

is_listed-owner_is :
    (owner : String) (now : Time) (m : Message)
    → is_listed (owner_is owner ∷ []) now m ≡ is_visible_to owner now m
unfolding matches_filters
is_listed-owner_is owner now m = ground arith

-- Count with the filter of an owner returns the TotalMessages of MailboxStats, whenever that returns.
pub count-owner_is :
    (s : Store) (owner : String) (now : Time) (st : MailboxStats)
    → mailbox_stats s owner now ≡ ok st
    → count s (owner_is owner ∷ []) now ≡ ok st.total_messages
unfolding mailbox_stats count
count-owner_is s owner now st h =
    let same = fun_ext (is_listed-owner_is owner now) in
    let p = is_visible_to owner now in
    rw same
      (ground (arith, length-select p s.messages, (Counts-tally_all owner now s.messages).total))
