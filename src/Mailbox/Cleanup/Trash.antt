-- ===== src/Mailbox/Cleanup/Trash.antt =====
-- CleanupTrash beside an attachment manager: what it removes.
use mailbox.Prelude.{
  ℕ, ◌-◌, String, ◌≡◌, refl, ap, ◌∙◌, Bool, true, false, ◌&&◌, Option, none, some, List, [], ◌∷◌,
  ◌++◌, arith, to_ℕ, contains, length, ltb, ok, if◌then◌else◌,
}
use mailbox.SyncMap.{load}
use mailbox.Store.{Time, Scalar, Value, folder_trash}
use mailbox.Store.Filter.{Filter, build, in_folder}
use mailbox.Memory
use mailbox.Memory.{Message}
use mailbox.Memory.Invariant.{IsValid}
use mailbox.Memory.Matching.{matches_filters, is_available_now}
use mailbox.Memory.Query.{is_listed}
use mailbox.Memory.Query.Pages.{passes_at}
use mailbox.Memory.Maintenance.{is_expired_trash, delete_ids, delete_messages_by_ids}
use mailbox.Memory.Maintenance.Winners.{load-delete_ids}
use mailbox.Mailbox.{Service, Config}
use mailbox.Mailbox.Delivery.Recipients.{occurrences}
use mailbox.Mailbox.Cleanup.{after_scan, counted, scan_expired_messages, cleanup_trash}
use mailbox.Mailbox.Cleanup.Release.{references, delete_scanned_lem}
use mailbox.Mailbox.Cleanup.Once.{scan_expired_messages-Once}

-- A message in the trash that is expired and available
abbrev pub is_cleaned : Time → Time → Message → Bool
is_cleaned cutoff now m = is_expired_trash cutoff m && is_available_now now m

abbrev trash_filters : Time → List Filter
trash_filters cutoff =
    in_folder folder_trash
    ∷ record { key = "updated_at"; value = Value.scalar (Scalar.instant cutoff); operator = "lt" }
    ∷ []

is_listed-is_cleaned :
    (cutoff now : Time) (m : Message)
    → is_listed (trash_filters cutoff) now m ≡ is_cleaned cutoff now m
unfolding matches_filters
is_listed-is_cleaned cutoff now m = ground arith

passes_at-is_cleaned :
    (cutoff now : Time) (m : Option Message)
    → passes_at (is_listed (trash_filters cutoff) now) m ≡ passes_at (is_cleaned cutoff now) m
passes_at-is_cleaned cutoff now none = refl
passes_at-is_cleaned cutoff now (some m) = is_listed-is_cleaned cutoff now m

contains-occurrences :
    (id : String) (ids : List String) → contains id ids ≡ ltb 0 (occurrences id ids)
contains-occurrences id [] = refl
contains-occurrences id (x ∷ ids) = ground (arith, contains-occurrences id ids)

positive-to_ℕ : (b : Bool) → ltb 0 (to_ℕ b) ≡ b
positive-to_ℕ b = ground arith

delete_messages_by_ids_lem :
    (ids : List String) (s : Memory.Store)
    → s.connected ≡ true
    → delete_messages_by_ids ids s
      ≡ (ok (delete_ids ids s.messages).0, record s { messages = (delete_ids ids s.messages).1 })
unfolding delete_messages_by_ids
delete_messages_by_ids_lem ids s connected = ground (arith, connected)

cleanup_trash_lem :
    (cfg : Config) (trash_retention : ℕ) (stops : ℕ → Bool) (clock : ℕ → Time) (now : Time)
    (s : Service)
    → s.connected ≡ true
    → cfg.has_attachments ≡ true
    → cleanup_trash cfg trash_retention stops clock now s
      ≡ after_scan
          (scan_expired_messages stops clock
            (in_folder folder_trash ∷ [])
            "UpdatedAt"
            (now - trash_retention)
            s.store)
          s
unfolding cleanup_trash
cleanup_trash_lem cfg trash_retention stops clock now s up has = rw (up, cleanup_trash, has) refl

-- With an attachment manager, on a connected and valid backend where no message has the empty
-- identifier, a trash cleanup that is not stopped and sees one instant succeeds, removes exactly the
-- messages in the trash that were last updated before the retention period and are available, and
-- leaves every other entry as it is.
pub cleanup_trash-Exact :
    (cfg : Config) (trash_retention : ℕ) (stops : ℕ → Bool) (clock : ℕ → Time) (now : Time)
    (s : Service)
    → ((n : ℕ) → stops n ≡ false)
    → ((n : ℕ) → clock n ≡ now)
    → s.connected ≡ true
    → s.store.connected ≡ true
    → cfg.has_attachments ≡ true
    → IsValid s.store.messages
    → load "" s.store.messages ≡ none
    → (n : ℕ) × (s' : Service) × (cleanup_trash cfg trash_retention stops clock now s
        ≡ some (record { deleted_count = n; interrupted = false }, ok tt, s'))
      × ((j : String)
          → load j s'.store.messages ≡ (
              if passes_at (is_cleaned (now - trash_retention) now) (load j s.store.messages)
              then none
              else load j s.store.messages))
unfolding build
cleanup_trash-Exact cfg trash_retention stops clock now s runs still up connected has valid
      no_empty =
    let cutoff = now - trash_retention in
    let before : Filter = record {
      key = "updated_at";
      value = Value.scalar (Scalar.instant cutoff);
      operator = "lt";
    } in
    let (sc, scanned, once) =
      scan_expired_messages-Once stops clock (in_folder folder_trash ∷ []) "UpdatedAt" cutoff before
        now s.store runs still connected valid no_empty refl in
    let (won, ms) = delete_ids sc.ids s.store.messages in
    let s' : Service = record s {
      store = record s.store { messages = ms };
      released = s.released ++ references won sc.attachments;
    } in
    let deleted = delete_messages_by_ids_lem sc.ids s.store connected in
    let done = delete_scanned_lem sc s won s'.store deleted in
    (
      length won,
      s',
      cleanup_trash_lem cfg trash_retention stops clock now s up has
          ∙ ap (λ r. after_scan r s) scanned
          ∙ ap (λ r. some (counted r)) done,
      λ j.
          let listed =
            contains-occurrences j sc.ids
            ∙ ap (ltb 0) (once j)
            ∙ positive-to_ℕ
                (passes_at (is_listed (trash_filters cutoff) now) (load j s.store.messages))
            ∙ passes_at-is_cleaned cutoff now (load j s.store.messages) in
          load-delete_ids j sc.ids s.store.messages
          ∙ ap (λ b. if b then none else load j s.store.messages) listed,
    )
