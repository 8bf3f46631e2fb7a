-- ===== src/Mailbox/Cleanup/Tests.antt =====
-- Runs of a cleanup and of a quota's enforcement, and instances of what is proved of them.
use mailbox.Prelude.{
  ℕ, String, ◌≡◌, refl, true, false, not, ◌&&◌, none, some, List, [], ◌∷◌, ◌++◌, arith, eq_iff,
  contains, length, ok, if◌then◌else◌,
}
use mailbox.SyncMap.{SyncMap, load}
use mailbox.Store.{folder_inbox, folder_trash}
use mailbox.Store.Filter.{owner_is}
use mailbox.Memory.Matching.{matches_filters}
use mailbox.Memory.{Message}
use mailbox.Memory.Drafts.{new_draft}
use mailbox.Memory.Invariant.{IsValid}
use mailbox.Memory.Query.{count}
use mailbox.Memory.Query.Pages.{passes_at}
use mailbox.Memory.Maintenance.Winners.{present}
use mailbox.Mailbox.{Service, Config}
use mailbox.Mailbox.Quota.{QuotaPolicy, delete_oldest}
use mailbox.Mailbox.Enforcement.{enforce_user_quota}
use mailbox.Mailbox.Enforcement.Ending.{Ends, above_limit, is_removable, enforce_user_quota-Ends}
use mailbox.Mailbox.Cleanup.{Scanned, delete_scanned, cleanup_trash}
use mailbox.Mailbox.Cleanup.Release.{references, delete_scanned_once}
use mailbox.Mailbox.Cleanup.Trash.{is_cleaned, cleanup_trash-Exact}

abbrev old_mail : Message
old_mail = record (new_draft "bob" 3) { id = "m1"; is_draft = false; folder_id = folder_trash }

abbrev new_mail : Message
new_mail = record (new_draft "bob" 90) { id = "m2"; is_draft = false; folder_id = folder_inbox }

abbrev mails : SyncMap Message
mails = ("m1", old_mail) ∷ ("m2", new_mail) ∷ []

abbrev service : Service
service = record {
  connected = true;
  store = record { messages = mails; idempotency_idx = []; external_idx = []; connected = true };
  cache = record { enabled = false; interval = 60; entries = [] };
  published = [];
  released = [];
  referenced = [];
}

abbrev config : Config
config = record { accepts = λ _. true; event_errors_fatal = false; has_attachments = true }

mails-IsValid : IsValid mails
unfolding load
mails-IsValid = record {
  distinct = (refl, (refl, tt));
  keyed = λ id m h. ground (arith, eq_iff "m1" id, eq_iff "m2" id);
}

no_empty : load "" mails ≡ none
unfolding load
no_empty = refl

cleanup_trash-Exact_example :
    (n : ℕ) × (s' : Service) × (cleanup_trash config 30 (λ _. false) (λ _. 100) 100 service
      ≡ some (record { deleted_count = n; interrupted = false }, ok tt, s'))
    × ((j : String)
        → load j s'.store.messages
          ≡ (if passes_at (is_cleaned 70 100) (load j mails) then none else load j mails))
cleanup_trash-Exact_example =
    cleanup_trash-Exact config 30 (λ _. false) (λ _. 100) 100 service (λ n. refl) (λ n. refl) refl
      refl refl mails-IsValid no_empty

abbrev one_seen : Scanned
one_seen = record { attachments = ("m1", "a1" ∷ "a2" ∷ []) ∷ []; ids = "m1" ∷ [] }

abbrev two_seen : Scanned
two_seen = record { attachments = ("m1", "a1" ∷ "a2" ∷ []) ∷ []; ids = "m1" ∷ "m2" ∷ [] }

delete_scanned_once_example :
    (won lost : List String) × ((delete_scanned one_seen service).0 ≡ ok (length won))
    × ((delete_scanned one_seen service).1.released ≡ [] ++ references won one_seen.attachments)
    × ((delete_scanned two_seen (delete_scanned one_seen service).1).0 ≡ ok (length lost))
    × ((delete_scanned two_seen (delete_scanned one_seen service).1).1.released
        ≡ ([] ++ references won one_seen.attachments) ++ references lost two_seen.attachments)
    × ((j : String) → contains j won ≡ (contains j one_seen.ids && present j mails))
    × ((j : String)
        → contains j lost
          ≡ (contains j two_seen.ids && (not (contains j one_seen.ids) && present j mails)))
delete_scanned_once_example = delete_scanned_once one_seen two_seen service refl

abbrev policy : QuotaPolicy
policy = record { max_messages = 1; exceed_action = delete_oldest; delete_older_than = 5 }

-- Two messages are counted and one is allowed, so one may go.
one_over :
    above_limit config
      (λ _. false)
      (λ _ _. false)
      (λ _. 100)
      (some (some policy))
      (count service.store (owner_is "bob" ∷ []) 100)
    ≡ 1
unfolding count matches_filters
one_over = refl

enforce_user_quota-Ends_example :
    Ends config
      (λ _. false)
      (λ _ _. false)
      (λ _. 100)
      (is_removable config (λ _. false) (λ _ _. false) (λ _. 100) "bob" 100 (some (some policy)))
      (above_limit config
        (λ _. false)
        (λ _ _. false)
        (λ _. 100)
        (some (some policy))
        (count service.store (owner_is "bob" ∷ []) 100))
      0
      service
      (enforce_user_quota config
        (λ _. false)
        (λ _ _. false)
        (λ _. 100)
        (λ _. some (some policy))
        "bob"
        100
        service)
enforce_user_quota-Ends_example =
    enforce_user_quota-Ends config (λ _. false) (λ _ _. false) (λ _. 100) (λ _. some (some policy))
      "bob" 100 service mails-IsValid
