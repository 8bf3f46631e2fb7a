-- ===== src/Mailbox/Enforcement.antt =====
-- quota_enforce.go: the deletion of the oldest messages of users over their quota. `stops n` is what
-- the context answers at the n-th page, `stops_in n k` before the k-th message of it, `clock n` the
-- reading of the clock in the n-th Find, and `now` that of Count and of the age. What telemetry and the
-- log are told is left out.
pub mod Bounds
pub mod Ending
use mailbox.Prelude.{
  ℕ, zero, suc, ◌+◌, ◌-◌, String, Bool, true, false, not, Option, none, some, List, [], ◌∷◌, ◌++◌,
  Result, ok, err, ltb, leb, eqb, length, map, if◌then◌else◌,
}
use mailbox.Store.{Error, Time, Scalar, Value, ListOptions, asc}
use mailbox.Store.Filter.{Filter, build, owner_is}
use mailbox.Memory
use mailbox.Memory.{Message}
use mailbox.Memory.Write
use mailbox.Memory.Query.{MessageList, find, count}
use mailbox.Mailbox.{Service, Config, MailboxError}
use mailbox.Mailbox.Quota.{QuotaPolicy, reject, delete_oldest}

-- A number that is returned beside an error
abbrev pub Deleted : Type 0
Deleted = ℕ × Result MailboxError (Unit {0}) × Service

abbrev pub quota_delete_batch_size : ℕ
quota_delete_batch_size = 500

module _ (cfg : Config) where
  -- The body of the loop over a page: an error of RemoveRef or HardDelete is only logged.
  abbrev pub release_attachments : Message → Service → Service
  release_attachments m s =
      if cfg.has_attachments
      then record s { released = s.released ++ map (λ a. a.id) m.attachments }
      else s

  -- `deleted++`, unless HardDelete failed
  abbrev pub count_deleted : Result Error (Unit {0}) → ℕ → ℕ
  count_deleted (ok _) n = suc n
  count_deleted (err e) n = n

  -- The loop over a page, from its k-th message: how many it deleted, and whether the context stopped it
  unfoldable pub delete_each : (ℕ → Bool) → ℕ → List Message → Service → ℕ × Bool × Service
  unfolding Write.hard_delete
  delete_each stops_in k [] s = (0, false, s)
  delete_each stops_in k (m ∷ ms) s =
      let s' = release_attachments m s in
      let (r, store') = Write.hard_delete m.id s'.store in
      let (deleted, stopped, s'') =
        delete_each stops_in (suc k) ms (record s' { store = store' }) in
      if stops_in k then (0, true, s) else (count_deleted r deleted, stopped, s'')

  abbrev pub page_limit : ℕ → ℕ
  page_limit remaining =
      if ltb remaining quota_delete_batch_size then remaining else quota_delete_batch_size

  module _ (stops : ℕ → Bool) (stops_in : ℕ → ℕ → Bool) (clock : ℕ → Time) where
    abbrev pub oldest_first : ℕ → ListOptions
    oldest_first limit = record {
      limit = limit;
      offset = 0;
      sort_by = "created_at";
      sort_order = asc;
      start_after = "";
    }

    -- What follows the loop over a page: `rest` is the loop from the next page.
    abbrev pub after_page :
        ℕ → List Message → Service → ℕ × Bool × Service → Option Deleted → Option Deleted
    after_page deleted page s (progress, stopped, s') rest =
        if eqb (length page) 0
        then some (deleted, ok tt, s)
        else if stopped
        then some (deleted + progress, err MailboxError.context_done, s')
        else if eqb progress 0
        then some (deleted, ok tt, s')
        else rest

    -- The loop over the pages; it has `remaining` messages left to delete, of which each page deletes
    -- one at least, and one unit of fuel for each page.
    unfoldable pub delete_pages : List Filter → ℕ → ℕ → ℕ → ℕ → Service → Option Deleted
    unfolding find delete_each
    delete_pages filters zero n remaining deleted s = none
    delete_pages filters (suc fuel) n remaining deleted s = elim (stops n) [
      | true ↦ some (deleted, err MailboxError.context_done, s)
      | false ↦
          if eqb remaining 0
          then some (deleted, ok tt, s)
          else elim (find s.store filters (oldest_first (page_limit remaining)) (clock n)) [
            | err e ↦ some (deleted, err (MailboxError.store_error e), s)
            | ok list ↦
                let after = delete_each (stops_in n) 0 list.messages s in
                after_page deleted list.messages s after (
                  delete_pages filters fuel (suc n) (remaining - after.0) (deleted + after.0)
                    after.2)
          ]
    ]

    abbrev pub over_quota : String → QuotaPolicy → Time → Result Error ℕ → Service → Option Deleted
    over_quota user_id policy now (err e) s = some (0, err (MailboxError.store_error e), s)
    over_quota user_id policy now (ok n) s =
        if leb n policy.max_messages
        then some (0, ok tt, s)
        else elim (build "CreatedAt" "lt"
            (Value.scalar (Scalar.instant (now - policy.delete_older_than)))) [
              | err e ↦ some (0, err (MailboxError.store_error e), s)
              | ok created_before ↦
                  delete_pages (owner_is user_id ∷ created_before ∷ [])
                    (suc (n - policy.max_messages)) 0 (n - policy.max_messages) 0 s
            ]

    abbrev pub by_policy : String → Time → Option (Option QuotaPolicy) → Service → Option Deleted
    by_policy user_id now none s = some (0, err MailboxError.quota_unknown, s)
    by_policy user_id now (some none) s = some (0, ok tt, s)
    by_policy user_id now (some (some policy)) s =
        if eqb policy.max_messages 0 then some (0, ok tt, s) else elim policy.exceed_action [
          | reject ↦ some (0, ok tt, s)
          | delete_oldest ↦
              if eqb policy.delete_older_than 0
              then some (0, ok tt, s)
              else over_quota user_id policy now (count s.store (owner_is user_id ∷ []) now) s
        ]

    -- enforceUserQuota, with the answer of the quota provider
    unfoldable pub enforce_user_quota :
        (String → Option (Option QuotaPolicy)) → String → Time → Service → Option Deleted
    unfolding delete_pages count build
    enforce_user_quota get user_id now s = by_policy user_id now (get user_id) s

-- EnforceQuotasResult
pub record EnforceQuotasResult : Type 0 where
  pub users_checked : ℕ
  pub users_over_quota : ℕ
  pub messages_deleted : ℕ
  pub interrupted : Bool

-- What a user adds to the result; after an error the messages that were deleted are not counted.
abbrev pub tally_user :
    EnforceQuotasResult → ℕ → Result MailboxError (Unit {0}) → EnforceQuotasResult
tally_user r deleted (err e) = record r { users_checked = suc r.users_checked }
tally_user r deleted (ok _) =
    if ltb 0 deleted
    then record r {
      users_checked = suc r.users_checked;
      users_over_quota = suc r.users_over_quota;
      messages_deleted = r.messages_deleted + deleted;
    }
    else record r { users_checked = suc r.users_checked }

-- What the context and the clock answer while the i-th user is looked at
pub record Pass : Type 0 where
  pub context_ended : Bool
  pub stops : ℕ → Bool
  pub stops_in : ℕ → ℕ → Bool
  pub clock : ℕ → Time
  pub now : Time

module _ (cfg : Config) (get : String → Option (Option QuotaPolicy)) (pass : ℕ → Pass) where
  abbrev Enforced : Type 0
  Enforced = EnforceQuotasResult × Result MailboxError (Unit {0}) × Service

  -- The loop over the users
  unfoldable pub enforce_each : ℕ → List String → EnforceQuotasResult → Service → Option Enforced
  unfolding enforce_user_quota
  enforce_each i [] result s = some (result, ok tt, s)
  enforce_each i (user_id ∷ users) result s =
      let p = pass i in
      elim p.context_ended [
        | true ↦ some (record result { interrupted = true }, err MailboxError.context_done, s)
        | false ↦ elim (enforce_user_quota cfg p.stops p.stops_in p.clock get user_id p.now s) [
          | none ↦ none
          | some ended ↦ enforce_each (suc i) users (tally_user result ended.0 ended.1) ended.2
        ]
      ]

  abbrev nothing_enforced : EnforceQuotasResult
  nothing_enforced = record {
    users_checked = 0;
    users_over_quota = 0;
    messages_deleted = 0;
    interrupted = false;
  }

  -- EnforceQuotas; without a quota provider there is nothing to do.
  unfoldable pub enforce_quotas : Bool → List String → Service → Option Enforced
  unfolding enforce_each
  enforce_quotas has_provider users s =
      if not s.connected
      then some (nothing_enforced, err MailboxError.not_connected, s)
      else if has_provider
      then enforce_each 0 users nothing_enforced s
      else some (nothing_enforced, ok tt, s)

  abbrev with_users : Bool → Service → Option (List String) → Option Enforced
  with_users has_provider s none = some (nothing_enforced, err MailboxError.users_unknown, s)
  with_users has_provider s (some users) = enforce_quotas has_provider users s

  -- RunQuotaEnforcement, with what the lister answers, if there is one
  unfoldable pub run_quota_enforcement :
      Bool → Option (Option (List String)) → Service → Option Enforced
  unfolding enforce_quotas
  run_quota_enforcement has_provider lister s = elim lister [
    | none ↦ some (nothing_enforced, err MailboxError.lister_not_configured, s)
    | some users ↦ with_users has_provider s users
  ]
