-- ===== src/Mailbox/Quota.antt =====
-- quota.go: the check of a recipient's quota before a delivery. A limit that is not positive is 0.
use mailbox.Prelude.{ℕ, String, Bool, Option, [], ◌∷◌, Result, ok, err, leb, eqb, if◌then◌else◌}
use mailbox.Store.{Error, Time}
use mailbox.Store.Filter.{owner_is}
use mailbox.Memory.Stats.{MailboxStats, mailbox_stats}
use mailbox.Memory.Query.{count}
use mailbox.StatsCache.{get_or_refresh_stats}
use mailbox.Mailbox.{Handler, MailboxError}

pub data QuotaAction : Type 0 where
  reject delete_oldest : QuotaAction

pub record QuotaPolicy : Type 0 where
  pub max_messages : ℕ
  pub exceed_action : QuotaAction
  pub delete_older_than : ℕ

abbrev within : ℕ → Result Error ℕ → Result MailboxError (Unit {0})
within limit (ok n) = if leb limit n then err MailboxError.quota_exceeded else ok tt
within limit (err e) = err (MailboxError.store_error e)

abbrev total_of : Result Error MailboxStats → Result Error ℕ
total_of (ok st) = ok st.total_messages
total_of (err e) = err e

-- checkQuotaWithPolicy: `l2` is what the distributed cache has for the user. The requests to it are
-- left out here.
unfoldable pub check_quota_with_policy :
    Bool → Option MailboxStats → String → QuotaPolicy → Time → Handler (Unit {0})
unfolding get_or_refresh_stats mailbox_stats count
check_quota_with_policy has_l2 l2 user_id policy now s =
    if eqb policy.max_messages 0
    then (ok tt, s)
    else if s.cache.enabled
    then (let (stats, cache, _) =
          get_or_refresh_stats (mailbox_stats s.store user_id now) has_l2 l2 user_id now s.cache in
        (within policy.max_messages (total_of stats), record s { cache = cache }))
    else (within policy.max_messages (count s.store (owner_is user_id ∷ []) now), s)
