-- ===== src/StatsCache/Refresh.antt =====
-- getOrRefreshStats: what it returns again within the interval.
use mailbox.Prelude.{◌-◌, ◌<◌, String, ◌≡◌, Bool, true, Option, none, some, arith, Result, ok}
use mailbox.SyncMap.{load, load-store_self}
use mailbox.Store.{Error, Time}
use mailbox.Memory.Stats.{MailboxStats}
use mailbox.StatsCache.{StatsCache, get_or_refresh_stats}

module _ (owner : String) (c : StatsCache) (on : c.enabled ≡ true) where
  refresh-entry :
      (fetch : Result Error MailboxStats) (has_l2 : Bool) (l2 : Option MailboxStats) (now : Time)
      (st : MailboxStats)
      → load owner c.entries ≡ none
      → (get_or_refresh_stats fetch has_l2 l2 owner now c).0 ≡ ok st
      → let c' = (get_or_refresh_stats fetch has_l2 l2 owner now c).1 in
        (c'.enabled ≡ true)
        × (c'.interval ≡ c.interval)
        × (load owner c'.entries ≡ some (record { stats = some st; updated_at = now }))
  unfolding get_or_refresh_stats
  refresh-entry fetch has_l2 l2 now st new returned =
      ground (arith, load-store_self owner (record { stats = some st; updated_at = now }) c.entries)

  refresh-hit :
      (fetch : Result Error MailboxStats) (has_l2 : Bool) (l2 : Option MailboxStats) (now : Time)
      (st : MailboxStats) (t : Time)
      → load owner c.entries ≡ some (record { stats = some st; updated_at = t })
      → now - t < c.interval
      → (get_or_refresh_stats fetch has_l2 l2 owner now c).0 ≡ ok st
  unfolding get_or_refresh_stats
  refresh-hit fetch has_l2 l2 now st t there soon = ground (arith, on, there, soon)

-- With the cache on and no entry of the owner, when getOrRefreshStats returns statistics, from the
-- store or from the distributed cache, a second call within the interval, with no event handled and no
-- other call in between, returns the same ones, whatever the store and the distributed cache would
-- answer by then.
pub get_or_refresh_stats_again :
    (owner : String) (c : StatsCache) (fetch : Result Error MailboxStats) (has_l2 : Bool)
    (l2 : Option MailboxStats) (now : Time) (st : MailboxStats)
    → c.enabled ≡ true
    → load owner c.entries ≡ none
    → (get_or_refresh_stats fetch has_l2 l2 owner now c).0 ≡ ok st
    → (later : Time) (fetch' : Result Error MailboxStats) (l2' : Option MailboxStats)
    → later - now < c.interval
    → let c' = (get_or_refresh_stats fetch has_l2 l2 owner now c).1 in
      (get_or_refresh_stats fetch' has_l2 l2' owner later c').0 ≡ ok st
get_or_refresh_stats_again owner c fetch has_l2 l2 now st on new returned later fetch' l2' soon =
    let c' = (get_or_refresh_stats fetch has_l2 l2 owner now c).1 in
    let (on', interval, held) = refresh-entry owner c on fetch has_l2 l2 now st new returned in
    refresh-hit owner c' on' fetch' has_l2 l2' later st now held (omega (arith, soon, interval))
