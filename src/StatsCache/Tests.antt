-- ===== src/StatsCache/Tests.antt =====
-- A run of the statistics cache, as an instance of what is proved of it.
use mailbox.Prelude.{◌≡◌, refl, true, none, [], arith, ok, err}
use mailbox.SyncMap.{load}
use mailbox.Store.{not_connected}
use mailbox.Memory.Stats.{MailboxStats, empty_stats}
use mailbox.StatsCache.{StatsCache, get_or_refresh_stats}
use mailbox.StatsCache.Refresh.{get_or_refresh_stats_again}

abbrev cold : StatsCache
cold = record { enabled = true; interval = 30; entries = [] }

abbrev seven : MailboxStats
seven = record empty_stats { total_messages = 7 }

get_or_refresh_stats_again_example :
    let c' = (get_or_refresh_stats (ok seven) true none "ann" 100 cold).1 in
    (get_or_refresh_stats (err not_connected) true none "ann" 120 c').0 ≡ ok seven
unfolding get_or_refresh_stats load
get_or_refresh_stats_again_example =
    get_or_refresh_stats_again "ann" cold (ok seven) true none 100 seven refl refl refl 120
      (err not_connected) none (omega arith)
