-- ===== src/Presence/Tests.antt =====
-- Runs of the presence tracker, and an instance of what is proved of it.
use mailbox.Prelude.{◌≡◌, refl, true, List, [], ◌∷◌, arith, ok, is_ok}
use mailbox.SyncMap
use mailbox.SyncMap.{load}
use mailbox.Presence.{Call, run, new, is_online, online_users, locate}
use mailbox.Presence.Online.{online_exact}

abbrev visits : List Call
visits =
    Call.call_register "ann" []
    ∷ Call.call_register "ann" []
    ∷ Call.call_register "bob" []
    ∷ Call.call_unregister 0
    ∷ Call.call_unregister 0
    ∷ Call.call_unregister 2
    ∷ []

online_exact_example :
    (is_online "ann" (run visits new).tracker ≡ ok true)
    × (online_users ("bob" ∷ "ann" ∷ []) (run visits new).tracker ≡ ok ("ann" ∷ []))
    × (is_ok (locate "ann" (run visits new).tracker) ≡ true)
unfolding run load SyncMap.store
online_exact_example = online_exact visits "ann" ("bob" ∷ "ann" ∷ []) (omega arith) refl
