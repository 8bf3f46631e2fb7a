-- ===== src/Presence.antt =====
-- presence/presence.go and presence/memory/tracker.go: who is online, by a count of registrations for
-- each user. The count is an int32, held here as its 32 bits. `Register` hands out a registration,
-- whose `unregistered` flag its own Unregister swaps; `World` is a tracker with the registrations
-- that it has handed out, in order.
pub mod Online
mod Tests
use mailbox.Prelude.{
  ℕ, suc, zero, ◌+◌, ◌%◌, String, Bool, true, false, not, ◌&&◌, Option, none, some, List, [], ◌∷◌,
  ◌++◌, Result, ok, err, eqb, ltb, if◌then◌else◌,
}
use mailbox.SyncMap.{SyncMap, load, store, delete}

pub data Error : Type 0 where
  tracker_closed not_found : Error

pub record RoutingInfo : Type 0 where
  pub instance_id : String
  pub metadata : List (String × String)

abbrev no_routing : RoutingInfo
no_routing = record { instance_id = ""; metadata = [] }

-- RegisterOption: `WithRouting` is the only one there is.
pub data RegisterOption : Type 0 where
  with_routing : RoutingInfo → RegisterOption

-- ApplyRegisterOptions: the last one counts.
unfoldable pub apply_register_options :
    Option RoutingInfo → List RegisterOption → Option RoutingInfo
apply_register_options o [] = o
apply_register_options o (with_routing r ∷ opts) = apply_register_options (some r) opts

pub record UserEntry : Type 0 where
  pub count : ℕ
  pub routing : Option RoutingInfo

pub record Tracker : Type 0 where
  pub users : SyncMap UserEntry
  pub closed : Bool

pub record Registration : Type 0 where
  pub user_id : String
  pub unregistered : Bool

-- int32: `n++`, `n--`, and `n > 0`
abbrev pub increment : ℕ → ℕ
increment n = (n + 1) % 4294967296

abbrev pub decrement : ℕ → ℕ
decrement n = (n + 4294967295) % 4294967296

abbrev pub is_positive : ℕ → Bool
is_positive n = ltb 0 n && ltb n 2147483648

-- The entry, or the new one that Register makes
abbrev pub entry_or_new : Option UserEntry → UserEntry
entry_or_new none = record { count = 0; routing = none }
entry_or_new (some e) = e

abbrev pub newer : Option RoutingInfo → Option RoutingInfo → Option RoutingInfo
newer none old = old
newer (some r) old = some r

-- Register
unfoldable pub register :
    String → List RegisterOption → Tracker → Result Error Registration × Tracker
unfolding apply_register_options
register user_id opts t =
    if t.closed
    then (err tracker_closed, t)
    else (let e = entry_or_new (load user_id t.users) in
        let e' : UserEntry = record {
          count = increment e.count;
          routing = newer (apply_register_options none opts) e.routing;
        } in
        (
          ok (record { user_id = user_id; unregistered = false }),
          record t { users = store user_id e' t.users },
        ))

abbrev has_registration : Option UserEntry → Bool
has_registration none = false
has_registration (some e) = is_positive e.count

-- IsOnline
unfoldable pub is_online : String → Tracker → Result Error Bool
is_online user_id t =
    if t.closed then err tracker_closed else ok (has_registration (load user_id t.users))

abbrev pub online_among : List String → SyncMap UserEntry → List String
online_among [] users = []
online_among (id ∷ ids) users =
    let rest = online_among ids users in
    if has_registration (load id users) then id ∷ rest else rest

-- OnlineUsers
unfoldable pub online_users : List String → Tracker → Result Error (List String)
online_users user_ids t =
    if t.closed then err tracker_closed else ok (online_among user_ids t.users)

abbrev pub location : Option UserEntry → Result Error RoutingInfo
location none = err not_found
location (some e) =
    if eqb e.count 0 then err not_found else elim e.routing [ none ↦ ok no_routing | some r ↦ ok r ]

-- Locate
unfoldable pub locate : String → Tracker → Result Error RoutingInfo
locate user_id t = if t.closed then err tracker_closed else location (load user_id t.users)

-- Close
unfoldable pub close : Tracker → Tracker
close t = record t { closed = true }

-- unregister, under the tracker's lock; it works on a closed tracker too.
unfoldable pub unregister_user : String → Tracker → Tracker
unregister_user user_id t = elim (load user_id t.users) [
  | none ↦ t
  | some e ↦
      let n = decrement e.count in
      if is_positive n
      then record t { users = store user_id (record e { count = n }) t.users }
      else record t { users = delete user_id t.users }
]

-- Unregister: only the call that swaps the flag reaches the tracker.
unfoldable pub unregister : Registration → Tracker → Registration × Tracker
unfolding unregister_user
unregister r t =
    if r.unregistered
    then (r, t)
    else (record r { unregistered = true }, unregister_user r.user_id t)

pub record World : Type 0 where
  pub tracker : Tracker
  pub registrations : List Registration

-- A call on the tracker, or on the registration at a position
pub data Call : Type 0 where
  call_register : String → List RegisterOption → Call
  call_unregister : ℕ → Call
  call_close : Call

unfoldable pub unregister_at : ℕ → List Registration → Tracker → List Registration × Tracker
unfolding unregister
unregister_at i [] t = ([], t)
unregister_at zero (r ∷ rs) t = let (r', t') = unregister r t in (r' ∷ rs, t')
unregister_at (suc i) (r ∷ rs) t = let (rs', t') = unregister_at i rs t in (r ∷ rs', t')

abbrev hand_out : List Registration → Result Error Registration × Tracker → World
hand_out rs (ok r, t) = record { tracker = t; registrations = rs ++ r ∷ [] }
hand_out rs (err e, t) = record { tracker = t; registrations = rs }

unfoldable pub step : Call → World → World
unfolding register unregister_at close
step (Call.call_register user_id opts) w =
    hand_out w.registrations (register user_id opts w.tracker)
step (Call.call_unregister i) w =
    let (rs, t) = unregister_at i w.registrations w.tracker in
    record { tracker = t; registrations = rs }
step Call.call_close w = record w { tracker = close w.tracker }

unfoldable pub run : List Call → World → World
unfolding step
run [] w = w
run (c ∷ cs) w = run cs (step c w)

abbrev pub new : World
new = record { tracker = record { users = []; closed = false }; registrations = [] }
