-- ===== src/Presence/Online.antt =====
-- What the tracker says, against the registrations that are alive.
use mailbox.Prelude.{
  ℕ, suc, zero, ◌+◌, ◌<◌, ◌≤◌, String, ◌≡◌, refl, Bool, true, false, not, ◌&&◌, Option, none, some,
  List, [], ◌∷◌, ◌++◌, arith, ◌==◌, eq_iff, eq_refl, ltb, to_ℕ, length, count, filter, ok, is_ok,
  ap, inl, inr, Bool-cases, Option-cases,
}
use mailbox.SyncMap.{load, load-store, load-delete}
use mailbox.Presence.{
  RegisterOption, UserEntry, Tracker, Registration, World, Call, locate, is_online, online_users,
  register, unregister_user, unregister, unregister_at, close, step, run, new, online_among,
  entry_or_new, newer, decrement, increment, apply_register_options,
}

abbrev pub is_live : String → Registration → Bool
is_live user r = r.user_id == user && not r.unregistered

-- How many registrations of a user are alive
abbrev pub live : String → List Registration → ℕ
live user rs = count (is_live user) rs

abbrev count_of : Option UserEntry → ℕ
count_of none = 0
count_of (some e) = e.count

-- The tracker's count of each user is the number of live registrations.
abbrev Agrees : World → Type 0
Agrees w = (user : String) → count_of (load user w.tracker.users) ≡ live user w.registrations

live_le : (user : String) (rs : List Registration) → live user rs ≤ length rs
live_le user [] = omega arith
live_le user (r ∷ rs) = ground (arith, live_le user rs)

live-snoc :
    (user : String) (rs : List Registration) (r : Registration)
    → live user (rs ++ r ∷ []) ≡ live user rs + to_ℕ (is_live user r)
live-snoc user [] r = ground arith
live-snoc user (q ∷ rs) r = ground (arith, live-snoc user rs r)

length-snoc : (rs : List Registration) (r : Registration) → length (rs ++ r ∷ []) ≡ length rs + 1
length-snoc [] r = omega arith
length-snoc (q ∷ rs) r = omega (arith, length-snoc rs r)

decrement_lem : (n : ℕ) → 0 < n → n < 2147483648 → decrement n + 1 ≡ n
decrement_lem n low high = omega arith

increment_lem : (n : ℕ) → n < 2147483648 → increment n ≡ n + 1
increment_lem n high = omega arith

unregister_user-count :
    (user : String) (t : Tracker) (other : String)
    → 0 < count_of (load user t.users)
    → count_of (load user t.users) < 2147483648
    → count_of (load other (unregister_user user t).users) + to_ℕ (user == other)
      ≡ count_of (load other t.users)
unfolding unregister_user
unregister_user-count user t other low high = elim (Option-cases (load user t.users)) [
  | inl gone ↦ ground (arith, gone)
  | inr (e, there) ↦ ground (
    arith,
    there,
    decrement_lem e.count,
    load-store user other (record e { count = decrement e.count }) t.users,
    load-delete user other t.users,
    eq_iff user other,
  )
]

-- What Unregister on one of the registrations does: nothing, or it ends a live one.
data Ended (rs : List Registration) (t : Tracker) (r : List Registration × Tracker) : Type 0 where
  nothing : r ≡ (rs, t) → Ended rs t r
  one :
      (user : String) (rs' : List Registration)
      → r ≡ (rs', unregister_user user t)
      → ((other : String) → live other rs ≡ live other rs' + to_ℕ (user == other))
      → length rs' ≡ length rs
      → Ended rs t r

unregister_at-Ended :
    (i : ℕ) (rs : List Registration) (t : Tracker) → Ended rs t (unregister_at i rs t)
unfolding unregister_at unregister
unregister_at-Ended i [] t = Ended.nothing refl
unregister_at-Ended zero (r ∷ rs) t = elim (Bool-cases r.unregistered) [
  | inl over ↦ Ended.nothing (rw over refl)
  | inr alive ↦
      Ended.one r.user_id (record r { unregistered = true } ∷ rs) (rw alive refl)
        (λ other. ground (arith, alive)) refl
]
unregister_at-Ended (suc i) (r ∷ rs) t = elim (unregister_at-Ended i rs t) [
  | Ended.nothing e ↦ Ended.nothing (rw e refl)
  | Ended.one user rs' e lives l ↦
      Ended.one user (r ∷ rs') (rw e refl) (λ other. omega (arith, lives other)) (omega (arith, l))
]

-- The invariant, while fewer registrations than an int32 counts are handed out
module _ (w : World) (agrees : Agrees w) (few : length w.registrations < 2147483647) where
  register-Agrees :
      (user : String) (opts : List RegisterOption) → Agrees (step (Call.call_register user opts) w)
  unfolding step register
  register-Agrees user opts other = elim (Bool-cases w.tracker.closed) [
    | inl shut ↦ rw shut (agrees other)
    | inr up ↦ rw up (
        let e' : UserEntry = record {
          count = increment (entry_or_new (load user w.tracker.users)).count;
          routing =
              newer (apply_register_options none opts)
                (entry_or_new (load user w.tracker.users)).routing;
        } in
        ground (
          arith,
          agrees other,
          agrees user,
          few,
          live_le user w.registrations,
          load-store user other e' w.tracker.users,
          live-snoc other w.registrations (record { user_id = user; unregistered = false }),
          increment_lem (count_of (load user w.tracker.users)),
          eq_iff user other,
        ))
  ]

  unregister-Agrees : (i : ℕ) → Agrees (step (Call.call_unregister i) w)
  unfolding step
  unregister-Agrees i other = elim (unregister_at-Ended i w.registrations w.tracker) [
    | Ended.nothing e ↦ rw e (agrees other)
    | Ended.one user rs' e lives l ↦ rw e (
        omega (
          arith,
          agrees other,
          lives other,
          unregister_user-count user w.tracker other
              (ground (arith, agrees user, lives user, eq_refl user))
              (ground (arith, agrees user, few, live_le user w.registrations)),
        ))
  ]

step-Agrees :
    (c : Call) (w : World) → Agrees w → length w.registrations < 2147483647 → Agrees (step c w)
unfolding step close
step-Agrees (Call.call_register user opts) w agrees few = register-Agrees w agrees few user opts
step-Agrees (Call.call_unregister i) w agrees few = unregister-Agrees w agrees few i
step-Agrees Call.call_close w agrees few = agrees

step-length : (c : Call) (w : World) → length (step c w).registrations ≤ length w.registrations + 1
unfolding step register
step-length (Call.call_register user opts) w = elim (Bool-cases w.tracker.closed) [
  | inl shut ↦ rw shut (omega arith)
  | inr up ↦
      rw up (
        omega
          (arith, length-snoc w.registrations (record { user_id = user; unregistered = false })))
]
step-length (Call.call_unregister i) w = elim (unregister_at-Ended i w.registrations w.tracker) [
  | Ended.nothing e ↦ rw e (omega arith)
  | Ended.one user rs' e lives l ↦ rw e (omega (arith, l))
]
step-length Call.call_close w = omega arith

run-Agrees :
    (cs : List Call) (w : World)
    → Agrees w
    → length w.registrations + length cs < 2147483648
    → Agrees (run cs w)
unfolding run
run-Agrees [] w agrees few = agrees
run-Agrees (c ∷ cs) w agrees few =
    run-Agrees cs (step c w) (step-Agrees c w agrees (omega (arith, few)))
      (omega (arith, few, step-length c w))

online_among-live :
    (ids : List String) (w : World)
    → Agrees w
    → length w.registrations < 2147483648
    → online_among ids w.tracker.users ≡ filter (λ id. ltb 0 (live id w.registrations)) ids
online_among-live [] w agrees few = refl
online_among-live (id ∷ ids) w agrees few =
    ground (arith, online_among-live ids w agrees few, agrees id, live_le id w.registrations)

run-length :
    (cs : List Call) (w : World)
    → length (run cs w).registrations ≤ length w.registrations + length cs
unfolding run
run-length [] w = omega arith
run-length (c ∷ cs) w = omega (arith, run-length cs (step c w), step-length c w)

module _ (w : World) (agrees : Agrees w) (few : length w.registrations < 2147483648)
    (up : w.tracker.closed ≡ false) (user : String) where
  is_online-live : is_online user w.tracker ≡ ok (ltb 0 (live user w.registrations))
  unfolding is_online
  is_online-live = rw up (ground (arith, agrees user, few, live_le user w.registrations))

  locate-live : is_ok (locate user w.tracker) ≡ ltb 0 (live user w.registrations)
  unfolding locate
  locate-live = rw up (ground (arith, agrees user, few, live_le user w.registrations))

-- After any calls of Register, Unregister (several on one registration included) and Close on a new
-- tracker, fewer than 2^31 and with the tracker still open, IsOnline says whether the user has a
-- registration that is alive, OnlineUsers keeps exactly the users that have one, and Locate succeeds
-- exactly for a user that has one.
pub online_exact :
    (cs : List Call) (user : String) (users : List String)
    → length cs < 2147483648
    → (run cs new).tracker.closed ≡ false
    → let w = run cs new in
      (is_online user w.tracker ≡ ok (ltb 0 (live user w.registrations)))
      × (online_users users w.tracker ≡ ok (filter (λ id. ltb 0 (live id w.registrations)) users))
      × (is_ok (locate user w.tracker) ≡ ltb 0 (live user w.registrations))
unfolding online_users load
online_exact cs user users few up =
    let w = run cs new in
    let agrees = run-Agrees cs new (λ u. refl) (omega (arith, few)) in
    let short : length w.registrations < 2147483648 = omega (arith, few, run-length cs new) in
    (
      is_online-live w agrees short up user,
      rw up (ap ok (online_among-live users w agrees short)),
      locate-live w agrees short up user,
    )
