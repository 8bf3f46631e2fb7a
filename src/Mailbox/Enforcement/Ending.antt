-- ===== src/Mailbox/Enforcement/Ending.antt =====
-- The loop of enforceUserQuota: that it ends, and what it removes.
use mailbox.Prelude.{
  ℕ, zero, suc, ◌+◌, ◌-◌, ◌≤◌, ◌<◌, String, ◌≡◌, refl, Bool, true, Option, some, List, [], ◌∷◌,
  arith, All, length, eqb, leb, Result, ok, err, Bool-cases, Result-cases, ◌⊎◌, inl, inr,
  Option-cases, subst, sym, ap, ◌∙◌, false, if◌then◌else◌,
}
use mailbox.Memory.Maintenance.Winners.{size}
use mailbox.Store.{Error, Time, Scalar, Value}
use mailbox.Store.Filter.{Filter, build, owner_is}
use mailbox.Memory
use mailbox.Memory.{Message}
use mailbox.Memory.Matching.{matches_filters}
use mailbox.Memory.Invariant.{IsValid}
use mailbox.Memory.Query.{find, count, is_listed}
use mailbox.Memory.Query.Listed.{Listed, find-Listed, find-length}
use mailbox.Mailbox.{Service, Config, MailboxError}
use mailbox.Mailbox.Quota.{QuotaAction, QuotaPolicy, reject, delete_oldest}
use mailbox.Mailbox.Enforcement.{
  Deleted, delete_each, page_limit, oldest_first, after_page, delete_pages, over_quota,
  enforce_user_quota,
}
use mailbox.Mailbox.Enforcement.Bounds.{
  is_excess, Removes, Removes-trans, Removable, Deletes, delete_each-Deletes,
}

module _ (cfg : Config) (stops : ℕ → Bool) (stops_in : ℕ → ℕ → Bool) (clock : ℕ → Time)
    (p : Message → Bool) where
  -- A loop that has deleted some messages and may delete more ends; it removes only such messages, and
  -- the number it returns is that of the entries that are gone.
  abbrev pub Ends : ℕ → ℕ → Service → Option Deleted → Type 0
  Ends remaining deleted s r =
      (d : ℕ) × (e : Result MailboxError (Unit {0})) × (s' : Service) × (r ≡ some (d, e, s'))
      × (deleted ≤ d)
      × (d ≤ deleted + remaining)
      × (size s'.store.messages + d ≡ size s.store.messages + deleted)
      × Removes p s.store.messages s'.store.messages

  Ends-here :
      (remaining deleted : ℕ) (e : Result MailboxError (Unit {0})) (s : Service)
      → Ends remaining deleted s (some (deleted, e, s))
  Ends-here remaining deleted e s =
      (deleted, e, s, refl, omega arith, omega arith, refl, λ j. inl refl)

  after_page-Ends :
      (remaining deleted : ℕ) (page : List Message) (s : Service) (after : ℕ × Bool × Service)
      (rest : Option Deleted)
      → length page ≤ remaining
      → Deletes p (length page) s after
      → (0 < after.0 → Ends (remaining - after.0) (deleted + after.0) after.2 rest)
      → Ends remaining deleted s (after_page cfg stops stops_in clock deleted page s after rest)
  after_page-Ends remaining deleted page s (progress, stopped, s') rest fits d next =
      elim (Bool-cases (eqb (length page) 0)) [
        | inl empty ↦ rw empty (Ends-here remaining deleted (ok tt) s)
        | inr some_listed ↦ elim (Bool-cases stopped) [
          | inl interrupted ↦
              rw (some_listed, interrupted)
                (
                  deleted + progress,
                  err MailboxError.context_done,
                  s',
                  refl,
                  omega arith,
                  omega (arith, fits, d.few),
                  omega (arith, d.counted),
                  d.removes,
                )
          | inr going ↦ elim (Bool-cases (eqb progress 0)) [
            | inl stuck ↦
                rw (some_listed, going, stuck)
                  (
                    deleted,
                    ok tt,
                    s',
                    refl,
                    omega arith,
                    omega arith,
                    ground (arith, stuck, d.counted),
                    d.removes,
                  )
            | inr moved ↦
                let (total, e, s'', ends, more, bounded, gone, removes) =
                  next (ground (arith, moved)) in
                rw (some_listed, going, moved)
                  (
                    total,
                    e,
                    s'',
                    ends,
                    omega (arith, more),
                    omega (arith, bounded, fits, d.few),
                    omega (arith, gone, d.counted),
                    Removes-trans p s.store.messages s'.store.messages s''.store.messages d.removes
                        removes,
                  )
          ]
        ]
      ]

  All-Removable :
      (s : Memory.Store) (filters : List Filter) (now : Time) (page : List Message)
      → ((now : Time) (m : Message) → is_listed filters now m ≡ true → p m ≡ true)
      → All (Listed s filters now) page
      → All (λ m. Removable p s.messages m.id) page
  All-Removable s filters now [] passes all = tt
  All-Removable s filters now (m ∷ page) passes all =
      (inr (m, all.0.0, passes now m all.0.1), All-Removable s filters now page passes all.1)

  page_limit-Fits :
      (remaining : ℕ)
      → 0 < remaining
      → (0 < page_limit cfg remaining) × (page_limit cfg remaining ≤ remaining)
  page_limit-Fits remaining more = (ground (arith, more), ground (arith, more))

  delete_pages-Ends :
      (filters : List Filter) (fuel n remaining deleted : ℕ) (s : Service)
      → ((now : Time) (m : Message) → is_listed filters now m ≡ true → p m ≡ true)
      → IsValid s.store.messages
      → remaining < fuel
      → Ends remaining deleted s
          (delete_pages cfg stops stops_in clock filters fuel n remaining deleted s)
  unfolding delete_pages
  delete_pages-Ends filters zero n remaining deleted s passes valid enough =
      absurd (omega (arith, enough))
  delete_pages-Ends filters (suc fuel) n remaining deleted s passes valid enough =
      let opts = oldest_first cfg stops stops_in clock (page_limit cfg remaining) in
      elim (Bool-cases (stops n)) [
        | inl stopped ↦
            rw (stopped, delete_pages)
              (Ends-here remaining deleted (err MailboxError.context_done) s)
        | inr going ↦ elim (Bool-cases (eqb remaining 0)) [
          | inl done ↦ rw (going, delete_pages, done) (Ends-here remaining deleted (ok tt) s)
          | inr more ↦ elim (Result-cases (find s.store filters opts (clock n))) [
            | inr (e, failed) ↦
                rw (going, delete_pages, more, failed)
                  (Ends-here remaining deleted (err (MailboxError.store_error e)) s)
            | inl (list, found) ↦
                let after = delete_each cfg (stops_in n) 0 list.messages s in
                let (positive, fits) = page_limit-Fits remaining (ground (arith, more)) in
                let short = find-length s.store filters opts (clock n) list found refl positive in
                let listed = find-Listed s.store filters opts (clock n) list valid found in
                let d =
                  delete_each-Deletes p cfg (stops_in n) 0 list.messages s valid
                    (All-Removable s.store filters (clock n) list.messages passes listed) in
                rw (going, delete_pages, more, found)
                  (after_page-Ends remaining deleted list.messages s after
                    (delete_pages cfg stops stops_in clock filters fuel (suc n)
                      (remaining - after.0) (deleted + after.0) after.2)
                    (omega (arith, short, fits)) d
                    (λ some_gone.
                      delete_pages-Ends filters fuel (suc n) (remaining - after.0)
                        (deleted + after.0) after.2 passes d.valid
                        (omega (arith, enough, some_gone))))
          ]
        ]
      ]

abbrev pub excess_filters : String → Time → List Filter
excess_filters user_id cutoff =
    owner_is user_id
    ∷ record { key = "created_at"; value = Value.scalar (Scalar.instant cutoff); operator = "lt" }
    ∷ []

is_listed-is_excess :
    (user_id : String) (cutoff now : Time) (m : Message)
    → is_listed (excess_filters user_id cutoff) now m ≡ true
    → is_excess user_id cutoff m ≡ true
unfolding matches_filters
is_listed-is_excess user_id cutoff now m h = ground (arith, h)

action_cases : (a : QuotaAction) → (a ≡ reject) ⊎ (a ≡ delete_oldest)
action_cases reject = inl refl
action_cases delete_oldest = inr refl

module _ (cfg : Config) (stops : ℕ → Bool) (stops_in : ℕ → ℕ → Bool) (clock : ℕ → Time) where
  over_quota-Ends :
      (user_id : String) (policy : QuotaPolicy) (now : Time) (total : ℕ) (s : Service)
      → IsValid s.store.messages
      → Ends cfg stops stops_in clock
          (is_excess user_id (now - policy.delete_older_than))
          (total - policy.max_messages)
          0
          s
          (over_quota cfg stops stops_in clock user_id policy now (ok total) s)
  unfolding build
  over_quota-Ends user_id policy now total s valid =
      let cutoff = now - policy.delete_older_than in
      let p = is_excess user_id cutoff in
      let excess = total - policy.max_messages in
      elim (Bool-cases (leb total policy.max_messages)) [
        | inl within ↦ rw within (Ends-here cfg stops stops_in clock p excess 0 (ok tt) s)
        | inr over ↦ rw over (
            delete_pages-Ends cfg stops stops_in clock p (excess_filters user_id cutoff)
              (suc excess) 0 excess 0 s (is_listed-is_excess user_id cutoff) valid (omega arith))
      ]

  -- How many messages an enforcement may delete, by the answers of the quota provider and of Count:
  -- those above a limit that is set
  abbrev pub above_limit : Option (Option QuotaPolicy) → Result Error ℕ → ℕ
  above_limit (some (some policy)) (ok total) =
      if eqb policy.max_messages 0 then 0 else total - policy.max_messages
  above_limit _ _ = 0

  -- Which ones: none without a policy
  abbrev pub is_removable : String → Time → Option (Option QuotaPolicy) → Message → Bool
  is_removable user_id now (some (some policy)) m =
      is_excess user_id (now - policy.delete_older_than) m
  is_removable user_id now _ m = false

  with_policy-Ends :
      (get : String → Option (Option QuotaPolicy)) (user_id : String) (policy : QuotaPolicy)
      (now : Time) (s : Service)
      → IsValid s.store.messages
      → get user_id ≡ some (some policy)
      → Ends cfg stops stops_in clock
          (is_excess user_id (now - policy.delete_older_than))
          (above_limit (some (some policy)) (count s.store (owner_is user_id ∷ []) now))
          0
          s
          (enforce_user_quota cfg stops stops_in clock get user_id now s)
  unfolding enforce_user_quota
  with_policy-Ends get user_id policy now s valid known =
      let p = is_excess user_id (now - policy.delete_older_than) in
      let answer = count s.store (owner_is user_id ∷ []) now in
      let most = above_limit (some (some policy)) answer in
      let idle = Ends-here cfg stops stops_in clock p most 0 (ok tt) s in
      elim (Bool-cases (eqb policy.max_messages 0)) [
        | inl unlimited ↦
            rw (known, unlimited)
              (Ends-here cfg stops stops_in clock p (above_limit (some (some policy)) answer) 0
                (ok tt) s)
        | inr limited ↦ elim (action_cases policy.exceed_action) [
          | inl rejects ↦ rw (known, limited, rejects) idle
          | inr trims ↦ elim (Bool-cases (eqb policy.delete_older_than 0)) [
            | inl ageless ↦ rw (known, limited, trims, ageless) idle
            | inr aged ↦ elim (Result-cases answer) [
              | inr (e, failed) ↦
                  rw (known, limited, trims, aged, failed)
                    (Ends-here cfg stops stops_in clock p 0 0 (err (MailboxError.store_error e)) s)
              | inl (total, counted) ↦
                  let bound : most ≡ total - policy.max_messages = rw (counted, limited) refl in
                  subst
                    (λ n.
                      Ends cfg stops stops_in clock p n 0 s
                        (enforce_user_quota cfg stops stops_in clock get user_id now s))
                    (sym bound)
                    (rw (known, limited, trims, aged, counted)
                      (over_quota-Ends user_id policy now total s valid))
            ]
          ]
        ]
      ]

  -- The enforcement of a quota on a valid backend always ends, wherever the context stops it, and
  -- returns the number of entries that are gone. They are at most as many as the user's messages exceed
  -- the limit of the policy by, none when there is no policy, the limit is not set or the messages
  -- cannot be counted; and all that it changes is that messages of this user, no drafts, that are
  -- older than the policy's age are gone.
  pub enforce_user_quota-Ends :
      (get : String → Option (Option QuotaPolicy)) (user_id : String) (now : Time) (s : Service)
      → IsValid s.store.messages
      → Ends cfg stops stops_in clock
          (is_removable user_id now (get user_id))
          (above_limit (get user_id) (count s.store (owner_is user_id ∷ []) now))
          0
          s
          (enforce_user_quota cfg stops stops_in clock get user_id now s)
  unfolding enforce_user_quota
  enforce_user_quota-Ends get user_id now s valid = elim (Option-cases (get user_id)) [
    | inl unknown ↦
        rw unknown
          (Ends-here cfg stops stops_in clock (λ m. false) 0 0 (err MailboxError.quota_unknown) s)
    | inr (answer, known) ↦ elim (Option-cases answer) [
      | inl free ↦ rw (known, free) (Ends-here cfg stops stops_in clock (λ m. false) 0 0 (ok tt) s)
      | inr (policy, set) ↦
          let known' : get user_id ≡ some (some policy) = known ∙ ap some set in
          subst
            (λ q.
              Ends cfg stops stops_in clock (is_removable user_id now q)
                (above_limit q (count s.store (owner_is user_id ∷ []) now)) 0 s
                (enforce_user_quota cfg stops stops_in clock get user_id now s))
            (sym known') (with_policy-Ends get user_id policy now s valid known')
    ]
  ]
