-- ===== src/Mailbox/Delivery/Eligible.antt =====
-- The first phase of a delivery: who is eligible, and what the checks of quotas leave alone.
use mailbox.Prelude.{
  ◌≤◌, String, ◌≡◌, refl, Option, none, some, List, [], ◌∷◌, arith, All, Bool-cases, Option-cases,
  inl, inr, ltb, contains,
}
use mailbox.Mailbox.{Service, Config, UserMailbox}
use mailbox.Mailbox.Quota.{QuotaPolicy, check_quota_with_policy}
use mailbox.Mailbox.Delivery.{Setting, Draws, allowed_by, may_deliver, eligible_among}
use mailbox.Mailbox.Delivery.Recipients.{occurrences}
use mailbox.Mailbox.Delivery.Counted.{contains-set_key}

-- Nothing is published and nothing is stored.
abbrev pub Quiet : Service → Service → Type 0
Quiet s s' = (s'.published ≡ s.published) × (s'.store ≡ s.store)

module _ (cfg : Config) (st : Setting) (dr : Draws) (u : UserMailbox) where
  check_quota-Quiet :
      (id : String) (policy : QuotaPolicy) (s : Service)
      → Quiet s (check_quota_with_policy st.has_l2 (st.l2 id) id policy dr.now s).1
  unfolding check_quota_with_policy
  check_quota-Quiet id policy s = (ground arith, ground arith)

  allowed_by-Quiet :
      (id : String) (policy : Option QuotaPolicy) (s : Service)
      → Quiet s (allowed_by cfg st dr u id policy s).1
  unfolding check_quota_with_policy
  allowed_by-Quiet id none s = (refl, refl)
  allowed_by-Quiet id (some policy) s =
      let (a, b) = check_quota-Quiet id policy s in (ground (arith, a), ground (arith, b))

  may_deliver-Quiet : (id : String) (s : Service) → Quiet s (may_deliver cfg st dr u id s).1
  unfolding check_quota_with_policy
  may_deliver-Quiet id s = elim (Option-cases st.get_quota) [
    | inl all ↦ (ground (arith, all), ground (arith, all))
    | inr (get, has) ↦ elim (Option-cases (get id)) [
      | inl unknown ↦ (ground (arith, has, unknown), ground (arith, has, unknown))
      | inr (policy, known) ↦
          let (a, b) = allowed_by-Quiet id policy s in
          (ground (arith, has, known, a), ground (arith, has, known, b))
    ]
  ]

  pub eligible_among-Quiet :
      (ids : List String) (s : Service) → Quiet s (eligible_among cfg st dr u ids s).2
  unfolding eligible_among
  eligible_among-Quiet [] s = (refl, refl)
  eligible_among-Quiet (id ∷ ids) s =
      let s' = (may_deliver cfg st dr u id s).1 in
      let (a, b) = may_deliver-Quiet id s in
      let (a', b') = eligible_among-Quiet ids s' in (ground (arith, a, a'), ground (arith, b, b'))

  pub eligible_among-All :
      (P : String → Type 0) (ids : List String) (s : Service)
      → All P ids
      → All P (eligible_among cfg st dr u ids s).0
  unfolding eligible_among
  eligible_among-All P [] s all = tt
  eligible_among-All P (id ∷ ids) s all =
      let s' = (may_deliver cfg st dr u id s).1 in
      elim (Bool-cases (may_deliver cfg st dr u id s).0) [
        | inl allowed ↦ rw allowed (all.0, eligible_among-All P ids s' all.1)
        | inr refused ↦ rw refused (eligible_among-All P ids s' all.1)
      ]

  pub eligible_among-Accounted :
      (x : String) (ids : List String) (s : Service)
      → (occurrences x (eligible_among cfg st dr u ids s).0 ≤ occurrences x ids)
        × (contains x (eligible_among cfg st dr u ids s).1
            ≡ ltb (occurrences x (eligible_among cfg st dr u ids s).0) (occurrences x ids))
  unfolding eligible_among
  eligible_among-Accounted x [] s = (omega arith, refl)
  eligible_among-Accounted x (id ∷ ids) s =
      let s' = (may_deliver cfg st dr u id s).1 in
      let no' = (eligible_among cfg st dr u ids s').1 in
      let (fits, failed) = eligible_among-Accounted x ids s' in
      elim (Bool-cases (may_deliver cfg st dr u id s).0) [
        | inl allowed ↦ rw allowed (ground (arith, fits), ground (arith, fits, failed))
        | inr refused ↦
            rw refused
              (ground (arith, fits), ground (arith, fits, failed, contains-set_key id x no'))
      ]
