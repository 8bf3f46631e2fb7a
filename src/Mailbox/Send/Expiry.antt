-- ===== src/Mailbox/Send/Expiry.antt =====
-- computeTTLFields of send.go: when a message expires and from when it is available.
use mailbox.Prelude.{
  ℕ, ◌+◌, ◌-◌, ◌≤◌, ◌<◌, ◌≡◌, refl, Bool, true, not, ◌&&◌, ◌||◌, Option, none, some, arith, ok, err,
  eqb, leb, Bool-cases, inl, inr, ◌⊎◌, if◌then◌else◌,
}
use mailbox.Store.{Time}
use mailbox.Mailbox.{UserMailbox, MailboxError}
use mailbox.Mailbox.Delivery.{Setting, Draws}
use mailbox.Mailbox.Send.{compute_ttl_fields, effective_ttl, schedule, check_ttl, check_delay}

module _ (st : Setting) (dr : Draws) (u : UserMailbox) where
  -- The instant that a schedule names
  abbrev pub start : Option Time → Time
  start none = dr.now
  start (some t) = if eqb t 0 then dr.now else t

  abbrev pub scheduled : Option Time → Option Time
  scheduled none = none
  scheduled (some t) = if eqb t 0 then none else some t

  abbrev pub expires : ℕ → Option Time → Option Time
  expires ttl at = if eqb ttl 0 then none else some (start at + ttl)

  -- A time to live within the limits; none is within all
  abbrev pub ttl_fits : ℕ → Bool
  ttl_fits ttl = eqb ttl 0 || (leb st.min_ttl ttl && (eqb st.max_ttl 0 || leb ttl st.max_ttl))

  -- A delay within the limits; an instant that is past is within all
  abbrev pub delay_fits : Time → Bool
  delay_fits t =
      leb t dr.now
      || (leb st.min_schedule_delay (t - dr.now)
          && (eqb st.max_schedule_delay 0 || leb (t - dr.now) st.max_schedule_delay))

  abbrev pub schedule_fits : Option Time → Bool
  schedule_fits none = true
  schedule_fits (some t) = eqb t 0 || delay_fits t

  check_ttl_lem :
      (ttl : ℕ)
      → check_ttl st dr u ttl ≡ (if ttl_fits ttl then ok tt else err MailboxError.invalid_ttl)
  check_ttl_lem ttl = ground arith

  check_delay_lem :
      (t : Time)
      → check_delay st dr u t ≡ (if delay_fits t then ok tt else err MailboxError.invalid_schedule)
  check_delay_lem t = ground arith

  schedule_lem :
      (at : Option Time)
      → schedule st dr u at
        ≡ (if schedule_fits at then ok (scheduled at) else err MailboxError.invalid_schedule)
  schedule_lem none = refl
  schedule_lem (some t) = ground (arith, check_delay_lem t)

  -- computeTTLFields
  pub compute_ttl_fields_exact :
      (ttl : ℕ) (at : Option Time)
      → compute_ttl_fields st dr u ttl at ≡ (
          if not (ttl_fits (effective_ttl st dr u ttl))
          then err MailboxError.invalid_ttl
          else if not (schedule_fits at)
          then err MailboxError.invalid_schedule
          else ok (expires (effective_ttl st dr u ttl) at, scheduled at))
  unfolding compute_ttl_fields
  compute_ttl_fields_exact ttl none = ground (arith, check_ttl_lem (effective_ttl st dr u ttl))
  compute_ttl_fields_exact ttl (some t) =
      ground (arith, check_ttl_lem (effective_ttl st dr u ttl), schedule_lem (some t))

  -- Between two limits; an upper limit of 0 is none.
  abbrev pub Within : ℕ → ℕ → ℕ → Type 0
  Within low high x = (low ≤ x) × ((high ≡ 0) ⊎ (x ≤ high))

  Within-ttl :
      (ttl : ℕ) → ttl_fits ttl ≡ true → (ttl ≡ 0) ⊎ (0 < ttl) × Within st.min_ttl st.max_ttl ttl
  Within-ttl ttl fits = ground (arith, fits)

  Within-delay :
      (t : Time)
      → delay_fits t ≡ true
      → (t ≤ dr.now) ⊎ Within st.min_schedule_delay st.max_schedule_delay (t - dr.now)
  Within-delay t fits = ground (arith, fits)

  -- What a result says of the arguments
  inverted :
      (ttl : ℕ) (at expiry available : Option Time)
      → compute_ttl_fields st dr u ttl at ≡ ok (expiry, available)
      → (ttl_fits (effective_ttl st dr u ttl) ≡ true)
        × (schedule_fits at ≡ true)
        × (expiry ≡ expires (effective_ttl st dr u ttl) at)
        × (available ≡ scheduled at)
  inverted ttl at expiry available computed =
      let exact = compute_ttl_fields_exact ttl at in ground (arith, exact, computed)

  expiry_from :
      (ttl : ℕ) (at expiry : Option Time)
      → expiry ≡ expires ttl at
      → (ttl ≡ 0) ⊎ (0 < ttl) × Within st.min_ttl st.max_ttl ttl
      → ((expiry ≡ none) × (ttl ≡ 0)
          ⊎ (expiry ≡ some (start at + ttl)) × (0 < ttl) × Within st.min_ttl st.max_ttl ttl)
  expiry_from ttl at expiry e (inl never) = inl (ground (arith, e, never), never)
  expiry_from ttl at expiry e (inr (some_ttl, fits)) =
      inr (ground (arith, e, some_ttl), some_ttl, fits)

  delay_from :
      (at : Option Time)
      → schedule_fits at ≡ true
      → (start at ≤ dr.now) ⊎ Within st.min_schedule_delay st.max_schedule_delay (start at - dr.now)
  delay_from none fits = inl (omega arith)
  delay_from (some t) fits = elim (Bool-cases (eqb t 0)) [
    | inl unset ↦ inl (ground (arith, unset))
    | inr later ↦ rw later (Within-delay t (ground (arith, fits, later)))
  ]

  -- When the times are computed, the message is available from the instant that the caller schedules,
  -- and at once when there is none or it is the zero instant. It does not expire exactly if neither
  -- the caller nor the settings give a time to live; else it expires that long after the scheduled
  -- instant, or after now when there is none, the time to live is within the configured limits, and
  -- so is the delay of a schedule that is still to come. The caller's time to live goes before that of
  -- the settings. A limit of 0 is none.
  pub compute_ttl_fields-Bounds :
      (ttl : ℕ) (at expiry available : Option Time)
      → compute_ttl_fields st dr u ttl at ≡ ok (expiry, available)
      → let lifetime = if eqb ttl 0 then st.default_ttl else ttl in
        (available ≡ scheduled at)
        × ((expiry ≡ none) × (lifetime ≡ 0)
            ⊎ (expiry ≡ some (start at + lifetime))
              × (0 < lifetime)
              × Within st.min_ttl st.max_ttl lifetime)
        × ((start at ≤ dr.now)
            ⊎ Within st.min_schedule_delay st.max_schedule_delay (start at - dr.now))
  compute_ttl_fields-Bounds ttl at expiry available computed =
      let (fits, delay, e, a) = inverted ttl at expiry available computed in
      let lifetime : ℕ = if eqb ttl 0 then st.default_ttl else ttl in
      (a, expiry_from lifetime at expiry e (Within-ttl lifetime fits), delay_from at delay)
