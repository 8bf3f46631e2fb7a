-- ===== src/Mailbox/Delivery/Settled.antt =====
-- What the third phase of a delivery adds to its results, recipient by recipient.
use mailbox.Prelude.{
  ℕ, ◌+◌, ◌≤◌, String, ◌≡◌, refl, Bool, true, false, List, [], ◌∷◌, ◌++◌, arith, sym, filter, ◌∙◌,
  map, length, Result, ok, err, ◌&&◌, ◌||◌, ◌==◌, to_ℕ, ltb, contains,
}
use mathlib.Core.List.{append_assoc, append-nil}
use mailbox.Store.{Error}
use mailbox.Memory.{Message}
use mailbox.StatsCache.{Event}
use mailbox.Mailbox.{Service, Config, UserMailbox, MailboxError}
use mailbox.Mailbox.Attachments.{add_attachment_refs}
use mailbox.Mailbox.Attachments.References.{add_attachment_refs-published}
use mailbox.Mailbox.Delivery.{
  Setting, Draws, Delivered, set_key, after_refs, ref_copy, after_copy, settle_copy, settle_all,
}
use mailbox.Mailbox.Delivery.Recipients.{occurrences}
use mailbox.Mailbox.Delivery.Counted.{occurrences-append, old_copy, old_copies, contains-set_key}

-- The received events that the bus accepts
abbrev pub received : Config → UserMailbox → List String → List Event
received cfg u ids = filter cfg.accepts (map (λ id. Event.message_received id u.user_id) ids)

received-append :
    (cfg : Config) (u : UserMailbox) (xs ys : List String)
    → received cfg u (xs ++ ys) ≡ received cfg u xs ++ received cfg u ys
received-append cfg u [] ys = refl
received-append cfg u (x ∷ xs) ys = ground (arith, received-append cfg u xs ys)

-- What a delivery to `ids` adds, where so many results of each say that the copy was there already:
-- recipients that are accounted for, and a received event for each new copy
pub record Adds (cfg : Config) (u : UserMailbox) (ids : List String) (old : String → ℕ)
    (d d' : Delivered) (s s' : Service) : Type 0 where
  pub more : (id : String) → occurrences id d.delivered_to ≤ occurrences id d'.delivered_to
  pub few :
      (id : String)
      → occurrences id d'.delivered_to ≤ occurrences id d.delivered_to + occurrences id ids
  pub failures :
      (id : String)
      → contains id d'.failed
        ≡ contains id d.failed
          || ltb
              (occurrences id d'.delivered_to)
              (occurrences id d.delivered_to + occurrences id ids)
  pub created : List String
  pub newly : d'.newly_delivered ≡ d.newly_delivered ++ created
  pub among :
      (id : String)
      → occurrences id d'.delivered_to
        ≡ occurrences id d.delivered_to + occurrences id created + old id
  pub events : s'.published ≡ s.published ++ received cfg u created

module _ (cfg : Config) (st : Setting) (dr : Draws) (u : UserMailbox) where
  after_refs-published :
      (m : Message) (s : Service) (r : Result MailboxError (Unit {0}) × Service)
      → r.1.published ≡ s.published
      → (after_refs cfg st dr u m r).1.published ≡ s.published
  after_refs-published m s (ok _, s') same = same
  after_refs-published m s (err e, s') same = ground (arith, same)

  ref_copy-published :
      (m : Message) (s : Service) → (ref_copy cfg st dr u m s).1.published ≡ s.published
  ref_copy-published m s =
      after_refs-published m s (add_attachment_refs cfg st.refuses_ref m s)
        (add_attachment_refs-published cfg st.refuses_ref m s)

  pub no_change : (d : Delivered) (s : Service) → Adds cfg u [] (λ id. 0) d d s s
  no_change d s = record {
    more = λ id. omega arith;
    few = λ id. omega arith;
    failures = λ id. ground arith;
    created = [];
    newly = sym (append-nil d.newly_delivered);
    among = λ id. omega arith;
    events = sym (append-nil s.published);
  }

  pub joined :
      (xs ys : List String) (old old' : String → ℕ) (d d' d'' : Delivered) (s s' s'' : Service)
      → Adds cfg u xs old d d' s s'
      → Adds cfg u ys old' d' d'' s' s''
      → Adds cfg u (xs ++ ys) (λ id. old id + old' id) d d'' s s''
  joined xs ys old old' d d' d'' s s' s'' a b = record {
    more = λ id. omega (arith, a.more id, b.more id);
    few = λ id. omega (arith, a.few id, b.few id, occurrences-append id xs ys);
    failures = λ id. ground (
      arith,
      a.more id,
      b.more id,
      a.few id,
      b.few id,
      a.failures id,
      b.failures id,
      occurrences-append id xs ys,
    );
    created = a.created ++ b.created;
    newly = ground (arith, a.newly, b.newly, append_assoc d.newly_delivered a.created b.created);
    among = λ id. omega (arith, a.among id, b.among id, occurrences-append id a.created b.created);
    events = ground (
      arith,
      a.events,
      b.events,
      received-append cfg u a.created b.created,
      append_assoc s.published (received cfg u a.created) (received cfg u b.created),
    );
  }

  failed-Adds :
      (id : String) (d : Delivered) (s s' : Service)
      → s'.published ≡ s.published
      → Adds cfg u (id ∷ []) (λ x. 0) d (record d { failed = set_key id d.failed }) s s'
  failed-Adds id d s s' same = record {
    more = λ x. omega arith;
    few = λ x. omega arith;
    failures = λ x. ground (arith, contains-set_key id x d.failed);
    created = [];
    newly = sym (append-nil d.newly_delivered);
    among = λ x. omega arith;
    events = same ∙ sym (append-nil s.published);
  }

  -- One more copy is delivered, a new one or an old one.
  delivered-more :
      (id : String) (d : Delivered) (x : String)
      → occurrences x (d.delivered_to ++ id ∷ [])
        ≡ occurrences x d.delivered_to + (to_ℕ (id == x) + 0)
  delivered-more id d x = occurrences-append x d.delivered_to (id ∷ [])

  after_copy-Adds :
      (id : String) (d : Delivered) (s : Service) (r : Result MailboxError Message × Service)
      → r.1.published ≡ s.published
      → Adds cfg u
          (id ∷ [])
          (λ x. 0)
          d
          (after_copy cfg st dr u id d r).0
          s
          (after_copy cfg st dr u id d r).1
  after_copy-Adds id d s (err e, s') same = failed-Adds id d s s' same
  after_copy-Adds id d s (ok m, s') same = record {
    more = λ x. ground (arith, delivered-more id d x);
    few = λ x. ground (arith, delivered-more id d x);
    failures = λ x. ground (arith, delivered-more id d x);
    created = id ∷ [];
    newly = refl;
    among = λ x. ground (arith, delivered-more id d x);
    events = ground (arith, same, append-nil s.published);
  }

  with_old :
      (ids : List String) (d d' : Delivered) (s s' : Service) (old : String → ℕ) {old' : String → ℕ}
      → ((x : String) → old x ≡ old' x)
      → Adds cfg u ids old d d' s s'
      → Adds cfg u ids old' d d' s s'
  with_old ids d d' s s' old same a = record {
    more = a.more;
    few = a.few;
    failures = a.failures;
    created = a.created;
    newly = a.newly;
    among = λ id. omega (arith, a.among id, same id);
    events = a.events;
  }

  settle_copy-Adds :
      (id : String) (r : Result Error (Message × Bool)) (d : Delivered) (s : Service)
      → Adds cfg u
          (id ∷ [])
          (λ x. to_ℕ (id == x && old_copy r))
          d
          (settle_copy cfg st dr u id r d s).0
          s
          (settle_copy cfg st dr u id r d s).1
  settle_copy-Adds id (err e) d s =
      with_old (id ∷ []) d (record d { failed = set_key id d.failed }) s s (λ x. 0)
        (λ x. ground arith) (failed-Adds id d s s refl)
  settle_copy-Adds id (ok (m, true)) d s =
      let after = after_copy cfg st dr u id d (ref_copy cfg st dr u m s) in
      with_old (id ∷ []) d after.0 s after.1 (λ x. 0) (λ x. ground arith)
        (after_copy-Adds id d s (ref_copy cfg st dr u m s) (ref_copy-published m s))
  settle_copy-Adds id (ok (m, false)) d s = record {
    more = λ x. ground (arith, delivered-more id d x);
    few = λ x. ground (arith, delivered-more id d x);
    failures = λ x. ground (arith, delivered-more id d x);
    created = [];
    newly = sym (append-nil d.newly_delivered);
    among = λ x. ground (arith, delivered-more id d x);
    events = sym (append-nil s.published);
  }

  pub settle_all-Adds :
      (ids : List String) (rs : List (Result Error (Message × Bool))) (d : Delivered) (s : Service)
      → length rs ≡ length ids
      → Adds cfg u ids
          (λ id. old_copies id ids rs)
          d
          (settle_all cfg st dr u ids rs d s).0
          s
          (settle_all cfg st dr u ids rs d s).1
  unfolding settle_all
  settle_all-Adds [] [] d s same = no_change d s
  settle_all-Adds [] (r ∷ rs) d s same = no_change d s
  settle_all-Adds (id ∷ ids) [] d s same = absurd (omega (arith, same))
  settle_all-Adds (id ∷ ids) (r ∷ rs) d s same =
      let d' = (settle_copy cfg st dr u id r d s).0 in
      let s' = (settle_copy cfg st dr u id r d s).1 in
      joined (id ∷ []) ids (λ x. to_ℕ (id == x && old_copy r)) (λ x. old_copies x ids rs) d d'
        (settle_all cfg st dr u ids rs d' s').0 s s' (settle_all cfg st dr u ids rs d' s').1
        (settle_copy-Adds id r d s) (settle_all-Adds ids rs d' s' (omega (arith, same)))
