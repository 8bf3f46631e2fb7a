-- ===== src/Mailbox/Cleanup/Once.antt =====
-- scanExpiredMessages: that it ends, and that it finds every message once.
use mailbox.Prelude.{
  ℕ, suc, ◌≤◌, String, ◌≡◌, refl, ap, ◌∙◌, Bool, true, false, none, some, List, [], ◌∷◌, ◌++◌,
  arith, ◌==◌, to_ℕ, count, length, ok, inl,
}
use mailbox.SyncMap.{SyncMap, load}
use mailbox.Store.{Time, Scalar, Value, unset}
use mailbox.Store.Filter.{Filter, build}
use mailbox.Memory
use mailbox.Memory.{Message, clone}
use mailbox.Memory.Invariant.{IsValid}
use mailbox.Memory.Query.{select, is_listed}
use mailbox.Memory.Query.Pages.{UniqueIds, passes_at, count-select, count-sort_messages}
use mailbox.Memory.Query.Listed.{Entries-weaken, Entries-load}
use mailbox.Mailbox.Delivery.Recipients.{occurrences}
use mailbox.Mailbox.Cleanup.{Scanned, complete, scan_pages, scan_expired_messages}
use mailbox.Mailbox.Cleanup.Scan.{ids_of, Named, scan_order, scan_pages-Completes}

length-select : (p : Message → Bool) (ms : SyncMap Message) → length (select p ms) ≤ length ms
unfolding select
length-select p [] = omega arith
length-select p ((k, m) ∷ ms) = ground (arith, length-select p ms)

count-true : (ms : List Message) → count (λ _. true) ms ≡ length ms
count-true [] = refl
count-true (m ∷ ms) = omega (arith, count-true ms)

length-scan_order :
    (s : Memory.Store) (filters : List Filter) (now : Time)
    → length (scan_order s filters now) ≤ length s.messages
length-scan_order s filters now =
    let listed = select (is_listed filters now) s.messages in
    omega (
      arith,
      count-true (scan_order s filters now),
      count-true listed,
      count-sort_messages (λ _. true) "created_at" unset listed,
      length-select (is_listed filters now) s.messages,
    )

occurrences-ids_of :
    (id : String) (ms : List Message) → occurrences id (ids_of ms) ≡ count (λ m. m.id == id) ms
occurrences-ids_of id [] = refl
occurrences-ids_of id (m ∷ ms) = ground (arith, occurrences-ids_of id ms)

count-scan_order :
    (id : String) (s : Memory.Store) (filters : List Filter) (now : Time)
    → IsValid s.messages
    → count (λ m. m.id == id) (scan_order s filters now)
      ≡ to_ℕ (passes_at (is_listed filters now) (load id s.messages))
count-scan_order id s filters now valid =
    let keyed =
      Entries-weaken (λ k m. load k s.messages ≡ some m) (λ k m. m.id ≡ k) s.messages
        (λ k m there. valid.keyed k m there) (Entries-load s.messages valid.distinct) in
    count-sort_messages (λ m. m.id == id) "created_at" unset
      (select (is_listed filters now) s.messages)
    ∙ count-select (is_listed filters now) id s.messages valid.distinct keyed

to_ℕ-bound : (b : Bool) → to_ℕ b ≤ 1
to_ℕ-bound b = ground arith

scan_expired_messages_lem :
    (stops : ℕ → Bool) (clock : ℕ → Time) (base : List Filter) (time_field : String) (cutoff : Time)
    (before : Filter) (s : Memory.Store)
    → build time_field "lt" (Value.scalar (Scalar.instant cutoff)) ≡ ok before
    → scan_expired_messages stops clock base time_field cutoff s
      ≡ scan_pages stops clock s
          (base ++ before ∷ [])
          (suc (suc (length s.messages)))
          0
          ""
          (record { attachments = []; ids = [] })
unfolding scan_expired_messages
scan_expired_messages_lem stops clock base time_field cutoff before s known =
    rw (known, scan_expired_messages) refl

-- On a connected, valid backend where no message has the empty identifier, a scan that is not stopped
-- and sees one instant ends after its last page, and has then read each message that passes its
-- filters once and no other message.
pub scan_expired_messages-Once :
    (stops : ℕ → Bool) (clock : ℕ → Time) (base : List Filter) (time_field : String) (cutoff : Time)
    (before : Filter) (now : Time) (s : Memory.Store)
    → ((n : ℕ) → stops n ≡ false)
    → ((n : ℕ) → clock n ≡ now)
    → s.connected ≡ true
    → IsValid s.messages
    → load "" s.messages ≡ none
    → build time_field "lt" (Value.scalar (Scalar.instant cutoff)) ≡ ok before
    → (sc : Scanned) × (scan_expired_messages stops clock base time_field cutoff s
        ≡ some (sc, complete))
      × ((id : String)
          → occurrences id sc.ids
            ≡ to_ℕ (passes_at (is_listed (base ++ before ∷ []) now) (load id s.messages)))
scan_expired_messages-Once stops clock base time_field cutoff before now s runs still connected
      valid no_empty known =
    let filters = base ++ before ∷ [] in
    let all = scan_order s filters now in
    let unique : UniqueIds all = λ id.
      let e = count-scan_order id s filters now valid in
      let at_most = to_ℕ-bound (passes_at (is_listed filters now) (load id s.messages)) in
      omega (arith, e, at_most) in
    let named : Named all =
      count-scan_order "" s filters now valid
      ∙ ap (λ m. to_ℕ (passes_at (is_listed filters now) m)) no_empty in
    let empty : Scanned = record { attachments = []; ids = [] } in
    let enough = length-scan_order s filters now in
    let scanned =
      scan_pages-Completes stops clock s filters now runs still connected
        (suc (suc (length s.messages))) 0 [] all "" empty (inl (refl, refl)) refl unique named
        (omega (arith, enough)) in
    (
      scanned.0,
      scan_expired_messages_lem stops clock base time_field cutoff before s known ∙ scanned.1,
      λ id.
          ap (occurrences id) scanned.2
          ∙ occurrences-ids_of id all
          ∙ count-scan_order id s filters now valid,
    )
