-- ===== src/Mailbox/Cleanup/Scan.antt =====
-- The loop over the pages of scanExpiredMessages: it ends after the last page with all of them read.
use mailbox.Prelude.{
  ℕ, zero, suc, ◌≤◌, ◌<◌, String, ◌≡◌, refl, sym, ap, ◌∙◌, subst, Bool, true, false, Option, some,
  List, [], ◌∷◌, ◌++◌, arith, ◌==◌, map, count, length, take, drop, take-append-drop, eqb, ltb, ok,
  Bool-cases, inl, inr, ◌⊎◌, if◌then◌else◌,
}
use mathlib.Core.List.{append_assoc, append-nil, map-append}
use mailbox.SyncMap.{store}
use mailbox.Store.{Time, ListOptions, unset}
use mailbox.Store.Filter.{Filter}
use mailbox.Memory
use mailbox.Memory.{Message, clone}
use mailbox.Memory.Query.{MessageList, find, paginate, sort_messages, select, is_listed}
use mailbox.Memory.Query.Pages.{
  next_page, UniqueIds, paginate-first, paginate-next, take_all, count-append, length-append,
}
use mailbox.Mailbox.Cleanup.{
  Scanned, ScanEnd, complete, scan_batch_size, scan_page, page_after, after_find, last_id,
  scan_pages,
}

abbrev pub ids_of : List Message → List String
ids_of ms = map (λ m. m.id) ms

clones : (ms : List Message) → map clone ms ≡ ms
clones [] = refl
clones (m ∷ ms) = ap (λ t. m ∷ t) (clones ms)

scan_page-ids : (ms : List Message) (sc : Scanned) → (scan_page ms sc).ids ≡ sc.ids ++ ids_of ms
unfolding scan_page
scan_page-ids [] sc = sym (append-nil sc.ids)
scan_page-ids (m ∷ ms) sc =
    let ids = map (λ a. a.id) m.attachments in
    let sc' : Scanned = record {
      ids = sc.ids ++ m.id ∷ [];
      attachments = if ltb 0 (length ids) then store m.id ids sc.attachments else sc.attachments;
    } in
    scan_page-ids ms sc' ∙ append_assoc sc.ids (m.id ∷ []) (ids_of ms)

-- The last message of a page
split_last :
    (x : Message) (xs : List Message)
    → (before : List Message) × (m : Message) × (x ∷ xs ≡ before ++ m ∷ [])
      × (last_id (x ∷ xs) ≡ m.id)
split_last x [] = ([], x, refl, refl)
split_last x (y ∷ ys) =
    let (before, m, same, last) = split_last y ys in (x ∷ before, m, ap (λ t. x ∷ t) same, last)

-- A cursor stands for the messages that were listed before it.
abbrev pub Cursor : List Message → String → Type 0
Cursor seen cursor =
    (seen ≡ []) × (cursor ≡ "")
    ⊎ (before : List Message) × (m : Message) × (seen ≡ before ++ m ∷ []) × (cursor ≡ m.id)

-- No message has the empty identifier.
abbrev pub Named : List Message → Type 0
Named ms = count (λ m. m.id == "") ms ≡ 0

Named-at :
    (before rest : List Message) (m : Message) → Named (before ++ m ∷ rest) → (m.id == "") ≡ false
Named-at before rest m named =
    ground (arith, named, count-append (λ m. m.id == "") before (m ∷ rest))

paginate-Cursor :
    (limit : ℕ) (seen rest : List Message) (cursor : String)
    → 0 < limit
    → Cursor seen cursor
    → UniqueIds (seen ++ rest)
    → Named (seen ++ rest)
    → paginate cursor limit (seen ++ rest) ≡ next_page limit seen rest
paginate-Cursor limit seen rest cursor positive (inl (none_seen, start)) unique named =
    rw (none_seen, start) (paginate-first limit rest positive)
paginate-Cursor limit seen rest cursor positive (inr (before, m, same, at)) unique named =
    let shift : seen ++ rest ≡ before ++ m ∷ rest =
      ap (λ t. t ++ rest) same ∙ append_assoc before (m ∷ []) rest in
    let page =
      paginate-next limit before rest m positive (Named-at before rest m (subst Named shift named))
        (subst UniqueIds shift unique) in
    ap (λ t. paginate cursor limit t) shift
    ∙ ap (λ c. paginate c limit (before ++ m ∷ rest)) at
    ∙ page
    ∙ ap (λ t. next_page limit t rest) (sym same)

ltb_le : (a b : ℕ) → ltb a b ≡ true → a ≤ b
ltb_le a b h = ground (arith, h)

ltb_ge : (a b : ℕ) → ltb a b ≡ false → b ≤ a
ltb_ge a b h = ground (arith, h)

length_taken : (n : ℕ) (ms : List Message) → n ≤ length ms → length (take n ms) ≡ n
length_taken zero ms fits = refl
length_taken (suc n) [] fits = absurd (omega (arith, fits))
length_taken (suc n) (m ∷ ms) fits = omega (arith, length_taken n ms (omega (arith, fits)))

Cursor-after : (seen page : List Message) → 0 < length page → Cursor (seen ++ page) (last_id page)
Cursor-after seen [] some_listed = absurd (omega (arith, some_listed))
Cursor-after seen (x ∷ xs) some_listed =
    let (before, m, same, last) = split_last x xs in
    inr
      (seen ++ before, m, ap (λ t. seen ++ t) same ∙ sym (append_assoc seen before (m ∷ [])), last)

find-paginate :
    (s : Memory.Store) (filters : List Filter) (opts : ListOptions) (now : Time)
    → s.connected ≡ true
    → find s filters opts now
      ≡ ok (
          paginate opts.start_after opts.limit (
            sort_messages
              (if opts.sort_by == "" then "created_at" else opts.sort_by)
              opts.sort_order
              (select (is_listed filters now) s.messages)))
unfolding find
find-paginate s filters opts now connected = ground (arith, connected)

-- The order in which a scan lists
abbrev pub scan_order : Memory.Store → List Filter → Time → List Message
scan_order s filters now =
    sort_messages "created_at" unset (select (is_listed filters now) s.messages)

module _ (stops : ℕ → Bool) (clock : ℕ → Time) (s : Memory.Store) (filters : List Filter)
    (now : Time) (runs : (n : ℕ) → stops n ≡ false) (still : (n : ℕ) → clock n ≡ now)
    (connected : s.connected ≡ true) where
  abbrev pub Completes : List Message → Scanned → Option (Scanned × ScanEnd) → Type 0
  Completes rest sc r =
      (sc' : Scanned) × (r ≡ some (sc', complete)) × (sc'.ids ≡ sc.ids ++ ids_of rest)

  scan_pages_step :
      (fuel n : ℕ) (cursor : String) (sc : Scanned) (list : MessageList)
      → find s filters (page_after cursor) now ≡ ok list
      → scan_pages stops clock s filters (suc fuel) n cursor sc
        ≡ after_find
            (ok list)
            sc
            (λ cursor' sc'. scan_pages stops clock s filters fuel (suc n) cursor' sc')
  unfolding scan_pages
  scan_pages_step fuel n cursor sc list found =
      let next : String → Scanned → Option (Scanned × ScanEnd) =
        λ cursor' sc'. scan_pages stops clock s filters fuel (suc n) cursor' sc' in
      let e = ap (λ t. find s filters (page_after cursor) t) (still n) ∙ found in
      rw (runs n, scan_pages) (ap (λ r. after_find r sc next) e)

  pub scan_pages-Completes :
      (fuel n : ℕ) (seen rest : List Message) (cursor : String) (sc : Scanned)
      → Cursor seen cursor
      → scan_order s filters now ≡ seen ++ rest
      → UniqueIds (seen ++ rest)
      → Named (seen ++ rest)
      → length rest < fuel
      → Completes rest sc (scan_pages stops clock s filters fuel n cursor sc)
  scan_pages-Completes zero n seen rest cursor sc at all unique named enough =
      absurd (omega (arith, enough))
  scan_pages-Completes (suc fuel) n seen rest cursor sc at all unique named enough =
      let opts = page_after cursor in
      let found : find s filters opts now ≡ ok (next_page scan_batch_size seen rest) =
        find-paginate s filters opts now connected
        ∙ ap (λ t. ok (paginate cursor scan_batch_size t)) all
        ∙ ap ok (paginate-Cursor scan_batch_size seen rest cursor (omega arith) at unique named) in
      let page = take scan_batch_size rest in
      let left = drop scan_batch_size rest in
      let split : page ++ left ≡ rest = take-append-drop scan_batch_size rest in
      let sc' = scan_page (map clone page) sc in
      let read : sc'.ids ≡ sc.ids ++ ids_of page =
        scan_page-ids (map clone page) sc ∙ ap (λ t. sc.ids ++ ids_of t) (clones page) in
      elim (Bool-cases (ltb scan_batch_size (length rest))) [
        | inr last ↦
            let whole = take_all scan_batch_size rest (ltb_ge scan_batch_size (length rest) last) in
            rw (scan_pages_step fuel n cursor sc (next_page scan_batch_size seen rest) found, last)
              (sc', refl, read ∙ ap (λ t. sc.ids ++ ids_of t) whole)
        | inl more ↦
            let size : length page ≡ scan_batch_size =
              length_taken scan_batch_size rest (ltb_le scan_batch_size (length rest) more) in
            let size' : eqb (length (map clone page)) 0 ≡ false =
              ap (λ k. eqb k 0) (ap length (clones page) ∙ size) in
            let at' = Cursor-after seen page (omega (arith, size)) in
            let again : seen ++ rest ≡ (seen ++ page) ++ left =
              ap (λ t. seen ++ t) (sym split) ∙ sym (append_assoc seen page left) in
            let rec =
              scan_pages-Completes fuel (suc n) (seen ++ page) left (last_id (map clone page)) sc'
                (rw (clones page) at') (all ∙ again) (subst UniqueIds again unique)
                (subst Named again named)
                (omega (arith, enough, ap length split, length-append page left, size)) in
            rw
              (
                scan_pages_step fuel n cursor sc (next_page scan_batch_size seen rest) found,
                more,
                size',
              )
              (
                rec.0,
                rec.1,
                rec.2
                    ∙ ap (λ t. t ++ ids_of left) read
                    ∙ append_assoc sc.ids (ids_of page) (ids_of left)
                    ∙ ap (λ t. sc.ids ++ t) (sym (map-append (λ m. m.id) page left))
                    ∙ ap (λ t. sc.ids ++ ids_of t) split,
              )
      ]
