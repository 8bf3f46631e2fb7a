-- ===== src/Memory/Query.antt =====
-- store/memory/query.go and stats.go: the reads over all messages. `now` is the clock's reading at
-- isAvailableNow, taken as one instant for the whole pass.
pub mod Listed
pub mod Pages
pub mod Sorted
use mailbox.Prelude.{
  ℕ, zero, suc, ◌+◌, ◌-◌, String, Bool, false, not, ◌&&◌, ◌||◌, Option, none, some, List, [], ◌∷◌,
  ◌++◌, map, ◌==◌, Result, ok, err, ◌>>=◌, ◌>>◌, ltb, eqb, length, take, drop, contains,
  if◌then◌else◌,
}
use Prim.Native.String.{compare}
use text.Mathlib.Text.{is_lt}
use mailbox.SyncMap.{SyncMap}
use mailbox.Store.{
  Error, Time, ListOptions, SortOrder, unset, asc, desc, not_found, folder_trash, folder_drafts,
}
use mailbox.Store.Filter.{Filter}
use mailbox.Memory.{Message, Store, clone, check_connected}
use mailbox.Memory.Matching.{matches_filters, is_available_now}

-- The entries of a Range that pass a test, as values
unfoldable pub select : (Message → Bool) → SyncMap Message → List Message
select p [] = []
select p ((_, m) ∷ rest) = let ms = select p rest in if p m then m ∷ ms else ms

-- The test of sortMessages' inner loop: whether `a` must not stand before `b`.
abbrev pub should_swap : String → SortOrder → Message → Message → Bool
should_swap sort_by order a b =
    if sort_by == "created_at"
    then elim order [ asc ↦ ltb b.created_at a.created_at | _ ↦ ltb a.created_at b.created_at ]
    else if sort_by == "updated_at"
    then elim order [ asc ↦ ltb b.updated_at a.updated_at | _ ↦ ltb a.updated_at b.updated_at ]
    else if sort_by == "subject"
    then elim order [
      | asc ↦ is_lt (compare b.subject a.subject)
      | _ ↦ is_lt (compare a.subject b.subject)
    ]
    else false

module _ (swap : Message → Message → Bool) where
  -- One inner loop: position i holds `x`, and j runs over the rest.
  unfoldable pub sweep : Message → List Message → Message × List Message
  sweep x [] = (x, [])
  sweep x (y ∷ ys) =
      let (first, later) = if swap x y then (y, x) else (x, y) in
      let (z, zs) = sweep first ys in (z, later ∷ zs)

  -- The outer loop, over the positions left
  unfoldable pub sort_fuel : ℕ → List Message → List Message
  unfolding sweep
  sort_fuel zero ms = ms
  sort_fuel (suc n) [] = []
  sort_fuel (suc n) (x ∷ xs) = let (z, zs) = sweep x xs in z ∷ sort_fuel n zs

-- sortMessages, with its defaults
unfoldable pub sort_messages : String → SortOrder → List Message → List Message
unfolding sort_fuel
sort_messages sort_by order ms =
    let key = if sort_by == "" then "created_at" else sort_by in
    let dir : SortOrder = elim order [ unset ↦ desc | asc ↦ asc | desc ↦ desc ] in
    sort_fuel (should_swap key dir) (length ms) ms

pub record MessageList : Type 0 where
  pub messages : List Message
  pub total : ℕ
  pub has_more : Bool

-- The position after the cursor's message
abbrev pub position_after : String → List Message → Option ℕ
position_after id [] = none
position_after id (m ∷ ms) =
    if m.id == id
    then some 1
    else elim (position_after id ms) [ none ↦ none | some n ↦ some (suc n) ]

-- The end of a page that begins at `start`
abbrev pub page_end : ℕ → ℕ → ℕ → ℕ
page_end start limit n =
    let wanted = if eqb limit 0 then n else start + limit in if ltb n wanted then n else wanted

abbrev pub page_at : ℕ → ℕ → List Message → MessageList
page_at start limit all =
    let end = page_end start limit (length all) in
    record {
      messages = map clone (take (end - start) (drop start all));
      total = length all;
      has_more = ltb end (length all);
    }

-- Cursor-based pagination: a cursor that is not found gives an empty page.
unfoldable pub paginate : String → ℕ → List Message → MessageList
paginate start_after limit all =
    if start_after == "" then page_at 0 limit all else elim (position_after start_after all) [
      | none ↦ record { messages = []; total = length all; has_more = false }
      | some start ↦ page_at start limit all
    ]

abbrev pub is_listed : List Filter → Time → Message → Bool
is_listed filters now m = not m.is_draft && is_available_now now m && matches_filters m filters

-- Find
unfoldable pub find : Store → List Filter → ListOptions → Time → Result Error MessageList
unfolding select sort_messages paginate
find s filters opts now = do
  check_connected s
  let key = if opts.sort_by == "" then "created_at" else opts.sort_by
  let all = sort_messages key opts.sort_order (select (is_listed filters now) s.messages)
  ok (paginate opts.start_after opts.limit all)

-- Count
unfoldable pub count : Store → List Filter → Time → Result Error ℕ
unfolding select
count s filters now = do check_connected s; ok (length (select (is_listed filters now) s.messages))

-- FindWithCount
unfoldable pub find_with_count :
    Store → List Filter → ListOptions → Time → Result Error (MessageList × ℕ)
unfolding find count
find_with_count s filters opts now = do
  list ← find s filters opts now
  n ← count s filters now
  ok (list, n)

-- A set built by a Range: the first occurrence of each name
abbrev pub add_name : String → List String → List String
add_name name seen = if contains name seen then seen else seen ++ name ∷ []

unfoldable pub names :
    (Message → Bool) → (Message → String) → List String → SyncMap Message → List String
names p name seen [] = seen
names p name seen ((_, m) ∷ rest) = names p name (if p m then add_name (name m) seen else seen) rest

abbrev pub is_in_thread : String → Message → Bool
is_in_thread thread_id m =
    not m.is_draft
    && m.thread_id == thread_id
    && not (m.folder_id == folder_trash)
    && not (m.folder_id == folder_drafts)

abbrev some_names : List String → Result Error (List String)
some_names [] = err not_found
some_names (n ∷ ns) = ok (n ∷ ns)

-- ThreadParticipants
unfoldable pub thread_participants : Store → String → Result Error (List String)
unfolding names
thread_participants s thread_id = do
  check_connected s
  some_names (names (is_in_thread thread_id) (λ m. m.owner_id) [] s.messages)

abbrev pub is_visible_to : String → Time → Message → Bool
is_visible_to owner_id now m =
    not (m.is_draft || not (m.owner_id == owner_id) || not (is_available_now now m))

-- ListDistinctFolders
unfoldable pub list_distinct_folders : Store → String → Time → Result Error (List String)
unfolding names
list_distinct_folders s owner_id now = do
  check_connected s
  ok (names (is_visible_to owner_id now) (λ m. m.folder_id) [] s.messages)

-- ListDrafts; the offset is cut at the length.
unfoldable pub list_drafts : Store → String → ListOptions → Result Error MessageList
unfolding select sort_messages
list_drafts s owner_id opts = do
  check_connected s
  let drafts =
      sort_messages "created_at" desc
        (select (λ m. m.is_draft && m.owner_id == owner_id) s.messages)
  let start = if ltb (length drafts) opts.offset then length drafts else opts.offset
  ok (page_at start opts.limit drafts)
