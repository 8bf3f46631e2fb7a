-- ===== src/Mailbox/Settling.antt =====
-- Every handler of a user's mailbox, followed by the handlers of its events, keeps the statistics right.
use mailbox.Prelude.{
  String, ◌≡◌, refl, true, false, not, Option, some, List, [], ◌∷◌, ◌++◌, arith, ◌==◌, eq_iff,
  Result, ok, err, ◌>>◌, ◌⊎◌, inl, inr, Bool-cases, Result-cases, sym,
}
use mailbox.SyncMap.{load, delete}
use mailbox.Store.{Error, Time, MoveOption, apply_move_options}
use mailbox.Memory
use mailbox.Memory.{Message, put, find_message}
use mailbox.Memory.Write
use mailbox.Memory.Write.{with_folder, with_tag, without_tag, check_source, home_folder}
use mailbox.Memory.Write.Edits.{Outcome, edit-Outcome}
use mailbox.StatsCache.{Event, StatsCache, handle}
use mailbox.Mailbox.{
  Handler, Service, checked, Config, UserMailbox, MailboxError, deliver, op_and_publish,
}
use mailbox.Mailbox.Verified.{Verified}
use mailbox.Mailbox.Mutate.{move_and_publish, with_store, then_do, release}
use mailbox.Mailbox.Statistics.{Settled, moved-Settled, deleted-Settled, tagged-Settled}

module _ (st : Memory.Store) (id : String) (m : Message)
    (found : load id st.messages ≡ some m) where
  move_to_folder_cases :
      (to : String) (opts : List MoveOption) (t : Time)
      → (Write.move_to_folder id to opts t st
          ≡ (ok tt, put st id (record m { folder_id = to; updated_at = t })))
        ⊎ ((e : Error) × (Write.move_to_folder id to opts t st ≡ (err e, st)))
  unfolding Write.move_to_folder
  move_to_folder_cases to opts t =
      let from = apply_move_options opts in
      elim (edit-Outcome id (with_folder t from to) st (check_source from)) [
        | Outcome.failed e r ↦ inr (e, r)
        | Outcome.kept r ↦ inl (ground arith)
        | Outcome.written n n' there live f r ↦ inl (ground arith)
      ]

  hard_delete_cases :
      (Write.hard_delete id st ≡ (ok tt, record st { messages = delete id st.messages }))
      ⊎ ((e : Error) × (Write.hard_delete id st ≡ (err e, st)))
  unfolding Write.hard_delete
  hard_delete_cases = elim (Result-cases (do Memory.checked st id; find_message st id)) [
    | inl (n, good) ↦ inl (ground arith)
    | inr (e, bad) ↦ inr (e, ground arith)
  ]

  -- What AddTag and RemoveTag can do to a message that is there
  pub data Tagged (r : Result Error (Unit {0}) × Memory.Store) : Type 0 where
    unchanged : {o : Result Error (Unit {0})} → r ≡ (o, st) → Tagged r
    changed :
        (tags : List String) (t : Time)
        → r ≡ (ok tt, put st id (record m { tags = tags; updated_at = t }))
        → Tagged r

  Tagged-Outcome :
      (f : Message → Result Error (Option Message))
      → ((n n' : Message)
          → f n ≡ ok (some n')
          → (tags : List String) × (t : Time) × (n' ≡ record n { tags = tags; updated_at = t }))
      → (r : Result Error (Unit {0}) × Memory.Store) → Outcome id f st r
      → Tagged r
  Tagged-Outcome f keeps r (Outcome.failed e h) = Tagged.unchanged h
  Tagged-Outcome f keeps r (Outcome.kept h) = Tagged.unchanged h
  Tagged-Outcome f keeps r (Outcome.written n n' there live e h) =
      let (tags, t, same) = keeps n n' e in Tagged.changed tags t (ground (arith, found))

  pub Tagged-add : (tag : String) (t : Time) → Tagged (Write.add_tag id tag t st)
  unfolding Write.add_tag
  Tagged-add tag t =
      Tagged-Outcome (with_tag t tag) (λ n n' e. (n'.tags, t, ground arith)) _
        (edit-Outcome id (with_tag t tag) st (ok tt))

  pub Tagged-remove : (tag : String) (t : Time) → Tagged (Write.remove_tag id tag t st)
  unfolding Write.remove_tag
  Tagged-remove tag t =
      Tagged-Outcome (without_tag t tag) (λ n n' e. (n'.tags, t, ground arith)) _
        (edit-Outcome id (without_tag t tag) st (ok tt))

-- The statistics are right once the events that wait are handled.
abbrev pub Right : UserMailbox → Time → Service → Type 0
Right u now s = Settled u.user_id now (deliver s.published s.cache) s.store.messages

module _ (cfg : Config) (u : UserMailbox) (now : Time)
    (accepts : (ev : Event) → cfg.accepts ev ≡ true) where
  deliver-snoc :
      (ev : Event) (evs : List Event) (c : StatsCache)
      → deliver (evs ++ ev ∷ []) c ≡ (handle ev (deliver evs c)).0
  unfolding deliver
  deliver-snoc ev [] c = refl
  deliver-snoc ev (e ∷ evs) c = deliver-snoc ev evs (handle e c).0

  module _ (s : Service) (h : Right u now s) where
    module _ (id : String) (m : Message) (v : Verified u s id m) where
      pub Right-move :
          (from to : String) (opts : List MoveOption) (t : Time)
          → m.folder_id ≡ from
          → (to == "") ≡ false
          → Right u now (move_and_publish cfg u id from to (not m.is_read) opts t s).1
      Right-move from to opts t here named = elim (Bool-cases (from == to)) [
        | inl same ↦ rw same h
        | inr apart ↦ elim (move_to_folder_cases s.store id m v.found to opts t) [
          | inl moved ↦ rw apart (
              rw moved (
                rw accepts (
                  rw deliver-snoc (
                    rw (sym here) (
                      moved-Settled u.user_id now (deliver s.published s.cache) s.store.messages h
                        id m v.found v.own v.live to t named
                        (ground (arith, apart, eq_iff from to, here)))))))
          | inr (e, bad) ↦ rw apart (rw bad h)
        ]
      ]

      pub Right-hard_delete :
          Right u now
            (op_and_publish cfg
              (Event.message_deleted u.user_id m.folder_id (not m.is_read))
              (Write.hard_delete id)
              s).1
      Right-hard_delete = elim (hard_delete_cases s.store id m v.found) [
        | inl gone ↦ rw gone (
            rw accepts (
              rw deliver-snoc (
                deleted-Settled u.user_id now (deliver s.published s.cache) s.store.messages h id m
                  v.found v.own v.live)))
        | inr (e, bad) ↦ rw bad h
      ]

      pub Tagged-Right :
          (r : Result Error (Unit {0}) × Memory.Store)
          → Tagged s.store id m v.found r
          → Right u now (with_store s r).1
      Tagged-Right r (Tagged.unchanged e) = rw e h
      Tagged-Right r (Tagged.changed tags t e) = rw e (
          tagged-Settled u.user_id now (deliver s.published s.cache) s.store.messages h id m v.found
            v.own v.live tags t)

    pub Right-checked :
        {A : Type 0} {B : Type 0} (r : Result MailboxError A) (k : A → Handler B)
        → ((a : A) → r ≡ ok a → Right u now (k a s).1)
        → Right u now (checked s r k).1
    Right-checked (ok a) k f = f a refl
    Right-checked (err e) k f = h

  pub Right-then :
      (r : Result MailboxError (Unit {0}) × Service) (k : Handler (Unit {0}))
      → Right u now r.1
      → ((s : Service) → Right u now s → Right u now (k s).1)
      → Right u now (then_do r k).1
  Right-then (ok a, s) k h f = f s h
  Right-then (err e, s) k h f = h

  pub Right-release :
      (m : Message) (s : Service) → Right u now s → Right u now (release cfg u m s).1
  Right-release m s h = elim (Bool-cases cfg.has_attachments) [
    | inl held ↦ rw held h
    | inr none_held ↦ rw none_held h
  ]
