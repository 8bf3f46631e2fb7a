-- ===== src/Memory/Write/Edits.antt =====
-- The handlers of one message, taken together: what they leave alone.
use mathlib.Core.Option
use mailbox.Prelude.{
  String, ◌≡◌, refl, Bool, false, Option, none, some, List, [], arith, Result, ok, err, ◌>>=◌, ◌>>◌,
  ap, subst, eq_iff, ◌≢◌,
}
use mailbox.SyncMap.{load, load-store, load-store_self}
use mailbox.Store.{Error, Time, MoveOption, apply_move_options}
use mailbox.Memory.{Message, Store, Handler, edit, put, checked, find_message}
use mailbox.Memory
use mailbox.Memory.Invariant.{find_message-ok}
use mailbox.Memory.Write
use mailbox.Memory.Write.{
  with_read, with_folder, with_tag, without_tag, trashed, restored, check_source,
}

-- The handlers that write back an edited copy of one message
pub data Edit : Type 0 where
  mark_read : Bool → Time → Time → Edit
  move_to_folder : String → List MoveOption → Time → Edit
  add_tag remove_tag : String → Time → Edit
  delete restore : Time → Edit

unfoldable pub apply_edit : Edit → String → Handler (Unit {0})
apply_edit (Edit.mark_read read now read_now) id = Write.mark_read id read now read_now
apply_edit (Edit.move_to_folder folder opts now) id = Write.move_to_folder id folder opts now
apply_edit (Edit.add_tag tag now) id = Write.add_tag id tag now
apply_edit (Edit.remove_tag tag now) id = Write.remove_tag id tag now
apply_edit (Edit.delete now) id = Write.delete id now
apply_edit (Edit.restore now) id = Write.restore id now

-- A message without what the handlers may change: its read status, folder, tags and time of update
abbrev pub content : Message → Message
content m = record m { is_read = false; read_at = none; folder_id = ""; tags = []; updated_at = 0 }

abbrev KeepsContent : Message → Result Error (Option Message) → Type 0
KeepsContent m (ok (some m')) = content m' ≡ content m
KeepsContent m _ = Unit

-- An edit fails or is a no-op, and keeps the state, or it writes back what its function computed.
pub data Outcome (id : String) (f : Message → Result Error (Option Message)) (s : Store)
    (r : Result Error (Unit {0}) × Store) : Type 0 where
  failed : (e : Error) → r ≡ (err e, s) → Outcome id f s r
  kept : r ≡ (ok tt, s) → Outcome id f s r
  written :
      (m m' : Message)
      → load id s.messages ≡ some m
      → m.is_draft ≡ false
      → f m ≡ ok (some m')
      → r ≡ (ok tt, put s id m')
      → Outcome id f s r

module _ (id : String) (f : Message → Result Error (Option Message)) (s : Store) where
  Outcome-found :
      (m : Message)
      → find_message s id ≡ ok m
      → (o : Result Error (Option Message)) → f m ≡ o
      → Outcome id f s (Memory.write_back s id o)
  Outcome-found m e (ok none) h = Outcome.kept refl
  Outcome-found m e (ok (some m')) h =
      let (found, live) = find_message-ok s id m e in Outcome.written m m' found live h refl
  Outcome-found m e (err x) h = Outcome.failed x refl

  Outcome-steps :
      (c b : Result Error (Unit {0})) (l : Result Error Message)
      → find_message s id ≡ l
      → Outcome id f s (Memory.write_back s id (do c; b; orig ← l; f orig))
  Outcome-steps (err x) b l e = Outcome.failed x refl
  Outcome-steps (ok _) (err x) l e = Outcome.failed x refl
  Outcome-steps (ok _) (ok _) (err x) e = Outcome.failed x refl
  Outcome-steps (ok _) (ok _) (ok m) e = Outcome-found m e (f m) refl

  pub edit-Outcome : (before : Result Error (Unit {0})) → Outcome id f s (edit id before f s)
  edit-Outcome before = Outcome-steps (checked s id) before (find_message s id) refl

-- What a handler leaves alone, and that a failure changes nothing
pub record Frame (id : String) (s : Store) (r : Result Error (Unit {0}) × Store) : Type 0 where
  pub on_error : (e : Error) → r.0 ≡ err e → r.1 ≡ s
  pub idempotency_idx : r.1.idempotency_idx ≡ s.idempotency_idx
  pub external_idx : r.1.external_idx ≡ s.external_idx
  pub connected : r.1.connected ≡ s.connected
  pub others : (j : String) → id ≢ j → load j r.1.messages ≡ load j s.messages
  pub same_content :
      Option.map content (load id r.1.messages) ≡ Option.map content (load id s.messages)

Frame-same : (id : String) (s : Store) (x : Result Error (Unit {0})) → Frame id s (x, s)
Frame-same id s x = record {
  on_error = λ e h. refl;
  idempotency_idx = refl;
  external_idx = refl;
  connected = refl;
  others = λ j h. refl;
  same_content = refl;
}

Frame-put :
    (id : String) (s : Store) (m m' : Message)
    → load id s.messages ≡ some m
    → content m' ≡ content m
    → Frame id s (ok tt, put s id m')
Frame-put id s m m' found same = record {
  on_error = λ e h. cc;
  idempotency_idx = refl;
  external_idx = refl;
  connected = refl;
  others = λ j h. ground (arith, load-store id j m' s.messages, eq_iff id j);
  same_content = rw (load-store_self, found) (ap some same);
}

Frame-Outcome :
    (id : String) (f : Message → Result Error (Option Message)) (s : Store)
    (r : Result Error (Unit {0}) × Store)
    → ((m : Message) → KeepsContent m (f m))
    → Outcome id f s r
    → Frame id s r
Frame-Outcome id f s r keeps (Outcome.failed e h) = rw h (Frame-same id s (err e))
Frame-Outcome id f s r keeps (Outcome.kept h) = rw h (Frame-same id s (ok tt))
Frame-Outcome id f s r keeps (Outcome.written m m' found live fm h) =
    rw h (Frame-put id s m m' found (subst (KeepsContent m) fm (keeps m)))

Frame-edit :
    (id : String) (before : Result Error (Unit {0})) (f : Message → Result Error (Option Message))
    (s : Store)
    → ((m : Message) → KeepsContent m (f m))
    → Frame id s (edit id before f s)
Frame-edit id before f s keeps = Frame-Outcome id f s _ keeps (edit-Outcome id f s before)

-- Each of MarkRead, MoveToFolder, AddTag, RemoveTag, Delete and Restore changes nothing when it
-- fails; when it succeeds it changes no other message, no index and no connection, and of its own
-- message only the read status, folder, tags and time of update: the content is immutable.
pub apply_edit-Frame : (e : Edit) (id : String) (s : Store) → Frame id s (apply_edit e id s)
unfolding apply_edit Write.mark_read Write.move_to_folder Write.add_tag Write.remove_tag
    Write.delete Write.restore
apply_edit-Frame (Edit.mark_read read now read_now) id s =
    Frame-edit id (ok tt) (with_read now read read_now) s (λ m. ground arith)
apply_edit-Frame (Edit.move_to_folder folder opts now) id s =
    let from = apply_move_options opts in
    Frame-edit id (check_source from) (with_folder now from folder) s (λ m. ground arith)
apply_edit-Frame (Edit.add_tag tag now) id s =
    Frame-edit id (ok tt) (with_tag now tag) s (λ m. ground arith)
apply_edit-Frame (Edit.remove_tag tag now) id s =
    Frame-edit id (ok tt) (without_tag now tag) s (λ m. ground arith)
apply_edit-Frame (Edit.delete now) id s = Frame-edit id (ok tt) (trashed now) s (λ m. ground arith)
apply_edit-Frame (Edit.restore now) id s =
    Frame-edit id (ok tt) (restored now) s (λ m. ground arith)
