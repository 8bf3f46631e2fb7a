-- ===== src/Memory.antt =====
-- store/memory: the in-memory backend. Here its state and its stored message; the children hold the
-- operations and what is proved of them. A handler runs under the lock of its message, so its
-- critical section is one step; `now` is what `time.Now()` returns and `fresh` what uuid.New() does.
pub mod Write
pub mod Create
pub mod Maintenance
pub mod Drafts
pub mod Matching
pub mod Bulk
pub mod Query
pub mod Stats
pub mod Call
mod Tests
pub mod Keeping
pub mod Invariant
use mailbox.Prelude.{
  String, Bool, true, false, Option, none, some, List, [], not, ◌==◌, Result, ok, err, ◌>>=◌, ◌>>◌,
  fail_if, ok_or,
}
use mailbox.SyncMap.{SyncMap, load, store}
use mailbox.Store.{
  Error, Time, Value, Attachment, MessageData, not_found, invalid_id, not_connected,
  already_connected,
}

-- `message`, for drafts and messages alike
pub record Message : Type 0 where
  pub id : String
  pub owner_id : String
  pub sender_id : String
  pub recipient_ids : List String
  pub subject : String
  pub body : String
  pub headers : List (String × String)
  pub metadata : List (String × Value)
  pub status : String
  pub is_read : Bool
  pub read_at : Option Time
  pub folder_id : String
  pub tags : List String
  pub attachments : List Attachment
  pub created_at : Time
  pub updated_at : Time
  pub is_draft : Bool
  pub thread_id : String
  pub reply_to_id : String
  pub external_id : String
  pub expires_at : Option Time
  pub available_at : Option Time

-- A deep copy holds the same values.
abbrev pub clone : Message → Message
clone m = record {
  id = m.id;
  owner_id = m.owner_id;
  sender_id = m.sender_id;
  recipient_ids = m.recipient_ids;
  subject = m.subject;
  body = m.body;
  headers = m.headers;
  metadata = m.metadata;
  status = m.status;
  is_read = m.is_read;
  read_at = m.read_at;
  folder_id = m.folder_id;
  tags = m.tags;
  attachments = m.attachments;
  created_at = m.created_at;
  updated_at = m.updated_at;
  is_draft = m.is_draft;
  thread_id = m.thread_id;
  reply_to_id = m.reply_to_id;
  external_id = m.external_id;
  expires_at = m.expires_at;
  available_at = m.available_at;
}

pub record Store : Type 0 where
  pub messages : SyncMap Message
  pub idempotency_idx : SyncMap String
  pub external_idx : SyncMap String
  pub connected : Bool

abbrev pub Handler : Type 0 → Type 0
Handler A = Store → Result Error A × Store

abbrev pub new : Store
new = record { messages = []; idempotency_idx = []; external_idx = []; connected = false }

unfoldable pub connect : Handler (Unit {0})
connect s = elim s.connected [
  | true ↦ (err already_connected, s)
  | false ↦ (ok tt, record s { connected = true })
]

unfoldable pub close : Handler (Unit {0})
close s = (ok tt, record s { connected = false })

abbrev pub check_connected : Store → Result Error (Unit {0})
check_connected s = fail_if (not s.connected) not_connected

-- The checks and the lookup with which every handler of one message begins; a draft is no message.
abbrev pub find_message : Store → String → Result Error Message
find_message s id = do m ← ok_or (load id s.messages) not_found; fail_if m.is_draft not_found; ok m

abbrev pub checked : Store → String → Result Error (Unit {0})
checked s id = do check_connected s; fail_if (id == "") invalid_id

abbrev pub put : Store → String → Message → Store
put s id m = record s { messages = store id m s.messages }

-- Copy-on-write under the message's lock: `none` is an early return that writes nothing.
abbrev pub write_back :
    Store → String → Result Error (Option Message) → Result Error (Unit {0}) × Store
write_back s id (ok none) = (ok tt, s)
write_back s id (ok (some m)) = (ok tt, put s id m)
write_back s id (err e) = (err e, s)

-- A handler of one message: the checks, what `before` checks, the lookup, and what is written back.
abbrev pub edit :
    String
    → Result Error (Unit {0})
    → (Message → Result Error (Option Message))
    → Handler (Unit {0})
edit id before f s = write_back s id (do checked s id; before; orig ← find_message s id; f orig)

-- Get
unfoldable pub get : Store → String → Result Error Message
get s id = do checked s id; m ← find_message s id; ok (clone m)

-- newMessageFromData
abbrev pub new_message_from_data : MessageData → String → Time → Message
new_message_from_data d id now = record {
  id = id;
  owner_id = d.owner_id;
  sender_id = d.sender_id;
  recipient_ids = d.recipient_ids;
  subject = d.subject;
  body = d.body;
  headers = d.headers;
  metadata = d.metadata;
  status = d.status;
  is_read = false;
  read_at = none;
  folder_id = d.folder_id;
  tags = d.tags;
  attachments = d.attachments;
  created_at = now;
  updated_at = now;
  is_draft = false;
  thread_id = d.thread_id;
  reply_to_id = d.reply_to_id;
  external_id = d.external_id;
  expires_at = d.expires_at;
  available_at = d.available_at;
}
