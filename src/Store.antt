-- ===== src/Store.antt =====
-- What the backends share: package store (store/message.go, store/errors.go, and the move options
-- and page types of store/store.go and store/filter.go).
pub mod Filter
use package.text.Mathlib.Text.{starts_with}
use Prim.Native.String.{len}
use mailbox.Prelude.{
  ℕ, String, Bool, false, Option, List, [], ◌∷◌, ◌==◌, ◌&&◌, leb, contains, if◌then◌else◌,
}

-- store/errors.go, the errors that a backend returns
pub data Error : Type 0 where
  not_found invalid_id duplicate_entry not_connected already_connected : Error
  empty_recipients empty_subject filter_invalid regex_search_disabled : Error
  invalid_folder_id invalid_idempotency_key transaction_failed folder_mismatch : Error

-- An instant or a length of time, in nanoseconds; the zero instant lies before all that is used.
abbrev pub Time : Type 0
Time = ℕ

-- The dynamic values that a filter or the metadata can hold. Go compares two of them by `==` with
-- their dynamic types, so that a `MessageStatus` and a `string` are never equal.
pub data Scalar : Type 0 where
  text status_text : String → Scalar
  flag : Bool → Scalar
  number : ℕ → Scalar
  instant : Time → Scalar

pub data Value : Type 0 where
  scalar : Scalar → Value
  texts : List String → Value
  scalars : List Scalar → Value

pub record Attachment : Type 0 where
  pub id : String
  pub filename : String
  pub content_type : String
  pub size : ℕ
  pub uri : String
  pub created_at : Time

-- MessageStatus, a defined string type
abbrev pub status_draft : String
status_draft = "draft"

abbrev pub status_queued : String
status_queued = "queued"

abbrev pub status_sent : String
status_sent = "sent"

abbrev pub status_delivered : String
status_delivered = "delivered"

abbrev pub status_failed : String
status_failed = "failed"

abbrev pub folder_inbox : String
folder_inbox = "__inbox"

abbrev pub folder_sent : String
folder_sent = "__sent"

abbrev pub folder_archived : String
folder_archived = "__archived"

abbrev pub folder_trash : String
folder_trash = "__trash"

abbrev pub folder_spam : String
folder_spam = "__spam"

abbrev pub folder_outbox : String
folder_outbox = "__outbox"

abbrev pub folder_drafts : String
folder_drafts = "__drafts"

abbrev pub folder_prefix : String
folder_prefix = "__"

abbrev pub reserved_folders : List String
reserved_folders =
    folder_inbox ∷ folder_sent ∷ folder_archived ∷ folder_trash ∷ folder_spam ∷ folder_outbox
    ∷ folder_drafts ∷ []

unfoldable pub is_reserved_folder : String → Bool
is_reserved_folder folder_id = contains folder_id reserved_folders

unfoldable pub is_valid_folder_id : String → Bool
unfolding is_reserved_folder
is_valid_folder_id folder_id =
    if folder_id == ""
    then false
    else if leb 2 (len folder_id) && starts_with folder_id folder_prefix
    then is_reserved_folder folder_id
    else Bool.true

unfoldable pub is_sent_by_owner : String → String → Bool
is_sent_by_owner owner_id sender_id = owner_id == sender_id

-- MessageData; `none` is a nil pointer.
pub record MessageData : Type 0 where
  pub owner_id : String
  pub sender_id : String
  pub recipient_ids : List String
  pub subject : String
  pub body : String
  pub headers : List (String × String)
  pub metadata : List (String × Value)
  pub status : String
  pub folder_id : String
  pub attachments : List Attachment
  pub tags : List String
  pub thread_id : String
  pub reply_to_id : String
  pub external_id : String
  pub expires_at : Option Time
  pub available_at : Option Time

pub record IdempotentCreateEntry : Type 0 where
  pub content : MessageData
  pub idempotency_key : String

-- MoveOption: `FromFolder` is the only one there is.
pub data MoveOption : Type 0 where
  from_folder : String → MoveOption

apply_move_options_from : String → List MoveOption → String
apply_move_options_from o [] = o
apply_move_options_from o (from_folder f ∷ opts) = apply_move_options_from f opts

-- ApplyMoveOptions(opts).FromFolderID(): each option overwrites the one before it.
unfoldable pub apply_move_options : List MoveOption → String
unfolding apply_move_options_from
apply_move_options opts = apply_move_options_from "" opts

pub data SortOrder : Type 0 where
  unset asc desc : SortOrder

pub record ListOptions : Type 0 where
  pub limit : ℕ
  pub offset : ℕ
  pub sort_by : String
  pub sort_order : SortOrder
  pub start_after : String

pub record FolderCounts : Type 0 where
  pub total : ℕ
  pub unread : ℕ
