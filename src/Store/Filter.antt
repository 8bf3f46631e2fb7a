-- ===== src/Store/Filter.antt =====
-- store/filter.go: filters, their builder and the names of the fields.
use mailbox.Prelude.{
  String, Bool, true, Option, none, some, List, [], ◌∷◌, ◌==◌, ◌||◌, Result, ok, ◌>>=◌, ◌>>◌,
  fail_if, ok_or, not, contains, map, if◌then◌else◌,
}
use mailbox.Store.{Error, Scalar, Value, Time, filter_invalid, folder_trash}

pub record Filter : Type 0 where
  pub key : String
  pub value : Value
  pub operator : String

abbrev pub valid_operators : List String
valid_operators =
    "eq" ∷ "ne" ∷ "gt" ∷ "gte" ∷ "lt" ∷ "lte" ∷ "in" ∷ "nin" ∷ "exists" ∷ "contains" ∷ []

-- MessageFieldKey; each Go name and the storage key that it stands for.
abbrev field_keys : List (String × String)
field_keys =
    ("ID", "id")
    ∷ ("OwnerID", "owner_id")
    ∷ ("SenderID", "sender_id")
    ∷ ("RecipientIDs", "recipient_ids")
    ∷ ("Subject", "subject")
    ∷ ("Body", "body")
    ∷ ("Status", "status")
    ∷ ("IsRead", "is_read")
    ∷ ("FolderID", "folder_id")
    ∷ ("Tags", "tags")
    ∷ ("CreatedAt", "created_at")
    ∷ ("UpdatedAt", "updated_at")
    ∷ ("ThreadID", "thread_id")
    ∷ ("ReplyToID", "reply_to_id")
    ∷ ("ExternalID", "external_id")
    ∷ ("IsDraft", "is_draft")
    ∷ ("ExpiresAt", "expires_at")
    ∷ ("AvailableAt", "available_at")
    ∷ []

find_key : String → List (String × String) → Option String
find_key field [] = none
find_key field ((name, key) ∷ rest) =
    if (field == name) || (field == key) then some key else find_key field rest

unfoldable pub message_field_key : String → Option String
unfolding find_key
message_field_key field = find_key field field_keys

unfoldable pub new_filter : String → String → Value → Result Error Filter
unfolding message_field_key
new_filter key operator value = do
  storage_key ← ok_or (message_field_key key) filter_invalid
  fail_if (not (contains operator valid_operators)) filter_invalid
  ok (record { key = storage_key; value = value; operator = operator })

-- MessageFilter(field), then one of the builder's comparisons, which all go through `build`.
unfoldable pub build : String → String → Value → Result Error Filter
unfolding message_field_key
build field op v = do
  key ← ok_or (message_field_key field) filter_invalid
  ok (record { key = key; value = v; operator = op })

abbrev filter_of : String → String → Scalar → Filter
filter_of key op v = record { key = key; value = Value.scalar v; operator = op }

-- The convenience functions, whose fields are all known.
abbrev pub owner_is : String → Filter
owner_is owner_id = filter_of "owner_id" "eq" (Scalar.text owner_id)

abbrev pub sender_is : String → Filter
sender_is sender_id = filter_of "sender_id" "eq" (Scalar.text sender_id)

abbrev pub recipient_is : String → Filter
recipient_is recipient_id = filter_of "recipient_ids" "contains" (Scalar.text recipient_id)

-- StatusIs passes `string(status)`.
abbrev pub status_is : String → Filter
status_is status = filter_of "status" "eq" (Scalar.text status)

abbrev pub is_read_filter : Bool → Filter
is_read_filter is_read = filter_of "is_read" "eq" (Scalar.flag is_read)

abbrev pub in_folder : String → Filter
in_folder folder_id = filter_of "folder_id" "eq" (Scalar.text folder_id)

abbrev pub not_in_folder : String → Filter
not_in_folder folder_id = filter_of "folder_id" "ne" (Scalar.text folder_id)

abbrev pub not_deleted : Filter
not_deleted = not_in_folder folder_trash

abbrev pub has_tag : String → Filter
has_tag tag_id = filter_of "tags" "contains" (Scalar.text tag_id)

abbrev pub has_any_tag : Filter
has_any_tag = filter_of "tags" "exists" (Scalar.flag true)

abbrev pub has_tags : List String → List Filter
has_tags = map has_tag

abbrev pub thread_is : String → Filter
thread_is thread_id = filter_of "thread_id" "eq" (Scalar.text thread_id)

abbrev pub is_draft_filter : Bool → Filter
is_draft_filter is_draft = filter_of "is_draft" "eq" (Scalar.flag is_draft)

abbrev pub has_thread : Filter
has_thread = filter_of "thread_id" "exists" (Scalar.flag true)

abbrev pub created_before : Time → Filter
created_before t = filter_of "created_at" "lt" (Scalar.instant t)
