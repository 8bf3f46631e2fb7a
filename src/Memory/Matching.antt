-- ===== src/Memory/Matching.antt =====
-- store/memory/helpers.go: whether a stored message matches filters, and the tests of the queries.
use Prim.Native.Nat.{Ordering, compare}
use Prim.Native.String.{compare as compare_texts}
use mailbox.Prelude.{
  String, Bool, true, false, not, ◌&&◌, ◌||◌, Option, none, some, List, [], ◌∷◌, ◌==◌, eqb, leb,
  contains, if◌then◌else◌,
}
use mailbox.Store.{Scalar, Value, Time}
use mailbox.Store.Filter.{Filter}
use mailbox.Memory.{Message}

-- What a key names in a message: a slice, a value, a nil pointer to a time, or no field at all.
pub data Field : Type 0 where
  slice : List String → Field
  present : Scalar → Field
  absent unknown : Field

abbrev pub time_field : Option Time → Field
time_field none = Field.absent
time_field (some t) = Field.present (Scalar.instant t)

unfoldable pub field_of : String → Message → Field
field_of key m =
    if key == "tags"
    then Field.slice m.tags
    else if key == "recipient_ids"
    then Field.slice m.recipient_ids
    else if key == "id"
    then Field.present (Scalar.text m.id)
    else if key == "owner_id"
    then Field.present (Scalar.text m.owner_id)
    else if key == "sender_id"
    then Field.present (Scalar.text m.sender_id)
    else if key == "subject"
    then Field.present (Scalar.text m.subject)
    else if key == "folder_id"
    then Field.present (Scalar.text m.folder_id)
    else if key == "is_read"
    then Field.present (Scalar.flag m.is_read)
    else if key == "status"
    then Field.present (Scalar.status_text m.status)
    else if key == "thread_id"
    then Field.present (Scalar.text m.thread_id)
    else if key == "reply_to_id"
    then Field.present (Scalar.text m.reply_to_id)
    else if key == "external_id"
    then Field.present (Scalar.text m.external_id)
    else if key == "created_at"
    then Field.present (Scalar.instant m.created_at)
    else if key == "updated_at"
    then Field.present (Scalar.instant m.updated_at)
    else if key == "is_draft"
    then Field.present (Scalar.flag m.is_draft)
    else if key == "expires_at"
    then time_field m.expires_at
    else if key == "available_at"
    then time_field m.available_at
    else Field.unknown

abbrev bool_eq : Bool → Bool → Bool
bool_eq true b = b
bool_eq false b = not b

-- Go's `==` on two interface values: equal dynamic types and equal values
abbrev pub scalar_eq : Scalar → Scalar → Bool
scalar_eq (Scalar.text a) (Scalar.text b) = a == b
scalar_eq (Scalar.status_text a) (Scalar.status_text b) = a == b
scalar_eq (Scalar.flag a) (Scalar.flag b) = bool_eq a b
scalar_eq (Scalar.number a) (Scalar.number b) = eqb a b
scalar_eq (Scalar.instant a) (Scalar.instant b) = eqb a b
scalar_eq _ _ = false

abbrev pub value_eq : Scalar → Value → Bool
value_eq a (Value.scalar b) = scalar_eq a b
value_eq a _ = false

-- compareValues: 0 where the types differ or have no order
abbrev compare_scalars : Scalar → Scalar → Ordering
compare_scalars (Scalar.text a) (Scalar.text b) = compare_texts a b
compare_scalars (Scalar.number a) (Scalar.number b) = compare a b
compare_scalars (Scalar.instant a) (Scalar.instant b) = compare a b
compare_scalars _ _ = Ordering.eq

abbrev pub compare_values : Scalar → Value → Ordering
compare_values a (Value.scalar b) = compare_scalars a b
compare_values a _ = Ordering.eq

abbrev is_below : Ordering → Bool
is_below Ordering.lt = true
is_below _ = false

abbrev is_above : Ordering → Bool
is_above Ordering.gt = true
is_above _ = false

abbrev some_scalar_eq : Scalar → List Scalar → Bool
some_scalar_eq a [] = false
some_scalar_eq a (b ∷ bs) = scalar_eq b a || some_scalar_eq a bs

-- valueInSet
abbrev pub value_in_set : Scalar → Value → Bool
value_in_set (Scalar.text a) (Value.texts s) = contains a s
value_in_set a (Value.scalars s) = some_scalar_eq a s
value_in_set _ _ = false

-- `exists, _ := value.(bool)`
abbrev as_bool : Value → Bool
as_bool (Value.scalar (Scalar.flag b)) = b
as_bool _ = false

abbrev is_empty_text : Scalar → Bool
is_empty_text (Scalar.text a) = a == ""
is_empty_text _ = false

unfoldable pub matches_scalar : Scalar → String → Value → Bool
matches_scalar field op value =
    if (op == "eq") || (op == "=") || (op == "")
    then value_eq field value
    else if (op == "ne") || (op == "!=")
    then not (value_eq field value)
    else if (op == "lt") || (op == "<")
    then is_below (compare_values field value)
    else if (op == "lte") || (op == "<=")
    then not (is_above (compare_values field value))
    else if (op == "gt") || (op == ">")
    then is_above (compare_values field value)
    else if (op == "gte") || (op == ">=")
    then not (is_below (compare_values field value))
    else if op == "exists"
    then not (bool_eq (as_bool value) (is_empty_text field))
    else if op == "in"
    then value_in_set field value
    else if op == "nin"
    then not (value_in_set field value)
    else true

abbrev texts_eq : List String → List String → Bool
texts_eq [] [] = true
texts_eq (a ∷ as') (b ∷ bs) = (a == b) && texts_eq as' bs
texts_eq _ _ = false

abbrev contains_value : List String → Value → Bool
contains_value items (Value.scalar (Scalar.text s)) = contains s items
contains_value items _ = false

abbrev eq_value : List String → Value → Bool
eq_value items (Value.texts other) = texts_eq items other
eq_value items _ = false

abbrev has_items : List String → Bool
has_items [] = false
has_items (_ ∷ _) = true

-- matchesSliceFilter
unfoldable pub matches_slice : List String → String → Value → Bool
matches_slice items op value =
    if op == "contains"
    then contains_value items value
    else if op == "exists"
    then bool_eq (as_bool value) (has_items items)
    else if (op == "eq") || (op == "=") || (op == "")
    then eq_value items value
    else true

abbrev pub matches_field : Field → String → Value → Bool
matches_field (Field.slice items) op value = matches_slice items op value
matches_field (Field.present v) op value = matches_scalar v op value
matches_field Field.absent op value = if op == "exists" then not (as_bool value) else false
matches_field Field.unknown op value = true

-- matchesFilter; a key that names no field lets every message pass.
unfoldable pub matches_filter : Message → Filter → Bool
unfolding field_of matches_slice matches_scalar
matches_filter m f = matches_field (field_of f.key m) f.operator f.value

unfoldable pub matches_filters : Message → List Filter → Bool
unfolding matches_filter
matches_filters m [] = true
matches_filters m (f ∷ fs) = matches_filter m f && matches_filters m fs

-- isAvailableNow
abbrev pub is_available_now : Time → Message → Bool
is_available_now now m = elim m.available_at [ none ↦ true | some t ↦ leb t now ]

-- hasAllTags
abbrev pub has_all_tags : Message → List String → Bool
has_all_tags m [] = true
has_all_tags m (t ∷ ts) = contains t m.tags && has_all_tags m ts
