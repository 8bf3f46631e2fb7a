-- ===== src/Validation.antt =====
-- validation.go: the checks of a message before it is sent. `json_size` is the length of what
-- encoding/json makes of the metadata, if it can, and `lower` is strings.ToLower; both are parameters.
-- `valid_utf8` is utf8.ValidString, a parameter too. The order in which a map is ranged over is the
-- order of its list; nil metadata is `none`.
pub mod Limits
mod Tests
use mailbox.Prelude.{
  ℕ, ◌+◌, ◌-◌, String, Bool, true, false, not, ◌&&◌, ◌||◌, Option, none, some, List, [], ◌∷◌, ◌==◌,
  Result, ok, err, ◌>>=◌, ◌>>◌, fail_if, ltb, leb, eqb, length, if◌then◌else◌,
}
use Prim.Native.Char.{Char, code}
use Prim.Native.String
use Prim.Native.String.{len}
use package.text.Mathlib.Text.{starts_with}
use mailbox.Store.{Value, Attachment}
use mailbox.Memory.{Message}

pub data ValidationError : Type 0 where
  empty_recipients too_many_recipients invalid_recipient : ValidationError
  empty_subject subject_too_long invalid_content body_too_large : ValidationError
  too_many_headers invalid_headers header_key_too_long : ValidationError
  header_value_too_long headers_too_large : ValidationError
  invalid_metadata metadata_key_too_long metadata_too_large : ValidationError
  too_many_attachments attachment_too_large invalid_attachment invalid_mime_type : ValidationError

pub record MessageLimits : Type 0 where
  pub max_subject_length : ℕ
  pub max_body_size : ℕ
  pub max_attachment_size : ℕ
  pub max_attachment_count : ℕ
  pub max_recipient_count : ℕ
  pub max_metadata_size : ℕ
  pub max_metadata_keys : ℕ
  pub max_header_count : ℕ
  pub max_header_key_length : ℕ
  pub max_header_value_length : ℕ
  pub max_headers_total_size : ℕ

abbrev pub max_metadata_key_length : ℕ
max_metadata_key_length = 256

abbrev pub Check : Type 0
Check = Result ValidationError (Unit {0})

-- The loop over the headers: the total size, or the first error
unfoldable pub check_headers : MessageLimits → List (String × String) → ℕ → Result ValidationError ℕ
check_headers limits [] total = ok total
check_headers limits ((key, value) ∷ rest) total = do
  fail_if (key == "") invalid_headers
  fail_if (ltb limits.max_header_key_length (len key)) header_key_too_long
  fail_if (ltb limits.max_header_value_length (len value)) header_value_too_long
  check_headers limits rest (total + (len key + len value))

-- ValidateHeaders
unfoldable pub validate_headers : List (String × String) → MessageLimits → Check
unfolding check_headers
validate_headers headers limits = if eqb (length headers) 0 then ok tt else (do
  fail_if (ltb limits.max_header_count (length headers)) too_many_headers
  total ← check_headers limits headers 0
  fail_if (ltb limits.max_headers_total_size total) headers_too_large)

unfoldable pub check_metadata_keys : List (String × Value) → Check
check_metadata_keys [] = ok tt
check_metadata_keys ((key, _) ∷ rest) = do
  fail_if (ltb max_metadata_key_length (len key)) metadata_key_too_long
  fail_if (key == "") invalid_metadata
  check_metadata_keys rest

abbrev pub check_size : Option ℕ → ℕ → Check
check_size none limit = err invalid_metadata
check_size (some n) limit = fail_if (ltb limit n) metadata_too_large

-- unicode.IsSpace and unicode.IsControl
abbrev is_space : Char → Bool
is_space c =
    let n = code c in
    leb 9 n && leb n 13
    || eqb n 32
    || eqb n 133
    || eqb n 160
    || eqb n 5760
    || (leb 8192 n && leb n 8202)
    || eqb n 8232
    || eqb n 8233
    || eqb n 8239
    || eqb n 8287
    || eqb n 12288

abbrev is_control : Char → Bool
is_control c = let n = code c in ltb n 32 || leb 127 n && ltb n 160

-- strings.TrimSpace
unfoldable pub trim_left : String → String
trim_left String.[] = String.[]
trim_left (String.◌∷◌ c s) = if is_space c then trim_left s else String.◌∷◌ c s

abbrev end_trimmed : Char → String → String
end_trimmed c String.[] = if is_space c then String.[] else String.◌∷◌ c String.[]
end_trimmed c (String.◌∷◌ d s) = String.◌∷◌ c (String.◌∷◌ d s)

unfoldable pub trim_right : String → String
trim_right String.[] = String.[]
trim_right (String.◌∷◌ c s) = end_trimmed c (trim_right s)

unfoldable pub trim_space : String → String
unfolding trim_left trim_right
trim_space s = trim_left (trim_right s)

-- A control character that is no tab, line feed or carriage return
unfoldable pub has_bad_control : String → Bool
has_bad_control String.[] = false
has_bad_control (String.◌∷◌ c s) =
    let rest = has_bad_control s in
    let n = code c in
    if is_control c && not (eqb n 9) && not (eqb n 10) && not (eqb n 13) then true else rest

unfoldable pub has_null : String → Bool
has_null String.[] = false
has_null (String.◌∷◌ c s) = let rest = has_null s in if eqb (code c) 0 then true else rest

-- ValidateSubjectWithLimits
unfoldable pub validate_subject : (String → Bool) → String → MessageLimits → Check
unfolding trim_space has_bad_control
validate_subject valid_utf8 subject limits = do
  fail_if (ltb (len (trim_space subject)) 1) empty_subject
  fail_if (ltb limits.max_subject_length (len subject)) subject_too_long
  fail_if (not (valid_utf8 subject)) invalid_content
  fail_if (has_bad_control subject) invalid_content

-- ValidateBodyWithLimits
unfoldable pub validate_body : (String → Bool) → String → MessageLimits → Check
unfolding has_null
validate_body valid_utf8 body limits = do
  fail_if (ltb limits.max_body_size (len body)) body_too_large
  fail_if (not (valid_utf8 body)) invalid_content
  fail_if (has_null body) invalid_content

-- ValidateMessageContentWithLimits
unfoldable pub validate_message_content : (String → Bool) → String → String → MessageLimits → Check
unfolding validate_subject validate_body
validate_message_content valid_utf8 subject body limits = do
  validate_subject valid_utf8 subject limits
  validate_body valid_utf8 body limits

unfoldable pub has_empty : List String → Bool
has_empty [] = false
has_empty (id ∷ ids) = let rest = has_empty ids in if id == "" then true else rest

-- ValidateRecipients
unfoldable pub validate_recipients : List String → MessageLimits → Check
unfolding has_empty
validate_recipients ids limits = do
  fail_if (eqb (length ids) 0) empty_recipients
  fail_if (ltb limits.max_recipient_count (length ids)) too_many_recipients
  fail_if (has_empty ids) invalid_recipient

-- strings.SplitN(s, ";", 2)[0]
unfoldable pub before_semicolon : String → String
before_semicolon String.[] = String.[]
before_semicolon (String.◌∷◌ c s) =
    let rest = before_semicolon s in if eqb (code c) 59 then String.[] else String.◌∷◌ c rest

module _ (lower : String → String) where
  -- normalizeMIMEType
  unfoldable pub normalize_mime_type : String → String
  unfolding trim_space before_semicolon
  normalize_mime_type content_type =
      let ct = trim_space content_type in
      if ct == "" then "" else lower (trim_space (before_semicolon ct))

  -- matchMIMEType: `p/*` stands for all types with the prefix `p/`.
  unfoldable pub match_mime_type : String → String → Bool
  unfolding trim_space
  match_mime_type content_type pattern' =
      let p = lower (trim_space pattern') in
      let ct = lower (trim_space content_type) in
      if p == ct
      then true
      else leb 2 (len p)
        && String.slice p (len p - 2) (len p) == "/*"
        && starts_with ct (String.slice p 0 (len p - 1))

  unfoldable pub matches_any : String → List String → Bool
  unfolding match_mime_type
  matches_any ct [] = false
  matches_any ct (p ∷ ps) =
      let rest = matches_any ct ps in if match_mime_type ct p then true else rest

  -- ValidateMIMEType
  unfoldable pub validate_mime_type : String → List String → List String → Check
  unfolding normalize_mime_type matches_any
  validate_mime_type content_type allowed blocked =
      let normalized = normalize_mime_type content_type in
      do
        fail_if (normalized == "") invalid_mime_type
        fail_if (matches_any normalized blocked) invalid_mime_type
        fail_if (ltb 0 (length allowed) && not (matches_any normalized allowed)) invalid_mime_type

  unfoldable pub check_attachments :
      MessageLimits → List String → List String → List Attachment → Check
  unfolding validate_mime_type
  check_attachments limits allowed blocked [] = ok tt
  check_attachments limits allowed blocked (a ∷ rest) = do
    fail_if (ltb limits.max_attachment_size a.size) attachment_too_large
    fail_if (a.filename == "") invalid_attachment
    validate_mime_type a.content_type allowed blocked
    check_attachments limits allowed blocked rest

  -- ValidateAttachmentsWithMIME
  unfoldable pub validate_attachments_with_mime :
      List Attachment → MessageLimits → List String → List String → Check
  unfolding check_attachments
  validate_attachments_with_mime attachments limits allowed blocked = do
    fail_if (ltb limits.max_attachment_count (length attachments)) too_many_attachments
    check_attachments limits allowed blocked attachments

  -- ValidateAttachments
  unfoldable pub validate_attachments : List Attachment → MessageLimits → Check
  unfolding validate_attachments_with_mime
  validate_attachments attachments limits = validate_attachments_with_mime attachments limits [] []

  module _ (json_size : List (String × Value) → Option ℕ) where
    -- ValidateMetadataWithLimits
    unfoldable pub validate_metadata : Option (List (String × Value)) → MessageLimits → Check
    unfolding check_metadata_keys
    validate_metadata none limits = ok tt
    validate_metadata (some metadata) limits = do
      fail_if (ltb limits.max_metadata_keys (length metadata)) invalid_metadata
      check_metadata_keys metadata
      check_size (json_size metadata) limits.max_metadata_size

    -- validateMessageReader, which ValidateMessage and ValidateDraft call, for a message whose metadata
    -- are not nil: those of a draft of the backend never are.
    unfoldable pub validate_message_reader : (String → Bool) → Message → MessageLimits → Check
    unfolding validate_recipients validate_message_content validate_headers validate_metadata
        validate_attachments
    validate_message_reader valid_utf8 r limits = do
      validate_recipients r.recipient_ids limits
      validate_message_content valid_utf8 r.subject r.body limits
      validate_headers r.headers limits
      validate_metadata (some r.metadata) limits
      validate_attachments r.attachments limits
