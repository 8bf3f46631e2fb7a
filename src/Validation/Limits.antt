-- ===== src/Validation/Limits.antt =====
-- What a message that passes the validation has, and that nothing else is asked of it.
use mailbox.Prelude.{
  ℕ, ◌+◌, String, Bool, true, false, not, ◌&&◌, Option, none, some, List, [], ◌∷◌, ◌==◌, ◌>>◌, ltb,
  leb, length,
}
use Prim.Native.String.{len}
use mailbox.Store.{Value, Attachment}
use mailbox.Validation.{
  MessageLimits, max_metadata_key_length, trim_space, has_bad_control, has_null,
  normalize_mime_type,
}

abbrev pub all {ℓ} : {A : Type ℓ} → (A → Bool) → List A → Bool
all p [] = true
all p (x ∷ xs) = p x && all p xs

abbrev pub headers_size : List (String × String) → ℕ
headers_size [] = 0
headers_size ((key, value) ∷ rest) = len key + len value + headers_size rest

-- The conditions on a message, each on its own
module _ (limits : MessageLimits) where
  abbrev pub header_conforms : String × String → Bool
  header_conforms (key, value) =
      not (key == "")
      && leb (len key) limits.max_header_key_length
      && leb (len value) limits.max_header_value_length

  abbrev pub headers_conform : List (String × String) → Bool
  headers_conform headers =
      leb (length headers) limits.max_header_count
      && all header_conforms headers
      && leb (headers_size headers) limits.max_headers_total_size

  abbrev pub recipients_conform : List String → Bool
  recipients_conform ids =
      ltb 0 (length ids)
      && leb (length ids) limits.max_recipient_count
      && all (λ id. not (id == "")) ids

  abbrev pub content_conforms : (String → Bool) → String → String → Bool
  content_conforms valid_utf8 subject body =
      ltb 0 (len (trim_space subject))
      && leb (len subject) limits.max_subject_length
      && valid_utf8 subject
      && not (has_bad_control subject)
      && leb (len body) limits.max_body_size
      && valid_utf8 body
      && not (has_null body)

  module _ (lower : String → String) where
    abbrev pub attachment_conforms : Attachment → Bool
    attachment_conforms a =
        leb a.size limits.max_attachment_size
        && not (a.filename == "")
        && not (normalize_mime_type lower a.content_type == "")

    abbrev pub attachments_conform : List Attachment → Bool
    attachments_conform attachments =
        leb (length attachments) limits.max_attachment_count && all attachment_conforms attachments

    module _ (json_size : List (String × Value) → Option ℕ) where
      abbrev size_conforms : Option ℕ → Bool
      size_conforms none = false
      size_conforms (some n) = leb n limits.max_metadata_size

      abbrev key_conforms : String × Value → Bool
      key_conforms (key, _) = leb (len key) max_metadata_key_length && not (key == "")

      abbrev pub metadata_conforms : List (String × Value) → Bool
      metadata_conforms metadata =
          leb (length metadata) limits.max_metadata_keys
          && all key_conforms metadata
          && size_conforms (json_size metadata)
