-- ===== src/Validation/Tests.antt =====
-- Runs of the validation, and an instance of what is proved of it.
use mailbox.Prelude.{◌≡◌, refl, true, some, [], ◌∷◌, ok, err}
use mailbox.Memory.{Message}
use mailbox.Memory.Drafts.{new_draft}
use mailbox.Validation.{
  MessageLimits, ValidationError, validate_message_reader, validate_subject, validate_mime_type,
  validate_headers,
}

abbrev small : MessageLimits
small = record {
  max_subject_length = 10;
  max_body_size = 20;
  max_attachment_size = 100;
  max_attachment_count = 1;
  max_recipient_count = 2;
  max_metadata_size = 50;
  max_metadata_keys = 2;
  max_header_count = 1;
  max_header_key_length = 5;
  max_header_value_length = 5;
  max_headers_total_size = 8;
}

abbrev note : Message
note = record (new_draft "ann" 1) {
  recipient_ids = "bob" ∷ [];
  subject = " hi ";
  body = "there";
  headers = ("k", "v") ∷ [];
  attachments =
      record {
        id = "a";
        filename = "f";
        content_type = "text/plain; x";
        size = 9;
        uri = "";
        created_at = 1;
      }
      ∷ [];
}

blank_subject : validate_subject (λ s. true) "   " small ≡ err ValidationError.empty_subject
unfolding validate_subject
blank_subject = refl

long_key : validate_headers (("abcdef", "v") ∷ []) small ≡ err ValidationError.header_key_too_long
unfolding validate_headers
long_key = refl

wildcard : validate_mime_type (λ s. s) "image/png; q=1" ("image/*" ∷ []) [] ≡ ok tt
unfolding validate_mime_type
wildcard = refl

note_passes : validate_message_reader (λ s. s) (λ m. some 2) (λ s. true) note small ≡ ok tt
unfolding validate_message_reader
note_passes = refl
