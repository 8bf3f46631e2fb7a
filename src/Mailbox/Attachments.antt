-- ===== src/Mailbox/Attachments.antt =====
-- attachment.go and ResolveAttachments of send.go: the references that messages hold to attachments.
-- The manager itself keeps its counts in a database; which identifiers AddRef refuses, and what its
-- GetMetadata and Load return, are parameters.
pub mod References
use mailbox.Prelude.{
  String, Bool, true, false, not, Option, none, some, List, [], ◌∷◌, ◌++◌, ◌==◌, Result, ok, err,
  ◌>>=◌, ◌>>◌, fail_if, ok_or, if◌then◌else◌,
}
use mailbox.Store.{Attachment}
use mailbox.Memory.{Message}
use mailbox.Mailbox.{
  Service, Config, UserMailbox, Handler, MailboxError, check_access, get_and_verify,
}

-- addAttachmentRefs, its loop: the references added so far are given back when one fails.
unfoldable pub add_refs : (String → Bool) → List Attachment → List String → Handler (Unit {0})
add_refs refuses [] added s = (ok tt, s)
add_refs refuses (a ∷ rest) added s = elim (refuses a.id) [
  | true ↦ (err MailboxError.attachment_ref_failed, record s { released = s.released ++ added })
  | false ↦
      add_refs refuses rest (added ++ a.id ∷ [])
        (record s { referenced = s.referenced ++ a.id ∷ [] })
]

-- addAttachmentRefs
unfoldable pub add_attachment_refs : Config → (String → Bool) → Message → Handler (Unit {0})
unfolding add_refs
add_attachment_refs cfg refuses m s =
    if cfg.has_attachments then add_refs refuses m.attachments [] s else (ok tt, s)

unfoldable pub resolve_each :
    (String → Option Attachment) → List String → Result MailboxError (List Attachment)
resolve_each get_metadata [] = ok []
resolve_each get_metadata (id ∷ ids) = do
  meta ← ok_or (get_metadata id) MailboxError.attachment_not_found
  rest ← resolve_each get_metadata ids
  ok (meta ∷ rest)

-- ResolveAttachments
unfoldable pub resolve_attachments :
    Config
    → UserMailbox
    → (String → Option Attachment)
    → List String
    → Service
    → Result MailboxError (List Attachment)
unfolding resolve_each
resolve_attachments cfg u get_metadata ids s = do
  check_access u s
  fail_if (not cfg.has_attachments) MailboxError.attachment_store_not_configured
  resolve_each get_metadata ids

abbrev pub has_attachment : String → List Attachment → Bool
has_attachment id [] = false
has_attachment id (a ∷ rest) =
    let found = has_attachment id rest in if a.id == id then true else found

-- LoadAttachment, up to the call of the manager's Load
unfoldable pub load_attachment :
    {A : Type 0}
    → Config
    → UserMailbox
    → (String → Result MailboxError A)
    → String
    → String
    → Service
    → Result MailboxError A
load_attachment cfg u load message_id attachment_id s = do
  check_access u s
  fail_if (not cfg.has_attachments) MailboxError.attachment_store_not_configured
  m ← get_and_verify u s message_id
  fail_if (not (has_attachment attachment_id m.attachments)) MailboxError.attachment_not_found
  load attachment_id
