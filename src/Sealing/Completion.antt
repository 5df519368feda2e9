-- ===== src/Sealing/Completion.antt =====
-- The pipeline that seals a completed envelope: apps/api/src/modules/signing/completion.ts, as the
-- steps between its awaits. Drawing (`stampPdf`, `buildCertificatePdf`) is a parameter.
use president_tech_award_e_s.Prelude.{
  Bool, true, false, not, ◌&&◌, Option, none, some, List, [], ◌∷◌, map, ◌==◌, leb, if◌then◌else◌,
  select, find_first,
}
use president_tech_award_e_s.Calendar.{Instant}
use president_tech_award_e_s.Billing.Store.{Key, opt_eq}
use president_tech_award_e_s.Billing.Payme.Protocol.{Text}
use president_tech_award_e_s.Envelope.Fields.{Field}
use president_tech_award_e_s.Envelope.Store.{
  Recipient, SignatureRequest, Tables, is_signer, is_done, has_id,
}
use president_tech_award_e_s.Envelope.Link.{is_completed}
use president_tech_award_e_s.Sealing.Ring.{Seal}

pub record Document : Type 0 where
  pub id : Key
  pub storage_key : Key

pub record StoredObject : Type 0 where
  pub key : Key
  pub body : Text

-- What a mail carries, without its wording.
pub record Mail : Type 0 where
  pub address : Key
  pub is_sender : Bool
  pub signed_pdf : Text
  pub certificate_pdf : Text

-- The database, the object storage and the mails that were handed to the provider.
pub record Workspace : Type 0 where
  pub tables : Tables
  pub documents : List Document
  pub objects : List StoredObject
  pub outbox : List Mail

unfoldable pub get_object : Key → List StoredObject → Option Text
get_object key objects = elim (find_first (λ o. o.key == key) objects) [
  | none ↦ none
  | some o ↦ some o.body
]

-- A text that is neither missing nor empty.
abbrev pub is_filled : Option Key → Bool
is_filled none = false
is_filled (some k) = not (k == 0)

abbrev pub has_time : Option Instant → Bool
has_time none = false
has_time (some _) = true

-- `CertificateSigner` and `CertificateInput`, without the names, addresses and methods.
pub record CertificateSigner : Type 0 where
  pub email : Key
  pub viewed_at : Option Instant
  pub consent_at : Option Instant
  pub signed_at : Option Instant

pub record CertificateInput : Type 0 where
  pub request_id : Key
  pub document_name : Key
  pub sender_email : Option Key
  pub signers : List CertificateSigner
  pub sent_at : Instant
  pub signed_at : Instant
  pub document_hash : Key
  pub seal : Seal

-- One signer's mark.
pub record Pass : Type 0 where
  pub fields : List Field
  pub values : List (Key × Text)
  pub image_key : Key

-- What a run has made and not stored yet, and with the keys it was stored under.
pub record Draft : Type 0 where
  pub signed_pdf : Text
  pub certificate_pdf : Text
  pub document_hash : Key
  pub seal : Seal

pub record Artifacts : Type 0 where
  pub draft : Draft
  pub signed_pdf_key : Key
  pub certificate_key : Key

pub data CompletionError : Type 0 where
  not_found not_signed no_completion_time no_document : CompletionError
  no_object no_signature not_stamped no_active_key died : CompletionError

-- Where a run stands.
pub data Phase : Type 0 where
  loading : Key → Phase
  resending : SignatureRequest → Key → Key → Phase
  stamping : SignatureRequest → Instant → Phase
  storing : SignatureRequest → Draft → Phase
  claiming : SignatureRequest → Artifacts → Phase
  delivering : SignatureRequest → Text → Text → Phase
  mailing : SignatureRequest → List Mail → Phase
  finished : Phase
  failed : CompletionError → Phase

-- `orderBy: { routingOrder: 'asc' }`
abbrev pub insert_by_order : Recipient → List Recipient → List Recipient
insert_by_order r [] = r ∷ []
insert_by_order r (q ∷ qs) =
    let rest = insert_by_order r qs in
    if leb r.routing_order q.routing_order then r ∷ q ∷ qs else q ∷ rest

abbrev pub by_order : List Recipient → List Recipient
by_order [] = []
by_order (r ∷ rs) = insert_by_order r (by_order rs)

abbrev pub has_signed : Recipient → Bool
has_signed r = is_signer r && (is_done r.status && is_filled r.signature_image_key)

abbrev pub image_of : Option Key → Key
image_of none = 0
image_of (some k) = k

abbrev pub pass_of : List Field → Recipient → Pass
pass_of fields r = record {
  fields = select (λ f. opt_eq f.recipient_key r.recipient_key) fields;
  values = r.field_values;
  image_key = image_of r.signature_image_key;
}

-- The passes of the signers, or the one of a legacy envelope; `none` without a signature.
unfoldable pub passes_of : SignatureRequest → List Recipient → Option (List Pass)
passes_of req [] =
    if is_filled req.signature_image_key
    then some (
        record {
          fields = req.fields;
          values = req.field_values;
          image_key = image_of req.signature_image_key;
        }
        ∷ [])
    else none
passes_of req (r ∷ rs) = some (map (pass_of req.fields) (r ∷ rs))

abbrev pub signer_of : Recipient → CertificateSigner
signer_of r = record {
  email = r.email;
  viewed_at = r.viewed_at;
  consent_at = r.consent_at;
  signed_at = r.completed_at;
}

abbrev pub certificate_signers : SignatureRequest → List Recipient → List CertificateSigner
certificate_signers req [] =
    record {
      email = req.recipient_email;
      viewed_at = req.viewed_at;
      consent_at = req.consent_at;
      signed_at = req.completed_at;
    }
    ∷ []
certificate_signers req (r ∷ rs) = map signer_of (r ∷ rs)

-- The decision of a run that has loaded its request.
abbrev pub resend_or_stamp : SignatureRequest → Instant → Option Key → Option Key → Phase
resend_or_stamp req at (some signed) (some certificate) =
    if is_filled (some signed) && is_filled (some certificate)
    then Phase.resending req signed certificate
    else Phase.stamping req at
resend_or_stamp req at _ _ = Phase.stamping req at

abbrev pub dated : SignatureRequest → Option Instant → Phase
dated req none = Phase.failed CompletionError.no_completion_time
dated req (some at) = resend_or_stamp req at req.signed_pdf_key req.certificate_key

unfoldable pub load : Option SignatureRequest → Phase
load none = Phase.failed CompletionError.not_found
load (some req) =
    if is_filled req.signed_pdf_key && has_time req.completion_emailed_at
    then Phase.finished
    else if not (is_completed req.status)
    then Phase.failed CompletionError.not_signed
    else dated req req.completed_at

-- The claim.
abbrev pub is_unrecorded : Key → SignatureRequest → Bool
is_unrecorded id r = has_id id r && elim r.signed_pdf_key [ none ↦ true | some _ ↦ false ]

abbrev pub record_artifacts : Artifacts → SignatureRequest → SignatureRequest
record_artifacts a r = record r {
  signed_pdf_key = some a.signed_pdf_key;
  certificate_key = some a.certificate_key;
  document_hash = some a.draft.document_hash;
  seal_signature = some a.draft.seal.signature;
  seal_kid = some a.draft.seal.kid;
}

-- The mark that the copies went out.
abbrev pub is_unmailed : Key → SignatureRequest → Bool
is_unmailed id r = has_id id r && not (has_time r.completion_emailed_at)

abbrev pub mark_mailed : Instant → SignatureRequest → SignatureRequest
mark_mailed now r = record r { completion_emailed_at = some now }
