-- ===== src/Sealing/Runs.antt =====
-- The runs of the pipeline, one step at a time, several at once:
-- apps/api/src/modules/signing/completion.ts.
use president_tech_award_e_s.Prelude.{
  ℕ, zero, suc, Bool, true, false, not, ◌&&◌, ◌≡◌, Option, none, some, List, [], ◌∷◌, ◌++◌, map,
  ◌==◌, if◌then◌else◌, select, find_first, any, update_where, count_where,
}
use president_tech_award_e_s.Calendar.{Instant}
use president_tech_award_e_s.Billing.Store.{Key}
use president_tech_award_e_s.Billing.Payme.Protocol.{Text}
use president_tech_award_e_s.Envelope.Fields.{Field}
use president_tech_award_e_s.Envelope.Store.{
  Tables, Recipient, SignatureRequest, is_signer, find_request, recipients_of,
}
use president_tech_award_e_s.Sealing.Ring.{NodeCrypto, SealService, Seal, seal}
use president_tech_award_e_s.Sealing.Completion.{
  StoredObject, Mail, Workspace, get_object, CertificateInput, Pass, Draft, Artifacts,
  CompletionError, Phase, by_order, has_signed, passes_of, certificate_signers, load, is_unrecorded,
  record_artifacts, is_unmailed, mark_mailed,
}
use president_tech_award_e_s.Sealing.Follows.{Spares}

-- What a step draws from outside: the clock, the keys of new objects, and what makes two saves of a
-- PDF differ.
pub record Draw : Type 0 where
  pub now : Instant
  pub signed_pdf_key : Key
  pub certificate_key : Key
  pub save : ℕ

-- `randomUUID` returns a key that is not in use, and never the same twice.
pub record IsFresh (d : Draw) (w : Workspace) : Type 0 where
  pub signed_is_new : get_object d.signed_pdf_key w.objects ≡ none
  pub certificate_is_new : get_object d.certificate_key w.objects ≡ none
  pub different : (d.signed_pdf_key == d.certificate_key) ≡ false
  pub signed_is_filled : (d.signed_pdf_key == 0) ≡ false
  pub certificate_is_filled : (d.certificate_key == 0) ≡ false

-- `stampPdf`, `buildCertificatePdf` and `toLowerCase`
pub record Worker : Type 0 where
  pub node : NodeCrypto
  pub service : SealService
  pub stamp_pdf : ℕ → Text → List Field → List (Key × Text) → Text → Option Text
  pub build_certificate : ℕ → CertificateInput → Text
  pub lower : Key → Key

module _ (worker : Worker) where
  -- One stamp for each signer, on the PDF that the one before it left.
  unfoldable pub stamp_passes : ℕ → List Pass → Text → List StoredObject → Option Text
  unfolding get_object
  stamp_passes save [] pdf objects = some pdf
  stamp_passes save (p ∷ ps) pdf objects = elim (get_object p.image_key objects) [
    | none ↦ none
    | some png ↦ elim (worker.stamp_pdf save pdf p.fields p.values png) [
      | none ↦ none
      | some stamped ↦ stamp_passes save ps stamped objects
    ]
  ]

  unfoldable pub draft_sealed :
      Draw → SignatureRequest → Instant → List Recipient → Text → Option Seal → Phase
  draft_sealed d req at people signed none = Phase.failed CompletionError.no_active_key
  draft_sealed d req at people signed (some mark) =
      let hash = worker.node.sha256 signed in
      let certificate = worker.build_certificate d.save (record {
        request_id = req.id;
        document_name = req.document_name;
        sender_email = req.sender_email;
        signers = certificate_signers req (select is_signer people);
        sent_at = req.sent_at;
        signed_at = at;
        document_hash = hash;
        seal = mark;
      }) in
      Phase.storing req (record {
        signed_pdf = signed;
        certificate_pdf = certificate;
        document_hash = hash;
        seal = mark;
      })

  unfoldable pub draft_stamped :
      Draw → SignatureRequest → Instant → List Recipient → Option Text → Phase
  unfolding draft_sealed seal
  draft_stamped d req at people none = Phase.failed CompletionError.not_stamped
  draft_stamped d req at people (some signed) = draft_sealed d req at people signed (
      seal worker.node worker.service
        (record { request_id = req.id; signed_at = at; document_hash = worker.node.sha256 signed }))

  unfoldable pub stamp_source :
      Draw → SignatureRequest → Instant → List Recipient → Workspace → Option Text → Phase
  unfolding draft_stamped passes_of stamp_passes
  stamp_source d req at people w none = Phase.failed CompletionError.no_object
  stamp_source d req at people w (some source) = elim (passes_of req (select has_signed people)) [
    | none ↦ Phase.failed CompletionError.no_signature
    | some passes ↦ draft_stamped d req at people (stamp_passes d.save passes source w.objects)
  ]

  -- Load the document and the people, stamp, hash, seal, and write the certificate.
  unfoldable pub stamp : Draw → SignatureRequest → Instant → Workspace → Phase
  unfolding stamp_source get_object
  stamp d req at w = elim (find_first (λ doc. doc.id == req.document_id) w.documents) [
    | none ↦ Phase.failed CompletionError.no_document
    | some doc ↦
        stamp_source d req at (by_order (recipients_of req.id w.tables)) w
          (get_object doc.storage_key w.objects)
  ]

  -- Both objects are stored before they are recorded.
  unfoldable pub store : Draw → SignatureRequest → Draft → Workspace → Workspace × Phase
  store d req draft w = (
    record w {
      objects =
          record { key = d.signed_pdf_key; body = draft.signed_pdf }
          ∷ record { key = d.certificate_key; body = draft.certificate_pdf }
          ∷ w.objects;
    },
    Phase.claiming req (record {
      draft = draft;
      signed_pdf_key = d.signed_pdf_key;
      certificate_key = d.certificate_key;
    }),
  )

  -- The compare-and-set; who does not claim the row stops.
  unfoldable pub claim_artifacts : SignatureRequest → Artifacts → Workspace → Workspace × Phase
  claim_artifacts req a w =
      let rows = w.tables.requests in
      let claimed = record w {
        tables = record w.tables {
          requests = update_where (is_unrecorded req.id) (record_artifacts a) rows;
        };
      } in
      if not (count_where (is_unrecorded req.id) rows == 1)
      then (claimed, Phase.finished)
      else (claimed, Phase.delivering req a.draft.signed_pdf a.draft.certificate_pdf)

  -- The addresses that were not seen before, in lower case.
  unfoldable pub unseen : List Key → List Key → List Key
  unseen seen [] = []
  unseen seen (e ∷ es) = elim (any (λ k. k == worker.lower e) seen) [
    | true ↦ unseen seen es
    | false ↦ e ∷ unseen (worker.lower e ∷ seen) es
  ]

  abbrev pub audience : SignatureRequest → List Recipient → List Key
  audience req [] = req.recipient_email ∷ []
  audience req (r ∷ rs) = map (λ q. q.email) (r ∷ rs)

  abbrev pub mail_to : Bool → Text → Text → Key → Mail
  mail_to is_sender signed certificate address = record {
    address = address;
    is_sender = is_sender;
    signed_pdf = signed;
    certificate_pdf = certificate;
  }

  abbrev pub sender_mails : Text → Text → Option Key → List Key → List Mail
  sender_mails signed certificate none told = []
  sender_mails signed certificate (some sender) told =
      if not (sender == 0) && not (any (λ e. worker.lower e == worker.lower sender) told)
      then mail_to true signed certificate sender ∷ []
      else []

  -- The mails of `deliver`, in order.
  unfoldable pub mails_of : SignatureRequest → List Recipient → Text → Text → List Mail
  unfolding unseen
  mails_of req people signed certificate =
      let told = unseen [] (audience req people) in
      map (mail_to false signed certificate) told
      ++ sender_mails signed certificate req.sender_email told

  abbrev pub deliver_stored : SignatureRequest → Option Text → Option Text → Phase
  deliver_stored req (some signed) (some certificate) = Phase.delivering req signed certificate
  deliver_stored req _ _ = Phase.failed CompletionError.no_object

  -- The next step of a run.
  unfoldable pub advance : Draw → Workspace → Phase → Workspace × Phase
  unfolding load stamp store claim_artifacts mails_of get_object
  advance d w (Phase.loading id) = (w, load (find_request id w.tables))
  advance d w (Phase.resending req signed certificate) =
      (w, deliver_stored req (get_object signed w.objects) (get_object certificate w.objects))
  advance d w (Phase.stamping req at) = (w, stamp d req at w)
  advance d w (Phase.storing req draft) = store d req draft w
  advance d w (Phase.claiming req a) = claim_artifacts req a w
  advance d w (Phase.delivering req signed certificate) =
      (w, Phase.mailing req (mails_of req (recipients_of req.id w.tables) signed certificate))
  advance d w (Phase.mailing req []) = (
    record w {
      tables = record w.tables {
        requests = update_where (is_unmailed req.id) (mark_mailed d.now) w.tables.requests;
      };
    },
    Phase.finished,
  )
  advance d w (Phase.mailing req (m ∷ ms)) =
      (record w { outbox = m ∷ w.outbox }, Phase.mailing req ms)
  advance d w Phase.finished = (w, Phase.finished)
  advance d w (Phase.failed e) = (w, Phase.failed e)

  -- A run on its own, for a number of steps. Each step looks at another part of the draw.
  unfoldable pub run : Draw → ℕ → Workspace → Phase → Workspace × Phase
  unfolding advance
  run d zero w p = (w, p)
  run d (suc n) w p = let next = advance d w p in run d n next.0 next.1

-- The workers: a job is started (again) at any time, a run goes on while others wait, and a run may
-- die between two steps. Meanwhile other handlers change the tables, but not what the pipeline goes by.
pub data Step (worker : Worker) : Workspace → List Phase → Workspace → List Phase → Type 0 where
  starts : (id : Key) (w : Workspace) (ps : List Phase) → Step worker w ps w (Phase.loading id ∷ ps)
  advances :
      (d : Draw) (w : Workspace) (p : Phase) (ps : List Phase)
      → IsFresh d w
      → Step worker w (p ∷ ps) (advance worker d w p).0 ((advance worker d w p).1 ∷ ps)
  dies :
      (w : Workspace) (p : Phase) (ps : List Phase)
      → Step worker w (p ∷ ps) w (Phase.failed CompletionError.died ∷ ps)
  others :
      (w : Workspace) (ps : List Phase) (db : Tables)
      → Spares w.tables.requests db.requests
      → Step worker w ps (record w { tables = db }) ps
  another :
      {w w' : Workspace} {ps ps' : List Phase} (p : Phase)
      → Step worker w ps w' ps'
      → Step worker w (p ∷ ps) w' (p ∷ ps')

pub data Reach (worker : Worker) (w : Workspace) (ps : List Phase)
    : Workspace → List Phase → Type 0 where
  nothing_yet : Reach worker w ps w ps
  after :
      {w' w'' : Workspace} {ps' ps'' : List Phase}
      → Reach worker w ps w' ps'
      → Step worker w' ps' w'' ps''
      → Reach worker w ps w'' ps''
