-- ===== src/Sealing/Finishes.antt =====
-- A run that is left alone seals and delivers:
-- apps/api/src/modules/signing/completion.ts.
use mathlib.Core.Path.{subst}
use president_tech_award_e_s.Prelude.{
  ◌≡◌, refl, sym, ap, ◌∙◌, inl, inr, true, false, none, some, List, ◌==◌, find_first,
  find_first_holds, find_first-update_where, All-find_first, update_where, count_where,
  count_where_unique, select, arith, ==_iff,
}
use president_tech_award_e_s.Calendar.{Instant}
use president_tech_award_e_s.Billing.Store.{Key}
use president_tech_award_e_s.Billing.Payme.Protocol.{Text}
use president_tech_award_e_s.Envelope.Store.{SignatureRequest, has_id, find_request, recipients_of}
use president_tech_award_e_s.Envelope.Link.{is_completed}
use president_tech_award_e_s.Sealing.Ring.{Seal}
use president_tech_award_e_s.Sealing.Rotation.{verify-seal}
use president_tech_award_e_s.Sealing.Completion.{
  Document, Workspace, Draft, Artifacts, Phase, Pass, get_object, by_order, has_signed, passes_of,
  load, is_unrecorded, record_artifacts,
}
use president_tech_award_e_s.Sealing.Runs.{
  Draw, IsFresh, Worker, stamp_passes, draft_sealed, draft_stamped, stamp_source, stamp, store,
  claim_artifacts, advance,
}
use president_tech_award_e_s.Sealing.Follows.{recorded, blank}
use president_tech_award_e_s.Sealing.Evidence.{IsWorking, Dated, IsRow, IsSound, IsPhase}
use president_tech_award_e_s.Sealing.Alone.{Ends, goes_on, load-stamping, loads}
use president_tech_award_e_s.Sealing.Delivered.{IsDelivered, deliver, again}
use president_tech_award_e_s.Sealing.Making.{stamp-IsPhase}
use president_tech_award_e_s.Sealing.Steps.{load-IsPhase}
use president_tech_award_e_s.Sealing.Preserved.{advance-Goes}

module _ (worker : Worker) (d : Draw) where
  -- The source, the images and the drawing are there.
  pub record CanStamp (r : SignatureRequest) (w : Workspace) : Type 0 where
    pub doc : Document
    pub source : Text
    pub passes : List Pass
    pub signed_pdf : Text
    pub has_doc : find_first (λ x. x.id == r.document_id) w.documents ≡ some doc
    pub has_source : get_object doc.storage_key w.objects ≡ some source
    pub has_passes :
        passes_of r (select has_signed (by_order (recipients_of r.id w.tables))) ≡ some passes
    pub draws : stamp_passes worker d.save passes source w.objects ≡ some signed_pdf

  drafts :
      (r : SignatureRequest) (at : Instant) (people : _) (signed : Text) (mark : Seal)
      → (draft : Draft) × (draft_sealed worker d r at people signed (some mark)
          ≡ Phase.storing r draft)
  unfolding draft_sealed
  drafts r at people signed mark = (_, refl)

  stamps :
      (r : SignatureRequest) (at : Instant) (w : Workspace)
      → IsWorking worker
      → CanStamp r w
      → (draft : Draft) × (stamp worker d r at w ≡ Phase.storing r draft)
  unfolding stamp stamp_source draft_stamped
  stamps r at w works can =
      let (mark, sealed, _) =
        verify-seal worker.node works.signs works.ring works.ring
          (record {
            request_id = r.id;
            signed_at = at;
            document_hash = worker.node.sha256 can.signed_pdf;
          })
          works.starts works.starts (λ kid k found. (k, found, refl)) in
      let (draft, drafted) =
        drafts r at (by_order (recipients_of r.id w.tables)) can.signed_pdf mark in
      (
        draft,
        rw
            (
              stamp, can.has_doc, stamp_source, can.has_source, can.has_passes, can.draws,
              draft_stamped, sealed,
            )
            drafted,
      )

  abbrev stored_as : Draft → Artifacts
  stored_as draft = record {
    draft = draft;
    signed_pdf_key = d.signed_pdf_key;
    certificate_key = d.certificate_key;
  }

  -- A run as far as the claim: what it made and stored is right.
  prepares :
      (id : Key) (w : Workspace) (r : SignatureRequest) (at : Instant)
      → IsWorking worker
      → IsSound worker w
      → IsFresh d w
      → find_request id w.tables ≡ some r
      → load (some r) ≡ Phase.stamping r at
      → CanStamp r w
      → (draft : Draft) × (stamp worker d r at w ≡ Phase.storing r draft)
        × IsPhase worker (store worker d r draft w).0 (Phase.claiming r (stored_as draft))
  unfolding advance store
  prepares id w r at works sound fresh found loading can =
      let (draft, stamped) = stamps r at w works can in
      let when : IsPhase worker w (Phase.stamping r at) =
        subst (IsPhase worker w) (ap load found ∙ loading) (load-IsPhase worker w id sound) in
      let drafted : IsPhase worker w (Phase.storing r draft) =
        subst (IsPhase worker w) stamped (stamp-IsPhase worker works d r at w when) in
      let (_, _, claiming) =
        advance-Goes worker d w (Phase.storing r draft) works fresh sound drafted in
      (draft, stamped, claiming)

  -- The time that the seal is for is the one in the row.
  row-Dated :
      (id : Key) (rows : List SignatureRequest) (r : SignatureRequest) (at : Instant)
      → find_first (has_id id) rows ≡ some r
      → Dated r at rows
      → r.completed_at ≡ some at
  row-Dated id rows r at found when =
      All-find_first (λ y. has_id r.id y ≡ true → y.completed_at ≡ some at) (has_id id) rows when
        found ((==_iff r.id r.id).1 refl)

  -- Only the run's own envelope is claimed.
  claims_one :
      (id : Key) (w : Workspace) (r : SignatureRequest) (a : Artifacts)
      → IsSound worker w
      → find_request id w.tables ≡ some r
      → recorded r ≡ blank
      → (count_where (is_unrecorded r.id) w.tables.requests ≡ 1)
        × (find_first
              (has_id id)
              (update_where (is_unrecorded r.id) (record_artifacts a) w.tables.requests)
            ≡ some (record_artifacts a r))
  claims_one id w r a sound found none_yet =
      let rows = w.tables.requests in
      let same = find_first_holds (has_id id) rows found in
      let no_key : r.signed_pdf_key ≡ none = ap (λ s. s.signed_pdf_key) none_yet in
      let free : is_unrecorded r.id r ≡ true = rw no_key (ground arith) in
      let found' : find_first (has_id r.id) rows ≡ some r =
        subst (λ k. find_first (has_id k) rows ≡ some r) (sym ((==_iff r.id id).0 same)) found in
      (
        count_where_unique (λ x. x.id) r.id (has_id r.id)
              (λ x. elim x.signed_pdf_key [ none ↦ true | some _ ↦ false ]) rows sound.unique
              (λ y hit. (==_iff y.id r.id).0 hit) found'
            ∙ rw no_key refl,
        find_first-update_where (has_id id) (is_unrecorded r.id) (record_artifacts a) rows
              (λ _. refl)
            ∙ rw (found, free) refl,
      )

  -- The first run of an envelope that nothing is recorded of.
  first :
      (id : Key) (w : Workspace) (r : SignatureRequest) {at : Instant}
      → IsWorking worker
      → IsSound worker w
      → IsFresh d w
      → find_request id w.tables ≡ some r
      → is_completed r.status ≡ true
      → r.completed_at ≡ some at
      → recorded r ≡ blank
      → CanStamp r w
      → (w' : Workspace) × Ends worker d w (Phase.loading id) w' × IsDelivered worker id r w w'
  unfolding advance store claim_artifacts
  first id w r {at} works sound fresh found signed dated none_yet can =
      let loading = load-stamping worker d r signed dated none_yet in
      let (draft, stamped, (at', when, is_draft, is_stored)) =
        prepares id w r at works sound fresh found loading can in
      let a = stored_as draft in
      let stored = (store worker d r draft w).0 in
      let (one, here) = claims_one id w r a sound found none_yet in
      let claimed = record stored {
        tables = record w.tables {
          requests = update_where (is_unrecorded r.id) (record_artifacts a) w.tables.requests;
        };
      } in
      let (w', ends, (x', found', e', mailed, sent_out)) =
        deliver worker d id r (record_artifacts a r) claimed
          (find_first_holds (has_id id) w.tables.requests found) here
          (a, at', refl, row-Dated id w.tables.requests r at' found when, is_draft, is_stored) in
      (
        w',
        loads worker d id w found loading (
            goes_on worker d w (Phase.stamping r at) (ap (λ p. (w, p)) stamped) (
              goes_on worker d w (Phase.storing r draft) refl (
                goes_on worker d stored (Phase.claiming r a) (rw (claim_artifacts, one) refl)
                  ends))),
        (
          x',
          found',
          e',
          mailed,
          inr (record {
            mails = sent_out.mails;
            signed = sent_out.signed;
            certificate = sent_out.certificate;
            outbox = sent_out.outbox;
            is_signed = sent_out.is_signed;
            is_certificate = sent_out.is_certificate;
            carry = sent_out.carry;
            once = sent_out.once;
          }),
        ),
      )

  -- With a seal service that works, a run that is not interrupted, of a completed envelope in a
  -- sound workspace whose signed PDF can be drawn, with new keys for what it stores, ends. Then
  -- both documents are stored, the hash, the seal and its kid are on record and verify, and the
  -- envelope is marked as delivered; and the stored documents were handed to the mail provider in
  -- exactly one mail for everybody on the envelope and its sender, and in none for anybody else,
  -- unless an earlier run had marked it, in which case this one mails nobody.
  pub completes :
      (id : Key) (w : Workspace) {r : SignatureRequest} {at : Instant}
      → IsWorking worker
      → IsSound worker w
      → IsFresh d w
      → find_request id w.tables ≡ some r
      → is_completed r.status ≡ true
      → r.completed_at ≡ some at
      → CanStamp r w
      → (w' : Workspace) × Ends worker d w (Phase.loading id) w' × IsDelivered worker id r w w'
  completes id w {r} works sound fresh found signed dated can =
      elim (All-find_first (IsRow worker w.objects) (has_id id) w.tables.requests sound.rows
        found) [
          | inl none_yet ↦ first id w r works sound fresh found signed dated none_yet can
          | inr evidence ↦ again worker d id w r found signed evidence
        ]
