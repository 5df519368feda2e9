-- ===== src/Sealing/Delivered.antt =====
-- What a run that is left alone delivers: `deliver` of apps/api/src/modules/signing/completion.ts.
use president_tech_award_e_s.Prelude.{
  ◌+◌, ◌≡◌, refl, ap, ◌∙◌, ◌⊎◌, inl, inr, Bool, true, some, ◌||◌, List, [], ◌∷◌, ◌==◌,
  if◌then◌else◌, apply_if, any, count_where, find_first-update_where, find_first_holds, All, arith,
  Bool-cases,
}
use president_tech_award_e_s.Billing.Store.{Key}
use president_tech_award_e_s.Billing.Payme.Protocol.{Text}
use president_tech_award_e_s.Envelope.Store.{SignatureRequest, has_id, find_request, recipients_of}
use president_tech_award_e_s.Envelope.Link.{is_completed}
use president_tech_award_e_s.Sealing.Completion.{
  Mail, Workspace, Phase, get_object, image_of, has_time, is_unmailed, mark_mailed,
}
use president_tech_award_e_s.Sealing.Runs.{Draw, Worker, audience, advance}
use president_tech_award_e_s.Sealing.Follows.{recorded}
use president_tech_award_e_s.Sealing.Evidence.{HasEvidence}
use president_tech_award_e_s.Sealing.Making.{mails_of-All}
use president_tech_award_e_s.Sealing.Copies.{spells, is_to, is_sender, mails_of-once}
use president_tech_award_e_s.Sealing.Alone.{
  sent, Ends, goes_on, delivered, copies, delivering-Ends, load-resending, load-finished, stopped,
  loads,
}

count-sent :
    (p : Mail → Bool) (ms outbox : List Mail)
    → count_where p (sent ms outbox) ≡ count_where p outbox + count_where p ms
count-sent p [] outbox = ground arith
count-sent p (m ∷ ms) outbox = ground (arith, count-sent p ms (m ∷ outbox))

module _ (worker : Worker) where
  -- Whom a delivery is for: the recipients, or the address of a legacy envelope, and the sender.
  abbrev pub concerns : SignatureRequest → Workspace → Key → Bool
  concerns r w k =
      any (spells worker k) (audience worker r (recipients_of r.id w.tables))
      || is_sender worker k r.sender_email

  -- Between two workspaces, the provider was handed the documents that are stored for the envelope: one
  -- mail for everybody whom it concerns, and none for anybody else.
  pub record HasCopies (r r' : SignatureRequest) (w w' : Workspace) : Type 0 where
    pub mails : List Mail
    pub signed : Text
    pub certificate : Text
    pub outbox : w'.outbox ≡ sent mails w.outbox
    pub is_signed : get_object (image_of r'.signed_pdf_key) w'.objects ≡ some signed
    pub is_certificate : get_object (image_of r'.certificate_key) w'.objects ≡ some certificate
    pub carry : All (λ m. (m.signed_pdf ≡ signed) × (m.certificate_pdf ≡ certificate)) mails
    pub once : (k : Key) → count_where (is_to worker k) mails ≡ (if concerns r w k then 1 else 0)

  -- The envelope has its artifacts, stored, with a seal that verifies, and is marked as delivered; and
  -- the copies were handed to the provider, unless it was marked before.
  abbrev pub IsDelivered : Key → SignatureRequest → Workspace → Workspace → Type 0
  IsDelivered id r w w' =
      (r' : SignatureRequest) × (find_request id w'.tables ≡ some r')
      × HasEvidence worker w'.objects r'
      × (has_time r'.completion_emailed_at ≡ true)
      × (((has_time r.completion_emailed_at ≡ true) × (w'.outbox ≡ w.outbox)) ⊎ HasCopies r r' w w')

module _ (worker : Worker) (d : Draw) where
  delivered_row :
      (id : Key) (r x : SignatureRequest) (ms : List Mail) (w : Workspace)
      → (r.id == id) ≡ true
      → find_request id w.tables ≡ some x
      → (find_request id (delivered worker d r ms w).tables
          ≡ some (apply_if (is_unmailed r.id) (mark_mailed d.now) x))
        × (has_time (apply_if (is_unmailed r.id) (mark_mailed d.now) x).completion_emailed_at
            ≡ true)
  delivered_row id r x ms w same found =
      let hit = find_first_holds (has_id id) w.tables.requests found in
      let here : has_id r.id x ≡ true = ground arith in
      (
        find_first-update_where (has_id id) (is_unmailed r.id) (mark_mailed d.now) w.tables.requests
              (λ _. refl)
            ∙ rw found refl,
        elim (Bool-cases (is_unmailed r.id x)) [
          | inl unmailed ↦ rw unmailed refl
          | inr mailed ↦ rw mailed (ground arith)
        ],
      )

  kept :
      (objects : _) (r x : SignatureRequest)
      → HasEvidence worker objects x
      → HasEvidence worker objects (apply_if (is_unmailed r.id) (mark_mailed d.now) x)
  kept objects r x e = elim (Bool-cases (is_unmailed r.id x)) [
    | inl unmailed ↦ rw unmailed e
    | inr mailed ↦ rw mailed e
  ]

  keeps_record :
      (r x : SignatureRequest)
      → recorded (apply_if (is_unmailed r.id) (mark_mailed d.now) x) ≡ recorded x
  keeps_record r x = elim (Bool-cases (is_unmailed r.id x)) [
    | inl unmailed ↦ rw unmailed refl
    | inr mailed ↦ rw mailed refl
  ]

  -- The second half of a run, from the moment both documents are at hand: `r` is what the run loaded,
  -- and `x` what the row says now.
  pub deliver :
      (id : Key) (r x : SignatureRequest) (w : Workspace)
      → (r.id == id) ≡ true
      → find_request id w.tables ≡ some x
      → (e : HasEvidence worker w.objects x)
      → (w' : Workspace) × Ends worker d w
          (Phase.delivering r e.0.draft.signed_pdf e.0.draft.certificate_pdf)
          w'
        × ((x' : SignatureRequest) × (find_request id w'.tables ≡ some x')
            × HasEvidence worker w'.objects x'
            × (has_time x'.completion_emailed_at ≡ true)
            × HasCopies worker r x' w w')
  deliver id r x w same found e =
      let a = e.0 in
      let signed = a.draft.signed_pdf in
      let certificate = a.draft.certificate_pdf in
      let ms = copies worker d r w signed certificate in
      let row = delivered_row id r x ms w same found in
      let x' = apply_if (is_unmailed r.id) (mark_mailed d.now) x in
      let (a', at, same', dated, draft, stored) = e in
      let is_recorded = keeps_record r x in
      (
        delivered worker d r ms w,
        delivering-Ends worker d r signed certificate w,
        (
          x',
          row.0,
          kept w.objects r x e,
          row.1,
          record {
            mails = ms;
            signed = signed;
            certificate = certificate;
            outbox = refl;
            is_signed =
                ap (λ s. get_object (image_of s.signed_pdf_key) w.objects) (is_recorded ∙ same')
                ∙ stored.signed;
            is_certificate =
                ap (λ s. get_object (image_of s.certificate_key) w.objects) (is_recorded ∙ same')
                ∙ stored.certificate;
            carry =
                mails_of-All worker signed certificate
                  (λ m. (m.signed_pdf ≡ signed) × (m.certificate_pdf ≡ certificate))
                  (λ s k. (refl, refl)) r (recipients_of r.id w.tables);
            once = mails_of-once worker r (recipients_of r.id w.tables) signed certificate;
          },
        ),
      )

  -- A retry after the artifacts were recorded.
  pub again :
      (id : Key) (w : Workspace) (r : SignatureRequest)
      → find_request id w.tables ≡ some r
      → is_completed r.status ≡ true
      → HasEvidence worker w.objects r
      → (w' : Workspace) × Ends worker d w (Phase.loading id) w' × IsDelivered worker id r w w'
  unfolding advance
  again id w r found signed e =
      let (a, at, same, dated, draft, stored) = e in
      elim (Bool-cases (has_time r.completion_emailed_at)) [
        | inl mailed ↦ (
          w,
          loads worker d id w found (load-finished worker d w.objects r e mailed)
              (stopped worker d w),
          (r, found, e, mailed, inl (mailed, refl)),
        )
        | inr unmailed ↦
            let (w', ends, (x', found', e', mailed, sent_out)) =
              deliver id r r w (find_first_holds (has_id id) w.tables.requests found) found e in
            (
              w',
              loads worker d id w found (load-resending worker d w.objects r e signed unmailed) (
                  goes_on worker d w (Phase.resending r e.0.signed_pdf_key e.0.certificate_key)
                    (rw (advance, stored.signed, stored.certificate) refl) ends),
              (x', found', e', mailed, inr sent_out),
            )
      ]

  -- One delivery that is not interrupted ends with exactly one mail more for whoever is on the envelope
  -- or sent it, however often the address appears and however it is written, and with none more for
  -- anybody else.
  pub delivers_once :
      (r : SignatureRequest) (signed certificate : Text) (w : Workspace) (k : Key)
      → (w' : Workspace) × Ends worker d w (Phase.delivering r signed certificate) w'
        × (count_where (is_to worker k) w'.outbox
            ≡ count_where (is_to worker k) w.outbox + (if concerns worker r w k then 1 else 0))
  delivers_once r signed certificate w k = (
    delivered worker d r (copies worker d r w signed certificate) w,
    delivering-Ends worker d r signed certificate w,
    count-sent (is_to worker k) (copies worker d r w signed certificate) w.outbox
        ∙ ap (λ n. count_where (is_to worker k) w.outbox + n)
            (mails_of-once worker r (recipients_of r.id w.tables) signed certificate k),
  )
