-- ===== src/Sealing/Alone.antt =====
-- The parts of a run that nothing interrupts:
-- apps/api/src/modules/signing/completion.ts.

use president_tech_award_e_s.Prelude.{
  ℕ, suc, ◌≡◌, refl, ap, ◌∙◌, true, false, none, some, List, [], ◌∷◌, update_where,
}
use president_tech_award_e_s.Calendar.{Instant}
use president_tech_award_e_s.Billing.Store.{Key}
use president_tech_award_e_s.Billing.Payme.Protocol.{Text}
use president_tech_award_e_s.Envelope.Store.{SignatureRequest, find_request, recipients_of}
use president_tech_award_e_s.Envelope.Link.{is_completed}
use president_tech_award_e_s.Sealing.Completion.{
  Mail, Workspace, Phase, has_time, load, is_unmailed, mark_mailed,
}
use president_tech_award_e_s.Sealing.Runs.{Draw, Worker, mails_of, advance, run}
use president_tech_award_e_s.Sealing.Follows.{recorded, blank}
use president_tech_award_e_s.Sealing.Evidence.{HasEvidence}

-- The provider's outbox after some mails.
abbrev pub sent : List Mail → List Mail → List Mail
sent [] outbox = outbox
sent (m ∷ ms) outbox = sent ms (m ∷ outbox)

module _ (worker : Worker) (d : Draw) where
  abbrev pub Ends : Workspace → Phase → Workspace → Type 0
  Ends w p w' = (n : ℕ) × (run worker d n w p ≡ (w', Phase.finished))

  pub goes_on :
      (w : Workspace) (p : Phase) {w' : Workspace} {p' : Phase} {w'' : Workspace}
      → advance worker d w p ≡ (w', p')
      → Ends w' p' w''
      → Ends w p w''
  unfolding run
  goes_on w p e (n, r) = (suc n, rw (run, e) r)

  abbrev pub delivered : SignatureRequest → List Mail → Workspace → Workspace
  delivered r ms w = record w {
    tables = record w.tables {
      requests = update_where (is_unmailed r.id) (mark_mailed d.now) w.tables.requests;
    };
    outbox = sent ms w.outbox;
  }

  mailing-Ends :
      (r : SignatureRequest) (ms : List Mail) (w : Workspace)
      → Ends w (Phase.mailing r ms) (delivered r ms w)
  unfolding run advance
  mailing-Ends r [] w = (1, refl)
  mailing-Ends r (m ∷ ms) w =
      goes_on w (Phase.mailing r (m ∷ ms)) refl
        (mailing-Ends r ms (record w { outbox = m ∷ w.outbox }))

  abbrev pub copies : SignatureRequest → Workspace → Text → Text → List Mail
  copies r w signed certificate = mails_of worker r (recipients_of r.id w.tables) signed certificate

  pub delivering-Ends :
      (r : SignatureRequest) (signed certificate : Text) (w : Workspace)
      → Ends w
          (Phase.delivering r signed certificate)
          (delivered r (copies r w signed certificate) w)
  unfolding advance
  delivering-Ends r signed certificate w =
      goes_on w (Phase.delivering r signed certificate) refl
        (mailing-Ends r (copies r w signed certificate) w)

  pub load-stamping :
      (r : SignatureRequest) {at : Instant}
      → is_completed r.status ≡ true
      → r.completed_at ≡ some at
      → recorded r ≡ blank
      → load (some r) ≡ Phase.stamping r at
  unfolding load
  load-stamping r signed dated none_yet =
      let no_key : r.signed_pdf_key ≡ none = ap (λ s. s.signed_pdf_key) none_yet in
      rw (load, no_key, signed, dated) refl

  pub load-resending :
      (objects : _) (r : SignatureRequest)
      → (e : HasEvidence worker objects r) → is_completed r.status ≡ true
      → has_time r.completion_emailed_at ≡ false
      → load (some r) ≡ Phase.resending r e.0.signed_pdf_key e.0.certificate_key
  unfolding load
  load-resending objects r (a, at, same, dated, draft, stored) signed unmailed =
      let key : r.signed_pdf_key ≡ some a.signed_pdf_key = ap (λ s. s.signed_pdf_key) same in
      let key' : r.certificate_key ≡ some a.certificate_key = ap (λ s. s.certificate_key) same in
      rw (load, key, key', unmailed, signed, dated, stored.signed_filled, stored.certificate_filled)
        refl

  pub load-finished :
      (objects : _) (r : SignatureRequest)
      → HasEvidence worker objects r
      → has_time r.completion_emailed_at ≡ true
      → load (some r) ≡ Phase.finished
  unfolding load
  load-finished objects r (a, at, same, dated, draft, stored) mailed =
      let key : r.signed_pdf_key ≡ some a.signed_pdf_key = ap (λ s. s.signed_pdf_key) same in
      rw (load, key, mailed, stored.signed_filled) refl

  pub stopped : (w : Workspace) → Ends w Phase.finished w
  unfolding run
  stopped w = (0, refl)

  pub loads :
      (id : Key) (w : Workspace) {r : SignatureRequest} {p : Phase} {w' : Workspace}
      → find_request id w.tables ≡ some r
      → load (some r) ≡ p
      → Ends w p w'
      → Ends w (Phase.loading id) w'
  unfolding advance
  loads id w found e =
      goes_on w (Phase.loading id) (ap (λ o. (w, load o)) found ∙ ap (λ p. (w, p)) e)
