-- ===== src/Sealing/Preserved.antt =====
-- The steps that write, and all of them together:
-- apps/api/src/modules/signing/completion.ts.

use mathlib.Core.Option.{some-injective}
use president_tech_award_e_s.Prelude.{
  ◌≡◌, refl, sym, ap, ◌∙◌, inl, inr, true, false, Option, none, some, [], ◌∷◌, ◌==◌, any, All-map,
  All-update_where, update_where, arith, ==_iff,
}
use president_tech_award_e_s.Calendar.{Instant}
use president_tech_award_e_s.Billing.Store.{Key, opt_eq}
use president_tech_award_e_s.Billing.Payme.Protocol.{Text}
use president_tech_award_e_s.Envelope.Store.{SignatureRequest, has_id, find_request, recipients_of}
use president_tech_award_e_s.Sealing.Completion.{
  StoredObject, Workspace, Draft, Phase, get_object, has_time, dated, load, is_unmailed,
  mark_mailed,
}
use president_tech_award_e_s.Sealing.Runs.{
  Draw, IsFresh, Worker, store, stamp, deliver_stored, mails_of, advance,
}
use president_tech_award_e_s.Sealing.Follows.{
  Follows, Follows-refl, Follows-update_where, HasUniqueKeys-Follows,
}
use president_tech_award_e_s.Sealing.Evidence.{
  IsWorking, Holds, IsRow, has_signed_pdf, IsClaimed, has_hash, IsSound, IsPhase, IsRow-Holds,
  IsOnRecord, IsOnRecord-Follows,
}
use president_tech_award_e_s.Sealing.Making.{stamp-IsPhase, mails_of-All}
use president_tech_award_e_s.Sealing.Steps.{
  any-All, put_other, put_same, put-Holds, Holds-trans, Grows-refl, Goes, load-IsPhase,
}
use president_tech_award_e_s.Sealing.Claiming.{All-both, claim-Goes}

module _ (worker : Worker) where
  store-Goes :
      (w : Workspace) (d : Draw) (r : SignatureRequest) (draft : Draft)
      → IsSound worker w
      → IsFresh d w
      → IsPhase worker w (Phase.storing r draft)
      → Goes worker w (store worker d r draft w)
  unfolding store
  store-Goes w d r draft sound fresh (at, when, is_draft) =
      let certificate : StoredObject = record {
        key = d.certificate_key;
        body = draft.certificate_pdf;
      } in
      let signed : StoredObject = record { key = d.signed_pdf_key; body = draft.signed_pdf } in
      let apart : (d.certificate_key == d.signed_pdf_key) ≡ false =
        ground (arith, fresh.different) in
      let holds : Holds w.objects (signed ∷ certificate ∷ w.objects) =
        Holds-trans _ (certificate ∷ w.objects) _
          (put-Holds certificate w.objects fresh.certificate_is_new)
          (put-Holds signed (certificate ∷ w.objects)
            (put_other certificate d.signed_pdf_key w.objects apart ∙ fresh.signed_is_new)) in
      (
        record { rows = Follows-refl _; objects = holds },
        record {
          unique = sound.unique;
          rows = All-map _ _ w.tables.requests (λ x. IsRow-Holds worker _ _ x holds) sound.rows;
          mailed = sound.mailed;
          mails = sound.mails;
        },
        (
          at,
          when,
          is_draft,
          record {
            signed = put_same signed (certificate ∷ w.objects);
            certificate =
                put_other signed d.certificate_key (certificate ∷ w.objects) fresh.different
                ∙ put_same certificate w.objects;
            signed_filled = fresh.signed_is_filled;
            certificate_filled = fresh.certificate_is_filled;
          },
        ),
      )

  key_hash :
      (w : Workspace) (key : Key) {body : Text}
      → get_object key w.objects ≡ some body
      → (x : SignatureRequest) → IsRow worker w.objects x
      → opt_eq x.signed_pdf_key key ≡ true
      → has_hash worker body x ≡ true
  key_hash w key e x (inl none_yet) hit =
      absurd (ground (arith, ap (λ s. s.signed_pdf_key) none_yet))
  key_hash w key {body} e x (inr (a, at, same, dated, draft, stored)) hit =
      let by_key : opt_eq (some a.signed_pdf_key) key ≡ true =
        ap (λ s. opt_eq s.signed_pdf_key key) (sym same) ∙ hit in
      let key_same : a.signed_pdf_key ≡ key = ground arith in
      let body_same : a.draft.signed_pdf ≡ body =
        some-injective _ _ (sym stored.signed ∙ ap (λ k. get_object k w.objects) key_same ∙ e) in
      ap (λ s. opt_eq s.document_hash (worker.node.sha256 body)) same
      ∙ (==_iff _ _).1 (draft.hash ∙ ap worker.node.sha256 body_same)

  -- What is read back under a recorded key is the recorded document.
  resend-IsPhase :
      (w : Workspace) (r : SignatureRequest) (key : Key) (o c : Option Text)
      → IsSound worker w
      → any (λ x. opt_eq x.signed_pdf_key key) w.tables.requests ≡ true
      → IsClaimed r w.tables.requests
      → get_object key w.objects ≡ o
      → IsPhase worker w (deliver_stored worker r o c)
  resend-IsPhase w r key none c sound known claimed e = tt
  resend-IsPhase w r key (some body) none sound known claimed e = tt
  resend-IsPhase w r key (some body) (some certificate) sound known claimed e = (
    any-All (IsRow worker w.objects) _ (has_hash worker body) w.tables.requests (key_hash w key e)
        sound.rows known,
    claimed,
  )

  mark-Goes :
      (w : Workspace) (r : SignatureRequest) (now : Instant)
      → IsSound worker w
      → IsClaimed r w.tables.requests
      → Goes worker w (
        record w {
          tables = record w.tables {
            requests = update_where (is_unmailed r.id) (mark_mailed now) w.tables.requests;
          };
        },
        Phase.finished,
      )
  mark-Goes w r now sound claimed =
      let rows = w.tables.requests in
      let later = update_where (is_unmailed r.id) (mark_mailed now) rows in
      let follows : Follows rows later =
        Follows-update_where (IsRow worker w.objects) (is_unmailed r.id) (mark_mailed now) rows
          (λ x row free. (refl, inr refl, inr refl)) sound.rows in
      (
        record { rows = follows; objects = λ k b e. e },
        record {
          unique = HasUniqueKeys-Follows rows later follows sound.unique;
          rows =
              All-update_where (IsRow worker w.objects) (is_unmailed r.id) (mark_mailed now) rows
                (λ x row free. row) sound.rows;
          mailed =
              All-map _ _ later (λ x both. both.1)
                (All-update_where
                  (λ x.
                    (has_id r.id x ≡ true → has_signed_pdf x ≡ true)
                    × (has_time x.completion_emailed_at ≡ true → has_signed_pdf x ≡ true))
                  (is_unmailed r.id) (mark_mailed now) rows
                  (λ x both free. (both.0, λ _. both.0 (ground arith)))
                  (All-both _ _ rows claimed sound.mailed));
          mails =
              All-map _ _ w.outbox (λ m. IsOnRecord-Follows worker rows later m.signed_pdf follows)
                sound.mails;
        },
        tt,
      )

  stays : (w : Workspace) (p : Phase) → IsSound worker w → IsPhase worker w p → Goes worker w (w, p)
  stays w p sound h = (Grows-refl w, sound, h)

  -- A step of a run that is right about a sound workspace leaves both so, and loses nothing on record.
  pub advance-Goes :
      (d : Draw) (w : Workspace) (p : Phase)
      → IsWorking worker
      → IsFresh d w
      → IsSound worker w
      → IsPhase worker w p
      → Goes worker w (advance worker d w p)
  unfolding advance
  advance-Goes d w (Phase.loading id) works fresh sound h =
      stays w (load (find_request id w.tables)) sound (load-IsPhase worker w id sound)
  advance-Goes d w (Phase.resending r signed certificate) works fresh sound h =
      stays w
        (deliver_stored worker r (get_object signed w.objects) (get_object certificate w.objects))
        sound
        (resend-IsPhase w r signed (get_object signed w.objects) (get_object certificate w.objects)
          sound h.0 h.1 refl)
  advance-Goes d w (Phase.stamping r at) works fresh sound h =
      stays w (stamp worker d r at w) sound (stamp-IsPhase worker works d r at w h)
  advance-Goes d w (Phase.storing r draft) works fresh sound h =
      store-Goes w d r draft sound fresh h
  advance-Goes d w (Phase.claiming r a) works fresh sound h = claim-Goes worker w r a sound h
  advance-Goes d w (Phase.delivering r signed certificate) works fresh sound h =
      let people = recipients_of r.id w.tables in
      stays w (Phase.mailing r (mails_of worker r people signed certificate)) sound (
        mails_of-All worker signed certificate
            (λ m. IsOnRecord worker w.tables.requests m.signed_pdf) (λ s e. h.0) r people,
        h.1,
      )
  advance-Goes d w (Phase.mailing r []) works fresh sound h = mark-Goes w r d.now sound h.1
  advance-Goes d w (Phase.mailing r (m ∷ ms)) works fresh sound h = (
    record { rows = Follows-refl _; objects = λ k b e. e },
    record {
      unique = sound.unique;
      rows = sound.rows;
      mailed = sound.mailed;
      mails = (h.0.0, sound.mails);
    },
    (h.0.1, h.1),
  )
  advance-Goes d w Phase.finished works fresh sound h = stays w Phase.finished sound tt
  advance-Goes d w (Phase.failed e) works fresh sound h = stays w (Phase.failed e) sound tt
