-- ===== src/Sealing/Journey.antt =====
-- An envelope from its last signature to everybody's copies:
-- apps/api/src/modules/signing/signing.service.ts, then
-- apps/api/src/modules/signing/completion.ts.
use mathlib.Core.Path.{subst}
use president_tech_award_e_s.Prelude.{
  ◌≡◌, refl, sym, ap, ◌∙◌, inl, Bool, true, false, Option, none, some, ◌==◌, find_first,
  find_first-update_where, update_where, All, All-map, All-update_where, any-update_where,
  HasUniqueKeys-update_where,
}
use president_tech_award_e_s.Calendar.{Instant}
use president_tech_award_e_s.Billing.Store.{Key, opt_eq}
use president_tech_award_e_s.Billing.Payme.Protocol.{Text}
use president_tech_award_e_s.Envelope.Fields.{FieldType}
use president_tech_award_e_s.Envelope.Store.{
  SignatureRequest, Tables, is_live, has_id, find_request,
}
use president_tech_award_e_s.Envelope.Submit.{Submitted, submit}
use president_tech_award_e_s.Sealing.Completion.{Workspace, Phase, has_time}
use president_tech_award_e_s.Sealing.Runs.{Draw, IsFresh, Worker}
use president_tech_award_e_s.Sealing.Follows.{recorded, blank}
use president_tech_award_e_s.Sealing.Evidence.{IsWorking, IsRow, IsSound, has_hash, has_signed_pdf}
use president_tech_award_e_s.Sealing.Claiming.{All-both}
use president_tech_award_e_s.Sealing.Alone.{Ends}
use president_tech_award_e_s.Sealing.Delivered.{IsDelivered}
use president_tech_award_e_s.Sealing.Finishes.{CanStamp, completes}
use president_tech_award_e_s.Sealing.Signed.{FinishedBy, submit-FinishedBy}

-- Nothing is on record of an envelope that can still be signed.
abbrev pub IsLiveBlank : SignatureRequest → Type 0
IsLiveBlank x = is_live x.status ≡ true → recorded x ≡ blank

module _ (worker : Worker) where
  -- The last signature leaves the workspace sound.
  FinishedBy-IsSound :
      (now : Instant) (w : Workspace) (db : Tables) {r : SignatureRequest}
      → FinishedBy now r w.tables.requests db.requests
      → IsSound worker w
      → All IsLiveBlank w.tables.requests
      → IsSound worker (record w { tables = db })
  FinishedBy-IsSound now w db by sound blanks =
      let rows = w.tables.requests in
      let later = update_where by.meets by.write rows in
      let sound' : IsSound worker (record w { tables = record db { requests = later } }) = record {
        unique =
            HasUniqueKeys-update_where (λ x. x.id) by.meets by.write rows by.same_id sound.unique;
        rows =
            All-map _ _ later (λ x both. both.0)
              (All-update_where (λ x. IsRow worker w.objects x × IsLiveBlank x) by.meets by.write
                rows
                (λ x both hit. (
                  inl (by.same_record x ∙ both.1 (by.live x hit)),
                  λ _. by.same_record x ∙ both.1 (by.live x hit),
                ))
                (All-both _ _ rows sound.rows blanks));
        mailed =
            All-update_where
              (λ x. has_time x.completion_emailed_at ≡ true → has_signed_pdf x ≡ true) by.meets
              by.write rows
              (λ x old hit marked.
                ap (λ s. elim s.signed_pdf_key [ none ↦ false | some _ ↦ true ]) (by.same_record x)
                ∙ old (ap has_time (sym (by.same_mark x)) ∙ marked))
              sound.mailed;
        mails =
            All-map _ _ w.outbox
              (λ m known.
                any-update_where (has_hash worker m.signed_pdf) by.meets by.write rows (λ x.
                  ap (λ s. opt_eq s.document_hash (worker.node.sha256 m.signed_pdf))
                    (by.same_record x))
                ∙ known)
              sound.mails;
      } in
      subst (λ rs. IsSound worker (record w { tables = record db { requests = rs } })) (sym by.rows)
        sound'

module _ (valid : FieldType → Text → Bool) (trim : Text → Text) (iso_day : Instant → Text)
    (mint hash : Key → Key) (worker : Worker) (d : Draw) where
  -- With a seal service that works, from a sound workspace in which nothing is on record of an
  -- envelope that can be signed: the submission that finishes such an envelope leaves the tables so
  -- that the job that it queues, where that is not interrupted, the signed PDF can be drawn and the
  -- keys for what it stores are new, ends. Then both documents are stored, the hash, the seal and
  -- its kid are on record and verify, and the envelope is marked as delivered; and the stored
  -- documents were handed to the mail provider in exactly one mail for everybody on the envelope
  -- and its sender, and in none for anybody else, unless it was marked before.
  pub submit-completes :
      (token_hash : Key) (supplied : Key → Option Text) (image : Option Key) (now : Instant)
      (w : Workspace) {id : Key} {db : Tables} {r : SignatureRequest}
      → IsWorking worker
      → IsSound worker w
      → IsFresh d (record w { tables = db })
      → All IsLiveBlank w.tables.requests
      → find_request id w.tables ≡ some r
      → is_live r.status ≡ true
      → submit valid trim iso_day mint hash token_hash supplied image now w.tables
        ≡ (Submitted.finished id, db)
      → ((x : SignatureRequest)
          → find_request id db ≡ some x
          → CanStamp worker d x (record w { tables = db }))
      → (x : SignatureRequest) × (w' : Workspace) × (find_request id db ≡ some x)
        × Ends worker d (record w { tables = db }) (Phase.loading id) w'
        × IsDelivered worker id x (record w { tables = db }) w'
  submit-completes token_hash supplied image now w {id} {db} {r} works sound fresh blanks found live
        h can =
      let by =
        submit-FinishedBy valid trim iso_day mint hash token_hash supplied image now w.tables h
          sound.unique found live in
      let x = by.write r in
      let there : find_request id db ≡ some x =
        ap (λ rs. find_first (has_id id) rs) by.rows
        ∙ find_first-update_where (has_id id) by.meets by.write w.tables.requests
            (λ y. ap (λ k. k == id) (by.same_id y))
        ∙ rw (found, by.hits) refl in
      let (w', ends, rest) =
        completes worker d id (record w { tables = db }) works
          (FinishedBy-IsSound worker now w db by sound blanks) fresh there (by.completed r)
          (by.completed_at r) (can x there) in
      (x, w', there, ends, rest)
