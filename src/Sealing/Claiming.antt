-- ===== src/Sealing/Claiming.antt =====
-- The claim of the artifacts:
-- apps/api/src/modules/signing/completion.ts.
use mathlib.Core.Path.{subst}
use president_tech_award_e_s.Prelude.{
  ◌≡◌, refl, sym, ap, inl, inr, Bool, true, some, List, [], ◌∷◌, ◌==◌, any, All, All-map,
  All-update_where, update_where, count_where, arith, Bool-cases, ==_iff,
}
use president_tech_award_e_s.Calendar.{Instant}
use president_tech_award_e_s.Billing.Store.{Key}
use president_tech_award_e_s.Envelope.Store.{SignatureRequest, has_id}
use president_tech_award_e_s.Sealing.Completion.{
  StoredObject, Workspace, Artifacts, Phase, has_time, dated, is_unrecorded, record_artifacts,
}
use president_tech_award_e_s.Sealing.Runs.{Worker, claim_artifacts}
use president_tech_award_e_s.Sealing.Follows.{
  recorded, blank, Follows, Follows-update_where, HasUniqueKeys-Follows,
}
use president_tech_award_e_s.Sealing.Evidence.{
  Grows, IsDraft, IsStored, IsRow, has_signed_pdf, IsClaimed, has_hash, IsSound, IsPhase,
  IsOnRecord-Follows,
}
use president_tech_award_e_s.Sealing.Steps.{Goes}

pub All-both {κ μ} :
    (P : SignatureRequest → Type κ) (Q : SignatureRequest → Type μ) (xs : List SignatureRequest)
    → All P xs
    → All Q xs
    → All (λ x. P x × Q x) xs
All-both P Q [] h k = tt
All-both P Q (x ∷ xs) h k = ((h.0, k.0), All-both P Q xs h.1 k.1)

-- A row that was counted is there after the update.
counted-any :
    (p q : SignatureRequest → Bool) (f : SignatureRequest → SignatureRequest)
    (rows : List SignatureRequest)
    → ((x : SignatureRequest) → q (f x) ≡ true)
    → (count_where p rows == 1) ≡ true
    → any q (update_where p f rows) ≡ true
counted-any p q f [] hits one = cc
counted-any p q f (x ∷ xs) hits one = elim (Bool-cases (p x)) [
  | inl hit ↦ rw (hit, hits x) refl
  | inr miss ↦
      let later = counted-any p q f xs hits (rw miss at one) in rw miss (ground (arith, later))
]

module _ (worker : Worker) where
  -- A row with no signed document has nothing on record.
  unrecorded :
      (objects : List StoredObject) (id : Key) (x : SignatureRequest)
      → IsRow worker objects x
      → is_unrecorded id x ≡ true
      → recorded x ≡ blank
  unrecorded objects id x (inl none_yet) free = none_yet
  unrecorded objects id x (inr (a, at, same, dated, draft, stored)) free =
      absurd (ground (arith, ap (λ s. s.signed_pdf_key) same))

  -- The row that claims its artifacts has evidence.
  claimed-IsRow :
      (objects : List StoredObject) (r : SignatureRequest) (a : Artifacts) (at : Instant)
      (x : SignatureRequest)
      → IsDraft worker r.id at a.draft
      → IsStored worker objects a
      → (has_id r.id x ≡ true → x.completed_at ≡ some at)
      → is_unrecorded r.id x ≡ true
      → IsRow worker objects (record_artifacts a x)
  claimed-IsRow objects r a at x draft stored when free =
      let hit : has_id r.id x ≡ true = ground arith in
      inr (
        a,
        at,
        refl,
        when hit,
        subst (λ k. IsDraft worker k at a.draft) (sym ((==_iff x.id r.id).0 hit)) draft,
        stored,
      )

  -- Whoever wins the claim, the envelope has its artifacts afterwards.
  IsClaimed-update_where :
      (r : SignatureRequest) (a : Artifacts) (rows : List SignatureRequest)
      → IsClaimed r (update_where (is_unrecorded r.id) (record_artifacts a) rows)
  IsClaimed-update_where r a [] = tt
  IsClaimed-update_where r a (x ∷ xs) = (
    elim (Bool-cases (is_unrecorded r.id x)) [
      | inl free ↦ rw free (λ hit. refl)
      | inr taken ↦ rw taken (λ hit. ground arith)
    ],
    IsClaimed-update_where r a xs,
  )

  pub claim-Goes :
      (w : Workspace) (r : SignatureRequest) (a : Artifacts)
      → IsSound worker w
      → IsPhase worker w (Phase.claiming r a)
      → Goes worker w (claim_artifacts worker r a w)
  unfolding claim_artifacts
  claim-Goes w r a sound (at, when, draft, stored) =
      let rows = w.tables.requests in
      let later = update_where (is_unrecorded r.id) (record_artifacts a) rows in
      let follows : Follows rows later =
        Follows-update_where (IsRow worker w.objects) (is_unrecorded r.id) (record_artifacts a) rows
          (λ x row free. (refl, inr refl, inl (unrecorded w.objects r.id x row free))) sound.rows in
      let w' = record w { tables = record w.tables { requests = later } } in
      let grows : Grows w w' = record { rows = follows; objects = λ k b e. e } in
      let sound' : IsSound worker w' = record {
        unique = HasUniqueKeys-Follows rows later follows sound.unique;
        rows =
            All-map _ _ later (λ x p. p.0)
              (All-update_where
                (λ x. IsRow worker w.objects x × (has_id r.id x ≡ true → x.completed_at ≡ some at))
                (is_unrecorded r.id) (record_artifacts a) rows
                (λ x both free. (claimed-IsRow w.objects r a at x draft stored both.1 free, both.1))
                (All-both _ _ rows sound.rows when));
        mailed =
            All-update_where
              (λ x. has_time x.completion_emailed_at ≡ true → has_signed_pdf x ≡ true)
              (is_unrecorded r.id) (record_artifacts a) rows (λ x row free mailed. refl)
              sound.mailed;
        mails =
            All-map _ _ w.outbox (λ m. IsOnRecord-Follows worker rows later m.signed_pdf follows)
              sound.mails;
      } in
      elim (Bool-cases (count_where (is_unrecorded r.id) rows == 1)) [
        | inr lost ↦ rw lost (grows, sound', tt)
        | inl won ↦ rw won (
          grows,
          sound',
          (
            counted-any (is_unrecorded r.id) (has_hash worker a.draft.signed_pdf)
                (record_artifacts a) rows (λ x. (==_iff _ _).1 draft.hash) won,
            IsClaimed-update_where r a rows,
          ),
        )
      ]
