-- ===== src/Sealing/Making.antt =====
-- What a run makes before it stores anything: the seal and the mails.
use president_tech_award_e_s.Prelude.{
  ◌≡◌, refl, ap, ◌∙◌, inl, inr, Bool, true, false, not, ◌&&◌, Option, none, some, List, [], ◌∷◌,
  map, ◌++◌, ◌==◌, any, find_first, select, All, arith, Bool-cases, Option-cases,
}
use president_tech_award_e_s.Calendar.{Instant}
use president_tech_award_e_s.Billing.Store.{Key}
use president_tech_award_e_s.Billing.Payme.Protocol.{Text}
use president_tech_award_e_s.Envelope.Store.{Recipient, SignatureRequest, recipients_of}
use president_tech_award_e_s.Sealing.Ring.{
  NodeCrypto, SealKey, SealEntry, SealService, Seal, SealPayload, Built, build_from, build,
  canonical_bytes, seal,
}
use president_tech_award_e_s.Sealing.Rotation.{build_from-step, verify-seal}
use president_tech_award_e_s.Sealing.Completion.{
  Mail, Workspace, by_order, has_signed, passes_of, get_object,
}
use president_tech_award_e_s.Sealing.Runs.{
  Draw, Worker, stamp_passes, draft_sealed, draft_stamped, stamp_source, stamp, unseen, audience,
  mail_to, sender_mails, mails_of,
}
use president_tech_award_e_s.Sealing.Evidence.{IsWorking, IsPhase, Dated}

-- The key that signs has a kid.
active_filled :
    (node : NodeCrypto) (ks : List SealKey) (entries : List SealEntry) (claimed : Option Key)
    {s : SealService}
    → build_from node ks entries claimed ≡ Built.built s
    → (s.active_kid == 0) ≡ false
unfolding build_from
active_filled node [] entries none h = absurd (ground arith)
active_filled node [] entries (some a) h = elim (Bool-cases (a == 0)) [
  | inl empty ↦ absurd (ground arith)
  | inr full ↦ ground arith
]
active_filled node (k ∷ ks) entries claimed h =
    let (entry, claimed', ok, once, rest) = build_from-step node k ks entries claimed h in
    active_filled node ks (entry ∷ entries) claimed' rest

seal_parts :
    (node : NodeCrypto) (s : SealService) (payload : SealPayload) {mark : Seal}
    → seal node s payload ≡ some mark
    → (mark.kid ≡ s.active_kid) × ((bytes : Key) × (mark.signature ≡ node.to_base64 bytes))
unfolding seal
seal_parts node s payload h =
    elim (Option-cases (find_first (λ e. e.kid == s.active_kid) s.entries)) [
      | inl missing ↦ absurd (ground arith)
      | inr (e, found) ↦
          (ground arith, (node.sign (canonical_bytes node payload) e.private_key, ground arith))
    ]

module _ (worker : Worker) (works : IsWorking worker) where
  draft-IsPhase :
      (d : Draw) (req : SignatureRequest) (at : Instant) (people : List Recipient) (signed : Text)
      (w : Workspace)
      → Dated req at w.tables.requests
      → IsPhase worker w (draft_stamped worker d req at people (some signed))
  unfolding draft_stamped draft_sealed build
  draft-IsPhase d req at people signed w when =
      let payload : SealPayload = record {
        request_id = req.id;
        signed_at = at;
        document_hash = worker.node.sha256 signed;
      } in
      let (mark, e, ok) =
        verify-seal worker.node works.signs works.ring works.ring payload works.starts works.starts
          (λ kid k found. (k, found, refl)) in
      let (kid_same, (bytes, signature_same)) = seal_parts worker.node worker.service payload e in
      rw (draft_stamped, e)
        (
          at,
          when,
          record {
            hash = refl;
            hash_filled = works.sha256_filled signed;
            signature_filled = ap (λ k. k == 0) signature_same ∙ works.to_base64_filled bytes;
            kid_filled =
                ap (λ k. k == 0) kid_same
                ∙ active_filled worker.node works.ring [] none works.starts;
            verifies = ok;
          },
        )

  stamped-IsPhase :
      (d : Draw) (req : SignatureRequest) (at : Instant) (people : List Recipient) (o : Option Text)
      (w : Workspace)
      → Dated req at w.tables.requests
      → IsPhase worker w (draft_stamped worker d req at people o)
  unfolding draft_stamped
  stamped-IsPhase d req at people none w when = tt
  stamped-IsPhase d req at people (some signed) w when = draft-IsPhase d req at people signed w when

  source-IsPhase :
      (d : Draw) (req : SignatureRequest) (at : Instant) (people : List Recipient) (o : Option Text)
      (w : Workspace)
      → Dated req at w.tables.requests
      → IsPhase worker w (stamp_source worker d req at people w o)
  unfolding stamp_source
  source-IsPhase d req at people none w when = tt
  source-IsPhase d req at people (some source) w when =
      elim (Option-cases (passes_of req (select has_signed people))) [
        | inl unsigned ↦ rw (stamp_source, unsigned) tt
        | inr (passes, e) ↦
            rw (stamp_source, e)
              (stamped-IsPhase d req at people (stamp_passes worker d.save passes source w.objects)
                w when)
      ]

  -- What is stamped, hashed and sealed has a seal that verifies, unless the run fails.
  pub stamp-IsPhase :
      (d : Draw) (req : SignatureRequest) (at : Instant) (w : Workspace)
      → Dated req at w.tables.requests
      → IsPhase worker w (stamp worker d req at w)
  unfolding stamp
  stamp-IsPhase d req at w when =
      elim (Option-cases (find_first (λ doc. doc.id == req.document_id) w.documents)) [
        | inl missing ↦ rw (stamp, missing) tt
        | inr (doc, e) ↦
            rw (stamp, e)
              (source-IsPhase d req at (by_order (recipients_of req.id w.tables))
                (get_object doc.storage_key w.objects) w when)
      ]

module _ (worker : Worker) (signed certificate : Text) (P : Mail → Type 0)
    (holds : (is_sender : Bool) (e : Key) → P (mail_to worker is_sender signed certificate e)) where
  All-mail_to : (es : List Key) → All P (map (mail_to worker false signed certificate) es)
  All-mail_to [] = tt
  All-mail_to (e ∷ es) = (holds false e, All-mail_to es)

  sender-All :
      (sender : Option Key) (told : List Key)
      → All P (sender_mails worker signed certificate sender told)
  sender-All none told = tt
  sender-All (some sender) told =
      elim (Bool-cases
        (not (sender == 0) && not (any (λ e. worker.lower e == worker.lower sender) told))) [
          | inl told_apart ↦ rw told_apart (holds true sender, tt)
          | inr known_already ↦ rw known_already tt
        ]

  All-++ : (ms ns : List Mail) → All P ms → All P ns → All P (ms ++ ns)
  All-++ [] ns h k = k
  All-++ (m ∷ ms) ns h k = (h.0, All-++ ms ns h.1 k)

  -- What holds of every mail with the two documents holds of every mail of their delivery.
  pub mails_of-All :
      (req : SignatureRequest) (people : List Recipient)
      → All P (mails_of worker req people signed certificate)
  unfolding mails_of
  mails_of-All req people =
      let told = unseen worker [] (audience worker req people) in
      All-++ (map (mail_to worker false signed certificate) told)
        (sender_mails worker signed certificate req.sender_email told) (All-mail_to told)
        (sender-All req.sender_email told)
