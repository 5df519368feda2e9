-- ===== src/Sealing/Checked.antt =====
-- What the checks answer about a sealed envelope:
-- apps/api/src/modules/signature-requests/signature-requests.service.ts and
-- apps/api/src/modules/verify/verify.service.ts.
use mathlib.Core.List.{append-nil, append_assoc}
use president_tech_award_e_s.Prelude.{
  ℕ, ◌+◌, ◌≤◌, ◌≡◌, ◌≢◌, refl, sym, ap, ◌∙◌, inl, inr, true, false, none, some, List, [], ◌∷◌, ◌++◌,
  ltb, if◌then◌else◌, length, any, find_first_holds, find_first-any, All, All-map, All-find_first,
  arith, Bool-cases, ==_iff,
}
use president_tech_award_e_s.Billing.Store.{Key, opt_eq}
use president_tech_award_e_s.Billing.Payme.Protocol.{Text}
use president_tech_award_e_s.Envelope.Store.{SignatureRequest, has_id, find_request}
use president_tech_award_e_s.Sealing.Completion.{
  StoredObject, Workspace, Phase, get_object, image_of,
}
use president_tech_award_e_s.Sealing.Runs.{Worker, Reach}
use president_tech_award_e_s.Sealing.Check.{
  max_verify_bytes, digest_chunks, VerifyResult, Verified, is_sealed, has_seal_of, check_seal,
  verify_bytes, verify_stored, verify_request, by_hash,
}
use president_tech_award_e_s.Sealing.Follows.{recorded, blank}
use president_tech_award_e_s.Sealing.Evidence.{IsWorking, HasEvidence, IsRow, IsSound}
use president_tech_award_e_s.Sealing.Steps.{any-All}
use president_tech_award_e_s.Sealing.Once.{IsPool, Reach-IsPool}

abbrev pub concat : List Text → Text
concat [] = []
concat (c ∷ cs) = c ++ concat cs

length-++ : (s t : Text) → length (s ++ t) ≡ length s + length t
length-++ [] t = ground arith
length-++ (c ∷ s) t = ground (arith, length-++ s t)

zero_plus : (n : ℕ) → 0 + n ≡ n
zero_plus n = omega arith

-- Hashing a stream chunk by chunk, with the cap tested after every chunk, is hashing the whole body
-- where the body is within the cap, and refusing it where it is not, however it is cut into chunks.
pub digest_chunks-concat :
    (cap : ℕ) (cs : List Text) (fed : Text) (read : ℕ)
    → read ≤ cap
    → digest_chunks cap cs read fed
      ≡ (if ltb cap (read + length (concat cs)) then none else some (fed ++ concat cs))
unfolding digest_chunks
digest_chunks-concat cap [] fed read h =
    let within : ltb cap (read + 0) ≡ false = ground arith in rw (within, append-nil fed) refl
digest_chunks-concat cap (c ∷ cs) fed read h = elim (Bool-cases (ltb cap (read + length c))) [
  | inl over ↦
      let still : ltb cap (read + length (c ++ concat cs)) ≡ true =
        ground (arith, length-++ c (concat cs)) in
      rw (over, still) refl
  | inr within ↦
      let rest = digest_chunks-concat cap cs (fed ++ c) (read + length c) (ground arith) in
      let same : read + length (c ++ concat cs) ≡ (read + length c) + length (concat cs) =
        ground (arith, length-++ c (concat cs)) in
      rw (within, same) (rest ∙ rw (append_assoc fed c (concat cs)) refl)
]

module _ (worker : Worker) where
  abbrev pub valid_result : SignatureRequest → VerifyResult
  valid_result r = record {
    valid = true;
    computed_hash = r.document_hash;
    recorded_hash = r.document_hash;
    hash_matches = true;
    seal_valid = true;
    seal_kid = r.seal_kid;
  }

  evidence-is_sealed :
      (objects : List StoredObject) (r : SignatureRequest)
      → HasEvidence worker objects r
      → is_sealed r ≡ true
  evidence-is_sealed objects r (a, at, same, dated, draft, stored) =
      rw
        (
          ap (λ s. s.signed_pdf_key) same,
          ap (λ s. s.document_hash) same,
          ap (λ s. s.seal_signature) same,
          ap (λ s. s.seal_kid) same,
          dated,
          stored.signed_filled,
          draft.hash_filled,
          draft.signature_filled,
          draft.kid_filled,
        )
        refl

  evidence-check_seal :
      (objects : List StoredObject) (r : SignatureRequest) (e : HasEvidence worker objects r)
      → check_seal worker r e.0.draft.document_hash ≡ true
  evidence-check_seal objects r (a, at, same, dated, draft, stored) =
      rw (ap (λ s. s.seal_signature) same, ap (λ s. s.seal_kid) same, dated) draft.verifies

  evidence-verify_bytes :
      (objects : List StoredObject) (r : SignatureRequest) (e : HasEvidence worker objects r)
      → verify_bytes worker r (some e.0.draft.signed_pdf) ≡ Verified.answered (valid_result r)
  unfolding verify_bytes
  evidence-verify_bytes objects r (a, at, same, dated, draft, stored) =
      let hash : r.document_hash ≡ some (worker.node.sha256 a.draft.signed_pdf) =
        ap (λ s. s.document_hash) same ∙ ap (λ h. some h) draft.hash in
      let valid = evidence-check_seal objects r (a, at, same, dated, draft, stored) in
      let valid' : check_seal worker r (worker.node.sha256 a.draft.signed_pdf) ≡ true =
        ap (check_seal worker r) (sym draft.hash) ∙ valid in
      let matches : opt_eq r.document_hash (worker.node.sha256 a.draft.signed_pdf) ≡ true =
        rw hash ((==_iff _ _).1 refl) in
      rw (verify_bytes, matches, valid', hash) refl

  hash-has_seal_of :
      (objects : List StoredObject) (hash : Key) (r : SignatureRequest)
      → IsRow worker objects r
      → opt_eq r.document_hash hash ≡ true
      → has_seal_of hash r ≡ true
  hash-has_seal_of objects hash r (inl none_yet) hit =
      absurd (ground (arith, ap (λ s. s.document_hash) none_yet))
  hash-has_seal_of objects hash r (inr (a, at, same, dated, draft, stored)) hit =
      rw (hit, ap (λ s. s.seal_signature) same, ap (λ s. s.seal_kid) same, dated) refl

  seal_of-check_seal :
      (objects : List StoredObject) (hash : Key) (r : SignatureRequest)
      → IsRow worker objects r
      → has_seal_of hash r ≡ true
      → check_seal worker r hash ≡ true
  seal_of-check_seal objects hash r (inl none_yet) hit =
      absurd (ground (arith, ap (λ s. s.document_hash) none_yet))
  seal_of-check_seal objects hash r (inr (a, at, same, dated, draft, stored)) hit =
      let e : HasEvidence worker objects r = (a, at, same, dated, draft, stored) in
      let by_hash_hit : opt_eq r.document_hash hash ≡ true = ground arith in
      let hash_same : a.draft.document_hash ≡ hash =
        (==_iff _ _).0 (ap (λ s. opt_eq s.document_hash hash) (sym same) ∙ by_hash_hit) in
      ap (check_seal worker r) (sym hash_same) ∙ evidence-check_seal objects r e

  on_record-verified :
      (w : Workspace) (hash : Key)
      → IsSound worker w
      → any (λ r. opt_eq r.document_hash hash) w.tables.requests ≡ true
      → (by_hash worker hash w.tables).verified ≡ true
  unfolding by_hash
  on_record-verified w hash sound known =
      let (r, found) = find_first-any (has_seal_of hash) w.tables.requests (
        any-All (IsRow worker w.objects) _ (has_seal_of hash) w.tables.requests
          (hash-has_seal_of w.objects hash) sound.rows known) in
      let row =
        All-find_first (IsRow worker w.objects) (has_seal_of hash) w.tables.requests sound.rows
          found in
      rw (by_hash, found)
        (seal_of-check_seal w.objects hash r row
          (find_first_holds (has_seal_of hash) w.tables.requests found))

  -- In every state that a sound workspace reaches, the tamper check of an envelope that has its
  -- artifacts reads back a document with the recorded hash, and calls it valid, both for its hash and
  -- for its seal, unless the document is larger than the check will read; the chunks of a stream are
  -- taken to make up the body.
  pub sealed-verifies :
      (chunks : Text → List Text)
      → ((body : Text) → concat (chunks body) ≡ body)
      → IsWorking worker
      → (id : Key) {w w' : Workspace} {ps ps' : List Phase} {r : SignatureRequest}
      → IsPool worker w ps
      → Reach worker w ps w' ps'
      → find_request id w'.tables ≡ some r
      → recorded r ≢ blank
      → (body : Text) × (opt_eq r.document_hash (worker.node.sha256 body) ≡ true)
        × (verify_request worker chunks id w'.tables w'.objects ≡ (
            if ltb max_verify_bytes (length body)
            then Verified.too_large
            else Verified.answered (valid_result r)))
  unfolding verify_request verify_stored verify_bytes
  sealed-verifies chunks whole works id {w'} {r} pool reach found sealed =
      let (grows, (sound, runs)) = Reach-IsPool worker works reach pool in
      elim (All-find_first (IsRow worker w'.objects) (has_id id) w'.tables.requests sound.rows
        found) [
          | inl none_yet ↦ absurd (sealed none_yet)
          | inr (a, at, same, dated, draft, stored) ↦
              let e : HasEvidence worker w'.objects r = (a, at, same, dated, draft, stored) in
              let body = a.draft.signed_pdf in
              let there : get_object (image_of r.signed_pdf_key) w'.objects ≡ some body =
                ap (λ s. get_object (image_of s.signed_pdf_key) w'.objects) same ∙ stored.signed in
              let digest : digest_chunks max_verify_bytes (chunks body) 0 []
                  ≡ (if ltb max_verify_bytes (length body) then none else some body) =
                digest_chunks-concat max_verify_bytes (chunks body) [] 0 (omega arith)
                ∙ rw (whole body, zero_plus (length body)) refl in
              (
                body,
                rw (ap (λ s. s.document_hash) same) ((==_iff _ _).1 draft.hash),
                elim (Bool-cases (ltb max_verify_bytes (length body))) [
                  | inl over ↦
                      rw
                        (
                          verify_request,
                          found,
                          verify_stored,
                          evidence-is_sealed w'.objects r e,
                          there,
                          digest,
                          over,
                        )
                        refl
                  | inr within ↦
                      rw
                        (
                          verify_request,
                          found,
                          verify_stored,
                          evidence-is_sealed w'.objects r e,
                          there,
                          digest,
                          within,
                        )
                        (evidence-verify_bytes w'.objects r e)
                ],
              )
        ]

  -- In every state that a sound workspace reaches, each mail in the outbox carries a document that the
  -- public check confirms by its hash: no run sends a document whose seal is not on file.
  pub mailed-verifies :
      IsWorking worker
      → {w w' : Workspace} {ps ps' : List Phase} → IsPool worker w ps
      → Reach worker w ps w' ps'
      → All
          (λ m. (by_hash worker (worker.node.sha256 m.signed_pdf) w'.tables).verified ≡ true)
          w'.outbox
  mailed-verifies works {w'} pool reach =
      let (grows, (sound, runs)) = Reach-IsPool worker works reach pool in
      All-map _ _ w'.outbox (λ m. on_record-verified w' (worker.node.sha256 m.signed_pdf) sound)
        sound.mails
