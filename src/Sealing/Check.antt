-- ===== src/Sealing/Check.antt =====
-- The two answers to whether a document is the one that was signed: `verify` of
-- apps/api/src/modules/signature-requests/signature-requests.service.ts, on the stored copy, and
-- apps/api/src/modules/verify/verify.service.ts, on the hash of anyone's copy.
use president_tech_award_e_s.Prelude.{
  ℕ, ◌+◌, ◌*◌, Bool, true, false, not, ◌&&◌, Option, none, some, List, [], ◌∷◌, ◌++◌, ltb,
  if◌then◌else◌, length, find_first,
}
use president_tech_award_e_s.Calendar.{Instant}
use president_tech_award_e_s.Billing.Store.{Key, opt_eq}
use president_tech_award_e_s.Billing.Payme.Protocol.{Text}
use president_tech_award_e_s.Envelope.Store.{SignatureRequest, Tables, find_request}
use president_tech_award_e_s.Sealing.Ring.{SealPayload, verify}
use president_tech_award_e_s.Sealing.Completion.{
  StoredObject, is_filled, has_time, image_of, get_object,
}
use president_tech_award_e_s.Sealing.Runs.{Worker}

abbrev pub max_verify_bytes : ℕ
max_verify_bytes = 64 * 1024 * 1024

-- The loop over a stream with its running count, and what was fed to the digest; `none` past the cap.
unfoldable pub digest_chunks : ℕ → List Text → ℕ → Text → Option Text
digest_chunks cap [] read fed = some fed
digest_chunks cap (c ∷ cs) read fed =
    let rest = digest_chunks cap cs (read + length c) (fed ++ c) in
    if ltb cap (read + length c) then none else rest

-- `VerifyResult`
pub record VerifyResult : Type 0 where
  pub valid : Bool
  pub computed_hash : Option Key
  pub recorded_hash : Option Key
  pub hash_matches : Bool
  pub seal_valid : Bool
  pub seal_kid : Option Key

-- `verify`'s answer, or its exception.
pub data Verified : Type 0 where
  no_row no_object too_large : Verified
  answered : VerifyResult → Verified

-- `PublicVerifyResult`
pub record PublicVerifyResult : Type 0 where
  pub verified : Bool
  pub sealed_at : Option Instant
  pub seal_kid : Option Key

abbrev pub is_sealed : SignatureRequest → Bool
is_sealed r =
    is_filled r.signed_pdf_key
    && (is_filled r.document_hash
        && (is_filled r.seal_signature && (is_filled r.seal_kid && has_time r.completed_at)))

-- `IS NOT NULL`
abbrev pub is_some : Option Key → Bool
is_some none = false
is_some (some _) = true

abbrev pub instant_of : Option Instant → Instant
instant_of none = 0
instant_of (some t) = t

abbrev pub unsealed_result : SignatureRequest → VerifyResult
unsealed_result r = record {
  valid = false;
  computed_hash = none;
  recorded_hash = r.document_hash;
  hash_matches = false;
  seal_valid = false;
  seal_kid = r.seal_kid;
}

-- The rows that `find_seal_by_hash` selects from.
abbrev pub has_seal_of : Key → SignatureRequest → Bool
has_seal_of hash r =
    opt_eq r.document_hash hash
    && (is_some r.seal_signature && (is_some r.seal_kid && has_time r.completed_at))

module _ (worker : Worker) where
  abbrev pub payload_of : SignatureRequest → Key → SealPayload
  payload_of r hash = record {
    request_id = r.id;
    signed_at = instant_of r.completed_at;
    document_hash = hash;
  }

  abbrev pub check_seal : SignatureRequest → Key → Bool
  check_seal r hash =
      verify worker.node worker.service (payload_of r hash) (image_of r.seal_signature)
        (image_of r.seal_kid)

  unfoldable pub verify_bytes : SignatureRequest → Option Text → Verified
  unfolding verify
  verify_bytes r none = Verified.too_large
  verify_bytes r (some fed) =
      let computed = worker.node.sha256 fed in
      let matches = opt_eq r.document_hash computed in
      let seal_valid = check_seal r computed in
      Verified.answered (record {
        valid = matches && seal_valid;
        computed_hash = some computed;
        recorded_hash = r.document_hash;
        hash_matches = matches;
        seal_valid = seal_valid;
        seal_kid = r.seal_kid;
      })

  -- The chunks in which the storage streams a body are a parameter.
  module _ (chunks : Text → List Text) where
    unfoldable pub verify_stored : SignatureRequest → List StoredObject → Verified
    unfolding verify_bytes digest_chunks get_object
    verify_stored r objects =
        if not (is_sealed r)
        then Verified.answered (unsealed_result r)
        else elim (get_object (image_of r.signed_pdf_key) objects) [
          | none ↦ Verified.no_object
          | some body ↦ verify_bytes r (digest_chunks max_verify_bytes (chunks body) 0 [])
        ]

    unfoldable pub verify_request : Key → Tables → List StoredObject → Verified
    unfolding verify_stored
    verify_request id db objects = elim (find_request id db) [
      | none ↦ Verified.no_row
      | some r ↦ verify_stored r objects
    ]

  unfoldable pub by_hash : Key → Tables → PublicVerifyResult
  unfolding verify
  by_hash hash db = elim (find_first (has_seal_of hash) db.requests) [
    | none ↦ record { verified = false; sealed_at = none; seal_kid = none }
    | some r ↦
        let valid = check_seal r hash in
        record {
          verified = valid;
          sealed_at = if valid then some (instant_of r.completed_at) else none;
          seal_kid = if valid then some (image_of r.seal_kid) else none;
        }
  ]
