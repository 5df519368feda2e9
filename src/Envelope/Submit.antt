-- ===== src/Envelope/Submit.antt =====
-- `submit` of apps/api/src/modules/signing/signing.service.ts.
use president_tech_award_e_s.Prelude.{
  Bool, true, false, ◌&&◌, ◌||◌, Option, none, some, List, [], ◌∷◌, ◌==◌, if◌then◌else◌,
  update_where, count_where,
}
use president_tech_award_e_s.Calendar.{Instant}
use president_tech_award_e_s.Billing.Store.{Key, opt_eq}
use president_tech_award_e_s.Billing.Payme.Protocol.{Text}
use president_tech_award_e_s.Envelope.Fields.{FieldType, resolve_field_values}
use president_tech_award_e_s.Envelope.Store.{
  SignatureStatus, RecipientStatus, Recipient, SignatureRequest, Tables, is_live, is_invited,
  has_id, is_recipient,
}
use president_tech_award_e_s.Envelope.Link.{LoadedRequest, load_for_token, no_consent}
use president_tech_award_e_s.Envelope.Routing.{PendingInvite, advance_envelope}

-- What a submission leads to: people to invite, or the job that seals the envelope.
pub data Submitted : Type 0 where
  refused : Submitted
  waiting : List PendingInvite → Submitted
  finished : Key → Submitted

-- The rows that the claim may write: the same link, not signed yet.
abbrev pub is_signable : Key → Key → Recipient → Bool
is_signable id hash r = is_recipient id r && opt_eq r.signing_token_hash hash && is_invited r.status

abbrev pub is_signable_request : Key → Key → SignatureRequest → Bool
is_signable_request id hash r = has_id id r && opt_eq r.signing_token_hash hash && is_live r.status

abbrev pub sign : Instant → Key → List (Key × Text) → Recipient → Recipient
sign now image values r = record r {
  status = RecipientStatus.completed;
  completed_at = some now;
  signature_image_key = some image;
  field_values = values;
}

abbrev pub sign_request : Instant → Key → List (Key × Text) → SignatureRequest → SignatureRequest
sign_request now image values r = record r {
  status = SignatureStatus.completed;
  completed_at = some now;
  signature_image_key = some image;
  field_values = values;
}

abbrev pub any_of : List Key → Bool
any_of [] = false
any_of (_ ∷ _) = true

-- The checks of a value, `trim`, the day of an instant, and the tokens that may be minted; `put` is
-- the storage key of the uploaded image, `none` if it is no PNG.
module _ (valid : FieldType → Text → Bool) (trim : Text → Text) (iso_day : Instant → Text)
    (mint hash : Key → Key) where
  abbrev pub after_claim : Instant → Key → Tables → Submitted × Tables
  after_claim now id db =
      let (advanced, db') = advance_envelope mint hash now id db in
      if advanced.envelope_complete
      then (Submitted.finished id, db')
      else (Submitted.waiting advanced.invites, db')

  -- The compare-and-set, by the link that was loaded.
  unfoldable pub claim :
      Instant → Key → List (Key × Text) → LoadedRequest → Option Key → Tables → Submitted × Tables
  claim now image values req (some id) db =
      let claimed = record db {
        recipients =
            update_where (is_signable id req.token_hash) (sign now image values) db.recipients;
      } in
      if count_where (is_signable id req.token_hash) db.recipients == 1
      then after_claim now req.id claimed
      else (Submitted.refused, claimed)
  claim now image values req none db =
      let claimed = record db {
        requests =
            update_where (is_signable_request req.id req.token_hash) (sign_request now image values)
              db.requests;
      } in
      if count_where (is_signable_request req.id req.token_hash) db.requests == 1
      then (Submitted.finished req.id, claimed)
      else (Submitted.refused, claimed)

  unfoldable pub submit_loaded :
      Option LoadedRequest
      → (Key → Option Text)
      → Option Key
      → Instant
      → Tables
      → Submitted × Tables
  unfolding claim
  submit_loaded none supplied image now db = (Submitted.refused, db)
  submit_loaded (some req) supplied none now db = (Submitted.refused, db)
  submit_loaded (some req) supplied (some image) now db =
      let resolved = resolve_field_values valid trim iso_day req.fields supplied now in
      if no_consent req.consent_at
      then (Submitted.refused, db)
      else if any_of resolved.missing_required || any_of resolved.invalid
      then (Submitted.refused, db)
      else claim now image resolved.values req req.recipient_id db

  -- `submit`, of the token's hash, the values and the image.
  unfoldable pub submit :
      Key → (Key → Option Text) → Option Key → Instant → Tables → Submitted × Tables
  unfolding load_for_token submit_loaded
  submit token_hash supplied image now db =
      submit_loaded (load_for_token token_hash now db) supplied image now db
