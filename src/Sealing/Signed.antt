-- ===== src/Sealing/Signed.antt =====
-- From the last signature to the sealed envelope: `submit` of
-- apps/api/src/modules/signing/signing.service.ts, and then
-- apps/api/src/modules/signing/completion.ts.
use mathlib.Core.Path.{subst}
use president_tech_award_e_s.Prelude.{
  ◌≡◌, refl, sym, ap, ◌∙◌, inl, inr, Bool, true, false, ◌&&◌, ◌||◌, Option, none, some, List, [],
  ◌∷◌, ◌==◌, every, select, update_where, count_where, All, All-map, HasUniqueKeys, arith,
  Bool-cases, ==_iff,
}
use president_tech_award_e_s.Calendar.{Instant}
use president_tech_award_e_s.Billing.Store.{Key}
use president_tech_award_e_s.Billing.Payme.Protocol.{Text}
use president_tech_award_e_s.Envelope.Fields.{FieldType, resolve_field_values}
use president_tech_award_e_s.Envelope.Store.{
  SignatureStatus, SignatureRequest, Tables, is_live, is_done, is_signer, has_id, find_request,
  recipients_of,
}
use president_tech_award_e_s.Envelope.Link.{LoadedRequest, load_for_token, is_completed, no_consent}
use president_tech_award_e_s.Envelope.Routing.{advance_envelope, advance_row, complete_request}
use president_tech_award_e_s.Envelope.Turns.{waits}
use president_tech_award_e_s.Envelope.Submit.{
  Submitted, is_signable, is_signable_request, sign_request, any_of, after_claim, claim,
  submit_loaded, submit,
}
use president_tech_award_e_s.Sealing.Follows.{recorded, All-unique}

-- How a submission that finishes an envelope writes its row.
pub record FinishedBy (now : Instant) (r : SignatureRequest) (before later : List SignatureRequest)
    : Type 0 where
  pub meets : SignatureRequest → Bool
  pub write : SignatureRequest → SignatureRequest
  pub rows : later ≡ update_where meets write before
  pub live : (x : SignatureRequest) → meets x ≡ true → is_live x.status ≡ true
  pub hits : meets r ≡ true
  pub same_id : (x : SignatureRequest) → (write x).id ≡ x.id
  pub same_record : (x : SignatureRequest) → recorded (write x) ≡ recorded x
  pub same_mark : (x : SignatureRequest) → (write x).completion_emailed_at ≡ x.completion_emailed_at
  pub completed : (x : SignatureRequest) → is_completed (write x).status ≡ true
  pub completed_at : (x : SignatureRequest) → (write x).completed_at ≡ some now

-- A row that was counted is the only one that could be.
counted-hits :
    (p : SignatureRequest → Bool) (rows : List SignatureRequest) {r : SignatureRequest}
    → All (λ y. p y ≡ true → y ≡ r) rows
    → (count_where p rows == 1) ≡ true
    → p r ≡ true
counted-hits p [] only one = cc
counted-hits p (x ∷ xs) {r} only one = elim (Bool-cases (p x)) [
  | inl hit ↦ ap p (sym (only.0 hit)) ∙ hit
  | inr miss ↦ counted-hits p xs only.1 (rw miss at one)
]

finished-injective : (a b : Key) → Submitted.finished a ≡ Submitted.finished b → a ≡ b
finished-injective a b h = cc

refused_finished : (id : Key) → Submitted.refused ≡ Submitted.finished id → ⊥
refused_finished id h = cc

by_id :
    (req_id id hash : Key) (y : SignatureRequest)
    → req_id ≡ id
    → is_signable_request req_id hash y ≡ true
    → has_id id y ≡ true
by_id req_id id hash y same hit = let own : has_id req_id y ≡ true = ground arith in rw same at own

module _ (mint hash : Key → Key) where
  -- An envelope that the routing declares complete has its row written.
  advance_envelope-FinishedBy :
      (now : Instant) (id : Key) (db : Tables) {r : SignatureRequest}
      → find_request id db ≡ some r
      → is_live r.status ≡ true
      → (advance_envelope mint hash now id db).0.envelope_complete ≡ true
      → FinishedBy now r db.requests (advance_envelope mint hash now id db).1.requests
  unfolding advance_envelope advance_row complete_request
  advance_envelope-FinishedBy now id db {r} found live complete =
      elim (Bool-cases (every (λ q. is_done q.status) (select is_signer (recipients_of id db)))) [
        | inl all ↦ record {
          meets = λ x. has_id r.id x && is_live x.status;
          write = λ x. record x { status = SignatureStatus.completed; completed_at = some now };
          rows = rw (advance_envelope, found, advance_row, all, complete_request) refl;
          live = λ x h. ground arith;
          hits = rw (live, (==_iff r.id r.id).1 refl) refl;
          same_id = λ x. refl;
          same_record = λ x. refl;
          same_mark = λ x. refl;
          completed = λ x. refl;
          completed_at = λ x. refl;
        }
        | inr some_left ↦
            let waiting : (advance_envelope mint hash now id db).0.envelope_complete ≡ false =
              rw (advance_envelope, found, advance_row, some_left)
                (waits mint hash now r.routing_mode (recipients_of id db) db) in
            absurd (ground arith)
      ]

module _ (valid : FieldType → Text → Bool) (trim : Text → Text) (iso_day : Instant → Text)
    (mint hash : Key → Key) where
  after_claim-FinishedBy :
      (now : Instant) (id : Key) (db : Tables) {finished_id : Key} {db' : Tables}
      {r : SignatureRequest}
      → after_claim valid trim iso_day mint hash now id db ≡ (Submitted.finished finished_id, db')
      → find_request finished_id db ≡ some r
      → is_live r.status ≡ true
      → FinishedBy now r db.requests db'.requests
  after_claim-FinishedBy now id db {finished_id} {db'} {r} h found live =
      elim (Bool-cases (advance_envelope mint hash now id db).0.envelope_complete) [
        | inr waiting ↦ absurd (ground (arith, ap (λ x. x.0) (rw waiting at h)))
        | inl complete ↦
            let e = rw complete at h in
            let id_same = finished-injective _ _ (ap (λ x. x.0) e) in
            subst (λ x. FinishedBy now r db.requests x.requests) (ap (λ x. x.1) e)
              (advance_envelope-FinishedBy mint hash now id db
                (subst (λ k. find_request k db ≡ some r) (sym id_same) found) live complete)
      ]

  -- A submission that finishes an envelope which was live writes its row and no other.
  claim-FinishedBy :
      (now : Instant) (image : Key) (values : List (Key × Text)) (req : LoadedRequest)
      (o : Option Key) (db : Tables) {id : Key} {db' : Tables} {r : SignatureRequest}
      → claim valid trim iso_day mint hash now image values req o db ≡ (Submitted.finished id, db')
      → HasUniqueKeys (λ x. x.id) db.requests
      → find_request id db ≡ some r
      → is_live r.status ≡ true
      → FinishedBy now r db.requests db'.requests
  unfolding claim
  claim-FinishedBy now image values req (some person) db {id} {db'} {r} h unique found live =
      elim (Bool-cases (count_where (is_signable person req.token_hash) db.recipients == 1)) [
        | inl one ↦ after_claim-FinishedBy now req.id _ (rw (claim, one) at h) found live
        | inr none_or_more ↦
            absurd (refused_finished id (ap (λ x. x.0) (rw (claim, none_or_more) at h)))
      ]
  claim-FinishedBy now image values req none db {id} {db'} {r} h unique found live =
      let meets = is_signable_request req.id req.token_hash in
      elim (Bool-cases (count_where meets db.requests == 1)) [
        | inl one ↦
            let e = rw (claim, one) at h in
            let id_same = finished-injective _ _ (ap (λ x. x.0) e) in
            record {
              meets = meets;
              write = sign_request now image values;
              rows = sym (ap (λ x. x.1.requests) e);
              live = λ x hit. ground arith;
              hits =
                  counted-hits meets db.requests
                    (All-map _ _ db.requests
                      (λ y only hit. only (by_id req.id id req.token_hash y id_same hit))
                      (All-unique id db.requests unique found))
                    one;
              same_id = λ x. refl;
              same_record = λ x. refl;
              same_mark = λ x. refl;
              completed = λ x. refl;
              completed_at = λ x. refl;
            }
        | inr none_or_more ↦
            absurd (refused_finished id (ap (λ x. x.0) (rw (claim, none_or_more) at h)))
      ]

  loaded-FinishedBy :
      (o : Option LoadedRequest) (supplied : Key → Option Text) (image : Option Key) (now : Instant)
      (db : Tables) {id : Key} {db' : Tables} {r : SignatureRequest}
      → submit_loaded valid trim iso_day mint hash o supplied image now db
        ≡ (Submitted.finished id, db')
      → HasUniqueKeys (λ x. x.id) db.requests
      → find_request id db ≡ some r
      → is_live r.status ≡ true
      → FinishedBy now r db.requests db'.requests
  unfolding submit_loaded
  loaded-FinishedBy none supplied image now db {id} h unique found live =
      absurd (refused_finished id (ap (λ x. x.0) h))
  loaded-FinishedBy (some req) supplied none now db {id} h unique found live =
      absurd (refused_finished id (ap (λ x. x.0) h))
  loaded-FinishedBy (some req) supplied (some key) now db {id} h unique found live =
      let resolved = resolve_field_values valid trim iso_day req.fields supplied now in
      elim (Bool-cases (no_consent req.consent_at)) [
        | inl silent ↦
            absurd (refused_finished id (ap (λ x. x.0) (rw (submit_loaded, silent) at h)))
        | inr agreed ↦
            elim (Bool-cases (any_of resolved.missing_required || any_of resolved.invalid)) [
              | inl wrong ↦
                  absurd
                    (refused_finished id (ap (λ x. x.0) (rw (submit_loaded, agreed, wrong) at h)))
              | inr right ↦
                  claim-FinishedBy now key resolved.values req req.recipient_id db
                    (rw (submit_loaded, agreed, right) at h) unique found live
            ]
      ]

  pub submit-FinishedBy :
      (token_hash : Key) (supplied : Key → Option Text) (image : Option Key) (now : Instant)
      (db : Tables) {id : Key} {db' : Tables} {r : SignatureRequest}
      → submit valid trim iso_day mint hash token_hash supplied image now db
        ≡ (Submitted.finished id, db')
      → HasUniqueKeys (λ x. x.id) db.requests
      → find_request id db ≡ some r
      → is_live r.status ≡ true
      → FinishedBy now r db.requests db'.requests
  unfolding submit
  submit-FinishedBy token_hash supplied image now db h unique found live =
      loaded-FinishedBy (load_for_token token_hash now db) supplied image now db h unique found live
