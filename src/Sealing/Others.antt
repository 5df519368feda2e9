-- ===== src/Sealing/Others.antt =====
-- The handlers that change envelopes while runs are going on spare what the pipeline goes by:
-- apps/api/src/modules/signature-requests and apps/api/src/modules/signing/signing.service.ts.
use mathlib.Core.Path.{subst}
use president_tech_award_e_s.Prelude.{
  ◌≡◌, refl, sym, ◌∙◌, inl, inr, Bool, true, Option, none, some, List, [], ◌∷◌, update_where, All,
  Bool-cases, Option-cases, HasUniqueKeys,
}
use president_tech_award_e_s.Calendar.{Instant}
use president_tech_award_e_s.Billing.Store.{Key}
use president_tech_award_e_s.Billing.Payme.Protocol.{Text}
use president_tech_award_e_s.Envelope.Fields.{FieldType}
use president_tech_award_e_s.Envelope.Store.{SignatureRequest, Tables, is_live, find_request}
use president_tech_award_e_s.Envelope.Link.{is_voided, is_completed}
use president_tech_award_e_s.Envelope.Sender.{void, is_known, move_to_folder, soft_delete, restore}
use president_tech_award_e_s.Envelope.Sweeps.{was_told, expire_envelope, sweep_expired_envelopes}
use president_tech_award_e_s.Envelope.Submit.{Submitted, submit}
use president_tech_award_e_s.Sealing.Follows.{Spared, Spares, Spares-update_where}
use president_tech_award_e_s.Sealing.Signed.{submit-FinishedBy}

Spared-trans : (x y z : SignatureRequest) → Spared x y → Spared y z → Spared x z
Spared-trans x y z (i, c, r, m) (j, d, s, n) = (
  j ∙ i,
  elim c [
    | inl not_yet ↦ inl not_yet
    | inr same ↦ elim d [ inl not_yet ↦ inl (sym same ∙ not_yet) | inr still ↦ inr (still ∙ same) ]
  ],
  s ∙ r,
  n ∙ m,
)

Spares-trans : (xs ys zs : List SignatureRequest) → Spares xs ys → Spares ys zs → Spares xs zs
Spares-trans [] [] zs h k = k
Spares-trans [] (y ∷ ys) zs h k = absurd h
Spares-trans (x ∷ xs) [] zs h k = absurd h
Spares-trans (x ∷ xs) (y ∷ ys) [] h k = absurd k
Spares-trans (x ∷ xs) (y ∷ ys) (z ∷ zs) h k =
    (Spared-trans x y z h.0 k.0, Spares-trans xs ys zs h.1 k.1)

Spares-refl : (xs : List SignatureRequest) → Spares xs xs
Spares-refl [] = tt
Spares-refl (x ∷ xs) = ((refl, inr refl, refl, refl), Spares-refl xs)

-- A write that spares every row.
Spares-write :
    (p : SignatureRequest → Bool) (f : SignatureRequest → SignatureRequest)
    (xs : List SignatureRequest)
    → ((x : SignatureRequest) → Spared x (f x))
    → Spares xs (update_where p f xs)
Spares-write p f [] spared = tt
Spares-write p f (x ∷ xs) spared = (
  elim (Bool-cases (p x)) [
    | inl hit ↦ rw hit (spared x)
    | inr miss ↦ rw miss (refl, inr refl, refl, refl)
  ],
  Spares-write p f xs spared,
)

pub void-Spares :
    (id : Key) (now : Instant) (db : Tables) → Spares db.requests (void id now db).1.requests
unfolding void
void-Spares id now db = elim (Option-cases (find_request id db)) [
  | inl missing ↦ rw (void, missing) (Spares-refl db.requests)
  | inr (row, found) ↦ elim (Bool-cases (is_completed row.status)) [
    | inl signed ↦ rw (void, found, signed) (Spares-refl db.requests)
    | inr unsigned ↦ elim (Bool-cases (is_voided row.status)) [
      | inl old ↦ rw (void, found, unsigned, old) (Spares-refl db.requests)
      | inr new ↦
          rw (void, found, unsigned, new)
            (Spares-write _ _ db.requests (λ x. (refl, inr refl, refl, refl)))
    ]
  ]
]

pub soft_delete-Spares :
    (ids : List Key) (now : Instant) (db : Tables)
    → Spares db.requests (soft_delete ids now db).1.requests
unfolding soft_delete
soft_delete-Spares ids now db = Spares-write _ _ db.requests (λ x. (refl, inr refl, refl, refl))

pub restore-Spares : (ids : List Key) (db : Tables) → Spares db.requests (restore ids db).1.requests
unfolding restore
restore-Spares ids db = Spares-write _ _ db.requests (λ x. (refl, inr refl, refl, refl))

pub move_to_folder-Spares :
    (ids : List Key) (folder : Option Key) (db : Tables)
    → Spares db.requests (move_to_folder ids folder db).1.requests
unfolding move_to_folder
move_to_folder-Spares ids folder db = elim (Bool-cases (is_known folder db.folders)) [
  | inl known ↦
      rw (move_to_folder, known) (Spares-write _ _ db.requests (λ x. (refl, inr refl, refl, refl)))
  | inr unknown ↦ rw (move_to_folder, unknown) (Spares-refl db.requests)
]

pub expire_envelope-Spares :
    (id : Key) (now : Instant) (db : Tables)
    → Spares db.requests (expire_envelope id now db).1.requests
unfolding expire_envelope
expire_envelope-Spares id now db = elim (Option-cases (find_request id db)) [
  | inl missing ↦ rw (expire_envelope, missing) (Spares-refl db.requests)
  | inr (row, found) ↦ elim (Bool-cases (was_told row)) [
    | inl told ↦
        rw (expire_envelope, found, told)
          (Spares-write _ _ db.requests (λ x. (refl, inr refl, refl, refl)))
    | inr new ↦
        rw (expire_envelope, found, new)
          (Spares-trans db.requests _ _
            (Spares-write _ _ db.requests (λ x. (refl, inr refl, refl, refl)))
            (Spares-write _ _ _ (λ x. (refl, inr refl, refl, refl))))
  ]
]

pub sweep_expired_envelopes-Spares :
    (ids : List Key) (now : Instant) (db : Tables)
    → Spares db.requests (sweep_expired_envelopes ids now db).1.requests
unfolding sweep_expired_envelopes
sweep_expired_envelopes-Spares [] now db = Spares-refl db.requests
sweep_expired_envelopes-Spares (id ∷ ids) now db =
    Spares-trans db.requests _ _ (expire_envelope-Spares id now db)
      (sweep_expired_envelopes-Spares ids now (expire_envelope id now db).1)

-- The last signature of an envelope, where no envelope that can be signed has a time of completion.
pub submit-Spares :
    (valid : FieldType → Text → Bool) (trim : Text → Text) (iso_day : Instant → Text)
    (mint hash : Key → Key) (token_hash : Key) (supplied : Key → Option Text) (image : Option Key)
    (now : Instant) (db : Tables) {id : Key} {db' : Tables} {r : SignatureRequest}
    → submit valid trim iso_day mint hash token_hash supplied image now db
      ≡ (Submitted.finished id, db')
    → HasUniqueKeys (λ x. x.id) db.requests
    → find_request id db ≡ some r
    → is_live r.status ≡ true
    → All (λ x. is_live x.status ≡ true → x.completed_at ≡ none) db.requests
    → Spares db.requests db'.requests
submit-Spares valid trim iso_day mint hash token_hash supplied image now db h unique found live
      untimed =
    let by =
      submit-FinishedBy valid trim iso_day mint hash token_hash supplied image now db h unique found
        live in
    subst (λ rs. Spares db.requests rs) (sym by.rows)
      (Spares-update_where (λ x. is_live x.status ≡ true → x.completed_at ≡ none) by.meets by.write
        db.requests
        (λ x blank hit.
          (by.same_id x, inl (blank (by.live x hit)), by.same_record x, by.same_mark x))
        untimed)
