-- ===== src/Envelope/Links.antt =====
-- Which links are open: apps/api/src/modules/signing/signing.service.ts and
-- apps/api/src/modules/signature-requests/signature-requests.service.ts.
use mathlib.Core.Path.{subst}
use mathlib.Core.Option.{some-injective}
use president_tech_award_e_s.Prelude.{
  ◌<◌, ◌≡◌, refl, ◌∙◌, ap, inl, inr, ◌⊎◌, true, false, ◌&&◌, Option, none, some, List, ◌==◌, leb,
  select, find_first, arith, Bool-cases, Option-cases, find_first-update_where, find_first_holds,
}
use president_tech_award_e_s.Calendar.{Instant}
use president_tech_award_e_s.Billing.Store.{Key, opt_eq}
use president_tech_award_e_s.Envelope.Store.{
  SignatureStatus, Recipient, SignatureRequest, Tables, is_live, is_invited, has_id, find_request,
  find_recipient, ResolvedToken, resolve_token, resolve_request,
}
use president_tech_award_e_s.Envelope.Link.{
  LoadedRequest, is_voided, is_completed, load_recipient, load_legacy, load_holder, load_row,
  load_for_token,
}
use president_tech_award_e_s.Envelope.Sender.{done, is_voidable, void}

-- What the holder of an open link is: a recipient of the envelope who was invited and has not signed,
-- with this very link and their own fields; or the signer of an envelope with one link.
abbrev pub Holds : SignatureRequest → LoadedRequest → Type 0
Holds row req =
    ((rc : Recipient) × (req.recipient_id ≡ some rc.id)
      × ((rc.request_id == row.id) ≡ true)
      × (opt_eq rc.signing_token_hash req.token_hash ≡ true)
      × (is_invited rc.status ≡ true)
      × (req.fields ≡ select (λ f. opt_eq f.recipient_key rc.recipient_key) row.fields))
    ⊎ ((req.recipient_id ≡ none)
        × (opt_eq row.signing_token_hash req.token_hash ≡ true)
        × (is_live row.status ≡ true)
        × (req.fields ≡ row.fields))

abbrev Opens : SignatureRequest → Key → LoadedRequest → Type 0
Opens row hash req = (req.id ≡ row.id) × (req.token_hash ≡ hash) × Holds row req

recipient-Opens :
    (row : SignatureRequest) (hash : Key) (o : Option Recipient) {req : LoadedRequest}
    → load_recipient row hash o ≡ some req
    → Opens row hash req
recipient-Opens row hash none h = cc
recipient-Opens row hash (some rc) h =
    elim (Bool-cases
      ((rc.request_id == row.id) && opt_eq rc.signing_token_hash hash && is_invited rc.status)) [
        | inl ok ↦
            subst (Opens row hash) (some-injective _ _ (rw ok at h))
              (refl, refl, inl (rc, refl, ground arith, ground arith, ground arith, refl))
        | inr bad ↦ absurd (ground arith)
      ]

legacy-Opens :
    (row : SignatureRequest) (hash : Key) {req : LoadedRequest}
    → load_legacy row hash ≡ some req
    → Opens row hash req
legacy-Opens row hash h =
    elim (Bool-cases (opt_eq row.signing_token_hash hash && is_live row.status)) [
      | inl ok ↦
          subst (Opens row hash) (some-injective _ _ (rw ok at h))
            (refl, refl, inr (refl, ground arith, ground arith, refl))
      | inr bad ↦ absurd (ground arith)
    ]

holder-Opens :
    (row : SignatureRequest) (hash : Key) (o : Option Key) (db : Tables) {req : LoadedRequest}
    → load_holder row hash o db ≡ some req
    → Opens row hash req
holder-Opens row hash none db h = legacy-Opens row hash h
holder-Opens row hash (some id) db h = recipient-Opens row hash (find_recipient id db) h

-- What is known of an envelope whose link was opened.
abbrev pub IsOpen : Key → Instant → Tables → LoadedRequest → Type 0
IsOpen hash now db req =
    (t : ResolvedToken) × (row : SignatureRequest) × (resolve_token hash db ≡ some t)
    × (find_request t.request_id db ≡ some row)
    × (now < row.expires_at)
    × (is_voided row.status ≡ false)
    × (req.id ≡ row.id)
    × (req.token_hash ≡ hash)
    × Holds row req

row-IsOpen :
    (t : ResolvedToken) (now : Instant) (row : SignatureRequest) (db : Tables) {req : LoadedRequest}
    → load_row t now (some row) db ≡ some req
    → (now < row.expires_at) × (is_voided row.status ≡ false) × Opens row t.token_hash req
unfolding load_row
row-IsOpen t now row db h = elim (Bool-cases (leb row.expires_at now)) [
  | inl over ↦ absurd (ground arith)
  | inr fresh ↦ elim (Bool-cases (is_voided row.status)) [
    | inl closed ↦ absurd (ground arith)
    | inr usable ↦ (
      ground arith,
      usable,
      holder-Opens row t.token_hash t.recipient_id db (rw (load_row, fresh, usable) at h),
    )
  ]
]

legacy_hash :
    (hash : Key) (o : Option SignatureRequest) {t : ResolvedToken}
    → resolve_request hash o ≡ some t
    → t.token_hash ≡ hash
legacy_hash hash none h = cc
legacy_hash hash (some r) h = ground arith

resolved_hash :
    (hash : Key) (db : Tables) {t : ResolvedToken}
    → resolve_token hash db ≡ some t
    → t.token_hash ≡ hash
unfolding resolve_token
resolved_hash hash db {t} h =
    elim (Option-cases (find_first (λ r. opt_eq r.signing_token_hash hash) db.recipients)) [
      | inr (r, e) ↦ ground arith
      | inl none_of_them ↦
          legacy_hash hash (find_first (λ r. opt_eq r.signing_token_hash hash) db.requests)
            (rw (resolve_token, none_of_them) at h)
    ]

-- A link opens only an envelope that has not expired and is not voided: for a person of that envelope
-- who was invited, has not signed and holds this very link, with the boxes of that person alone; or,
-- where the envelope itself carries this link and is sent or viewed, with all its boxes.
pub load_for_token-IsOpen :
    (hash : Key) (now : Instant) (db : Tables) {req : LoadedRequest}
    → load_for_token hash now db ≡ some req
    → IsOpen hash now db req
unfolding load_for_token load_row
load_for_token-IsOpen hash now db h = elim (Option-cases (resolve_token hash db)) [
  | inl missing ↦ absurd (ground arith)
  | inr (t, e) ↦ elim (Option-cases (find_request t.request_id db)) [
    | inl gone ↦ absurd (ground arith)
    | inr (row, e') ↦
        let (fresh, usable, (same, by_hash, holds)) =
          row-IsOpen t now row db (rw (load_for_token, e, e') at h) in
        (t, row, e, e', fresh, usable, same, by_hash ∙ resolved_hash hash db e, holds)
  ]
]

voided_again :
    (s : SignatureStatus) → is_completed s ≡ false → is_voided s ≡ false → is_voidable s ≡ true
voided_again SignatureStatus.sent a b = refl
voided_again SignatureStatus.viewed a b = refl
voided_again SignatureStatus.completed a b = cc
voided_again SignatureStatus.voided a b = cc
voided_again SignatureStatus.expired a b = refl

voided_row :
    (id : Key) (now : Instant) (db : Tables) {row : SignatureRequest} {people : List Recipient}
    {db' : Tables}
    → find_request id db ≡ some row
    → void id now db ≡ (done people, db')
    → (row' : SignatureRequest) × (find_request id db' ≡ some row') × (is_voided row'.status ≡ true)
unfolding void
voided_row id now db {row} found h = elim (Bool-cases (is_completed row.status)) [
  | inl signed ↦ absurd (ground arith)
  | inr unsigned ↦ elim (Bool-cases (is_voided row.status)) [
    | inl old ↦ (
      row,
      subst (λ s. find_request id s ≡ some row)
          (ap (λ x. x.1) (rw (void, found, unsigned, old) at h)) found,
      old,
    )
    | inr new ↦
        let ok = voided_again row.status unsigned new in
        let hit = find_first_holds (has_id id) db.requests found in
        let both : (has_id id row && is_voidable row.status) ≡ true = ground arith in
        let f = λ (r : SignatureRequest). record r {
          status = SignatureStatus.voided;
          voided_at = some now;
        } in
        (
          f row,
          subst (λ s. find_request id s ≡ some (f row))
              (ap (λ x. x.1) (rw (void, found, unsigned, new) at h))
              (find_first-update_where (has_id id) (λ r. has_id id r && is_voidable r.status) f
                  db.requests (λ _. refl)
                ∙ rw (found, both)),
          refl,
        )
  ]
]

-- A voided envelope is closed for good: once `void` has succeeded, no link that leads to the envelope
-- opens it at any later time.
pub void_closes :
    (id hash : Key) (now later : Instant) (db : Tables) {people : List Recipient} {db' : Tables}
    {t : ResolvedToken}
    → void id now db ≡ (done people, db')
    → resolve_token hash db' ≡ some t
    → t.request_id ≡ id
    → load_for_token hash later db' ≡ none
unfolding void load_for_token load_row
void_closes id hash now later db {people} {db'} {t} h resolved leads =
    elim (Option-cases (find_request id db)) [
      | inl missing ↦ absurd (ground arith)
      | inr (row, found) ↦
          let (row', found', closed) = voided_row id now db found h in
          let found'' : find_request t.request_id db' ≡ some row' =
            ap (λ k. find_request k db') leads ∙ found' in
          elim (Bool-cases (leb row'.expires_at later)) [
            | inl over ↦ rw (load_for_token, resolved, found'', load_row, over)
            | inr fresh ↦ rw (load_for_token, resolved, found'', load_row, fresh, closed)
          ]
    ]
