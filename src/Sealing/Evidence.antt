-- ===== src/Sealing/Evidence.antt =====
-- What is known of the artifacts of a sealed envelope, at rest and in the hands of a run.
use mathlib.Core.Path.{subst}
use president_tech_award_e_s.Prelude.{
  sym, ◌≡◌, ap, ◌∙◌, ◌⊎◌, inl, inr, Bool, true, false, none, some, List, ◌==◌, any, All, All-map,
  arith, HasUniqueKeys,
}
use president_tech_award_e_s.Calendar.{Instant}
use president_tech_award_e_s.Billing.Store.{Key, opt_eq}
use president_tech_award_e_s.Billing.Payme.Protocol.{Text}
use president_tech_award_e_s.Envelope.Store.{SignatureRequest, has_id}
use president_tech_award_e_s.Sealing.Ring.{SealKey, Built, build, verify}
use president_tech_award_e_s.Sealing.Rotation.{Signs}
use president_tech_award_e_s.Sealing.Completion.{
  StoredObject, Workspace, Draft, Artifacts, Phase, get_object, has_time,
}
use president_tech_award_e_s.Sealing.Runs.{Worker}
use president_tech_award_e_s.Sealing.Follows.{
  Spared, Recorded, recorded, blank, Keeps, Follows, Follows-All, Follows-any,
}

-- The service was started from a ring, and what is hashed, signed and encoded is not empty.
pub record IsWorking (worker : Worker) : Type 0 where
  pub ring : List SealKey
  pub starts : build worker.node ring ≡ Built.built worker.service
  pub signs : Signs worker.node
  pub to_base64_filled : (bytes : Key) → (worker.node.to_base64 bytes == 0) ≡ false
  pub sha256_filled : (body : Text) → (worker.node.sha256 body == 0) ≡ false

abbrev pub recorded_of : Artifacts → Recorded
recorded_of a = record {
  signed_pdf_key = some a.signed_pdf_key;
  certificate_key = some a.certificate_key;
  document_hash = some a.draft.document_hash;
  seal_signature = some a.draft.seal.signature;
  seal_kid = some a.draft.seal.kid;
}

-- A later storage has every object that an earlier one had.
abbrev pub Holds : List StoredObject → List StoredObject → Type 0
Holds objects later =
    (k : Key) (body : Text) → get_object k objects ≡ some body → get_object k later ≡ some body

pub record Grows (w w' : Workspace) : Type 0 where
  pub rows : Follows w.tables.requests w'.tables.requests
  pub objects : Holds w.objects w'.objects

-- No run has the time of completion of an envelope wrong.
abbrev pub Dated : SignatureRequest → Instant → List SignatureRequest → Type 0
Dated r at rows = All (λ y. has_id r.id y ≡ true → y.completed_at ≡ some at) rows

abbrev pub has_signed_pdf : SignatureRequest → Bool
has_signed_pdf r = elim r.signed_pdf_key [ none ↦ false | some _ ↦ true ]

-- The envelope has its artifacts.
abbrev pub IsClaimed : SignatureRequest → List SignatureRequest → Type 0
IsClaimed r rows = All (λ y. has_id r.id y ≡ true → has_signed_pdf y ≡ true) rows

module _ (worker : Worker) where
  -- The seal of what is to be stored verifies, for this envelope and its time of completion.
  pub record IsDraft (id : Key) (at : Instant) (draft : Draft) : Type 0 where
    pub hash : draft.document_hash ≡ worker.node.sha256 draft.signed_pdf
    pub hash_filled : (draft.document_hash == 0) ≡ false
    pub signature_filled : (draft.seal.signature == 0) ≡ false
    pub kid_filled : (draft.seal.kid == 0) ≡ false
    pub verifies :
        verify worker.node worker.service
          (record { request_id = id; signed_at = at; document_hash = draft.document_hash })
          draft.seal.signature
          draft.seal.kid
        ≡ true

  pub record IsStored (objects : List StoredObject) (a : Artifacts) : Type 0 where
    pub signed : get_object a.signed_pdf_key objects ≡ some a.draft.signed_pdf
    pub certificate : get_object a.certificate_key objects ≡ some a.draft.certificate_pdf
    pub signed_filled : (a.signed_pdf_key == 0) ≡ false
    pub certificate_filled : (a.certificate_key == 0) ≡ false

  -- A row has no artifacts, or stored ones whose seal verifies.
  abbrev pub HasEvidence : List StoredObject → SignatureRequest → Type 0
  HasEvidence objects r =
      (a : Artifacts) × (at : Instant) × (recorded r ≡ recorded_of a)
      × (r.completed_at ≡ some at)
      × IsDraft r.id at a.draft
      × IsStored objects a

  abbrev pub IsRow : List StoredObject → SignatureRequest → Type 0
  IsRow objects r = (recorded r ≡ blank) ⊎ HasEvidence objects r

  -- A document is one that an envelope has on record.
  abbrev pub has_hash : Text → SignatureRequest → Bool
  has_hash body r = opt_eq r.document_hash (worker.node.sha256 body)

  abbrev pub IsOnRecord : List SignatureRequest → Text → Type 0
  IsOnRecord rows body = any (has_hash body) rows ≡ true

  pub record IsSound (w : Workspace) : Type 0 where
    pub unique : HasUniqueKeys (λ r. r.id) w.tables.requests
    pub rows : All (IsRow w.objects) w.tables.requests
    pub mailed :
        All
          (λ r. has_time r.completion_emailed_at ≡ true → has_signed_pdf r ≡ true)
          w.tables.requests
    pub mails : All (λ m. IsOnRecord w.tables.requests m.signed_pdf) w.outbox

  abbrev pub IsPhase : Workspace → Phase → Type 0
  IsPhase w (Phase.loading id) = Unit
  IsPhase w (Phase.resending r signed certificate) =
      (any (λ x. opt_eq x.signed_pdf_key signed) w.tables.requests ≡ true)
      × IsClaimed r w.tables.requests
  IsPhase w (Phase.stamping r at) = Dated r at w.tables.requests
  IsPhase w (Phase.storing r draft) =
      (at : Instant) × Dated r at w.tables.requests × IsDraft r.id at draft
  IsPhase w (Phase.claiming r a) =
      (at : Instant) × Dated r at w.tables.requests × IsDraft r.id at a.draft × IsStored w.objects a
  IsPhase w (Phase.delivering r signed certificate) =
      IsOnRecord w.tables.requests signed × IsClaimed r w.tables.requests
  IsPhase w (Phase.mailing r ms) =
      All (λ m. IsOnRecord w.tables.requests m.signed_pdf) ms × IsClaimed r w.tables.requests
  IsPhase w Phase.finished = Unit
  IsPhase w (Phase.failed e) = Unit

  pub IsStored-Holds :
      (objects later : List StoredObject) (a : Artifacts)
      → Holds objects later
      → IsStored objects a
      → IsStored later a
  IsStored-Holds objects later a holds s = record {
    signed = holds _ _ s.signed;
    certificate = holds _ _ s.certificate;
    signed_filled = s.signed_filled;
    certificate_filled = s.certificate_filled;
  }

  pub IsRow-Holds :
      (objects later : List StoredObject) (r : SignatureRequest)
      → Holds objects later
      → IsRow objects r
      → IsRow later r
  IsRow-Holds objects later r holds (inl none_yet) = inl none_yet
  IsRow-Holds objects later r holds (inr (a, at, same, dated, draft, stored)) =
      inr (a, at, same, dated, draft, IsStored-Holds objects later a holds stored)

  -- What is on record stays there.
  hash_kept :
      (body : Text) (x y : SignatureRequest)
      → Keeps x y
      → has_hash body x ≡ true
      → has_hash body y ≡ true
  hash_kept body x y (i, c, inl none_yet) hit =
      absurd (ground (arith, ap (λ s. s.document_hash) none_yet))
  hash_kept body x y (i, c, inr same) hit =
      ap (λ s. opt_eq s.document_hash (worker.node.sha256 body)) same ∙ hit

  key_kept :
      (k : Key) (x y : SignatureRequest)
      → Keeps x y
      → opt_eq x.signed_pdf_key k ≡ true
      → opt_eq y.signed_pdf_key k ≡ true
  key_kept k x y (i, c, inl none_yet) hit =
      absurd (ground (arith, ap (λ s. s.signed_pdf_key) none_yet))
  key_kept k x y (i, c, inr same) hit = ap (λ s. opt_eq s.signed_pdf_key k) same ∙ hit

  pub IsOnRecord-Follows :
      (xs ys : List SignatureRequest) (body : Text)
      → Follows xs ys
      → IsOnRecord xs body
      → IsOnRecord ys body
  IsOnRecord-Follows xs ys body h = Follows-any (has_hash body) xs ys (hash_kept body) h

  dated_kept :
      (x y : SignatureRequest) {at : Instant}
      → (x.completed_at ≡ none) ⊎ (y.completed_at ≡ x.completed_at)
      → x.completed_at ≡ some at
      → y.completed_at ≡ some at
  dated_kept x y (inl not_yet) dated = absurd (ground arith)
  dated_kept x y (inr same) dated = same ∙ dated

  -- A row that is spared has the same evidence.
  pub IsRow-Spared :
      (objects : List StoredObject) (x y : SignatureRequest)
      → IsRow objects x
      → Spared x y
      → IsRow objects y
  IsRow-Spared objects x y (inl none_yet) (i, c, same, mark) = inl (same ∙ none_yet)
  IsRow-Spared objects x y (inr (a, at, e, dated, draft, stored)) (i, c, same, mark) = inr (
    a,
    at,
    same ∙ e,
    dated_kept x y c dated,
    subst (λ k. IsDraft k at a.draft) (sym i) draft,
    stored,
  )

  Dated-Follows :
      (r : SignatureRequest) (at : Instant) (xs ys : List SignatureRequest)
      → Follows xs ys
      → Dated r at xs
      → Dated r at ys
  Dated-Follows r at xs ys h =
      Follows-All _ (λ y. has_id r.id y ≡ true → y.completed_at ≡ some at) xs ys
        (λ x y d k hit. dated_kept x y k.1 (d (rw k.0 at hit))) h

  signed_kept :
      (x y : SignatureRequest) → Keeps x y → has_signed_pdf x ≡ true → has_signed_pdf y ≡ true
  signed_kept x y (i, c, inl none_yet) h =
      absurd (ground (arith, ap (λ s. s.signed_pdf_key) none_yet))
  signed_kept x y (i, c, inr same) h =
      ap (λ s. elim s.signed_pdf_key [ none ↦ false | some _ ↦ true ]) same ∙ h

  IsClaimed-Follows :
      (r : SignatureRequest) (xs ys : List SignatureRequest)
      → Follows xs ys
      → IsClaimed r xs
      → IsClaimed r ys
  IsClaimed-Follows r xs ys h =
      Follows-All _ (λ y. has_id r.id y ≡ true → has_signed_pdf y ≡ true) xs ys
        (λ x y d k hit. signed_kept x y k (d (rw k.0 at hit))) h

  -- What a run knows stays true while others go on.
  pub IsPhase-Grows : (w w' : Workspace) (p : Phase) → Grows w w' → IsPhase w p → IsPhase w' p
  IsPhase-Grows w w' (Phase.loading id) g h = tt
  IsPhase-Grows w w' (Phase.resending r signed certificate) g h =
      (Follows-any _ _ _ (key_kept signed) g.rows h.0, IsClaimed-Follows r _ _ g.rows h.1)
  IsPhase-Grows w w' (Phase.stamping r at) g h = Dated-Follows r at _ _ g.rows h
  IsPhase-Grows w w' (Phase.storing r draft) g (at, d, s) = (at, Dated-Follows r at _ _ g.rows d, s)
  IsPhase-Grows w w' (Phase.claiming r a) g (at, d, s, t) =
      (at, Dated-Follows r at _ _ g.rows d, s, IsStored-Holds _ _ a g.objects t)
  IsPhase-Grows w w' (Phase.delivering r signed certificate) g h =
      (IsOnRecord-Follows _ _ signed g.rows h.0, IsClaimed-Follows r _ _ g.rows h.1)
  IsPhase-Grows w w' (Phase.mailing r ms) g h = (
    All-map _ _ ms (λ m. IsOnRecord-Follows _ _ m.signed_pdf g.rows) h.0,
    IsClaimed-Follows r _ _ g.rows h.1,
  )
  IsPhase-Grows w w' Phase.finished g h = tt
  IsPhase-Grows w w' (Phase.failed e) g h = tt
