-- ===== src/Sealing/Steps.antt =====
-- Every step of a run keeps the workspace sound:
-- apps/api/src/modules/signing/completion.ts.
use mathlib.Core.Path.{subst}
use mathlib.Core.Option.{some-injective}
use president_tech_award_e_s.Prelude.{
  ◌≡◌, refl, sym, ap, ◌∙◌, inl, inr, Bool, true, false, ◌&&◌, Option, none, some, List, [], ◌∷◌,
  ◌==◌, any, find_first, find_first_holds, All, All-map, arith, Bool-cases, Option-cases, ==_iff,
}
use president_tech_award_e_s.Calendar.{Instant}
use president_tech_award_e_s.Billing.Store.{Key}
use president_tech_award_e_s.Envelope.Store.{SignatureRequest, has_id, find_request}
use president_tech_award_e_s.Envelope.Link.{is_completed}
use president_tech_award_e_s.Sealing.Completion.{
  StoredObject, Workspace, Phase, get_object, is_filled, has_time, resend_or_stamp, dated, load,
}
use president_tech_award_e_s.Sealing.Runs.{Worker}
use president_tech_award_e_s.Sealing.Follows.{Follows-refl, All-unique}
use president_tech_award_e_s.Sealing.Evidence.{
  Holds, Grows, Dated, has_signed_pdf, IsSound, IsPhase,
}

-- A row that is found is one of the rows.
found-any :
    (q p : SignatureRequest → Bool) (rows : List SignatureRequest) {r : SignatureRequest}
    → find_first q rows ≡ some r
    → p r ≡ true
    → any p rows ≡ true
found-any q p [] e h = cc
found-any q p (x ∷ xs) {r} e h = elim (Bool-cases (q x)) [
  | inl hit ↦ rw (ap p (some-injective x r (rw hit at e)) ∙ h) refl
  | inr miss ↦ let later = found-any q p xs {r = r} (rw miss at e) h in ground (arith, later)
]

pub any-All {κ} :
    (P : SignatureRequest → Type κ) (q p : SignatureRequest → Bool) (rows : List SignatureRequest)
    → ((r : SignatureRequest) → P r → q r ≡ true → p r ≡ true)
    → All P rows
    → any q rows ≡ true
    → any p rows ≡ true
any-All P q p [] step h found = cc
any-All P q p (x ∷ xs) step h found = elim (Bool-cases (q x)) [
  | inl hit ↦ rw (step x h.0 hit) refl
  | inr miss ↦ let later = any-All P q p xs step h.1 (rw miss at found) in ground (arith, later)
]

-- A lookup does not see an object that is added under another key.
pub put_other :
    (o : StoredObject) (k : Key) (objects : List StoredObject)
    → (o.key == k) ≡ false
    → get_object k (o ∷ objects) ≡ get_object k objects
unfolding get_object
put_other o k objects other = rw (get_object, other) refl

pub put_same :
    (o : StoredObject) (objects : List StoredObject) → get_object o.key (o ∷ objects) ≡ some o.body
unfolding get_object
put_same o objects = ground arith

pub put-Holds :
    (o : StoredObject) (objects : List StoredObject)
    → get_object o.key objects ≡ none
    → Holds objects (o ∷ objects)
put-Holds o objects new k body e = elim (Bool-cases (o.key == k)) [
  | inl same ↦
      let there : get_object k objects ≡ none = rw ((==_iff o.key k).0 same) at new in
      absurd (ground arith)
  | inr other ↦ put_other o k objects other ∙ e
]

pub Holds-trans : (a b c : List StoredObject) → Holds a b → Holds b c → Holds a c
Holds-trans a b c h k key body e = k key body (h key body e)

pub Grows-refl : (w : Workspace) → Grows w w
Grows-refl w = record { rows = Follows-refl _; objects = λ k b e. e }

module _ (worker : Worker) where
  -- The workspace and the run after a step.
  abbrev pub Goes : Workspace → Workspace × Phase → Type 0
  Goes w next = Grows w next.0 × IsSound worker next.0 × IsPhase worker next.0 next.1

  resend_or_stamp-IsPhase :
      (w : Workspace) (req : SignatureRequest) (at : Instant) (o c : Option Key)
      → req.signed_pdf_key ≡ o
      → find_first (has_id req.id) w.tables.requests ≡ some req
      → All (λ y. has_id req.id y ≡ true → y ≡ req) w.tables.requests
      → Dated req at w.tables.requests
      → IsPhase worker w (resend_or_stamp req at o c)
  resend_or_stamp-IsPhase w req at none c same found only when = when
  resend_or_stamp-IsPhase w req at (some k) none same found only when = when
  resend_or_stamp-IsPhase w req at (some k) (some c) same found only when =
      elim (Bool-cases (is_filled (some k) && is_filled (some c))) [
        | inl both ↦ rw both (
          found-any (has_id req.id) _ w.tables.requests found (rw same (ground arith)),
          All-map _ _ w.tables.requests (λ y here hit. ap has_signed_pdf (here hit) ∙ rw same refl)
              only,
        )
        | inr neither ↦ rw neither when
      ]

  dated-IsPhase :
      (w : Workspace) (req : SignatureRequest) (o : Option Instant)
      → IsSound worker w
      → req.completed_at ≡ o
      → find_first (has_id req.id) w.tables.requests ≡ some req
      → IsPhase worker w (dated req o)
  dated-IsPhase w req none sound same found = tt
  dated-IsPhase w req (some at) sound same found =
      let only = All-unique req.id w.tables.requests sound.unique found in
      resend_or_stamp-IsPhase w req at req.signed_pdf_key req.certificate_key refl found only (
        All-map _ _ w.tables.requests (λ y here hit. ap (λ r. r.completed_at) (here hit) ∙ same)
          only)

  pub load-IsPhase :
      (w : Workspace) (id : Key)
      → IsSound worker w
      → IsPhase worker w (load (find_request id w.tables))
  unfolding load
  load-IsPhase w id sound = elim (Option-cases (find_request id w.tables)) [
    | inl missing ↦ rw missing tt
    | inr (req, e) ↦
        let same = (==_iff req.id id).0 (find_first_holds (has_id id) w.tables.requests e) in
        elim (Bool-cases (is_filled req.signed_pdf_key && has_time req.completion_emailed_at)) [
          | inl done ↦ rw (e, load, done) tt
          | inr unsent ↦ elim (Bool-cases (is_completed req.status)) [
            | inl signed ↦
                rw (e, load, unsent, signed)
                  (dated-IsPhase w req req.completed_at sound refl
                    (subst (λ k. find_first (has_id k) w.tables.requests ≡ some req) (sym same) e))
            | inr unsigned ↦ rw (e, load, unsent, unsigned) tt
          ]
        ]
  ]
