-- ===== src/Sealing/Ledger.antt =====
-- What the pipeline promises of one envelope, without tables, objects or runs: it is sealed once, and
-- delivered once after that.
use mathlib.Core.Path.{subst}
use president_tech_award_e_s.Prelude.{
  ◌≡◌, refl, sym, ap, ◌∙◌, inl, inr, true, false, none, some, List, [], ◌∷◌, ◌==◌, if◌then◌else◌,
  find_first, find_first-update_where, update_where, count_where, All-find_first, apply_if, arith,
  Bool-cases, Option-cases, Option,
}
use president_tech_award_e_s.Calendar.{Instant}
use president_tech_award_e_s.Billing.Store.{Key}
use president_tech_award_e_s.Envelope.Store.{SignatureRequest, has_id, find_request}
use president_tech_award_e_s.Sealing.Completion.{
  Workspace, Artifacts, Phase, has_time, is_unrecorded, record_artifacts, is_unmailed, mark_mailed,
}
use president_tech_award_e_s.Sealing.Runs.{
  Draw, Worker, claim_artifacts, store, advance, Step, Reach,
}
use president_tech_award_e_s.Sealing.Follows.{Spared, Spares-find, Recorded, recorded}
use president_tech_award_e_s.Sealing.Evidence.{IsWorking, IsSound, IsPhase, has_signed_pdf}
use president_tech_award_e_s.Sealing.Once.{IsPool, Reach-IsPool}

pub data Entry : Type 0 where
  unsealed : Entry
  sealed delivered : Recorded → Entry

-- The abstract view of a row.
unfoldable pub entry_of : SignatureRequest → Entry
entry_of r = elim r.signed_pdf_key [
  | none ↦ Entry.unsealed
  | some _ ↦
      if has_time r.completion_emailed_at
      then Entry.delivered (recorded r)
      else Entry.sealed (recorded r)
]

-- The abstract machine.
pub data Turn : Entry → Entry → Type 0 where
  seals : (c : Recorded) → Turn Entry.unsealed (Entry.sealed c)
  delivers : (c : Recorded) → Turn (Entry.sealed c) (Entry.delivered c)

pub data Turns (e : Entry) : Entry → Type 0 where
  stays : Turns e e
  turns : {e' e'' : Entry} → Turns e e' → Turn e' e'' → Turns e e''

Turns-trans : (a : Entry) {b c : Entry} → Turns a b → Turns b c → Turns a c
Turns-trans a h Turns.stays = h
Turns-trans a h (Turns.turns t s) = Turns.turns (Turns-trans a h t) s

turned : {e e' f f' : Entry} → e ≡ f → e' ≡ f' → Turn f f' → Turns e e'
turned {e} {e'} {f} {f'} before after t =
    subst (λ x. Turns x e') (sym before)
      (subst (λ y. Turns f y) (sym after) (Turns.turns Turns.stays t))

claimed-Turns :
    (a : Artifacts) (id : Key) (r : SignatureRequest)
    → (has_time r.completion_emailed_at ≡ true → has_signed_pdf r ≡ true)
    → Turns (entry_of r) (entry_of (apply_if (is_unrecorded id) (record_artifacts a) r))
unfolding entry_of
claimed-Turns a id r mailed = elim (Bool-cases (is_unrecorded id r)) [
  | inr taken ↦ rw taken Turns.stays
  | inl free ↦ elim (Option-cases r.signed_pdf_key) [
    | inr (k, e) ↦ absurd (ground arith)
    | inl e ↦ elim (Bool-cases (has_time r.completion_emailed_at)) [
      | inl old ↦ absurd (ground (arith, mailed))
      | inr new ↦
          let made : apply_if (is_unrecorded id) (record_artifacts a) r ≡ record_artifacts a r =
            rw free refl in
          let before : entry_of r ≡ Entry.unsealed = rw (entry_of, e) refl in
          let after : entry_of (record_artifacts a r)
              ≡ Entry.sealed (recorded (record_artifacts a r)) =
            rw (entry_of, new) refl in
          turned before (ap entry_of made ∙ after) (Turn.seals (recorded (record_artifacts a r)))
    ]
  ]
]

entry-sealed :
    (r : SignatureRequest) {k : Key}
    → r.signed_pdf_key ≡ some k
    → has_time r.completion_emailed_at ≡ false
    → entry_of r ≡ Entry.sealed (recorded r)
unfolding entry_of
entry-sealed r e new = ground (arith, e, new)

entry-delivered :
    (now : Instant) (r : SignatureRequest) {k : Key}
    → r.signed_pdf_key ≡ some k
    → entry_of (mark_mailed now r) ≡ Entry.delivered (recorded r)
unfolding entry_of
entry-delivered now r e = ground (arith, e)

marked-Turns :
    (now : Instant) (id : Key) (r : SignatureRequest)
    → (has_id id r ≡ true → has_signed_pdf r ≡ true)
    → Turns (entry_of r) (entry_of (apply_if (is_unmailed id) (mark_mailed now) r))
unfolding entry_of
marked-Turns now id r claimed = elim (Bool-cases (is_unmailed id r)) [
  | inr taken ↦ rw taken Turns.stays
  | inl free ↦ elim (Option-cases r.signed_pdf_key) [
    | inl e ↦ absurd (ground (arith, claimed))
    | inr (k, e) ↦
        let new : has_time r.completion_emailed_at ≡ false = ground arith in
        let made : apply_if (is_unmailed id) (mark_mailed now) r ≡ mark_mailed now r =
          rw free refl in
        let before : entry_of r ≡ Entry.sealed (recorded r) = entry-sealed r e new in
        let after : entry_of (mark_mailed now r) ≡ Entry.delivered (recorded r) =
          entry-delivered now r e in
        turned before (ap entry_of made ∙ after) (Turn.delivers (recorded r))
  ]
]

abbrev entry : Recorded → Option Instant → Entry
entry c marked = elim c.signed_pdf_key [
  | none ↦ Entry.unsealed
  | some _ ↦ if has_time marked then Entry.delivered c else Entry.sealed c
]

entry_of-Spared : (x y : SignatureRequest) → Spared x y → entry_of y ≡ entry_of x
unfolding entry_of
entry_of-Spared x y (i, c, same, mark) =
    ap (λ s. entry s y.completion_emailed_at) same ∙ ap (entry (recorded x)) mark

-- One envelope before and after.
abbrev pub Moves : Key → SignatureRequest → Workspace → Type 0
Moves id r w' =
    (r' : SignatureRequest) × (find_request id w'.tables ≡ some r')
    × Turns (entry_of r) (entry_of r')

module _ (worker : Worker) where
  claim-Moves :
      (id : Key) (w : Workspace) (q : SignatureRequest) (a : Artifacts) {r : SignatureRequest}
      → IsSound worker w
      → find_request id w.tables ≡ some r
      → Moves id r (claim_artifacts worker q a w).0
  unfolding claim_artifacts
  claim-Moves id w q a {r} sound found =
      let rows = w.tables.requests in
      let x = apply_if (is_unrecorded q.id) (record_artifacts a) r in
      let here : find_first (has_id id)
            (update_where (is_unrecorded q.id) (record_artifacts a) rows)
          ≡ some x =
        find_first-update_where (has_id id) (is_unrecorded q.id) (record_artifacts a) rows
          (λ _. refl)
        ∙ rw found refl in
      let moves : Turns (entry_of r) (entry_of x) = claimed-Turns a q.id r (
        All-find_first (λ y. has_time y.completion_emailed_at ≡ true → has_signed_pdf y ≡ true)
          (has_id id) rows sound.mailed found) in
      elim (Bool-cases (count_where (is_unrecorded q.id) rows == 1)) [
        | inl won ↦ rw (claim_artifacts, won) (x, here, moves)
        | inr lost ↦ rw (claim_artifacts, lost) (x, here, moves)
      ]

  advance-Moves :
      (d : Draw) (id : Key) (w : Workspace) (p : Phase) {r : SignatureRequest}
      → IsSound worker w
      → IsPhase worker w p
      → find_request id w.tables ≡ some r
      → Moves id r (advance worker d w p).0
  unfolding advance store
  advance-Moves d id w (Phase.loading q) sound h found = (_, found, Turns.stays)
  advance-Moves d id w (Phase.resending q s c) sound h found = (_, found, Turns.stays)
  advance-Moves d id w (Phase.stamping q at) sound h found = (_, found, Turns.stays)
  advance-Moves d id w (Phase.storing q draft) sound h found = (_, found, Turns.stays)
  advance-Moves d id w (Phase.claiming q a) sound h found = claim-Moves id w q a sound found
  advance-Moves d id w (Phase.delivering q s c) sound h found = (_, found, Turns.stays)
  advance-Moves d id w (Phase.mailing q []) {r} sound h found = (
    apply_if (is_unmailed q.id) (mark_mailed d.now) r,
    find_first-update_where (has_id id) (is_unmailed q.id) (mark_mailed d.now) w.tables.requests
          (λ _. refl)
        ∙ rw found refl,
    marked-Turns d.now q.id r (
        All-find_first (λ y. has_id q.id y ≡ true → has_signed_pdf y ≡ true) (has_id id)
          w.tables.requests h.1 found),
  )
  advance-Moves d id w (Phase.mailing q (m ∷ ms)) sound h found = (_, found, Turns.stays)
  advance-Moves d id w Phase.finished sound h found = (_, found, Turns.stays)
  advance-Moves d id w (Phase.failed e) sound h found = (_, found, Turns.stays)

  Step-Moves :
      (id : Key) {w w' : Workspace} {ps ps' : List Phase} {r : SignatureRequest}
      → Step worker w ps w' ps'
      → IsPool worker w ps
      → find_request id w.tables ≡ some r
      → Moves id r w'
  Step-Moves id (Step.starts q w ps) pool found = (_, found, Turns.stays)
  Step-Moves id (Step.advances d w p ps fresh) (sound, h) found =
      advance-Moves d id w p sound h.0 found
  Step-Moves id (Step.dies w p ps) pool found = (_, found, Turns.stays)
  Step-Moves id {r} (Step.others w ps db spares) pool found =
      let (y, found', spared) = Spares-find id w.tables.requests db.requests spares found in
      (y, found', subst (λ e. Turns (entry_of r) e) (sym (entry_of-Spared r y spared)) Turns.stays)
  Step-Moves id (Step.another p s) (sound, h) found = Step-Moves id s (sound, h.1) found

  -- The pipeline refines the ledger: from a sound workspace, whatever runs there are, with their
  -- retries, duplicates and deaths, and other handlers between their steps, each envelope goes from
  -- unsealed to sealed, with artifacts that stay the same, and from sealed to delivered, and no other
  -- way.
  pub refines :
      IsWorking worker
      → (id : Key) {w : Workspace} {ps : List Phase} {w' : Workspace} {ps' : List Phase}
        {r : SignatureRequest}
      → Reach worker w ps w' ps'
      → IsPool worker w ps
      → find_request id w.tables ≡ some r
      → Moves id r w'
  refines works id {r} Reach.nothing_yet pool found = (r, found, Turns.stays)
  refines works id {r} (Reach.after reach s) pool found =
      let (r', found', before) = refines works id reach pool found in
      let (grows, pool') = Reach-IsPool worker works reach pool in
      let (r'', found'', later) = Step-Moves id s pool' found' in
      (r'', found'', Turns-trans (entry_of r) before later)
