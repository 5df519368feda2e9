-- ===== src/Sealing/Once.antt =====
-- What any number of runs do to a sound workspace, in whatever order their steps come and wherever
-- they die: apps/api/src/modules/signing/completion.ts.
use president_tech_award_e_s.Prelude.{
  ◌≡◌, ◌≢◌, inl, inr, some, List, All, All-map, true, false, sym, ap, ◌∙◌, none,
}
use president_tech_award_e_s.Billing.Store.{Key}
use president_tech_award_e_s.Billing.Payme.Protocol.{Text}
use president_tech_award_e_s.Envelope.Store.{Tables, SignatureRequest, find_request}
use president_tech_award_e_s.Sealing.Completion.{has_time, Workspace, Phase, get_object}
use president_tech_award_e_s.Sealing.Runs.{Worker, Step, Reach}
use president_tech_award_e_s.Sealing.Follows.{
  Spares, Spares-Follows, Spares-All, HasUniqueKeys-Follows, recorded, blank, Follows-trans,
  Follows-find,
}
use president_tech_award_e_s.Sealing.Evidence.{
  has_signed_pdf, IsRow, IsRow-Spared, IsOnRecord-Follows, IsWorking, Grows, IsSound, IsPhase,
  IsPhase-Grows,
}
use president_tech_award_e_s.Sealing.Steps.{Holds-trans, Grows-refl}
use president_tech_award_e_s.Sealing.Preserved.{advance-Goes}

pub Grows-trans : (a b c : Workspace) → Grows a b → Grows b c → Grows a c
Grows-trans a b c h k = record {
  rows = Follows-trans _ _ _ h.rows k.rows;
  objects = Holds-trans _ _ _ h.objects k.objects;
}

-- The workspace and all the runs.
abbrev pub IsPool : Worker → Workspace → List Phase → Type 0
IsPool worker w ps = IsSound worker w × All (IsPhase worker w) ps

-- What other handlers do keeps the workspace sound.
others-IsSound :
    (worker : Worker) (w : Workspace) (db : Tables)
    → Spares w.tables.requests db.requests
    → IsSound worker w
    → Grows w (record w { tables = db }) × IsSound worker (record w { tables = db })
others-IsSound worker w db spares sound =
    let follows = Spares-Follows w.tables.requests db.requests spares in
    (
      record { rows = follows; objects = λ k b e. e },
      record {
        unique = HasUniqueKeys-Follows w.tables.requests db.requests follows sound.unique;
        rows =
            Spares-All (IsRow worker w.objects) (IsRow worker w.objects) w.tables.requests
              db.requests (IsRow-Spared worker w.objects) spares sound.rows;
        mailed =
            Spares-All (λ x. has_time x.completion_emailed_at ≡ true → has_signed_pdf x ≡ true)
              (λ y. has_time y.completion_emailed_at ≡ true → has_signed_pdf y ≡ true)
              w.tables.requests db.requests
              (λ x y old (i, c, same, mark) marked.
                ap (λ s. elim s.signed_pdf_key [ none ↦ false | some _ ↦ true ]) same
                ∙ old (ap has_time (sym mark) ∙ marked))
              spares sound.mailed;
        mails =
            All-map _ _ w.outbox
              (λ m. IsOnRecord-Follows worker w.tables.requests db.requests m.signed_pdf follows)
              sound.mails;
      },
    )

pub Step-IsPool :
    (worker : Worker)
    → IsWorking worker
    → {w w' : Workspace} {ps ps' : List Phase} → Step worker w ps w' ps'
    → IsPool worker w ps
    → Grows w w' × IsPool worker w' ps'
Step-IsPool worker works (Step.starts id w ps) (sound, h) = (Grows-refl w, (sound, (tt, h)))
Step-IsPool worker works (Step.advances d w p ps fresh) (sound, h) =
    let (grows, sound', h') = advance-Goes worker d w p works fresh sound h.0 in
    (grows, (sound', (h', All-map _ _ ps (λ q. IsPhase-Grows worker w _ q grows) h.1)))
Step-IsPool worker works (Step.dies w p ps) (sound, h) = (Grows-refl w, (sound, (tt, h.1)))
Step-IsPool worker works (Step.others w ps db spares) (sound, h) =
    let (grows, sound') = others-IsSound worker w db spares sound in
    (
      grows,
      (sound', All-map _ _ ps (λ q. IsPhase-Grows worker w (record w { tables = db }) q grows) h),
    )
Step-IsPool worker works (Step.another {w} {w'} p s) (sound, h) =
    let (grows, (sound', h')) = Step-IsPool worker works s (sound, h.1) in
    (grows, (sound', (IsPhase-Grows worker w w' p grows h.0, h')))

pub Reach-IsPool :
    (worker : Worker)
    → IsWorking worker
    → {w : Workspace} {ps : List Phase} {w' : Workspace} {ps' : List Phase}
    → Reach worker w ps w' ps'
    → IsPool worker w ps
    → Grows w w' × IsPool worker w' ps'
Reach-IsPool worker works Reach.nothing_yet h = (Grows-refl _, h)
Reach-IsPool worker works (Reach.after r s) h =
    let (g, h') = Reach-IsPool worker works r h in
    let (g', h'') = Step-IsPool worker works s h' in (Grows-trans _ _ _ g g', h'')

-- In a sound workspace, with runs that are right about it, once an envelope has its artifacts they stay
-- as they are: whatever steps follow, in whatever order, duplicates, retries and other handlers
-- included, the row keeps its keys, its hash and its seal, and every object keeps its bytes.
pub sealed_once :
    (worker : Worker)
    → IsWorking worker
    → (id : Key) {w w' : Workspace} {ps ps' : List Phase} {r : SignatureRequest}
    → IsPool worker w ps
    → Reach worker w ps w' ps'
    → find_request id w.tables ≡ some r
    → recorded r ≢ blank
    → ((r' : SignatureRequest) × (find_request id w'.tables ≡ some r') × (recorded r' ≡ recorded r))
      × ((k : Key) (body : Text)
          → get_object k w.objects ≡ some body
          → get_object k w'.objects ≡ some body)
sealed_once worker works id {w} {w'} pool reach found sealed =
    let (grows, pool') = Reach-IsPool worker works reach pool in
    let (r', found', (i, c, kept)) = Follows-find id _ _ grows.rows found in
    (
      (r', found', elim kept [ inl none_yet ↦ absurd (sealed none_yet) | inr same ↦ same ]),
      grows.objects,
    )
