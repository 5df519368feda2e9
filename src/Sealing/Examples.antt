-- ===== src/Sealing/Examples.antt =====
-- A workspace with one completed envelope, and two runs that seal it.
use mathlib.Core.List.{append-nil}
use president_tech_award_e_s.Prelude.{
  ◌≡◌, ◌≢◌, refl, ap, ◌∙◌, inl, true, none, some, [], ◌∷◌, ltb, if◌then◌else◌, length, count_where,
  All, arith,
}
use president_tech_award_e_s.Billing.Store.{Key, opt_eq}
use president_tech_award_e_s.Billing.Payme.Protocol.{Text}
use president_tech_award_e_s.Envelope.Store.{
  SignatureStatus, RecipientStatus, RecipientRole, RoutingMode, Recipient, SignatureRequest,
  find_request,
}
use president_tech_award_e_s.Sealing.Completion.{Workspace, Phase, get_object, load, passes_of}
use president_tech_award_e_s.Sealing.Runs.{
  Draw, IsFresh, Worker, Step, Reach, advance, mails_of, stamp_passes, stamp, stamp_source,
  draft_stamped, draft_sealed, store, claim_artifacts,
}
use president_tech_award_e_s.Sealing.Check.{max_verify_bytes, Verified, verify_request, by_hash}
use president_tech_award_e_s.Sealing.Follows.{recorded, blank}
use president_tech_award_e_s.Sealing.Evidence.{IsWorking, IsSound}
use president_tech_award_e_s.Sealing.Once.{IsPool, Reach-IsPool, sealed_once}
use president_tech_award_e_s.Sealing.Checked.{
  concat, valid_result, sealed-verifies, mailed-verifies,
}
use president_tech_award_e_s.Sealing.Alone.{Ends}
use president_tech_award_e_s.Sealing.Delivered.{IsDelivered, delivers_once}
use president_tech_award_e_s.Sealing.Finishes.{CanStamp, completes}
use president_tech_award_e_s.Sealing.Copies.{is_to}
use president_tech_award_e_s.Sealing.Ledger.{Moves, refines}
use president_tech_award_e_s.Sealing.Tests.{node, node-Signs, ring, service, service-build}

abbrev pub worker : Worker
worker = record {
  node = node;
  service = service;
  stamp_pdf = λ save pdf fields values png. some (save ∷ pdf);
  build_certificate = λ save input. save ∷ [];
  lower = λ e. e;
}

pub worker-IsWorking : IsWorking worker
worker-IsWorking = record {
  ring = ring;
  starts = service-build;
  signs = node-Signs;
  to_base64_filled = λ bytes. ground arith;
  sha256_filled = λ body. ground arith;
}

abbrev pub signer : Recipient
signer = record {
  id = 1;
  request_id = 5;
  email = 21;
  role = RecipientRole.signer;
  routing_order = 1;
  recipient_key = 1;
  status = RecipientStatus.completed;
  signing_token_hash = none;
  sent_at = some 50;
  viewed_at = some 60;
  completed_at = some 90;
  consent_at = some 80;
  last_reminded_at = none;
  reminder_count = 0;
  signature_image_key = some 8;
  field_values = [];
}

abbrev pub row : SignatureRequest
row = record {
  id = 5;
  document_id = 6;
  document_name = 7;
  fields = [];
  routing_mode = RoutingMode.parallel;
  recipient_email = 21;
  status = SignatureStatus.completed;
  signing_token_hash = none;
  sender_email = some 22;
  sent_at = 50;
  viewed_at = some 60;
  completed_at = some 90;
  voided_at = none;
  expires_at = 1000;
  consent_at = none;
  deleted_at = none;
  expired_notified_at = none;
  folder_id = none;
  signature_image_key = none;
  field_values = [];
  signed_pdf_key = none;
  certificate_key = none;
  document_hash = none;
  seal_signature = none;
  seal_kid = none;
  completion_emailed_at = none;
}

abbrev pub workspace : Workspace
workspace = record {
  tables = record { requests = row ∷ []; recipients = signer ∷ []; folders = [] };
  documents = record { id = 6; storage_key = 9 } ∷ [];
  objects = record { key = 9; body = 1 ∷ 2 ∷ [] } ∷ record { key = 8; body = 3 ∷ [] } ∷ [];
  outbox = [];
}

workspace-IsSound : IsSound worker workspace
workspace-IsSound = record {
  unique = (refl, tt);
  rows = (inl refl, tt);
  mailed = (λ h. absurd (ground arith), tt);
  mails = tt;
}

abbrev pub draw : Draw
draw = record { now = 100; signed_pdf_key = 30; certificate_key = 31; save = 4 }

workspace-CanStamp : CanStamp worker draw row workspace
unfolding get_object passes_of stamp_passes
workspace-CanStamp = record {
  doc = record { id = 6; storage_key = 9 };
  source = 1 ∷ 2 ∷ [];
  passes = record { fields = []; values = []; image_key = 8 } ∷ [];
  signed_pdf = 4 ∷ 1 ∷ 2 ∷ [];
  has_doc = refl;
  has_source = refl;
  has_passes = refl;
  draws = refl;
}

-- The run, as far as the claim.
abbrev loaded : Workspace × Phase
loaded = advance worker draw workspace (Phase.loading 5)

abbrev stamped : Workspace × Phase
stamped = advance worker draw loaded.0 loaded.1

abbrev stored : Workspace × Phase
stored = advance worker draw stamped.0 stamped.1

abbrev later_draw : Draw
later_draw = record draw { signed_pdf_key = 40; certificate_key = 41 }

abbrev claimed : Workspace × Phase
claimed = advance worker later_draw stored.0 stored.1

abbrev delivering : Workspace × Phase
delivering = advance worker later_draw claimed.0 claimed.1

abbrev mailed : Workspace × Phase
mailed = advance worker later_draw delivering.0 delivering.1

draw-IsFresh : (w : Workspace) → w.objects ≡ workspace.objects → IsFresh draw w
unfolding get_object
draw-IsFresh w same = record {
  signed_is_new = ap (get_object 30) same ∙ refl;
  certificate_is_new = ap (get_object 31) same ∙ refl;
  different = refl;
  signed_is_filled = refl;
  certificate_is_filled = refl;
}

later_draw-IsFresh : (w : Workspace) → w.objects ≡ stored.0.objects → IsFresh later_draw w
unfolding get_object advance stamp stamp_source draft_stamped draft_sealed store load passes_of
later_draw-IsFresh w same = record {
  signed_is_new = ap (get_object 40) same ∙ refl;
  certificate_is_new = ap (get_object 41) same ∙ refl;
  different = refl;
  signed_is_filled = refl;
  certificate_is_filled = refl;
}

claims : Reach worker workspace [] claimed.0 (claimed.1 ∷ [])
unfolding advance load stamp store
claims =
    Reach.after
      (Reach.after
        (Reach.after
          (Reach.after (Reach.after Reach.nothing_yet (Step.starts 5 workspace []))
            (Step.advances draw workspace (Phase.loading 5) [] (draw-IsFresh workspace refl)))
          (Step.advances draw loaded.0 loaded.1 [] (draw-IsFresh loaded.0 refl)))
        (Step.advances draw stamped.0 stamped.1 [] (draw-IsFresh stamped.0 refl)))
      (Step.advances later_draw stored.0 stored.1 [] (later_draw-IsFresh stored.0 refl))

mails : Reach worker workspace [] mailed.0 (mailed.1 ∷ [])
unfolding advance load stamp store claim_artifacts mails_of
mails =
    Reach.after
      (Reach.after claims
        (Step.advances later_draw claimed.0 claimed.1 [] (later_draw-IsFresh claimed.0 refl)))
      (Step.advances later_draw delivering.0 delivering.1 [] (later_draw-IsFresh delivering.0 refl))

workspace-IsPool : IsPool worker workspace []
workspace-IsPool = (workspace-IsSound, tt)

abbrev sealed_row : SignatureRequest
sealed_row = record row {
  signed_pdf_key = some 30;
  certificate_key = some 31;
  document_hash = some 4;
  seal_signature = some 33;
  seal_kid = some 1;
}

sealed_row-claimed : find_request 5 claimed.0.tables ≡ some sealed_row
unfolding advance load stamp store claim_artifacts
sealed_row-claimed = refl

sealed_row-mailed : find_request 5 mailed.0.tables ≡ some sealed_row
unfolding advance load stamp store claim_artifacts mails_of
sealed_row-mailed = refl

sealed_row-recorded : recorded sealed_row ≢ blank
sealed_row-recorded h = ground (arith, ap (λ s. s.document_hash) h)

next : Reach worker claimed.0 (claimed.1 ∷ []) delivering.0 (delivering.1 ∷ [])
unfolding advance load stamp store claim_artifacts
next =
    Reach.after Reach.nothing_yet
      (Step.advances later_draw claimed.0 claimed.1 [] (later_draw-IsFresh claimed.0 refl))

sealed_once_example :
    ((r' : SignatureRequest) × (find_request 5 delivering.0.tables ≡ some r')
      × (recorded r' ≡ recorded sealed_row))
    × ((k : Key) (body : Text)
        → get_object k claimed.0.objects ≡ some body
        → get_object k delivering.0.objects ≡ some body)
sealed_once_example =
    sealed_once worker worker-IsWorking 5
      (Reach-IsPool worker worker-IsWorking claims workspace-IsPool).1 next sealed_row-claimed
      sealed_row-recorded

whole_chunks : (body : Text) → concat (body ∷ []) ≡ body
whole_chunks body = append-nil body

sealed-verifies_example :
    (body : Text) × (opt_eq (some 4) (node.sha256 body) ≡ true)
    × (verify_request worker (λ b. b ∷ []) 5 mailed.0.tables mailed.0.objects ≡ (
        if ltb max_verify_bytes (length body)
        then Verified.too_large
        else Verified.answered (valid_result worker sealed_row)))
sealed-verifies_example =
    sealed-verifies worker (λ b. b ∷ []) whole_chunks worker-IsWorking 5 workspace-IsPool mails
      sealed_row-mailed sealed_row-recorded

mailed-verifies_example :
    All
      (λ m. (by_hash worker (node.sha256 m.signed_pdf) mailed.0.tables).verified ≡ true)
      mailed.0.outbox
mailed-verifies_example = mailed-verifies worker worker-IsWorking workspace-IsPool mails

refines_example : Moves 5 row mailed.0
refines_example = refines worker worker-IsWorking 5 mails workspace-IsPool refl

completes_example :
    (w' : Workspace) × Ends worker draw workspace (Phase.loading 5) w'
    × IsDelivered worker 5 row workspace w'
completes_example =
    completes worker draw 5 workspace worker-IsWorking workspace-IsSound
      (draw-IsFresh workspace refl) refl refl refl workspace-CanStamp

delivers_once_example :
    (w' : Workspace) × Ends worker draw workspace (Phase.delivering row [] []) w'
    × (count_where (is_to worker 21) w'.outbox ≡ 1)
delivers_once_example = delivers_once worker draw row [] [] workspace 21
