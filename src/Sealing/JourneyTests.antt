-- ===== src/Sealing/JourneyTests.antt =====
-- The same envelope, one signature earlier.
use mathlib.Core.Path.{subst}
use mathlib.Core.Option.{some-injective}
use president_tech_award_e_s.Prelude.{◌≡◌, refl, inl, true, none, some, [], ◌∷◌, All, arith}
use president_tech_award_e_s.Envelope.Fields.{resolve_field_values}
use president_tech_award_e_s.Envelope.Store.{
  SignatureStatus, RecipientStatus, Recipient, SignatureRequest, Tables, find_request,
  resolve_token,
}
use president_tech_award_e_s.Envelope.Link.{load_for_token, load_row}
use president_tech_award_e_s.Envelope.Submit.{Submitted, claim, submit_loaded, submit}
use president_tech_award_e_s.Envelope.Routing.{advance_envelope}
use president_tech_award_e_s.Sealing.Completion.{Workspace, Phase, get_object, passes_of}
use president_tech_award_e_s.Sealing.Runs.{IsFresh, stamp_passes}
use president_tech_award_e_s.Sealing.Evidence.{IsSound}
use president_tech_award_e_s.Sealing.Alone.{Ends}
use president_tech_award_e_s.Sealing.Delivered.{IsDelivered}
use president_tech_award_e_s.Sealing.Finishes.{CanStamp}
use president_tech_award_e_s.Sealing.Journey.{IsLiveBlank, submit-completes}
use president_tech_award_e_s.Sealing.Examples.{
  worker, worker-IsWorking, signer, row, workspace, draw,
}

abbrev live_row : SignatureRequest
live_row = record row { status = SignatureStatus.viewed; completed_at = none }

abbrev live_signer : Recipient
live_signer = record signer {
  status = RecipientStatus.viewed;
  signing_token_hash = some 70;
  completed_at = none;
  signature_image_key = none;
}

abbrev live_workspace : Workspace
live_workspace = record workspace {
  tables = record { requests = live_row ∷ []; recipients = live_signer ∷ []; folders = [] };
}

abbrev signed_tables : Tables
signed_tables = record {
  requests = record live_row { status = SignatureStatus.completed; completed_at = some 90 } ∷ [];
  recipients =
      record live_signer {
        status = RecipientStatus.completed;
        completed_at = some 90;
        signature_image_key = some 8;
      }
      ∷ [];
  folders = [];
}

live_workspace-IsSound : IsSound worker live_workspace
live_workspace-IsSound = record {
  unique = (refl, tt);
  rows = (inl refl, tt);
  mailed = (λ h. absurd (ground arith), tt);
  mails = tt;
}

live_workspace-IsLiveBlank : All IsLiveBlank live_workspace.tables.requests
live_workspace-IsLiveBlank = (λ _. refl, tt)

submits :
    submit
      (λ _ _. true)
      (λ s. s)
      (λ _. [])
      (λ k. k)
      (λ k. k)
      70
      (λ _. none)
      (some 8)
      90
      live_workspace.tables
    ≡ (Submitted.finished 5, signed_tables)
unfolding submit submit_loaded load_for_token load_row resolve_token claim advance_envelope
    resolve_field_values
submits = refl

stamps :
    (x : SignatureRequest)
    → find_request 5 signed_tables ≡ some x
    → CanStamp worker draw x (record live_workspace { tables = signed_tables })
unfolding get_object passes_of stamp_passes
stamps x found =
    subst (λ y. CanStamp worker draw y (record live_workspace { tables = signed_tables }))
      (some-injective _ _ found)
      (record {
        doc = record { id = 6; storage_key = 9 };
        source = 1 ∷ 2 ∷ [];
        passes = record { fields = []; values = []; image_key = 8 } ∷ [];
        signed_pdf = 4 ∷ 1 ∷ 2 ∷ [];
        has_doc = refl;
        has_source = refl;
        has_passes = refl;
        draws = refl;
      })

draw-IsNew : IsFresh draw (record live_workspace { tables = signed_tables })
unfolding get_object
draw-IsNew = record {
  signed_is_new = refl;
  certificate_is_new = refl;
  different = refl;
  signed_is_filled = refl;
  certificate_is_filled = refl;
}

submit-completes_example :
    (x : SignatureRequest) × (w' : Workspace) × (find_request 5 signed_tables ≡ some x)
    × Ends worker draw (record live_workspace { tables = signed_tables }) (Phase.loading 5) w'
    × IsDelivered worker 5 x (record live_workspace { tables = signed_tables }) w'
submit-completes_example =
    submit-completes (λ _ _. true) (λ s. s) (λ _. []) (λ k. k) (λ k. k) worker draw 70 (λ _. none)
      (some 8) 90 live_workspace worker-IsWorking live_workspace-IsSound draw-IsNew
      live_workspace-IsLiveBlank refl refl submits stamps
