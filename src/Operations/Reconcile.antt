-- ===== src/Operations/Reconcile.antt =====
-- The sweep that takes up signed envelopes that were not sealed or delivered: `reconcile` of
-- apps/api/src/worker.ts. The two sweeps of the lifecycle that follow it are those of Envelope/Sweeps.
use president_tech_award_e_s.Prelude.{
  ℕ, ◌+◌, ◌≡◌, refl, ap, ◌∙◌, inl, inr, Bool, true, false, Option, none, some, List, [], ◌∷◌,
  if◌then◌else◌, Bool-cases,
}
use president_tech_award_e_s.Calendar.{Instant}
use president_tech_award_e_s.Billing.Store.{Key}
use president_tech_award_e_s.Sealing.Completion.{Workspace, Phase}
use president_tech_award_e_s.Sealing.Runs.{Draw, Worker, run}
use president_tech_award_e_s.Operations.Alerts.{
  Entry, alert_cooldown_ms, raise, clear, fail, succeed,
}

abbrev pub alert_after_failures : ℕ
alert_after_failures = 5

-- The worker's memory beside the workspace; `alerted` holds the keys of the alerts that were mailed.
pub record Watch : Type 0 where
  pub workspace : Workspace
  pub sealing_failures : List Entry
  pub sweep_failures : List Entry
  pub last_sent : List Entry
  pub alerted : List Key

-- The texts `sweep:reconcile` and `seal:…`, as numbers.
abbrev pub sweep_alert : Key
sweep_alert = 1

abbrev pub seal_alert : Key → Key
seal_alert id = 2 + id

abbrev pub is_finished : Phase → Bool
is_finished Phase.finished = true
is_finished _ = false

abbrev pub note_sent : Key → Bool → List Key → List Key
note_sent k sent alerted = if sent then k ∷ alerted else alerted

-- The address for alerts, the clock, and whether the mail provider takes a mail; each envelope's run
-- has its draw, and the steps that a run may take.
module _ (worker : Worker) (to : Option Key) (now : Instant) (accepted : Bool)
    (draw_for : Key → Draw) (steps : ℕ) where
  -- `completeSignature`, as whether it returned.
  unfoldable pub attempt : Key → Workspace → Bool × Workspace
  unfolding run
  attempt id w =
      let ended = run worker (draw_for id) steps w (Phase.loading id) in
      (is_finished ended.1, ended.0)

  abbrev pub send_alert : Key → Watch → Watch
  send_alert k watch =
      let (sent, last_sent) = raise alert_cooldown_ms to now accepted k watch.last_sent in
      record watch { last_sent = last_sent; alerted = note_sent k sent watch.alerted }

  abbrev pub note_failure : Key → Watch → Watch
  note_failure id watch =
      let (due, failures) = fail alert_after_failures id watch.sealing_failures in
      let counted = record watch { sealing_failures = failures } in
      if due then send_alert (seal_alert id) counted else counted

  abbrev pub note_success : Key → Watch → Watch
  note_success id watch = record watch {
    sealing_failures = succeed id watch.sealing_failures;
    last_sent = clear (seal_alert id) watch.last_sent;
  }

  unfoldable pub reconcile_one : Key → Watch → Watch
  unfolding attempt raise fail succeed clear
  reconcile_one id watch =
      let (ok, w) = attempt id watch.workspace in
      let tried = record watch { workspace = w } in
      if ok then note_success id tried else note_failure id tried

  unfoldable pub reconcile_each : List Key → Watch → Watch
  unfolding reconcile_one
  reconcile_each [] watch = watch
  reconcile_each (id ∷ ids) watch = reconcile_each ids (reconcile_one id watch)

  abbrev pub note_sweep_failure : Watch → Watch
  note_sweep_failure watch =
      let (due, failures) = fail alert_after_failures sweep_alert watch.sweep_failures in
      let counted = record watch { sweep_failures = failures } in
      if due then send_alert sweep_alert counted else counted

  abbrev pub note_sweep_success : Watch → Watch
  note_sweep_success watch = record watch {
    sweep_failures = succeed sweep_alert watch.sweep_failures;
  }

  -- One sweep; `none` is a database that cannot be asked.
  unfoldable pub reconcile : Option (List Key) → Watch → Watch
  unfolding reconcile_each
  reconcile none watch = note_sweep_failure watch
  reconcile (some stranded) watch = note_sweep_success (reconcile_each stranded watch)

  -- The attempts alone, one after the other.
  abbrev pub attempts : List Key → Workspace → Workspace
  attempts [] w = w
  attempts (id ∷ ids) w = attempts ids (attempt id w).1

  send_alert-workspace :
      (k : Key) (watch : Watch) → (send_alert k watch).workspace ≡ watch.workspace
  send_alert-workspace k watch = refl

  note_failure-workspace :
      (id : Key) (watch : Watch) → (note_failure id watch).workspace ≡ watch.workspace
  note_failure-workspace id watch =
      elim (Bool-cases (fail alert_after_failures id watch.sealing_failures).0) [
        | inl due ↦ rw due refl
        | inr early ↦ rw early refl
      ]

  reconcile_one-workspace :
      (id : Key) (watch : Watch)
      → (reconcile_one id watch).workspace ≡ (attempt id watch.workspace).1
  unfolding reconcile_one
  reconcile_one-workspace id watch = elim (Bool-cases (attempt id watch.workspace).0) [
    | inl ok ↦ rw (reconcile_one, ok) refl
    | inr failed ↦ rw (reconcile_one, failed) (note_failure-workspace id _)
  ]

  -- Every stranded envelope is attempted, in order, whichever of the attempts fail and whether the
  -- alerts about them can be sent or not: a sweep does to the workspace what the attempts do.
  pub reconcile-attempts :
      (stranded : List Key) (watch : Watch)
      → (reconcile (some stranded) watch).workspace ≡ attempts stranded watch.workspace
  unfolding reconcile reconcile_each
  reconcile-attempts [] watch = refl
  reconcile-attempts (id ∷ ids) watch =
      reconcile-attempts ids (reconcile_one id watch)
      ∙ ap (attempts ids) (reconcile_one-workspace id watch)
