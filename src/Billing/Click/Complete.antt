-- ===== src/Billing/Click/Complete.antt =====
-- What `complete` of apps/api/src/modules/billing/click.service.ts grants, and how often.
use mathlib.Core.Path.{subst}
use president_tech_award_e_s.Prelude.{
  ℕ, ◌≡◌, refl, ◌∙◌, ap, inl, inr, Bool, true, false, not, Option, none, some, arith, if◌then◌else◌,
  Bool-cases, Option-cases,
}
use president_tech_award_e_s.Prelude.Int.{ℤ, is_negative}
use president_tech_award_e_s.Calendar.{Instant}
use president_tech_award_e_s.Billing.Period.{sum_from_tiyin}
use president_tech_award_e_s.Billing.Store.{
  Key, PaymentProvider, PaymentStatus, Payment, Db, is_pending,
}
use president_tech_award_e_s.Billing.Service.{find, activate, cancel}
use president_tech_award_e_s.Billing.Payme.Protocol.{Text, text_eq, is_empty}
use president_tech_award_e_s.Billing.Payme.Request.{Found, resolve}
use president_tech_award_e_s.Billing.Click.Protocol.{
  ClickError, ClickAction, action_code, int_eq, ClickCallback, Platform, click_signature,
  click_signature_valid, click_amount_matches, is_quoted,
}
use president_tech_award_e_s.Billing.Click.Methods.{
  ClickResult, fail, answer, close_order, Settings, Guard, Answer, check_amount, check_tenant,
  check_callback, check_settings, check_verified, guarded, settle_answer, complete_by_status,
  complete_quoted, complete_for,
}

-- What `verified` has established of a callback and the payment that it names.
pub record Verified (node : Platform) (settings : Settings) (body : ClickCallback)
    (action : ClickAction) (db : Db) (tenant : Key) (p : Payment) : Type 0 where
  pub secret : Text
  pub configured : settings.secret_key ≡ some secret
  pub right_action : int_eq body.action (action_code action) ≡ true
  pub signed : click_signature_valid node body.sign_string (click_signature node secret body) ≡ true
  pub resolved : resolve (node.key body.merchant_trans_id) db ≡ some tenant
  pub is_found : find tenant (node.key body.merchant_trans_id) PaymentProvider.click db ≡ some p
  pub priced :
      (sum : ℕ) × (sum_from_tiyin p.amount_tiyin ≡ some sum)
      × (click_amount_matches node body.amount sum ≡ true)

amount_verified :
    (node : Platform) (body : ClickCallback) (t : Key) (q : Payment) {tenant : Key} {p : Payment}
    → check_amount node body t q ≡ some (Guard.verified (tenant, p))
    → (t ≡ tenant)
      × (q ≡ p)
      × ((sum : ℕ) × (sum_from_tiyin q.amount_tiyin ≡ some sum)
          × (click_amount_matches node body.amount sum ≡ true))
unfolding check_amount
amount_verified node body t q {tenant} {p} h = elim (Option-cases (sum_from_tiyin q.amount_tiyin)) [
  | inl odd ↦ absurd (ground arith)
  | inr (sum, e) ↦ elim (Bool-cases (click_amount_matches node body.amount sum)) [
    | inl exact ↦ (ground arith, ground arith, (sum, e, exact))
    | inr wrong ↦ absurd (ground arith)
  ]
]

tenant_verified :
    (node : Platform) (body : ClickCallback) (db : Db) (o : Option Key) {tenant : Key} {p : Payment}
    → check_tenant node body db o ≡ some (Guard.verified (tenant, p))
    → (o ≡ some tenant)
      × (find tenant (node.key body.merchant_trans_id) PaymentProvider.click db ≡ some p)
      × ((sum : ℕ) × (sum_from_tiyin p.amount_tiyin ≡ some sum)
          × (click_amount_matches node body.amount sum ≡ true))
tenant_verified node body db none h = cc
tenant_verified node body db (some t) {tenant} {p} h =
    elim (Option-cases (find t (node.key body.merchant_trans_id) PaymentProvider.click db)) [
      | inl missing ↦ absurd (ground arith)
      | inr (q, e) ↦
          let (same, same_p, priced) = amount_verified node body t q (rw e at h) in
          (
            ap some same,
            subst (λ k. find k (node.key body.merchant_trans_id) PaymentProvider.click db ≡ some p)
                same (e ∙ ap some same_p),
            subst
                (λ x.
                  (sum : ℕ) × (sum_from_tiyin x.amount_tiyin ≡ some sum)
                  × (click_amount_matches node body.amount sum ≡ true))
                same_p priced,
          )
    ]

pub passed :
    (b : Bool) (e : ClickError) (rest : Option Guard) {found : Found}
    → (if b then some (Guard.rejected e) else rest) ≡ some (Guard.verified found)
    → (b ≡ false) × (rest ≡ some (Guard.verified found))
passed true e rest h = cc
passed false e rest h = (refl, h)

not-false : (b : Bool) → not b ≡ false → b ≡ true
not-false true h = refl
not-false false h = cc

callback_verified :
    (node : Platform) (secret service : Text) (body : ClickCallback) (action : ClickAction)
    (db : Db) {found : Found}
    → check_callback node secret service body action db ≡ some (Guard.verified found)
    → (int_eq body.action (action_code action) ≡ true)
      × (click_signature_valid node body.sign_string (click_signature node secret body) ≡ true)
      × (check_tenant node body db (resolve (node.key body.merchant_trans_id) db)
          ≡ some (Guard.verified found))
unfolding check_callback
callback_verified node secret service body action db h =
    let rest = check_tenant node body db (resolve (node.key body.merchant_trans_id) db) in
    let valid = click_signature_valid node body.sign_string (click_signature node secret body) in
    let signed_rest =
      if not valid then some (Guard.rejected ClickError.sign_check_failed) else rest in
    let (a, h1) =
      passed (not (int_eq body.action (action_code action))) ClickError.action_not_found
        (if not (text_eq body.service_id service)
          then some (Guard.rejected ClickError.bad_request)
          else signed_rest)
        h in
    let (_, h2) =
      passed (not (text_eq body.service_id service)) ClickError.bad_request signed_rest h1 in
    let (c, h3) = passed (not valid) ClickError.sign_check_failed rest h2 in
    (not-false _ a, not-false _ c, h3)

settings_verified :
    (node : Platform) (k s : Option Text) (body : ClickCallback) (action : ClickAction) (db : Db)
    {found : Found}
    → check_settings node k s body action db ≡ some (Guard.verified found)
    → (secret : Text) × (service : Text) × (k ≡ some secret)
      × (check_callback node secret service body action db ≡ some (Guard.verified found))
settings_verified node none s body action db h = cc
settings_verified node (some secret) none body action db h = cc
settings_verified node (some secret) (some service) body action db h =
    let rest = check_callback node secret service body action db in
    let (_, h1) =
      passed (is_empty secret) ClickError.bad_request
        (if is_empty service then some (Guard.rejected ClickError.bad_request) else rest) h in
    let (_, h2) = passed (is_empty service) ClickError.bad_request rest h1 in
    (secret, service, refl, h2)

-- `verified` establishes what it is for.
pub check_verified-Verified :
    (node : Platform) (settings : Settings) (body : ClickCallback) (action : ClickAction) (db : Db)
    {tenant : Key} {p : Payment}
    → check_verified node settings body action db ≡ some (Guard.verified (tenant, p))
    → Verified node settings body action db tenant p
unfolding check_verified
check_verified-Verified node settings body action db h =
    let (secret, service, configured, h1) =
      settings_verified node settings.secret_key settings.service_id body action db h in
    let (acts, signed, h2) = callback_verified node secret service body action db h1 in
    let (resolved, found, priced) =
      tenant_verified node body db (resolve (node.key body.merchant_trans_id) db) h2 in
    record {
      secret = secret;
      configured = configured;
      right_action = acts;
      signed = signed;
      resolved = resolved;
      is_found = found;
      priced = priced;
    }

-- Inversion of a guarded call that confirmed.
pub guarded_then :
    (o : Option Guard) (run : Found → Db → Answer) (db : Db) {r : ClickResult} {k : ℕ} {db' : Db}
    → guarded o run db ≡ (some r, db')
    → r.merchant_confirm_id ≡ some k
    → (found : Found) × (o ≡ some (Guard.verified found)) × (run found db ≡ (some r, db'))
guarded_then none run db h confirmed = cc
guarded_then (some (Guard.rejected e)) run db h confirmed = cc
guarded_then (some (Guard.verified found)) run db h confirmed = (found, refl, h)

-- A confirmation of a pending payment is the settlement of `activate`.
settle_then :
    (id : ℕ) (o : Option (Bool × Db)) (db : Db) {r : ClickResult} {db' : Db}
    → settle_answer id o db ≡ (some r, db')
    → (done : Bool) × (o ≡ some (done, db'))
      × (r.merchant_prepare_id ≡ some id)
      × (r.merchant_confirm_id ≡ some id)
      × (r.error ≡ ClickError.success)
settle_then id none db h = cc
settle_then id (some (done, s)) db h =
    (done, ground arith, ground arith, ground arith, ground arith)

status_then :
    (s : PaymentStatus) (id : ℕ) (now : Instant) (tenant : Key) (p : Payment) (db : Db)
    {r : ClickResult} {k : ℕ} {db' : Db}
    → complete_by_status s id now (tenant, p) db ≡ (some r, db')
    → r.merchant_confirm_id ≡ some k
    → (is_pending s ≡ true)
      × ((done : Bool) × (activate tenant p.id now db ≡ some (done, db'))
          × (r.merchant_prepare_id ≡ some id)
          × (r.merchant_confirm_id ≡ some id)
          × (r.error ≡ ClickError.success))
status_then PaymentStatus.pending id now tenant p db h confirmed =
    (refl, settle_then id (activate tenant p.id now db) db h)
status_then PaymentStatus.paid id now tenant p db h confirmed = cc
status_then PaymentStatus.cancelled id now tenant p db h confirmed = cc

closed_then :
    (o : Option Db) (db : Db) {r : ClickResult} {k : ℕ} {db' : Db}
    → answer (fail ClickError.transaction_cancelled) o db ≡ (some r, db')
    → r.merchant_confirm_id ≡ some k
    → ⊥
closed_then none db h confirmed = cc
closed_then (some s) db h confirmed = cc

order_closed :
    (o : Option ℤ) (now : Instant) (tenant : Key) (p : Payment) (db : Db) {r : ClickResult} {k : ℕ}
    {db' : Db}
    → close_order o now (tenant, p) db ≡ (some r, db')
    → r.merchant_confirm_id ≡ some k
    → ⊥
order_closed none now tenant p db h confirmed = cc
order_closed (some reason) now tenant p db h confirmed =
    closed_then (cancel tenant p.id (some reason) now db) db h confirmed

-- What a Complete that confirms has checked of the payment.
abbrev pub Confirms :
    Platform → ClickCallback → Instant → Key → Payment → Db → ClickResult → Db → Type 0
Confirms node body now tenant p db r db' =
    (prepare_id : ℕ) × (done : Bool) × (p.click_prepare_id ≡ some prepare_id)
    × (is_quoted (node.read_number body.merchant_prepare_id) prepare_id ≡ true)
    × (is_pending p.status ≡ true)
    × (is_negative body.error ≡ false)
    × (activate tenant p.id now db ≡ some (done, db'))
    × (r.merchant_prepare_id ≡ some prepare_id)
    × (r.merchant_confirm_id ≡ some prepare_id)
    × (r.error ≡ ClickError.success)

pub complete_for_then :
    (node : Platform) (body : ClickCallback) (now : Instant) (tenant : Key) (p : Payment) (db : Db)
    {r : ClickResult} {k : ℕ} {db' : Db}
    → complete_for node body now (tenant, p) db ≡ (some r, db')
    → r.merchant_confirm_id ≡ some k
    → Confirms node body now tenant p db r db'
unfolding complete_for complete_quoted
complete_for_then node body now tenant p db {r} {k} {db'} h confirmed =
    elim (Option-cases p.click_prepare_id) [
      | inl unprepared ↦ absurd (ground arith)
      | inr (id, e) ↦ elim (Bool-cases (is_quoted (node.read_number body.merchant_prepare_id) id)) [
        | inr other ↦ absurd (ground arith)
        | inl quoted ↦ elim (Bool-cases (is_negative body.error)) [
          | inl failed ↦ absurd (
              order_closed (node.int_column body.error) now tenant p db
                (rw (complete_for, e, quoted, complete_quoted, failed) at h) confirmed)
          | inr fine ↦
              let (waiting, (done, activated, prepared, same, good)) =
                status_then p.status id now tenant p db
                  (rw (complete_for, e, quoted, complete_quoted, fine) at h) confirmed in
              (id, done, e, quoted, waiting, fine, activated, prepared, same, good)
        ]
      ]
    ]
