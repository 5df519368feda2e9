-- ===== src/Billing/Click/Repeat.antt =====
-- Complete is confirmed once: apps/api/src/modules/billing/click.service.ts.
use mathlib.Core.Path.{subst}
use president_tech_award_e_s.Prelude.{
  ℕ, ◌≡◌, refl, sym, ◌∙◌, ap, Bool, true, false, not, Option, none, some, arith, if◌then◌else◌,
  find_first_holds,
}
use president_tech_award_e_s.Prelude.Int.{is_negative}
use president_tech_award_e_s.Calendar.{Instant}
use president_tech_award_e_s.Billing.Period.{granted_period, sum_from_tiyin}
use president_tech_award_e_s.Billing.Store.{
  Key, PaymentProvider, PaymentStatus, Payment, Db, is_row,
}
use president_tech_award_e_s.Billing.Service.{find, mark_paid, set_period, is_claimable}
use president_tech_award_e_s.Billing.Validity.{IsValid}
use president_tech_award_e_s.Billing.Activation.{settled, activate_pending}
use president_tech_award_e_s.Billing.Settled.{tenant_of}
use president_tech_award_e_s.Billing.Payme.Protocol.{Text, text_eq, is_empty}
use president_tech_award_e_s.Billing.Payme.Request.{Found, resolve}
use president_tech_award_e_s.Billing.Payme.Lookup.{find_found, find_again}
use president_tech_award_e_s.Billing.Payme.Lookup.Account.{resolve_again}
use president_tech_award_e_s.Billing.Payme.Perform.{settling_keeps}
use president_tech_award_e_s.Billing.Click.Protocol.{
  ClickError, ClickAction, action_code, int_eq, ClickCallback, Platform, click_signature,
  click_signature_valid, click_amount_matches, is_quoted,
}
use president_tech_award_e_s.Billing.Click.Methods.{
  ClickResult, fail, Settings, Guard, check_amount, check_tenant, check_callback, check_settings,
  check_verified, guarded, complete_quoted, complete_for, complete,
}
use president_tech_award_e_s.Billing.Click.Complete.{
  Verified, check_verified-Verified, guarded_then, complete_for_then, Confirms,
}

-- A Complete that answers with a confirmation was signed with the secret key for this action, names a
-- Click payment of the tenant that was resolved, quotes the id that Prepare issued, for an amount
-- within half a tiyin of the payment's, which was pending; what it did is `activate` of that payment.
pub complete-Confirms :
    (node : Platform) (settings : Settings) (body : ClickCallback) (now : Instant) (db : Db)
    {r : ClickResult} {k : ℕ} {db' : Db}
    → complete node settings body now db ≡ (some r, db')
    → r.merchant_confirm_id ≡ some k
    → (tenant : Key) × (p : Payment) × Verified node settings body ClickAction.complete db tenant p
      × Confirms node body now tenant p db r db'
unfolding complete
complete-Confirms node settings body now db h confirmed =
    let ((tenant, p), verified, done) =
      guarded_then (check_verified node settings body ClickAction.complete db)
        (complete_for node body now) db h confirmed in
    (
      tenant,
      p,
      check_verified-Verified node settings body ClickAction.complete db verified,
      complete_for_then node body now tenant p db done confirmed,
    )

-- A guard that one outcome has passed lets the other one pass.
passed_again :
    (b : Bool) (e : ClickError) (rest rest' : Option Guard) {found found' : Found}
    → (if b then some (Guard.rejected e) else rest) ≡ some (Guard.verified found)
    → (rest ≡ some (Guard.verified found) → rest' ≡ some (Guard.verified found'))
    → (if b then some (Guard.rejected e) else rest') ≡ some (Guard.verified found')
passed_again true e rest rest' h k = cc
passed_again false e rest rest' h k = k h

module _ (node : Platform) (body : ClickCallback) (action : ClickAction) (db db' : Db)
    (tenant : Key) (p q : Payment) (same_amount : q.amount_tiyin ≡ p.amount_tiyin)
    (resolved : resolve (node.key body.merchant_trans_id) db' ≡ some tenant)
    (found : find tenant (node.key body.merchant_trans_id) PaymentProvider.click db' ≡ some q) where
  tenant_again :
      (sum : ℕ) × (sum_from_tiyin p.amount_tiyin ≡ some sum)
        × (click_amount_matches node body.amount sum ≡ true)
      → check_tenant node body db' (resolve (node.key body.merchant_trans_id) db')
        ≡ some (Guard.verified (tenant, q))
  unfolding check_amount
  tenant_again (sum, e, exact) =
      let e' : sum_from_tiyin q.amount_tiyin ≡ some sum = ap sum_from_tiyin same_amount ∙ e in
      rw (resolved, found, check_amount, e', exact)

  callback_again :
      (secret service : Text)
      → check_callback node secret service body action db ≡ some (Guard.verified (tenant, p))
      → check_tenant node body db' (resolve (node.key body.merchant_trans_id) db')
        ≡ some (Guard.verified (tenant, q))
      → check_callback node secret service body action db' ≡ some (Guard.verified (tenant, q))
  unfolding check_callback
  callback_again secret service h last =
      let rest = check_tenant node body db (resolve (node.key body.merchant_trans_id) db) in
      let rest' = check_tenant node body db' (resolve (node.key body.merchant_trans_id) db') in
      let unsigned =
        not (click_signature_valid node body.sign_string (click_signature node secret body)) in
      let signed = λ (o : Option Guard).
        if unsigned then some (Guard.rejected ClickError.sign_check_failed) else o in
      let elsewhere = not (text_eq body.service_id service) in
      let ours = λ (o : Option Guard).
        if elsewhere then some (Guard.rejected ClickError.bad_request) else signed o in
      passed_again (not (int_eq body.action (action_code action))) ClickError.action_not_found
        (ours rest) (ours rest') h
        (λ h1.
          passed_again elsewhere ClickError.bad_request (signed rest) (signed rest') h1
            (λ h2. passed_again unsigned ClickError.sign_check_failed rest rest' h2 (λ _. last)))

  settings_again :
      (k s : Option Text)
      → check_settings node k s body action db ≡ some (Guard.verified (tenant, p))
      → check_tenant node body db' (resolve (node.key body.merchant_trans_id) db')
        ≡ some (Guard.verified (tenant, q))
      → check_settings node k s body action db' ≡ some (Guard.verified (tenant, q))
  settings_again none s h last = cc
  settings_again (some secret) none h last = cc
  settings_again (some secret) (some service) h last =
      let rest = check_callback node secret service body action db in
      let rest' = check_callback node secret service body action db' in
      let named = λ (o : Option Guard).
        if is_empty service then some (Guard.rejected ClickError.bad_request) else o in
      passed_again (is_empty secret) ClickError.bad_request (named rest) (named rest') h (λ h1.
        passed_again (is_empty service) ClickError.bad_request rest rest' h1
          (λ h2. callback_again secret service h2 last))

  -- The callback is verified again on tables where it finds the same payment at the same price.
  pub verified_again :
      (settings : Settings)
      → check_verified node settings body action db ≡ some (Guard.verified (tenant, p))
      → check_verified node settings body action db' ≡ some (Guard.verified (tenant, q))
  unfolding check_verified
  verified_again settings h =
      let before = check_verified-Verified node settings body action db h in
      settings_again settings.secret_key settings.service_id h (tenant_again before.priced)

some_db : Option (Bool × Db) → Db → Db
some_db none db = db
some_db (some (_, db')) db = db'

paid_answer :
    (node : Platform) (body : ClickCallback) (later : Instant) (tenant : Key) (q : Payment)
    (db : Db) {id : ℕ}
    → q.click_prepare_id ≡ some id
    → is_quoted (node.read_number body.merchant_prepare_id) id ≡ true
    → is_negative body.error ≡ false
    → q.status ≡ PaymentStatus.paid
    → complete_for node body later (tenant, q) db ≡ (some (fail ClickError.already_paid), db)
unfolding complete_for complete_quoted
paid_answer node body later tenant q db prepared quoted fine paid =
    rw (complete_for, prepared, quoted, complete_quoted, fine, paid)

-- Click repeats Complete: on valid tables, once a call has answered with a confirmation, the same call
-- at any later time is told that the payment is already paid, and changes nothing.
pub complete_again :
    (node : Platform) (settings : Settings) (body : ClickCallback) (now later : Instant) (db : Db)
    {r : ClickResult} {k : ℕ} {db' : Db}
    → IsValid db
    → complete node settings body now db ≡ (some r, db')
    → r.merchant_confirm_id ≡ some k
    → complete node settings body later db' ≡ (some (fail ClickError.already_paid), db')
unfolding complete some_db
complete_again node settings body now later db {r} {k} {db'} valid h confirmed =
    let ((tenant, p), verified, run) =
      guarded_then (check_verified node settings body ClickAction.complete db)
        (complete_for node body now) db h confirmed in
    let checked = check_verified-Verified node settings body ClickAction.complete db verified in
    let (id, done, prepared, quoted, waiting, fine, activated, _, _, _) =
      complete_for_then node body now tenant p db run confirmed in
    let (held, _) =
      find_found tenant (node.key body.merchant_trans_id) PaymentProvider.click db
        checked.is_found in
    let (t, tenant_found) = tenant_of tenant p.id db valid held in
    let settles = activate_pending tenant p.id now db valid held tenant_found waiting in
    let period = granted_period t.paid_until p.months now in
    let after = settled tenant p.id now p t db in
    let paid = set_period period (mark_paid now p) in
    let same_db : db' ≡ after = ap (λ o. some_db o db) (sym (activated) ∙ settles) in
    let is_held = find_first_holds (is_row tenant p.id) db.payments held in
    let claim : is_claimable tenant p.id p ≡ true = ground arith in
    subst (λ s. complete node settings body later s ≡ (some (fail ClickError.already_paid), s))
      (sym same_db)
      (ap (λ o. guarded o (complete_for node body later) after)
          (verified_again node body ClickAction.complete db after tenant p paid refl
            (resolve_again (is_claimable tenant p.id) (λ q. set_period period (mark_paid now q))
                (settling_keeps period now) db after.tenants (node.key body.merchant_trans_id)
              ∙ checked.resolved)
            (find_again (is_claimable tenant p.id) (λ q. set_period period (mark_paid now q))
                (settling_keeps period now) db after.tenants tenant
                (node.key body.merchant_trans_id) PaymentProvider.click
              ∙ rw (checked.is_found, claim))
            settings verified)
        ∙ paid_answer node body later tenant paid after prepared quoted fine refl)
