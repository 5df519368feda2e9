-- ===== src/Billing/Click/Methods.antt =====
-- Prepare and Complete: apps/api/src/modules/billing/click.service.ts and click.controller.ts. A
-- result `none` is a call that throws; the transactions that it had committed stay.
use president_tech_award_e_s.Prelude.{ℕ, Bool, true, not, Option, none, some, if◌then◌else◌}
use president_tech_award_e_s.Prelude.Int.{ℤ, is_negative}
use president_tech_award_e_s.Calendar.{Instant}
use president_tech_award_e_s.Billing.Period.{sum_from_tiyin}
use president_tech_award_e_s.Billing.Store.{Key, PaymentProvider, PaymentStatus, Payment, Db}
use president_tech_award_e_s.Billing.Service.{
  find, activate, cancel, attach_provider_txn, attach_click_prepare_id,
}
use president_tech_award_e_s.Billing.Payme.Protocol.{Text, text_eq, is_empty}
use president_tech_award_e_s.Billing.Payme.Request.{Found, resolve}
use president_tech_award_e_s.Billing.Click.Protocol.{
  ClickError, ClickAction, action_code, int_eq, ClickCallback, Platform, click_signature,
  click_signature_valid, click_amount_matches, is_quoted,
}

-- `ClickResult`; the note is the error's own.
pub record ClickResult : Type 0 where
  pub error : ClickError
  pub merchant_prepare_id : Option ℕ
  pub merchant_confirm_id : Option ℕ

abbrev pub fail : ClickError → ClickResult
fail e = record { error = e; merchant_prepare_id = none; merchant_confirm_id = none }

-- `CLICK_SECRET_KEY` and `CLICK_SERVICE_ID`
pub record Settings : Type 0 where
  pub secret_key : Option Text
  pub service_id : Option Text

pub data Guard : Type 0 where
  verified : Found → Guard
  rejected : ClickError → Guard

abbrev pub Answer : Type 0
Answer = Option ClickResult × Db

abbrev pub is_blank : Option Text → Bool
is_blank none = true
is_blank (some s) = is_empty s

-- `sumFromTiyin` throws for an amount that is no whole number of so'm.
unfoldable pub check_amount : Platform → ClickCallback → Key → Payment → Option Guard
check_amount node body tenant payment = elim (sum_from_tiyin payment.amount_tiyin) [
  | none ↦ none
  | some sum ↦
      if click_amount_matches node body.amount sum
      then some (Guard.verified (tenant, payment))
      else some (Guard.rejected ClickError.incorrect_amount)
]

abbrev pub check_payment : Platform → ClickCallback → Key → Option Payment → Option Guard
check_payment node body tenant none = some (Guard.rejected ClickError.transaction_not_found)
check_payment node body tenant (some payment) = check_amount node body tenant payment

abbrev pub check_tenant : Platform → ClickCallback → Db → Option Key → Option Guard
check_tenant node body db none = some (Guard.rejected ClickError.transaction_not_found)
check_tenant node body db (some tenant) =
    check_payment node body tenant
      (find tenant (node.key body.merchant_trans_id) PaymentProvider.click db)

-- The checks of `verified` once Click is known to be configured.
unfoldable pub check_callback :
    Platform → Text → Text → ClickCallback → ClickAction → Db → Option Guard
unfolding check_amount
check_callback node secret service body action db =
    if not (int_eq body.action (action_code action))
    then some (Guard.rejected ClickError.action_not_found)
    else if not (text_eq body.service_id service)
    then some (Guard.rejected ClickError.bad_request)
    else if not (click_signature_valid node body.sign_string (click_signature node secret body))
    then some (Guard.rejected ClickError.sign_check_failed)
    else check_tenant node body db (resolve (node.key body.merchant_trans_id) db)

abbrev pub check_settings :
    Platform → Option Text → Option Text → ClickCallback → ClickAction → Db → Option Guard
check_settings node (some secret) (some service) body action db =
    if is_empty secret
    then some (Guard.rejected ClickError.bad_request)
    else if is_empty service
    then some (Guard.rejected ClickError.bad_request)
    else check_callback node secret service body action db
check_settings node _ _ body action db = some (Guard.rejected ClickError.bad_request)

-- `verified`
unfoldable pub check_verified :
    Platform → Settings → ClickCallback → ClickAction → Db → Option Guard
unfolding check_callback
check_verified node settings body action db =
    check_settings node settings.secret_key settings.service_id body action db

abbrev pub guarded : Option Guard → (Found → Db → Answer) → Db → Answer
guarded none run db = (none, db)
guarded (some (Guard.rejected e)) run db = (some (fail e), db)
guarded (some (Guard.verified found)) run db = run found db

abbrev pub answer : ClickResult → Option Db → Db → Answer
answer r none db = (none, db)
answer r (some db') db = (some r, db')

-- The two writes of a Prepare, each in a transaction of its own.
unfoldable pub attach_prepared : Platform → ClickCallback → Instant → ℕ → Key → Key → Db → Answer
attach_prepared node body now prepare_id tenant id db =
    answer
      (record {
        error = ClickError.success;
        merchant_prepare_id = some prepare_id;
        merchant_confirm_id = none;
      })
      (attach_provider_txn tenant id (node.key body.click_trans_id) now db) db

abbrev pub issue : Platform → ClickCallback → Instant → Option Db → ℕ → Key → Key → Db → Answer
issue node body now none prepare_id tenant id db = (none, db)
issue node body now (some db') prepare_id tenant id db =
    attach_prepared node body now prepare_id tenant id db'

unfoldable pub prepare_pending : Platform → ClickCallback → ℕ → Instant → Found → Db → Answer
unfolding attach_prepared
prepare_pending node body fresh now (tenant, payment) db = elim payment.click_prepare_id [
  | some prepare_id ↦ attach_prepared node body now prepare_id tenant payment.id db
  | none ↦
      issue node body now (attach_click_prepare_id tenant payment.id fresh db) fresh tenant
        payment.id db
]

abbrev pub prepare_by_status :
    PaymentStatus → Platform → ClickCallback → ℕ → Instant → Found → Db → Answer
prepare_by_status PaymentStatus.paid node body fresh now found db =
    (some (fail ClickError.already_paid), db)
prepare_by_status PaymentStatus.cancelled node body fresh now found db =
    (some (fail ClickError.transaction_cancelled), db)
prepare_by_status PaymentStatus.pending node body fresh now found db =
    prepare_pending node body fresh now found db

unfoldable pub prepare_for : Platform → ClickCallback → ℕ → Instant → Found → Db → Answer
unfolding prepare_pending
prepare_for node body fresh now found db =
    if is_negative body.error
    then (some (fail ClickError.transaction_cancelled), db)
    else prepare_by_status found.1.status node body fresh now found db

-- `prepare`; `fresh` is the random number that `newPrepareId` draws.
unfoldable pub prepare : Platform → Settings → ClickCallback → ℕ → Instant → Db → Answer
unfolding check_verified prepare_for
prepare node settings body fresh now db =
    guarded (check_verified node settings body ClickAction.prepare db)
      (prepare_for node body fresh now) db

abbrev pub settle_answer : ℕ → Option (Bool × Db) → Db → Answer
settle_answer prepare_id none db = (none, db)
settle_answer prepare_id (some (done, db')) db = (
  some (record {
    error = ClickError.success;
    merchant_prepare_id = some prepare_id;
    merchant_confirm_id = some prepare_id;
  }),
  db',
)

abbrev pub complete_by_status : PaymentStatus → ℕ → Instant → Found → Db → Answer
complete_by_status PaymentStatus.cancelled prepare_id now found db =
    (some (fail ClickError.transaction_cancelled), db)
complete_by_status PaymentStatus.paid prepare_id now found db =
    (some (fail ClickError.already_paid), db)
complete_by_status PaymentStatus.pending prepare_id now (tenant, payment) db =
    settle_answer prepare_id (activate tenant payment.id now db) db

abbrev pub close_order : Option ℤ → Instant → Found → Db → Answer
close_order none now found db = (none, db)
close_order (some reason) now (tenant, payment) db =
    answer (fail ClickError.transaction_cancelled) (cancel tenant payment.id (some reason) now db)
      db

unfoldable pub complete_quoted : Platform → ClickCallback → ℕ → Instant → Found → Db → Answer
complete_quoted node body prepare_id now found db =
    if is_negative body.error
    then close_order (node.int_column body.error) now found db
    else complete_by_status found.1.status prepare_id now found db

unfoldable pub complete_for : Platform → ClickCallback → Instant → Found → Db → Answer
unfolding complete_quoted
complete_for node body now found db = elim found.1.click_prepare_id [
  | none ↦ (some (fail ClickError.transaction_not_found), db)
  | some prepare_id ↦
      if is_quoted (node.read_number body.merchant_prepare_id) prepare_id
      then complete_quoted node body prepare_id now found db
      else (some (fail ClickError.transaction_not_found), db)
]

-- `complete`
unfoldable pub complete : Platform → Settings → ClickCallback → Instant → Db → Answer
unfolding check_verified complete_for
complete node settings body now db =
    guarded (check_verified node settings body ClickAction.complete db) (complete_for node body now)
      db

-- `handle`: a body that is not parsed is echoed nothing, and an exception is reported as a failure.
unfoldable pub handle : Option ClickCallback → (ClickCallback → Db → Answer) → Db → ClickResult × Db
handle none run db = (fail ClickError.bad_request, db)
handle (some body) run db = elim (run body db).0 [
  | none ↦ (fail ClickError.failed_to_update, (run body db).1)
  | some r ↦ (r, (run body db).1)
]
