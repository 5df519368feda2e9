-- ===== src/Billing/Payme/Tests.antt =====
-- Calls of Payme on a workspace with one payment: apps/api/src/modules/billing/payme.service.ts.
use president_tech_award_e_s.Prelude.{
  inl, ℕ, ◌+◌, ◌≡◌, refl, Bool, true, false, Option, some, arith, ◌==◌, ◌⊎◌,
}
use president_tech_award_e_s.Prelude.Int.{ℤ, neg}
use president_tech_award_e_s.Billing.Store.{
  Key, provider_eq, PaymentStatus, Payment, Db, find_payment, is_taken,
}
use president_tech_award_e_s.Billing.Service.{activate, cancel, find, attach_provider_txn}
use president_tech_award_e_s.Billing.Validity.{IsValid}
use president_tech_award_e_s.Billing.Payme.Protocol.{PaymeState, PaymeError}
use president_tech_award_e_s.Billing.Payme.Request.{
  Number, finite, Value, text, number, other, PaymeParams, ok, time_of, date_of, by_account,
  resolve, resolve_by_txn,
}
use president_tech_award_e_s.Billing.Payme.Cancel.{cancel_transaction_again}
use president_tech_award_e_s.Billing.Payme.Methods.{
  CancelResult, cancel_transaction, create_for, perform_settle, perform_for, check_result,
  CreateResult, create_transaction, PerformResult, perform_transaction,
}
use president_tech_award_e_s.Billing.Payme.Rpc.{MethodName, Response, rpc}
use president_tech_award_e_s.Billing.Payme.Perform.{perform_again}
use president_tech_award_e_s.Billing.Payme.Create.{create_checks, Repeats, Opens, attached}
use president_tech_award_e_s.Billing.Payme.Repeat.{create_again-eq}
use president_tech_award_e_s.Billing.Payme.Stale.{perform_settle_stale, create_after_perform}
use president_tech_award_e_s.Billing.Payme.Refusals.{rpc_error_unchanged}
use president_tech_award_e_s.Billing.Tests.{start, order, with_txn, waiting, waiting-IsValid}

abbrev int_column : Number → Option ℤ
int_column n = some (neg 5)

abbrev params : Value → PaymeParams
params amount = record {
  id = text 9;
  time = number (time_of start);
  amount = amount;
  reason = other;
  from = other;
  to = other;
  account = some (text 7);
}

abbrev created : CreateResult
created = record { create_time = time_of start; transaction = 7; state = PaymeState.created }

create_runs :
    create_transaction (params (number (time_of 9900000))) (start + 5) (waiting order)
    ≡ (ok created, waiting with_txn)
unfolding create_transaction resolve find provider_eq date_of attach_provider_txn
create_runs = refl

create_again-eq_example :
    create_transaction (params (number (time_of 9900000))) (start + 60000) (waiting with_txn)
    ≡ (ok created, waiting with_txn)
create_again-eq_example =
    create_again-eq (params (number (time_of 9900000))) (start + 5) (start + 60000) start
      (waiting order) create_runs refl (omega arith)

create_checks_example :
    (txn : Key) × (time : Number) × (tenant : Key) × (p : Payment) × (Value.text 9 ≡ text txn)
    × (Value.number (time_of start) ≡ number time)
    × ((txn == 0) ≡ false)
    × ((s : Bool) × (w f : ℕ) × (time ≡ finite s w f))
    × ((by_account (params (number (time_of 9900000))) (waiting order)).0 ≡ ok (tenant, p))
    × (find_payment tenant p.id (waiting order) ≡ some p)
    × (7 ≡ p.id)
    × (PaymeState.created ≡ PaymeState.created)
    × ((Repeats txn (start + 5) p created × (waiting with_txn ≡ waiting order))
        ⊎ (Opens time (number (time_of 9900000)) (start + 5) p created
            × (is_taken p.id p.provider txn (waiting order).payments ≡ false)
            × (waiting with_txn ≡ attached tenant p.id txn (date_of time) (waiting order))))
create_checks_example =
    create_checks (params (number (time_of 9900000))) (start + 5) (waiting order) create_runs

perform_runs :
    (r : PerformResult) × (db' : Db) × (perform_transaction
        (params other)
        (start + 7)
        (waiting with_txn)
      ≡ (ok r, db'))
unfolding perform_transaction resolve_by_txn provider_eq find activate
perform_runs = (_, _, refl)

perform_again_example :
    perform_transaction (params other) (start + 9000) perform_runs.1
    ≡ (ok perform_runs.0, perform_runs.1)
perform_again_example =
    perform_again (params other) (start + 7) (start + 9000) (waiting with_txn)
      (waiting-IsValid (some 9) (some start)) perform_runs.2

refuse_runs :
    (rpc int_column true MethodName.create
      (params (number (time_of 1)))
      (start + 5)
      (waiting order)).0
    ≡ Response.error PaymeError.invalid_amount
unfolding rpc create_transaction resolve find provider_eq
refuse_runs = refl

rpc_error_unchanged_example :
    (rpc int_column true MethodName.create
      (params (number (time_of 1)))
      (start + 5)
      (waiting order)).1
    ≡ waiting order
rpc_error_unchanged_example =
    rpc_error_unchanged int_column true MethodName.create (params (number (time_of 1))) (start + 5)
      (waiting order) refuse_runs

abbrev cancelled_order : Payment
cancelled_order = record with_txn { status = PaymentStatus.cancelled; cancelled_at = some start }

cancelled-IsValid : IsValid (waiting cancelled_order)
cancelled-IsValid = record {
  unique_payments = (refl, tt);
  unique_tenants = (refl, (refl, tt));
  rows = (
    record {
      positive = omega arith;
      some_month = omega arith;
      has_tenant = refl;
      matches = ((start, refl), inl (record { no_paid_at = refl; no_start = refl; no_end = refl }));
    },
    tt,
  );
}

perform_settle_stale_example : perform_settle 1 7 start (waiting cancelled_order) ≡ (
  ok (record { transaction = 7; perform_time = start; state = PaymeState.performed }),
  waiting cancelled_order,
)
perform_settle_stale_example =
    perform_settle_stale 1 7 start (waiting cancelled_order) cancelled-IsValid refl refl

create_after_perform_example :
    (p' : Payment) × (db' : Db) × (perform_for (start + 5) (1, with_txn) (waiting with_txn) ≡ (
      ok (record { transaction = 7; perform_time = start + 5; state = PaymeState.performed }),
      db',
    ))
    × (find_payment 1 7 db' ≡ some p')
    × ((check_result p').state ≡ PaymeState.performed)
    × ((check_result p').perform_time ≡ start + 5)
    × (create_for 9 (time_of start) other (start + 9) (1, p') db' ≡ (
      ok (record { create_time = time_of start; transaction = 7; state = PaymeState.created }),
      db',
    ))
create_after_perform_example =
    create_after_perform 9 (time_of start) other (start + 5) (start + 9) start 1 with_txn
      (waiting with_txn) (waiting-IsValid (some 9) (some start)) refl refl refl refl refl
      (omega arith) (omega arith)

cancel_runs :
    (r : CancelResult) × (db' : Db) × (cancel_transaction int_column
        (params other)
        (start + 7)
        (waiting with_txn)
      ≡ (ok r, db'))
unfolding cancel_transaction resolve_by_txn provider_eq find cancel
cancel_runs = (_, _, refl)

cancel_transaction_again_example :
    cancel_transaction int_column (params other) (start + 9000) cancel_runs.1
    ≡ (ok cancel_runs.0, cancel_runs.1)
cancel_transaction_again_example =
    cancel_transaction_again int_column (params other) (start + 7) (start + 9000) (waiting with_txn)
      (waiting-IsValid (some 9) (some start)) cancel_runs.2
