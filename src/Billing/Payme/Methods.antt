-- ===== src/Billing/Payme/Methods.antt =====
-- The six methods: apps/api/src/modules/billing/payme.service.ts. A call reads the clock once, and
-- no other call comes between its queries, except where `perform_settle` is taken by itself.
use president_tech_award_e_s.Prelude.{
  Bool, true, not, Option, none, some, if◌then◌else◌, map_option,
}
use president_tech_award_e_s.Prelude.Int.{ℤ}
use president_tech_award_e_s.Calendar.{Instant}
use president_tech_award_e_s.Billing.Store.{
  Key, PaymentStatus, is_cancelled, is_paid, Payment, opt_eq,
}
use president_tech_award_e_s.Billing.Service.{attach_provider_txn, activate, cancel, is_set}
use president_tech_award_e_s.Billing.Payme.Protocol.{PaymeState, PaymeError}
use president_tech_award_e_s.Billing.Payme.Request.{
  Number, Value, number, PaymeParams, Method, failed, pure, refuse, attempt, ◌>>=◌, ◌>>◌, require,
  require_string, require_number, date_of, time_of, require_payable, require_amount,
  require_not_timed_out, Found, by_account, by_txn,
}

-- `checkPerformTransaction`
unfoldable pub check_perform_transaction : PaymeParams → Method (Unit {0})
unfolding by_account require_payable require_amount
check_perform_transaction params = do
  found ← by_account params
  require_payable found.1
  require_amount found.1 params.amount

pub record CreateResult : Type 0 where
  pub create_time : Number
  pub transaction : Key
  pub state : PaymeState

-- Payme repeating itself gets the transaction that it already has; a different one is refused.
unfoldable pub create_again : Bool → Option Instant → Key → Instant → Method CreateResult
unfolding require_not_timed_out
create_again true (some created_at) id now =
    require_not_timed_out now created_at
    >> pure
        (record { create_time = time_of created_at; transaction = id; state = PaymeState.created })
create_again _ _ id now = refuse PaymeError.cannot_perform

unfoldable pub create_attach : Key → Key → Key → Number → Method CreateResult
create_attach tenant id txn time db =
    let answer : CreateResult = record {
      create_time = time;
      transaction = id;
      state = PaymeState.created;
    } in
    attempt
      (map_option (λ db'. (answer, db')) (attach_provider_txn tenant id txn (date_of time) db)) db

unfoldable pub create_for : Key → Number → Value → Instant → Found → Method CreateResult
unfolding create_again create_attach require_payable require_amount require_not_timed_out
create_for txn time amount now (tenant, payment) =
    if is_set payment.provider_txn_id
    then create_again (opt_eq payment.provider_txn_id txn) payment.provider_created_at payment.id
        now
    else (require_payable payment
        >> require_amount payment amount
        >> require_not_timed_out now (date_of time)
        >> create_attach tenant payment.id txn time)

-- `createTransaction`
unfoldable pub create_transaction : PaymeParams → Instant → Method CreateResult
unfolding by_account require_string require_number create_for
create_transaction params now = do
  txn ← require_string params.id PaymeError.invalid_request
  time ← require_number params.time PaymeError.invalid_request
  found ← by_account params
  create_for txn time params.amount now found

pub record PerformResult : Type 0 where
  pub transaction : Key
  pub perform_time : Instant
  pub state : PaymeState

-- `payment.status === 'paid' && payment.paidAt`, as the time to report.
abbrev pub performed_at : PaymentStatus → Option Instant → Option Instant
performed_at PaymentStatus.paid at = at
performed_at _ at = none

-- The write of `performTransaction`: what `activate` reports is not read.
unfoldable pub perform_settle : Key → Key → Instant → Method PerformResult
perform_settle tenant id now db =
    let answer : PerformResult = record {
      transaction = id;
      perform_time = now;
      state = PaymeState.performed;
    } in
    attempt (map_option (λ r. (answer, r.1)) (activate tenant id now db)) db

abbrev pub require_fresh : Instant → Option Instant → Method (Unit {0})
require_fresh now none = pure tt
require_fresh now (some created_at) = require_not_timed_out now created_at

unfoldable pub perform_for : Instant → Found → Method PerformResult
unfolding perform_settle require_not_timed_out
perform_for now (tenant, payment) = elim (performed_at payment.status payment.paid_at) [
  | some at ↦
      pure (record { transaction = payment.id; perform_time = at; state = PaymeState.performed })
  | none ↦
      require (not (is_cancelled payment.status)) PaymeError.cannot_perform
      >> require_fresh now payment.provider_created_at
      >> perform_settle tenant payment.id now
]

-- `performTransaction`
unfoldable pub perform_transaction : PaymeParams → Instant → Method PerformResult
unfolding by_txn perform_for
perform_transaction params now = do found ← by_txn params; perform_for now found

pub record CancelResult : Type 0 where
  pub transaction : Key
  pub cancel_time : Instant
  pub state : PaymeState

-- `cancelledState`
unfoldable pub cancelled_state : Payment → PaymeState
cancelled_state p = elim p.paid_at [
  | none ↦ PaymeState.cancelled_before_perform
  | some _ ↦ PaymeState.cancelled_after_perform
]

-- `stateOf`
unfoldable pub state_of : Payment → PaymeState
unfolding cancelled_state
state_of p =
    if is_paid p.status
    then PaymeState.performed
    else if is_cancelled p.status
    then cancelled_state p
    else PaymeState.created

abbrev pub cancelled_when : PaymentStatus → Option Instant → Option Instant
cancelled_when PaymentStatus.cancelled at = at
cancelled_when _ at = none

-- What an `Int` column of the database client makes of a number, `none` where it throws.
module _ (int_column : Number → Option ℤ) where
  -- `typeof params.reason === 'number' ? params.reason : null`
  abbrev pub reason_of : Value → Option (Option ℤ)
  reason_of (number n) = map_option some (int_column n)
  reason_of _ = some none

  unfoldable pub cancel_write : Key → Payment → Option (Option ℤ) → Instant → Method CancelResult
  cancel_write tenant payment none now db = (failed, db)
  cancel_write tenant payment (some reason) now db =
      let state =
        if is_paid payment.status
        then PaymeState.cancelled_after_perform
        else PaymeState.cancelled_before_perform in
      let answer : CancelResult = record {
        transaction = payment.id;
        cancel_time = now;
        state = state;
      } in
      attempt (map_option (λ db'. (answer, db')) (cancel tenant payment.id reason now db)) db

  unfoldable pub cancel_for : Value → Instant → Found → Method CancelResult
  unfolding cancelled_state cancel_write
  cancel_for reason now (tenant, payment) =
      elim (cancelled_when payment.status payment.cancelled_at) [
        | some at ↦
            pure (record {
              transaction = payment.id;
              cancel_time = at;
              state = cancelled_state payment;
            })
        | none ↦ cancel_write tenant payment (reason_of reason) now
      ]

  -- `cancelTransaction`
  unfoldable pub cancel_transaction : PaymeParams → Instant → Method CancelResult
  unfolding by_txn cancel_for
  cancel_transaction params now = do found ← by_txn params; cancel_for params.reason now found

pub record CheckResult : Type 0 where
  pub create_time : Instant
  pub perform_time : Instant
  pub cancel_time : Instant
  pub transaction : Key
  pub state : PaymeState
  pub reason : Option ℤ

-- `date?.getTime() ?? 0`
abbrev pub or_zero : Option Instant → Instant
or_zero none = 0
or_zero (some t) = t

unfoldable pub check_result : Payment → CheckResult
unfolding state_of
check_result p = record {
  create_time = or_zero p.provider_created_at;
  perform_time = or_zero p.paid_at;
  cancel_time = or_zero p.cancelled_at;
  transaction = p.id;
  state = state_of p;
  reason = p.cancel_reason;
}

-- `checkTransaction`
unfoldable pub check_transaction : PaymeParams → Method CheckResult
unfolding by_txn check_result
check_transaction params = do found ← by_txn params; pure (check_result found.1)
