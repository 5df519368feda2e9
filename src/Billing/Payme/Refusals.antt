-- ===== src/Billing/Payme/Refusals.antt =====
-- An answer of Payme's API that is an error has written nothing: apps/api/src/modules/billing/
-- payme.service.ts and payme.controller.ts.

use president_tech_award_e_s.Prelude.{◌≡◌, refl, Bool, true, false, Option, arith}
use president_tech_award_e_s.Prelude.Int.{ℤ}
use president_tech_award_e_s.Calendar.{Instant}
use president_tech_award_e_s.Billing.Store.{Db}
use president_tech_award_e_s.Billing.Payme.Protocol.{PaymeError}
use president_tech_award_e_s.Billing.Payme.Request.{Number, PaymeParams, Rpc, ok, refused, failed}
use president_tech_award_e_s.Billing.Payme.Methods.{check_transaction}
use president_tech_award_e_s.Billing.Payme.Rpc.{
  MethodName, Response, Reply, respond, get_statement, dispatch, rpc,
}
use president_tech_award_e_s.Billing.Payme.Lookup.{by_txn_pure}
use president_tech_award_e_s.Billing.Payme.Quiet.{
  IsQuiet, require_number_pure, check_perform_pure, create-IsQuiet, cancel-IsQuiet, perform-IsQuiet,
}

check_pure : (params : PaymeParams) (db : Db) → (check_transaction params db).1 ≡ db
unfolding check_transaction
check_pure params db = ground (arith, by_txn_pure params db)

statement_pure : (params : PaymeParams) (db : Db) → (get_statement params db).1 ≡ db
unfolding get_statement
statement_pure params db = ground (
  arith,
  require_number_pure params.from PaymeError.invalid_request db,
  require_number_pure params.to PaymeError.invalid_request,
)

quiet_refusal :
    {A : Type 0} (db : Db) {step : Rpc A × Db}
    → IsQuiet db step
    → ((a : A) → ¬ (step.0 ≡ ok a))
    → step.1 ≡ db
quiet_refusal db (IsQuiet.returned a s) no_result = absurd (no_result a refl)
quiet_refusal db (IsQuiet.unchanged step e) no_result = e

-- What is answered with an error has changed nothing.
abbrev IsSafe : Db → Response × Db → Type 0
IsSafe db (Response.result reply, s) = Unit
IsSafe db (Response.error e, s) = s ≡ db

respond-IsSafe :
    {A : Type 0} (f : A → Reply) (db : Db) (step : Rpc A × Db)
    → IsQuiet db step
    → IsSafe db (respond f step)
respond-IsSafe f db (ok a, s) q = tt
respond-IsSafe f db (refused e, s) q = quiet_refusal db q (λ a h. cc)
respond-IsSafe f db (failed, s) q = quiet_refusal db q (λ a h. cc)

module _ (int_column : Number → Option ℤ) where
  dispatch-IsSafe :
      (method : MethodName) (params : PaymeParams) (now : Instant) (db : Db)
      → IsSafe db (dispatch int_column method params now db)
  unfolding dispatch
  dispatch-IsSafe MethodName.check_perform params now db =
      respond-IsSafe (λ _. Reply.allowed) db _ (IsQuiet.unchanged _ (check_perform_pure params db))
  dispatch-IsSafe MethodName.create params now db =
      respond-IsSafe Reply.created db _ (create-IsQuiet params now db)
  dispatch-IsSafe MethodName.perform params now db =
      respond-IsSafe Reply.performed db _ (perform-IsQuiet params now db)
  dispatch-IsSafe MethodName.cancel params now db =
      respond-IsSafe Reply.cancelled db _ (cancel-IsQuiet int_column params now db)
  dispatch-IsSafe MethodName.check params now db =
      respond-IsSafe Reply.checked db _ (IsQuiet.unchanged _ (check_pure params db))
  dispatch-IsSafe MethodName.statement params now db =
      respond-IsSafe Reply.stated db _ (IsQuiet.unchanged _ (statement_pure params db))
  dispatch-IsSafe MethodName.unknown params now db = refl
  dispatch-IsSafe MethodName.unnamed params now db = refl

  safe_error :
      (db : Db) (step : Response × Db) {e : PaymeError}
      → IsSafe db step
      → step.0 ≡ Response.error e
      → step.1 ≡ db
  safe_error db (Response.result reply, s) safe h = cc
  safe_error db (Response.error e, s) safe h = safe

  -- A call of Payme's API that is answered with an error, whatever its credentials, its method and its
  -- parameters, leaves the tables as they were.
  pub rpc_error_unchanged :
      (authorized : Bool) (method : MethodName) (params : PaymeParams) (now : Instant) (db : Db)
      {e : PaymeError}
      → (rpc int_column authorized method params now db).0 ≡ Response.error e
      → (rpc int_column authorized method params now db).1 ≡ db
  unfolding rpc
  rpc_error_unchanged true method params now db h =
      safe_error db (dispatch int_column method params now db)
        (dispatch-IsSafe method params now db) h
  rpc_error_unchanged false method params now db h = refl
