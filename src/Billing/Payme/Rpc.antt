-- ===== src/Billing/Payme/Rpc.antt =====
-- `getStatement` of apps/api/src/modules/billing/payme.service.ts, and the dispatch of
-- apps/api/src/modules/billing/payme.controller.ts.
use president_tech_award_e_s.Prelude.{
  ℕ, Bool, false, ◌&&◌, Option, none, some, List, [], ◌∷◌, leb, if◌then◌else◌, map, select,
}
use president_tech_award_e_s.Prelude.Int.{ℤ}
use president_tech_award_e_s.Calendar.{Instant}
use president_tech_award_e_s.Billing.Store.{Key, PaymentProvider, Payment, Db, provider_eq}
use president_tech_award_e_s.Billing.Payme.Protocol.{PaymeState, PaymeError}
use president_tech_award_e_s.Billing.Payme.Request.{
  Number, PaymeParams, Method, Rpc, ok, refused, failed, ◌>>=◌, require_number, date_of,
}
use president_tech_award_e_s.Billing.Payme.Methods.{
  CreateResult, PerformResult, CancelResult, CheckResult, or_zero, state_of,
  check_perform_transaction, create_transaction, perform_transaction, cancel_transaction,
  check_transaction,
}

pub record StatementEntry : Type 0 where
  pub id : Key
  pub time : Instant
  pub amount : ℕ
  pub account : Key
  pub perform_time : Instant
  pub cancel_time : Instant
  pub state : PaymeState
  pub reason : Option ℤ

-- The rows of `payme_statement`: Payme's, with a transaction that was created in the window.
abbrev pub created_in : Instant → Instant → Option Key → Option Instant → Bool
created_in from to (some txn) (some at) = leb from at && leb at to
created_in from to _ _ = false

abbrev pub in_statement : Instant → Instant → Payment → Bool
in_statement from to p =
    provider_eq p.provider PaymentProvider.payme
    && created_in from to p.provider_txn_id p.provider_created_at

-- `ORDER BY provider_created_at`
insert_by_time : Payment → List Payment → List Payment
insert_by_time p [] = p ∷ []
insert_by_time p (q ∷ rest) =
    let after = insert_by_time p rest in
    if leb (or_zero p.provider_created_at) (or_zero q.provider_created_at)
    then p ∷ q ∷ rest
    else q ∷ after

sort_by_time : List Payment → List Payment
unfolding insert_by_time
sort_by_time [] = []
sort_by_time (p ∷ rest) = insert_by_time p (sort_by_time rest)

abbrev key_of : Option Key → Key
key_of none = 0
key_of (some k) = k

unfoldable pub statement_entry : Payment → StatementEntry
unfolding state_of
statement_entry p = record {
  id = key_of p.provider_txn_id;
  time = or_zero p.provider_created_at;
  amount = p.amount_tiyin;
  account = p.id;
  perform_time = or_zero p.paid_at;
  cancel_time = or_zero p.cancelled_at;
  state = state_of p;
  reason = p.cancel_reason;
}

-- `getStatement`; no tenant is open.
unfoldable pub get_statement : PaymeParams → Method (List StatementEntry)
unfolding require_number date_of statement_entry sort_by_time
get_statement params = do
  from ← require_number params.from PaymeError.invalid_request
  to ← require_number params.to PaymeError.invalid_request
  λ db. (
    ok (
        map statement_entry
          (sort_by_time (select (in_statement (date_of from) (date_of to)) db.payments))),
    db,
  )

-- The method of a request; `unnamed` is a `method` that is no string.
pub data MethodName : Type 0 where
  check_perform create perform cancel check statement unknown unnamed : MethodName

pub data Reply : Type 0 where
  allowed : Reply
  created : CreateResult → Reply
  performed : PerformResult → Reply
  cancelled : CancelResult → Reply
  checked : CheckResult → Reply
  stated : List StatementEntry → Reply

-- The body that goes back, always with HTTP 200.
pub data Response : Type 0 where
  result : Reply → Response
  error : PaymeError → Response

abbrev pub respond : {A : Type 0} → (A → Reply) → Rpc A × Db → Response × Db
respond f (ok a, db) = (result (f a), db)
respond f (refused e, db) = (error e, db)
respond f (failed, db) = (error PaymeError.cannot_perform, db)

module _ (int_column : Number → Option ℤ) where
  unfoldable pub dispatch : MethodName → PaymeParams → Instant → Db → Response × Db
  dispatch MethodName.check_perform params now db =
      respond (λ _. Reply.allowed) (check_perform_transaction params db)
  dispatch MethodName.create params now db =
      respond Reply.created (create_transaction params now db)
  dispatch MethodName.perform params now db =
      respond Reply.performed (perform_transaction params now db)
  dispatch MethodName.cancel params now db =
      respond Reply.cancelled (cancel_transaction int_column params now db)
  dispatch MethodName.check params now db = respond Reply.checked (check_transaction params db)
  dispatch MethodName.statement params now db = respond Reply.stated (get_statement params db)
  dispatch MethodName.unknown params now db = (error PaymeError.method_not_found, db)
  dispatch MethodName.unnamed params now db = (error PaymeError.invalid_request, db)

  -- `rpc`, given whether `paymeAuthorized` accepts the request.
  unfoldable pub rpc : Bool → MethodName → PaymeParams → Instant → Db → Response × Db
  unfolding dispatch
  rpc authorized method params now db =
      if authorized
      then dispatch method params now db
      else (error PaymeError.insufficient_privilege, db)
