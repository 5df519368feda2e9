-- ===== src/Billing/Payme/Quiet.antt =====
-- A call that refuses leaves the tables as they were, method by method:
-- apps/api/src/modules/billing/payme.service.ts.
use mathlib.Core.Path.{subst}
use president_tech_award_e_s.Prelude.{
  ◌≡◌, refl, sym, inl, inr, Bool, true, false, not, Option, none, some, arith, Bool-cases,
  Option-cases,
}
use president_tech_award_e_s.Prelude.Int.{ℤ}
use president_tech_award_e_s.Calendar.{Instant}
use president_tech_award_e_s.Billing.Store.{Key, Payment, Db, is_cancelled}
use president_tech_award_e_s.Billing.Service.{is_set}
use president_tech_award_e_s.Billing.Payme.Protocol.{PaymeError}
use president_tech_award_e_s.Billing.Payme.Request.{
  Number, finite, not_finite, Value, text, number, other, PaymeParams, Method, Rpc, ok, refused,
  failed, attempt, or_refuse, continue, ◌>>=◌, ◌>>◌, Found, by_txn, by_account, require,
  require_string, require_number, require_payable, require_amount, require_not_timed_out, date_of,
  found_order,
}
use president_tech_award_e_s.Billing.Payme.Methods.{
  create_again, create_attach, create_for, create_transaction, check_perform_transaction,
  performed_at, perform_settle, require_fresh, perform_for, perform_transaction, cancelled_when,
  reason_of, cancel_write, cancel_for, cancel_transaction,
}
use president_tech_award_e_s.Billing.Payme.Lookup.{by_txn_pure}

-- A step from `db` that either returned, or left the tables alone.
pub data IsQuiet {A : Type 0} (db : Db) : Rpc A × Db → Type 0 where
  returned : (a : A) (s : Db) → IsQuiet db (ok a, s)
  unchanged : (step : Rpc A × Db) → step.1 ≡ db → IsQuiet db step

-- After a step that only reads, what follows decides.
pub continue-IsQuiet :
    {A B : Type 0} (db : Db) (step : Rpc A × Db) (f : A → Method B)
    → step.1 ≡ db
    → ((a : A) → IsQuiet db (f a db))
    → IsQuiet db (continue step f)
continue-IsQuiet db (ok a, s) f e k = subst (λ x. IsQuiet db (f a x)) (sym e) (k a)
continue-IsQuiet db (refused x, s) f e k = unchanged _ e
continue-IsQuiet db (failed, s) f e k = unchanged _ e

pub bind-IsQuiet :
    {A B : Type 0} (m : Method A) (f : A → Method B) (db : Db)
    → (m db).1 ≡ db
    → ((a : A) → IsQuiet db (f a db))
    → IsQuiet db ((m >>= f) db)
bind-IsQuiet m f db e k = continue-IsQuiet db (m db) f e k

pub then-IsQuiet :
    {B : Type 0} (m : Method (Unit {0})) (k : Method B) (db : Db)
    → (m db).1 ≡ db
    → IsQuiet db (k db)
    → IsQuiet db ((m >> k) db)
then-IsQuiet m k db e q = continue-IsQuiet db (m db) (λ _. k) e (λ _. q)

pub attempt-IsQuiet : {A : Type 0} (db : Db) (o : Option (A × Db)) → IsQuiet db (attempt o db)
attempt-IsQuiet db none = unchanged _ refl
attempt-IsQuiet db (some (a, s)) = returned a s

pub require_pure : (b : Bool) (e : PaymeError) (db : Db) → (require b e db).1 ≡ db
require_pure true e db = refl
require_pure false e db = refl

pub require_string_pure : (v : Value) (e : PaymeError) (db : Db) → (require_string v e db).1 ≡ db
unfolding require_string
require_string_pure (text k) e db = ground arith
require_string_pure (number n) e db = refl
require_string_pure other e db = refl

pub require_number_pure : (v : Value) (e : PaymeError) (db : Db) → (require_number v e db).1 ≡ db
unfolding require_number
require_number_pure (number (finite s w f)) e db = refl
require_number_pure (number not_finite) e db = refl
require_number_pure (text k) e db = refl
require_number_pure other e db = refl

pub or_refuse_pure :
    {A : Type 0} (o : Option A) (e : PaymeError) (db : Db) → (or_refuse o e db).1 ≡ db
or_refuse_pure none e db = refl
or_refuse_pure (some a) e db = refl

pub by_account_pure : (params : PaymeParams) (db : Db) → (by_account params db).1 ≡ db
unfolding by_account
by_account_pure params db =
    or_refuse_pure (found_order params.account db) PaymeError.order_not_found db

pub check_perform_pure :
    (params : PaymeParams) (db : Db) → (check_perform_transaction params db).1 ≡ db
unfolding check_perform_transaction require_payable require_amount
check_perform_pure params db = ground (arith, by_account_pure params db)

pub create_again_pure :
    (b : Bool) (o : Option Instant) (id : Key) (now : Instant) (db : Db)
    → (create_again b o id now db).1 ≡ db
unfolding create_again
create_again_pure true (some t) id now db = ground arith
create_again_pure true none id now db = refl
create_again_pure false o id now db = refl

pub checks_pure :
    (p : Payment) (time : Number) (amount : Value) (now : Instant) (db : Db)
    → ((require_payable p >> require_amount p amount >> require_not_timed_out now (date_of time))
        db).1
      ≡ db
unfolding require_payable require_amount require_not_timed_out
checks_pure p time amount now db = ground arith

pub create_fresh-IsQuiet :
    (tenant id txn : Key) (time : Number) (db : Db)
    → IsQuiet db (create_attach tenant id txn time db)
unfolding create_attach
create_fresh-IsQuiet tenant id txn time db = attempt-IsQuiet db _

pub create_for-IsQuiet :
    (txn : Key) (time : Number) (amount : Value) (now : Instant) (found : Found) (db : Db)
    → IsQuiet db (create_for txn time amount now found db)
unfolding create_for
create_for-IsQuiet txn time amount now (tenant, p) db =
    elim (Bool-cases (is_set p.provider_txn_id)) [
      | inl old ↦ rw (create_for, old) (unchanged _ (create_again_pure _ _ p.id now db))
      | inr fresh ↦
          rw (create_for, fresh)
            (then-IsQuiet
              (require_payable p
                >> require_amount p amount
                >> require_not_timed_out now (date_of time))
              (create_attach tenant p.id txn time) db (checks_pure p time amount now db)
              (create_fresh-IsQuiet tenant p.id txn time db))
    ]

pub create-IsQuiet :
    (params : PaymeParams) (now : Instant) (db : Db) → IsQuiet db (create_transaction params now db)
unfolding create_transaction
create-IsQuiet params now db =
    bind-IsQuiet (require_string params.id PaymeError.invalid_request)
      (λ txn. do
        time ← require_number params.time PaymeError.invalid_request
        found ← by_account params
        create_for txn time params.amount now found)
      db (require_string_pure params.id PaymeError.invalid_request db)
      (λ txn.
        bind-IsQuiet (require_number params.time PaymeError.invalid_request)
          (λ time. do found ← by_account params; create_for txn time params.amount now found) db
          (require_number_pure params.time PaymeError.invalid_request db)
          (λ time.
            bind-IsQuiet (by_account params) (create_for txn time params.amount now) db
              (by_account_pure params db)
              (λ found. create_for-IsQuiet txn time params.amount now found db)))

pub fresh_pure :
    (b : Bool) (o : Option Instant) (now : Instant) (db : Db)
    → ((require (not b) PaymeError.cannot_perform >> require_fresh now o) db).1 ≡ db
unfolding require_not_timed_out
fresh_pure b o now db = ground arith

pub perform_for-IsQuiet :
    (now : Instant) (found : Found) (db : Db) → IsQuiet db (perform_for now found db)
unfolding perform_for
perform_for-IsQuiet now (tenant, p) db = elim (Option-cases (performed_at p.status p.paid_at)) [
  | inl open_payment ↦
      rw (perform_for, open_payment)
        (then-IsQuiet
          (require (not (is_cancelled p.status)) PaymeError.cannot_perform
            >> require_fresh now p.provider_created_at)
          (perform_settle tenant p.id now) db
          (fresh_pure (is_cancelled p.status) p.provider_created_at now db)
          (unfold perform_settle in attempt-IsQuiet db _))
  | inr (at, paid) ↦ rw (perform_for, paid) (returned _ db)
]

module _ (int_column : Number → Option ℤ) where
  pub cancel_write-IsQuiet :
      (tenant : Key) (p : Payment) (reason : Option (Option ℤ)) (now : Instant) (db : Db)
      → IsQuiet db (cancel_write int_column tenant p reason now db)
  unfolding cancel_write
  cancel_write-IsQuiet tenant p none now db = unchanged _ refl
  cancel_write-IsQuiet tenant p (some reason) now db = attempt-IsQuiet db _

  pub cancel_for-IsQuiet :
      (reason : Value) (now : Instant) (found : Found) (db : Db)
      → IsQuiet db (cancel_for int_column reason now found db)
  unfolding cancel_for
  cancel_for-IsQuiet reason now (tenant, p) db =
      elim (Option-cases (cancelled_when p.status p.cancelled_at)) [
        | inl open_payment ↦
            rw (cancel_for, open_payment)
              (cancel_write-IsQuiet tenant p (reason_of int_column reason) now db)
        | inr (at, closed) ↦ rw (cancel_for, closed) (returned _ db)
      ]

  pub cancel-IsQuiet :
      (params : PaymeParams) (now : Instant) (db : Db)
      → IsQuiet db (cancel_transaction int_column params now db)
  unfolding cancel_transaction
  cancel-IsQuiet params now db =
      bind-IsQuiet (by_txn params) (cancel_for int_column params.reason now) db
        (by_txn_pure params db) (λ found. cancel_for-IsQuiet params.reason now found db)

pub perform-IsQuiet :
    (params : PaymeParams) (now : Instant) (db : Db)
    → IsQuiet db (perform_transaction params now db)
unfolding perform_transaction
perform-IsQuiet params now db =
    bind-IsQuiet (by_txn params) (perform_for now) db (by_txn_pure params db)
      (λ found. perform_for-IsQuiet now found db)
