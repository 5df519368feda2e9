-- ===== src/Billing/Payme/Create.antt =====
-- `createTransaction` of apps/api/src/modules/billing/payme.service.ts: what it checks, and what a
-- repeated call is answered.
use mathlib.Core.Path.{subst}
use president_tech_award_e_s.Prelude.{
  ℕ, ◌-◌, ◌≤◌, ◌≡◌, refl, ◌∙◌, ap, ◌⊎◌, inl, inr, Bool, true, false, Option, none, some, ◌==◌, leb,
  arith, update_where, Bool-cases,
}
use president_tech_award_e_s.Calendar.{Instant}
use president_tech_award_e_s.Billing.Store.{
  Key, PaymentStatus, Payment, Db, is_row, is_pending, is_taken, find_payment, opt_eq,
}
use president_tech_award_e_s.Billing.Service.{is_set, attach_provider_txn}
use president_tech_award_e_s.Billing.Payme.Protocol.{PaymeState, PaymeError, transaction_timeout_ms}
use president_tech_award_e_s.Billing.Payme.Request.{
  Number, finite, not_finite, Value, text, number, other, PaymeParams, ok, Method, ◌>>=◌, ◌>>◌,
  require, by_account, require_string, require_number, amount_matches, date_of, time_of,
  require_payable, require_amount, require_not_timed_out,
}
use president_tech_award_e_s.Billing.Payme.Methods.{
  CreateResult, create_again, create_attach, create_for, create_transaction,
}
use president_tech_award_e_s.Billing.Payme.Lookup.{continue-eq-ok}
use president_tech_award_e_s.Billing.Payme.Lookup.Account.{by_account_then}

-- What the write of a fresh transaction does to its row.
abbrev pub attach : Key → Instant → Payment → Payment
attach txn at q = record q { provider_txn_id = some txn; provider_created_at = some at }

abbrev pub attached : Key → Key → Key → Instant → Db → Db
attached tenant id txn at db = record db {
  payments = update_where (is_row tenant id) (attach txn at) db.payments;
}

-- A result repeats the transaction that the payment has, or opens one on a payment that has none.
abbrev pub Repeats : Key → Instant → Payment → CreateResult → Type 0
Repeats txn now p r =
    (at : Instant) × (is_set p.provider_txn_id ≡ true)
    × (opt_eq p.provider_txn_id txn ≡ true)
    × (p.provider_created_at ≡ some at)
    × (now - at ≤ transaction_timeout_ms)
    × (r.create_time ≡ time_of at)

abbrev pub Opens : Number → Value → Instant → Payment → CreateResult → Type 0
Opens time amount now p r =
    (is_set p.provider_txn_id ≡ false)
    × (p.status ≡ PaymentStatus.pending)
    × (amount_matches amount p.amount_tiyin ≡ true)
    × (now - date_of time ≤ transaction_timeout_ms)
    × (r.create_time ≡ time)

again_cases :
    (b : Bool) (o : Option Instant) (id : Key) (now : Instant) (db : Db) {r : CreateResult}
    {db' : Db}
    → create_again b o id now db ≡ (ok r, db')
    → (at : Instant) × (b ≡ true)
      × (o ≡ some at)
      × (now - at ≤ transaction_timeout_ms)
      × (r ≡ record { create_time = time_of at; transaction = id; state = PaymeState.created })
      × (db' ≡ db)
unfolding create_again
again_cases true (some at) id now db h = (at, refl, refl, ground arith, ground arith, ground arith)
again_cases true none id now db h = cc
again_cases false o id now db h = cc

attach_cases :
    (tenant id txn : Key) (time : Number) (db : Db) {p : Payment} {r : CreateResult} {db' : Db}
    → find_payment tenant id db ≡ some p
    → create_attach tenant id txn time db ≡ (ok r, db')
    → (is_taken id p.provider txn db.payments ≡ false)
      × (r ≡ record { create_time = time; transaction = id; state = PaymeState.created })
      × (db' ≡ attached tenant id txn (date_of time) db)
unfolding create_attach attach_provider_txn
attach_cases tenant id txn time db {p} {r} {db'} found h =
    elim (Bool-cases (is_taken id p.provider txn db.payments)) [
      | inl taken ↦ absurd (ground arith)
      | inr free ↦ (free, ground arith, ground arith)
    ]

-- Guards that let their method go on.
guards_then :
    {B : Type 0} (a b c : Bool) (e e' e'' : PaymeError) (k : Method B) (db : Db) {r : B} {db' : Db}
    → (require a e >> require b e' >> require c e'' >> k) db ≡ (ok r, db')
    → (a ≡ true) × (b ≡ true) × (c ≡ true) × (k db ≡ (ok r, db'))
guards_then true true true e e' e'' k db h = (refl, refl, refl, h)
guards_then true true false e e' e'' k db h = cc
guards_then true false c e e' e'' k db h = cc
guards_then false b c e e' e'' k db h = cc

pending_status : (s : PaymentStatus) → is_pending s ≡ true → s ≡ PaymentStatus.pending
pending_status PaymentStatus.pending h = refl
pending_status PaymentStatus.paid h = cc
pending_status PaymentStatus.cancelled h = cc

create_for_cases :
    (tenant txn : Key) (time : Number) (amount : Value) (now : Instant) (p : Payment) (db : Db)
    {r : CreateResult} {db' : Db}
    → find_payment tenant p.id db ≡ some p
    → create_for txn time amount now (tenant, p) db ≡ (ok r, db')
    → (r.transaction ≡ p.id)
      × (r.state ≡ PaymeState.created)
      × ((Repeats txn now p r × (db' ≡ db))
          ⊎ (Opens time amount now p r
              × (is_taken p.id p.provider txn db.payments ≡ false)
              × (db' ≡ attached tenant p.id txn (date_of time) db)))
unfolding create_for require_payable require_amount require_not_timed_out
create_for_cases tenant txn time amount now p db {r} {db'} found h =
    elim (Bool-cases (is_set p.provider_txn_id)) [
      | inl named ↦
          let (at, same, made, fresh, answer, kept) =
            again_cases (opt_eq p.provider_txn_id txn) p.provider_created_at p.id now db
              (rw (create_for, named) at h) in
          (
            ap (λ x. x.transaction) answer,
            ap (λ x. x.state) answer,
            inl ((at, named, same, made, fresh, ap (λ x. x.create_time) answer), kept),
          )
      | inr unnamed ↦
          let (payable, exact, fresh, h3) =
            guards_then (is_pending p.status) (amount_matches amount p.amount_tiyin)
              (leb (now - date_of time) transaction_timeout_ms) PaymeError.order_not_payable
              PaymeError.invalid_amount PaymeError.cannot_perform
              (create_attach tenant p.id txn time) db (rw (create_for, unnamed) at h) in
          let (free, answer, kept) = attach_cases tenant p.id txn time db found h3 in
          (
            ap (λ x. x.transaction) answer,
            ap (λ x. x.state) answer,
            inr (
              (
                unnamed,
                pending_status p.status payable,
                exact,
                ground arith,
                ap (λ x. x.create_time) answer,
              ),
              free,
              kept,
            ),
          )
    ]

string_ok :
    (v : Value) (e : PaymeError) (db : Db) {k : Key} {db' : Db}
    → require_string v e db ≡ (ok k, db')
    → (v ≡ text k) × ((k == 0) ≡ false) × (db' ≡ db)
unfolding require_string
string_ok (text j) e db {k} {db'} h = elim (Bool-cases (j == 0)) [
  | inl empty ↦ absurd (ground arith)
  | inr named ↦ (ground arith, ground arith, ground arith)
]
string_ok (number n) e db h = cc
string_ok other e db h = cc

number_ok :
    (v : Value) (e : PaymeError) (db : Db) {n : Number} {db' : Db}
    → require_number v e db ≡ (ok n, db')
    → (v ≡ number n) × ((s : Bool) × (w f : ℕ) × (n ≡ finite s w f)) × (db' ≡ db)
unfolding require_number
number_ok (number (finite s w f)) e db {n} {db'} h =
    (ground arith, (s, w, f, ground arith), ground arith)
number_ok (number not_finite) e db h = cc
number_ok (text k) e db h = cc
number_ok other e db h = cc

-- The start of the method, once the id and the time have been read.
pub create_start :
    (params : PaymeParams) (now : Instant) (txn : Key) (time : Number) (db : Db)
    → require_string params.id PaymeError.invalid_request db ≡ (ok txn, db)
    → require_number params.time PaymeError.invalid_request db ≡ (ok time, db)
    → create_transaction params now db
      ≡ (by_account params >>= create_for txn time params.amount now) db
unfolding create_transaction
create_start params now txn time db h h' = rw (create_transaction, h, h')

-- What a call that returned has read and has found.
abbrev pub Created : PaymeParams → Instant → Db → CreateResult → Db → Type 0
Created params now db r db' =
    (txn : Key) × (time : Number) × (tenant : Key) × (p : Payment) × (params.id ≡ text txn)
    × (params.time ≡ number time)
    × ((txn == 0) ≡ false)
    × ((s : Bool) × (w f : ℕ) × (time ≡ finite s w f))
    × ((by_account params db).0 ≡ ok (tenant, p))
    × (find_payment tenant p.id db ≡ some p)
    × (r.transaction ≡ p.id)
    × (r.state ≡ PaymeState.created)
    × ((Repeats txn now p r × (db' ≡ db))
        ⊎ (Opens time params.amount now p r
            × (is_taken p.id p.provider txn db.payments ≡ false)
            × (db' ≡ attached tenant p.id txn (date_of time) db)))

-- A CreateTransaction that answers with a result has found the tenant's own payment, and either it
-- repeats the transaction that the payment has, not yet twelve hours old, and changes nothing; or the
-- payment had none, was pending and has exactly the amount asked, and the transaction, that no other
-- payment of the provider has, is written to this payment alone.
pub create_checks :
    (params : PaymeParams) (now : Instant) (db : Db) {r : CreateResult} {db' : Db}
    → create_transaction params now db ≡ (ok r, db')
    → Created params now db r db'
unfolding create_transaction
create_checks params now db {r} {db'} h =
    let (txn, db1, e1, h1) =
      continue-eq-ok (require_string params.id PaymeError.invalid_request db)
        (λ txn. require_number params.time PaymeError.invalid_request >>= λ time.
          by_account params >>= create_for txn time params.amount now)
        h in
    let (id_is, named, same1) = string_ok params.id PaymeError.invalid_request db e1 in
    let (time, db2, e2, h2) =
      continue-eq-ok (require_number params.time PaymeError.invalid_request db1)
        (λ time. by_account params >>= create_for txn time params.amount now) h1 in
    let (time_is, finite_time, same2) = number_ok params.time PaymeError.invalid_request db1 e2 in
    let same : db2 ≡ db = same2 ∙ same1 in
    let h3 =
      subst (λ s. (by_account params >>= create_for txn time params.amount now) s ≡ (ok r, db'))
        same h2 in
    let (tenant, p, found, held, done) =
      by_account_then params (create_for txn time params.amount now) db h3 in
    let (is_p, created, how) = create_for_cases tenant txn time params.amount now p db held done in
    (txn, time, tenant, p, id_is, time_is, named, finite_time, found, held, is_p, created, how)
