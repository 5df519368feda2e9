-- ===== src/Billing/Payme/Repeat.antt =====
-- A `createTransaction` call that is repeated: apps/api/src/modules/billing/payme.service.ts.
use president_tech_award_e_s.Prelude.{
  ℕ, ◌-◌, ◌≤◌, ◌≡◌, refl, sym, ◌∙◌, ap, inl, inr, Bool, true, false, some, ◌==◌, arith,
  find_first_holds,
}
use mathlib.Core.Path.{subst}
use president_tech_award_e_s.Calendar.{Instant}
use president_tech_award_e_s.Billing.Store.{Key, Payment, Db, is_row, find_payment, opt_eq}
use president_tech_award_e_s.Billing.Service.{is_set}
use president_tech_award_e_s.Billing.Payme.Protocol.{PaymeState, PaymeError, transaction_timeout_ms}
use president_tech_award_e_s.Billing.Payme.Request.{
  Number, finite, not_finite, Value, text, number, PaymeParams, ok, by_account, require_string,
  require_number, date_of, time_of, require_not_timed_out,
}
use president_tech_award_e_s.Billing.Payme.Methods.{
  CreateResult, create_again, create_for, create_transaction,
}
use president_tech_award_e_s.Billing.Payme.Lookup.{KeepsIdentity}
use president_tech_award_e_s.Billing.Payme.Lookup.Account.{by_account_again, by_account_start}
use president_tech_award_e_s.Billing.Payme.Create.{create_start, create_checks, attach, attached}

-- A payment that has the transaction, made recently, is answered with it whatever else it says.
pub again_fresh :
    (txn : Key) (time : Number) (amount : Value) (later at : Instant) (tenant : Key) (p : Payment)
    (db : Db)
    → is_set p.provider_txn_id ≡ true
    → opt_eq p.provider_txn_id txn ≡ true
    → p.provider_created_at ≡ some at
    → later - at ≤ transaction_timeout_ms
    → create_for txn time amount later (tenant, p) db ≡ (
      ok (record { create_time = time_of at; transaction = p.id; state = PaymeState.created }),
      db,
    )
unfolding create_for create_again require_not_timed_out
again_fresh txn time amount later at tenant p db named same made fresh =
    rw (create_for, named, same, made, create_again) (ground arith)

start_text :
    (v : Value) (txn : Key) (e : PaymeError) (db : Db)
    → v ≡ text txn
    → (txn == 0) ≡ false
    → require_string v e db ≡ (ok txn, db)
unfolding require_string
start_text v txn e db h named = rw (h, named)

start_number :
    (v : Value) (n : Number) (e : PaymeError) (db : Db)
    → v ≡ number n
    → ((s : Bool) × (w f : ℕ) × (n ≡ finite s w f))
    → require_number v e db ≡ (ok n, db)
unfolding require_number
start_number v n e db h (s, w, f, is_finite) = rw (h, is_finite)

answer_eq :
    (r : CreateResult) (id : Key) (at : Instant)
    → r.transaction ≡ id
    → r.create_time ≡ time_of at
    → r.state ≡ PaymeState.created
    → record { create_time = time_of at; transaction = id; state = PaymeState.created } ≡ r
answer_eq r id at e f g =
    λ i. record { create_time = sym f i; transaction = sym e i; state = sym g i }

attaching_keeps : (txn : Key) (at : Instant) → KeepsIdentity (attach txn at)
attaching_keeps txn at = record {
  same_id = λ _. refl;
  same_tenant = λ _. refl;
  same_provider = λ _. refl;
}

whole : Number → ℕ
whole (finite s w f) = w
whole not_finite = 0

same_time : {a b : Instant} → time_of a ≡ time_of b → a ≡ b
unfolding whole
same_time h = ap whole h

date_of_time : {n : Number} {at : Instant} → n ≡ time_of at → date_of n ≡ at
unfolding date_of
date_of_time h = ap date_of h

-- After the write the order is found again, with its transaction.
found_attached :
    (params : PaymeParams) (txn : Key) (at : Instant) (db : Db) (tenant : Key) (p : Payment)
    → (by_account params db).0 ≡ ok (tenant, p)
    → find_payment tenant p.id db ≡ some p
    → (by_account params (attached tenant p.id txn at db)).0 ≡ ok (tenant, attach txn at p)
found_attached params txn at db tenant p found held =
    let claim : is_row tenant p.id p ≡ true =
      find_first_holds (is_row tenant p.id) db.payments held in
    by_account_again (is_row tenant p.id) (attach txn at) (attaching_keeps txn at) db db.tenants
      params
    ∙ rw (found, claim)

-- Payme repeats CreateTransaction until it gets an answer: once a call has answered with a result, the
-- same call at any later time, up to twelve hours after the creation time that it answered, gives the
-- same result and changes nothing.
pub create_again-eq :
    (params : PaymeParams) (now later at : Instant) (db : Db) {r : CreateResult} {db' : Db}
    → create_transaction params now db ≡ (ok r, db')
    → r.create_time ≡ time_of at
    → later - at ≤ transaction_timeout_ms
    → create_transaction params later db' ≡ (ok r, db')
create_again-eq params now later at db {r} {db'} h asked fresh =
    let (txn, time, tenant, p, id_is, time_is, named, is_finite, found, held, is_p, created, how) =
      create_checks params now db h in
    let start = λ (s : Db).
      create_start params later txn time s
        (start_text params.id txn PaymeError.invalid_request s id_is named)
        (start_number params.time time PaymeError.invalid_request s time_is is_finite) in
    elim how [
      | inl ((old, has, same, made, _, told), same_db) ↦
          subst (λ s. create_transaction params later s ≡ (ok r, s)) (sym same_db)
            (start db
              ∙ by_account_start params (create_for txn time params.amount later) db found
              ∙ again_fresh txn time params.amount later at tenant p db has same
                  (made ∙ ap some (same_time (sym told ∙ asked))) fresh
              ∙ ap (λ a. (ok a, db)) (answer_eq r p.id at is_p asked created))
      | inr ((_, _, _, _, told), _, same_db) ↦
          let is_at : date_of time ≡ at = date_of_time (sym told ∙ asked) in
          let at' = date_of time in
          subst (λ s. create_transaction params later s ≡ (ok r, s)) (sym same_db)
            (start (attached tenant p.id txn at' db)
              ∙ by_account_start params (create_for txn time params.amount later)
                  (attached tenant p.id txn at' db)
                  (found_attached params txn at' db tenant p found held)
              ∙ again_fresh txn time params.amount later at' tenant (attach txn at' p)
                  (attached tenant p.id txn at' db) (ground arith) (ground arith) refl
                  (ground arith)
              ∙ ap (λ a. (ok a, attached tenant p.id txn at' db))
                  (answer_eq r p.id at' is_p (asked ∙ ap time_of (sym is_at)) created))
    ]
