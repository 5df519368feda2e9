-- ===== src/Billing/Payme/Stale.antt =====
-- Answers of apps/api/src/modules/billing/payme.service.ts that the tables do not bear out.
use president_tech_award_e_s.Prelude.{
  ◌-◌, ◌≤◌, ◌≡◌, refl, ap, ◌∙◌, true, false, some, arith, ==_iff,
}
use president_tech_award_e_s.Calendar.{Instant}
use president_tech_award_e_s.Billing.Store.{
  Key, PaymentStatus, Payment, Db, is_pending, find_payment, opt_eq,
}
use president_tech_award_e_s.Billing.Service.{is_set}
use president_tech_award_e_s.Billing.Validity.{IsValid}
use president_tech_award_e_s.Billing.Activation.{activate_settled}
use president_tech_award_e_s.Billing.Payme.Protocol.{PaymeState, transaction_timeout_ms}
use president_tech_award_e_s.Billing.Settlement.{activate_grants}
use president_tech_award_e_s.Billing.Period.{granted_period}
use president_tech_award_e_s.Billing.Payme.Request.{
  Number, Value, ok, time_of, require_not_timed_out,
}
use president_tech_award_e_s.Billing.Payme.Methods.{
  create_for, perform_settle, perform_for, check_result, state_of,
}
use president_tech_award_e_s.Billing.Payme.Repeat.{again_fresh}

-- The write of PerformTransaction answers that the payment was performed at its own time even where,
-- on valid tables, another call has settled or cancelled the payment since it was read: it then changes
-- nothing.
pub perform_settle_stale :
    (tenant id : Key) (now : Instant) (db : Db) {p : Payment}
    → IsValid db
    → find_payment tenant id db ≡ some p
    → is_pending p.status ≡ false
    → perform_settle tenant id now db
      ≡ (ok (record { transaction = id; perform_time = now; state = PaymeState.performed }), db)
unfolding perform_settle
perform_settle_stale tenant id now db valid found over =
    rw (perform_settle, activate_settled tenant id now db valid found over)

performs :
    (tenant : Key) (now at : Instant) (p : Payment) (db : Db)
    → p.status ≡ PaymentStatus.pending
    → p.provider_created_at ≡ some at
    → now - at ≤ transaction_timeout_ms
    → perform_for now (tenant, p) db ≡ perform_settle tenant p.id now db
unfolding perform_for require_not_timed_out
performs tenant now at p db waiting made fresh = rw (perform_for, waiting, made) (ground arith)

-- On valid tables, for a payment that is pending and has its transaction: PerformTransaction, within twelve
-- hours of the creation, settles it, and from then on CheckTransaction reports it as performed; but a
-- CreateTransaction repeated for it, again within the twelve hours, still answers that it is created.
pub create_after_perform :
    (txn : Key) (time : Number) (amount : Value) (now later at : Instant) (tenant : Key)
    (p : Payment) (db : Db)
    → IsValid db
    → find_payment tenant p.id db ≡ some p
    → p.status ≡ PaymentStatus.pending
    → p.provider_txn_id ≡ some txn
    → is_set p.provider_txn_id ≡ true
    → p.provider_created_at ≡ some at
    → now - at ≤ transaction_timeout_ms
    → later - at ≤ transaction_timeout_ms
    → (p' : Payment) × (db' : Db) × (perform_for now (tenant, p) db ≡ (
      ok (record { transaction = p.id; perform_time = now; state = PaymeState.performed }),
      db',
    ))
      × (find_payment tenant p.id db' ≡ some p')
      × ((check_result p').state ≡ PaymeState.performed)
      × ((check_result p').perform_time ≡ now)
      × (create_for txn time amount later (tenant, p') db' ≡ (
        ok (record { create_time = time_of at; transaction = p.id; state = PaymeState.created }),
        db',
      ))
unfolding perform_settle check_result state_of
create_after_perform txn time amount now later at tenant p db valid found waiting own named made
      fresh fresh_later =
    let (t, db', _, activated, settled, _, _) =
      activate_grants tenant p.id now db valid found waiting in
    let p' : Payment = record p {
      status = PaymentStatus.paid;
      paid_at = some now;
      period_start = some (granted_period t.paid_until p.months now).0;
      period_end = some (granted_period t.paid_until p.months now).1;
    } in
    (
      p',
      db',
      performs tenant now at p db waiting made fresh ∙ rw (perform_settle, activated) refl,
      settled,
      refl,
      refl,
      again_fresh txn time amount later at tenant p' db' named
          (ap (λ o. opt_eq o txn) own ∙ (==_iff txn txn).1 refl) made fresh_later,
    )
