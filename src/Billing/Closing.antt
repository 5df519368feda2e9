-- ===== src/Billing/Closing.antt =====
-- What `cancel` writes: apps/api/src/modules/billing/billing.service.ts.

use president_tech_award_e_s.Prelude.{
  ◌≡◌, refl, ◌⊎◌, inl, inr, Bool, true, false, Option, some, List, All, arith, update_where,
  count_where, if◌then◌else◌, ◌||◌, count_where_unique, find_first-update_where, All-update_where,
  find_first_holds,
}
use president_tech_award_e_s.Prelude.Int.{ℤ}
use president_tech_award_e_s.Calendar.{Instant}
use president_tech_award_e_s.Billing.Store.{
  Key, PaymentStatus, Payment, Tenant, Db, is_row, find_payment, is_pending, is_paid,
}
use president_tech_award_e_s.Billing.Service.{cancel, revoke, is_reversible, mark_cancelled}
use president_tech_award_e_s.Billing.Validity.{IsValid, IsRow, MatchesStatus, WasPaid, NeverPaid}
use president_tech_award_e_s.Billing.Activation.{is_row-keyed}

abbrev pub is_open : PaymentStatus → Bool
is_open s = is_pending s || is_paid s

abbrev pub closed_rows : Key → Key → Option ℤ → Instant → List Payment → List Payment
closed_rows tenant id reason now =
    update_where (is_reversible tenant id) (mark_cancelled reason now)

-- Every payment was either never paid or paid for a period.
pub payment_history :
    (s : PaymentStatus) (q : Payment) → MatchesStatus s q → NeverPaid q ⊎ WasPaid q
payment_history PaymentStatus.pending q m = inl m.0
payment_history PaymentStatus.paid q m = inr m.0
payment_history PaymentStatus.cancelled q m = m.1

pub still_known :
    (reason : Option ℤ) (now : Instant) (q : Payment)
    → NeverPaid q ⊎ WasPaid q
    → NeverPaid (mark_cancelled reason now q) ⊎ WasPaid (mark_cancelled reason now q)
still_known reason now q (inl never) =
    inl (record { no_paid_at = never.no_paid_at; no_start = never.no_start; no_end = never.no_end })
still_known reason now q (inr bought) = inr bought

module _ (tenant id : Key) (reason : Option ℤ) (now : Instant) (db : Db) (valid : IsValid db)
    {p : Payment} (found : find_payment tenant id db ≡ some p) where
  pub claims :
      count_where (is_reversible tenant id) db.payments ≡ (if is_open p.status then 1 else 0)
  claims =
      count_where_unique Payment.id id (is_row tenant id) (λ q. is_open q.status) db.payments
        valid.unique_payments (is_row-keyed tenant id) found

  -- A cancelled payment is left alone.
  pub cancel_closed : is_open p.status ≡ false → cancel tenant id reason now db ≡ some db
  unfolding cancel
  cancel_closed over = ground (arith, claims)

  abbrev pub closed : Db
  closed = record db { payments = closed_rows tenant id reason now db.payments }

  pub closed_row :
      is_open p.status ≡ true → find_payment tenant id closed ≡ some (mark_cancelled reason now p)
  closed_row waiting =
      let holds = find_first_holds (is_row tenant id) db.payments found in
      let claim : is_reversible tenant id p ≡ true = ground arith in
      rw (
        find_first-update_where (is_row tenant id) (is_reversible tenant id)
            (mark_cancelled reason now) db.payments (λ _. refl),
        found,
        claim,
      )

  pub cancel_open :
      {db' : Db}
      → is_open p.status ≡ true
      → revoke tenant p.period_start p.period_end closed ≡ some db'
      → cancel tenant id reason now db ≡ some db'
  unfolding cancel
  cancel_open {db'} waiting done =
      let some_claim : count_where (is_reversible tenant id) db.payments ≡ 1 =
        ground (arith, claims) in
      rw (some_claim, closed_row waiting) done

  pub cancelled-IsRow :
      (tenants : List Tenant) (q : Payment)
      → IsRow tenants q
      → is_reversible tenant id q ≡ true
      → IsRow tenants (mark_cancelled reason now q)
  cancelled-IsRow tenants q row claimed = record {
    positive = row.positive;
    some_month = row.some_month;
    has_tenant = row.has_tenant;
    matches = ((now, refl), still_known reason now q (payment_history q.status q row.matches));
  }

  pub closed_rows_ok : All (IsRow db.tenants) closed.payments
  closed_rows_ok =
      All-update_where (IsRow db.tenants) (is_reversible tenant id) (mark_cancelled reason now)
        db.payments (cancelled-IsRow db.tenants) valid.rows
