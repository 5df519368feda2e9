-- ===== src/Billing/Settlement.antt =====
-- The promises of `activate`: it settles a pending payment once, never throws on valid tables, and
-- keeps them valid.
use president_tech_award_e_s.Prelude.{
  ◌≡◌, refl, sym, ◌∙◌, ap, ◌≢◌, ◌⊎◌, inl, inr, Bool, true, false, Option, none, some, arith,
  find_first-update_where_other, find_first-none, Bool-cases, Option-cases,
}
use mathlib.Core.Path.{subst}
use president_tech_award_e_s.Calendar.{Instant}
use president_tech_award_e_s.Billing.Period.{granted_period}
use president_tech_award_e_s.Billing.Store.{
  Key, PaymentStatus, Payment, Tenant, TenantPlan, Db, is_tenant, is_row, find_payment, find_tenant,
  is_pending,
}
use president_tech_award_e_s.Billing.Service.{activate, is_claimable, mark_paid, set_period, extend}
use president_tech_award_e_s.Billing.Validity.{IsValid}
use president_tech_award_e_s.Billing.Activation.{settled, activate_settled, activate_pending}
use president_tech_award_e_s.Billing.Settled.{
  tenant_of, settled-IsValid, settled_payment, settled_tenant,
}

-- No such payment of this tenant: nothing happens.
pub activate_missing :
    (tenant id : Key) (now : Instant) (db : Db)
    → find_payment tenant id db ≡ none
    → activate tenant id now db ≡ some (false, db)
unfolding activate
activate_missing tenant id now db missing =
    rw (find_first-none (is_row tenant id) (λ q. is_pending q.status) db.payments missing)

-- On valid tables a pending payment that is activated becomes paid at that moment for the period
-- that its months buy, its workspace becomes `pro` until the end of that period, the call reports
-- that it settled the payment, and the tables stay valid.
pub activate_grants :
    (tenant id : Key) (now : Instant) (db : Db) {p : Payment}
    → IsValid db
    → find_payment tenant id db ≡ some p
    → p.status ≡ PaymentStatus.pending
    → (t : Tenant) × (db' : Db) × (find_tenant tenant db ≡ some t)
      × (activate tenant id now db ≡ some (true, db'))
      × (find_payment tenant id db'
          ≡ some (record p {
            status = PaymentStatus.paid;
            paid_at = some now;
            period_start = some (granted_period t.paid_until p.months now).0;
            period_end = some (granted_period t.paid_until p.months now).1;
          }))
      × (find_tenant tenant db'
          ≡ some (record t {
            plan = TenantPlan.pro;
            paid_until = some (granted_period t.paid_until p.months now).1;
          }))
      × IsValid db'
activate_grants tenant id now db {p} valid found status =
    let (t, tenant_found) = tenant_of tenant id db valid found in
    let waiting : is_pending p.status ≡ true = rw status in
    (
      t,
      settled tenant id now p t db,
      tenant_found,
      activate_pending tenant id now db valid found tenant_found waiting,
      settled_payment tenant id now db valid found t waiting,
      settled_tenant tenant id now db valid found t tenant_found,
      settled-IsValid tenant id now db valid found t,
    )

-- What one call of `activate` can come to on valid tables: nothing, now and later, or the one grant.
abbrev Outcome : Key → Key → Instant → Db → Type 0
Outcome tenant id now db =
    ((later : Instant) → activate tenant id later db ≡ some (false, db))
    ⊎ ((p : Payment) × (t : Tenant) × (find_payment tenant id db ≡ some p)
        × (find_tenant tenant db ≡ some t)
        × (is_pending p.status ≡ true)
        × (activate tenant id now db ≡ some (true, settled tenant id now p t db)))

activate-Outcome :
    (tenant id : Key) (now : Instant) (db : Db) → IsValid db → Outcome tenant id now db
activate-Outcome tenant id now db valid = elim (Option-cases (find_payment tenant id db)) [
  | inl missing ↦ inl (λ later. activate_missing tenant id later db missing)
  | inr (p, found) ↦ elim (Bool-cases (is_pending p.status)) [
    | inl waiting ↦
        let (t, tenant_found) = tenant_of tenant id db valid found in
        inr (
          p,
          t,
          found,
          tenant_found,
          waiting,
          activate_pending tenant id now db valid found tenant_found waiting,
        )
    | inr over ↦ inl (λ later. activate_settled tenant id later db valid found over)
  ]
]

-- On valid tables `activate` never throws, and it keeps them valid.
pub activate_total :
    (tenant id : Key) (now : Instant) (db : Db)
    → IsValid db
    → (done : Bool) × (db' : Db) × (activate tenant id now db ≡ some (done, db')) × IsValid db'
activate_total tenant id now db valid = elim (activate-Outcome tenant id now db valid) [
  | inl idle ↦ (false, db, idle now, valid)
  | inr (p, t, found, _, _, e) ↦
      (true, settled tenant id now p t db, e, settled-IsValid tenant id now db valid found t)
]

same_db :
    {d d' : Bool} {a b : Db} → ◌≡◌ {A = Option (Bool × Db)} (some (d, a)) (some (d', b)) → a ≡ b
same_db h = cc

-- Both providers repeat a call that they got no answer to: after `activate` has returned, on valid
-- tables, the same call at any time reports that nothing was left to do, and changes nothing.
pub activate_once :
    (tenant id : Key) (now later : Instant) (db : Db) {done : Bool} {db' : Db}
    → IsValid db
    → activate tenant id now db ≡ some (done, db')
    → activate tenant id later db' ≡ some (false, db')
activate_once tenant id now later db {done} {db'} valid h =
    elim (activate-Outcome tenant id now db valid) [
      | inl idle ↦
          subst (λ s. activate tenant id later s ≡ some (false, s)) (same_db (sym (idle now) ∙ h))
            (idle later)
      | inr (p, t, found, _, waiting, e) ↦
          subst (λ s. activate tenant id later s ≡ some (false, s)) (same_db (sym e ∙ h))
            (activate_settled tenant id later (settled tenant id now p t db)
              (settled-IsValid tenant id now db valid found t)
              (settled_payment tenant id now db valid found t waiting) refl)
    ]

activate_others :
    (tenant id other k : Key) (now : Instant) (db : Db) {done : Bool} {db' : Db}
    → IsValid db
    → activate tenant id now db ≡ some (done, db')
    → (((other ≢ tenant) ⊎ (k ≢ id)) → find_payment other k db' ≡ find_payment other k db)
      × (other ≢ tenant → find_tenant other db' ≡ find_tenant other db)
activate_others tenant id other k now db {done} {db'} valid h =
    elim (activate-Outcome tenant id now db valid) [
      | inl idle ↦
          let same = same_db (sym (idle now) ∙ h) in
          ((λ _. ap (find_payment other k) (sym same)), (λ _. ap (find_tenant other) (sym same)))
      | inr (p, t, found, _, waiting, e) ↦
          let same = same_db (sym e ∙ h) in
          (
            (λ elsewhere.
                ap (find_payment other k) (sym same)
                ∙ find_first-update_where_other (is_row other k) (is_claimable tenant id)
                    (λ q. set_period (granted_period t.paid_until p.months now) (mark_paid now q))
                    db.payments (λ q hit. ground arith) (λ q hit. ground arith)),
            (λ elsewhere.
                ap (find_tenant other) (sym same)
                ∙ find_first-update_where_other (is_tenant other) (is_tenant tenant)
                    (extend (granted_period t.paid_until p.months now).1) db.tenants
                    (λ q hit. ground arith) (λ q hit. ground arith)),
          )
    ]

-- `activate` stays in its workspace: on valid tables another workspace, and every payment of it, is
-- found after the call as it was before.
pub activate_isolated :
    (tenant id other k : Key) (now : Instant) (db : Db) {done : Bool} {db' : Db}
    → IsValid db
    → activate tenant id now db ≡ some (done, db')
    → other ≢ tenant
    → (find_payment other k db' ≡ find_payment other k db)
      × (find_tenant other db' ≡ find_tenant other db)
activate_isolated tenant id other k now db valid h elsewhere =
    let (payments, tenants) = activate_others tenant id other k now db valid h in
    (payments (inl elsewhere), tenants elsewhere)
