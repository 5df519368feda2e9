-- ===== src/Billing/Revocation.antt =====
-- What `cancel` of apps/api/src/modules/billing/billing.service.ts does to the workspace.

use president_tech_award_e_s.Prelude.{
  ◌≡◌, refl, ◌≢◌, inl, inr, Option, none, some, HasUniqueKeys, arith, update_where, if◌then◌else◌,
  find_first-update_where, find_first-update_where_other, find_first_holds,
  HasUniqueKeys-update_where, Bool-cases,
}
use president_tech_award_e_s.Calendar.{Instant}
use president_tech_award_e_s.Billing.Store.{
  Key, Payment, Tenant, Db, is_tenant, find_tenant, opt_eq,
}
use president_tech_award_e_s.Billing.Service.{revoke}
use president_tech_award_e_s.Billing.Validity.{IsRow}
use president_tech_award_e_s.Billing.Settled.{keeps_tenants}

-- The workspace after the reversal of a payment for the period from `start` to `end`.
abbrev pub shortened : Option Instant → Option Instant → Tenant → Tenant
shortened none _ t = t
shortened (some _) none t = t
shortened (some start) (some end) t =
    if opt_eq t.paid_until end then record t { paid_until = some start } else t

-- What `revoke` leaves: the payments, and the workspace shortened.
pub record Revoked (tenant : Key) (t : Tenant) (start end : Option Instant) (db db' : Db)
    : Type 0 where
  pub returned : revoke tenant start end db ≡ some db'
  pub payments_kept : db'.payments ≡ db.payments
  pub tenant_shortened : find_tenant tenant db' ≡ some (shortened start end t)
  pub unique : HasUniqueKeys Tenant.id db'.tenants
  pub rows : (p : Payment) → IsRow db.tenants p → IsRow db'.tenants p
  pub others : (other : Key) → other ≢ tenant → find_tenant other db' ≡ find_tenant other db

pub revoked :
    (tenant : Key) (t : Tenant) (start end : Option Instant) (db : Db)
    → HasUniqueKeys Tenant.id db.tenants
    → find_tenant tenant db ≡ some t
    → (db' : Db) × Revoked tenant t start end db db'
unfolding revoke
revoked tenant t none _ db unique found = (
  db,
  record {
    returned = refl;
    payments_kept = refl;
    tenant_shortened = found;
    unique = unique;
    rows = λ _ r. r;
    others = λ _ _. refl;
  },
)
revoked tenant t (some _) none db unique found = (
  db,
  record {
    returned = refl;
    payments_kept = refl;
    tenant_shortened = found;
    unique = unique;
    rows = λ _ r. r;
    others = λ _ _. refl;
  },
)
revoked tenant t (some start) (some end) db unique found =
    elim (Bool-cases (opt_eq t.paid_until end)) [
      | inr extended ↦ (
        db,
        record {
          returned = rw (revoke, found, extended);
          payments_kept = refl;
          tenant_shortened = rw extended found;
          unique = unique;
          rows = λ _ r. r;
          others = λ _ _. refl;
        },
      )
      | inl last ↦
          let shorten = λ (u : Tenant). record u { paid_until = some start } in
          let hit = find_first_holds (is_tenant tenant) db.tenants found in
          (
            record db { tenants = update_where (is_tenant tenant) shorten db.tenants },
            record {
              returned = rw (revoke, found, last);
              payments_kept = refl;
              tenant_shortened = rw (
                last,
                find_first-update_where (is_tenant tenant) (is_tenant tenant) shorten db.tenants
                    (λ _. refl),
                found,
                hit,
              );
              unique =
                  HasUniqueKeys-update_where Tenant.id (is_tenant tenant) shorten db.tenants
                    (λ _. refl) unique;
              rows = λ p r. keeps_tenants (is_tenant tenant) shorten db.tenants (λ _. refl) p r;
              others = λ other elsewhere.
                  find_first-update_where_other (is_tenant other) (is_tenant tenant) shorten
                    db.tenants (λ q hit. ground arith) (λ q hit. ground arith);
            },
          )
    ]
