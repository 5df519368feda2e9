-- ===== src/Billing/Payme/Lookup/Account.antt =====
-- The lookup by account, `byAccount` of apps/api/src/modules/billing/payme.service.ts, before and
-- after a write that keeps the identity of every row.
use mathlib.Core.Path.{subst}
use president_tech_award_e_s.Prelude.{
  ◌≡◌, refl, sym, ◌∙◌, ap, Bool, Option, none, some, List, ◌==◌, arith, find_first, apply_if,
  find_first-update_where, Bool-cases, Option-cases, inl, inr,
}
use president_tech_award_e_s.Billing.Store.{Key, PaymentProvider, Payment, Tenant, Db, find_payment}
use president_tech_award_e_s.Billing.Service.{find}
use president_tech_award_e_s.Billing.Payme.Request.{
  Value, text, number, other, PaymeParams, Method, continue, ◌>>=◌, ok, Found, find_in, found_order,
  by_account, resolve,
}
use president_tech_award_e_s.Billing.Payme.Lookup.{
  KeepsIdentity, on_found, written, find_again, find_found, continue-eq-ok, kept_tenant,
}

abbrev pub moved : (Payment → Payment) → Option Found → Option Found
moved g none = none
moved g (some (tenant, p)) = some (tenant, g p)

module _ (c : Payment → Bool) (f : Payment → Payment) (keeps : KeepsIdentity f) (db : Db)
    (tenants : List Tenant) where
  pub resolve_again : (id : Key) → resolve id (written c f keeps db tenants) ≡ resolve id db
  unfolding resolve
  resolve_again id =
      let again =
        find_first-update_where (λ p. p.id == id) c f db.payments (λ p. rw (keeps.same_id p)) in
      elim (Option-cases (find_first (λ p. p.id == id) db.payments)) [
        | inl missing ↦ rw (resolve, again, missing)
        | inr (p, e) ↦ rw (resolve, again, e, kept_tenant c f keeps db tenants p)
      ]

  find_in_again :
      (id : Key) (o : Option Key)
      → find_in id o (written c f keeps db tenants) ≡ moved (apply_if c f) (find_in id o db)
  find_in_again id none = refl
  find_in_again id (some tenant) =
      ground (arith, find_again c f keeps db tenants tenant id PaymentProvider.payme)

  found_order_again :
      (o : Option Value)
      → found_order o (written c f keeps db tenants) ≡ moved (apply_if c f) (found_order o db)
  found_order_again none = refl
  found_order_again (some (text id)) = elim (Bool-cases (id == 0)) [
    | inl empty ↦ rw empty
    | inr named ↦ rw (named, resolve_again id) (find_in_again id (resolve id db))
  ]
  found_order_again (some (number n)) = refl
  found_order_again (some other) = refl

  -- The order is found again, as it was written.
  pub by_account_again :
      (params : PaymeParams)
      → (by_account params (written c f keeps db tenants)).0
        ≡ on_found (apply_if c f) (by_account params db).0
  unfolding by_account
  by_account_again params = ground (arith, found_order_again params.account)

pub by_account_pure : (params : PaymeParams) (db : Db) → (by_account params db).1 ≡ db
unfolding by_account
by_account_pure params db = ground arith

find_in_found :
    (id : Key) (o : Option Key) (db : Db) {tenant : Key} {p : Payment}
    → find_in id o db ≡ some (tenant, p)
    → find_payment tenant p.id db ≡ some p
find_in_found id none db h = cc
find_in_found id (some t) db {tenant} {p} h =
    elim (Option-cases (find t id PaymentProvider.payme db)) [
      | inl missing ↦ ground arith
      | inr (q, e) ↦ ground (arith, find_found t id PaymentProvider.payme db {p = q} e)
    ]

found_order_found :
    (o : Option Value) (db : Db) {tenant : Key} {p : Payment}
    → found_order o db ≡ some (tenant, p)
    → find_payment tenant p.id db ≡ some p
found_order_found none db h = cc
found_order_found (some (text id)) db {tenant} {p} h = elim (Bool-cases (id == 0)) [
  | inl empty ↦ ground arith
  | inr named ↦ find_in_found id (resolve id db) db (rw named at h)
]
found_order_found (some (number n)) db h = cc
found_order_found (some other) db h = cc

-- An order is answered for a payment that its own tenant's tables hold.
pub by_account_found :
    (params : PaymeParams) (db : Db) {tenant : Key} {p : Payment}
    → (by_account params db).0 ≡ ok (tenant, p)
    → find_payment tenant p.id db ≡ some p
unfolding by_account
by_account_found params db {tenant} {p} h = elim (Option-cases (found_order params.account db)) [
  | inl missing ↦ ground arith
  | inr (q, e) ↦ ground (arith, found_order_found params.account db {tenant = tenant} {p = p})
]

-- The method, where the order is found.
pub by_account_start :
    {B : Type 0} (params : PaymeParams) (f : Found → Method B) (db : Db) {found : Found}
    → (by_account params db).0 ≡ ok found
    → (by_account params >>= f) db ≡ f found db
by_account_start params f db h = ap (λ s. continue s f) (λ i. (h i, by_account_pure params db i))

-- A method that begins with the lookup and returned, worked on the order that was found.
pub by_account_then :
    {B : Type 0} (params : PaymeParams) (f : Found → Method B) (db : Db) {b : B} {db' : Db}
    → (by_account params >>= f) db ≡ (ok b, db')
    → (tenant : Key) × (p : Payment) × ((by_account params db).0 ≡ ok (tenant, p))
      × (find_payment tenant p.id db ≡ some p)
      × (f (tenant, p) db ≡ (ok b, db'))
by_account_then params f db {b} {db'} h =
    let ((tenant, p), mid, found, rest) = continue-eq-ok (by_account params db) f h in
    let here : (by_account params db).0 ≡ ok (tenant, p) = ap (λ s. s.0) found in
    let same : db ≡ mid = sym (by_account_pure params db) ∙ ap (λ s. s.1) found in
    (
      tenant,
      p,
      here,
      by_account_found params db here,
      subst (λ s. f (tenant, p) s ≡ (ok b, db')) (sym same) rest,
    )
