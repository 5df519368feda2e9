-- ===== src/Billing/Payme/Lookup.antt =====
-- Finding the payment of a transaction again after a write that keeps the identity of every row.
pub mod Account
use mathlib.Core.Path.{subst}
use president_tech_award_e_s.Prelude.{
  ℕ, ◌≡◌, refl, sym, ◌∙◌, ap, Bool, true, false, Option, none, some, List, ◌==◌, arith, find_first,
  update_where, if◌then◌else◌, ◌&&◌, apply_if, map_option, find_first-update_where,
  find_first_holds, Bool-cases, Option-cases, inl, inr,
}
use president_tech_award_e_s.Billing.Store.{
  Key, PaymentProvider, Payment, Tenant, Db, is_row, find_payment, has_txn, provider_eq,
}
use president_tech_award_e_s.Billing.Service.{find, of_provider}
use president_tech_award_e_s.Billing.Payme.Request.{
  Value, text, number, other, PaymeParams, Method, ◌>>=◌, continue, Rpc, ok, refused, failed, Found,
  by_txn_key, by_txn_id, by_txn, found_txn, resolve_by_txn, require_string,
}

-- A write that keeps what tells a row from another.
pub record KeepsIdentity (f : Payment → Payment) : Type 0 where
  pub same_id : (p : Payment) → (f p).id ≡ p.id
  pub same_tenant : (p : Payment) → (f p).tenant_id ≡ p.tenant_id
  pub same_provider : (p : Payment) → (f p).provider ≡ p.provider

-- And a write that keeps the provider's transaction.
abbrev pub KeepsTxn : (Payment → Payment) → Type 0
KeepsTxn f = (p : Payment) → (f p).provider_txn_id ≡ p.provider_txn_id

abbrev pub on_found : (Payment → Payment) → Rpc Found → Rpc Found
on_found g (ok (tenant, p)) = ok (tenant, g p)
on_found g (refused e) = refused e
on_found g failed = failed

by_txn_key_pure : (txn : Key) (db : Db) → (by_txn_key txn db).1 ≡ db
unfolding by_txn_key
by_txn_key_pure txn db = ground arith

-- The lookup changes nothing.
by_txn_id_pure : (id : Value) (db : Db) → (by_txn_id id db).1 ≡ db
unfolding by_txn_id
by_txn_id_pure (text k) db = ground (arith, by_txn_key_pure k db)
by_txn_id_pure (number n) db = refl
by_txn_id_pure other db = refl

module _ (c : Payment → Bool) (f : Payment → Payment) (keeps : KeepsIdentity f) (db : Db)
    (tenants : List Tenant) where
  abbrev pub written : Db
  written = record { payments = update_where c f db.payments; tenants = tenants }

  txn_again :
      KeepsTxn f
      → (txn : Key)
      → find_first (has_txn PaymentProvider.payme txn) written.payments
        ≡ map_option (apply_if c f) (find_first (has_txn PaymentProvider.payme txn) db.payments)
  txn_again same_txn txn =
      find_first-update_where (has_txn PaymentProvider.payme txn) c f db.payments
        (λ p. rw (keeps.same_provider p, same_txn p))

  row_again :
      (tenant id : Key)
      → find_payment tenant id written ≡ map_option (apply_if c f) (find_payment tenant id db)
  row_again tenant id =
      find_first-update_where (is_row tenant id) c f db.payments
        (λ p. rw (keeps.same_id p, keeps.same_tenant p))

  pub find_again :
      (tenant id : Key) (provider : PaymentProvider)
      → find tenant id provider written ≡ map_option (apply_if c f) (find tenant id provider db)
  unfolding find
  find_again tenant id provider = elim (Option-cases (find_payment tenant id db)) [
    | inl missing ↦ rw (find, row_again tenant id, missing)
    | inr (p, found) ↦ rw (find, row_again tenant id, found) (ground (arith, keeps.same_provider p))
  ]

  pub kept_tenant : (p : Payment) → (apply_if c f p).tenant_id ≡ p.tenant_id
  kept_tenant p = ground (arith, keeps.same_tenant p)

  kept_id : (p : Payment) → (apply_if c f p).id ≡ p.id
  kept_id p = ground (arith, keeps.same_id p)

  resolve_again :
      KeepsTxn f
      → (txn : Key)
      → resolve_by_txn PaymentProvider.payme txn written
        ≡ resolve_by_txn PaymentProvider.payme txn db
  unfolding resolve_by_txn
  resolve_again same_txn txn =
      elim (Option-cases (find_first (has_txn PaymentProvider.payme txn) db.payments)) [
        | inl missing ↦ rw (resolve_by_txn, txn_again same_txn txn, missing)
        | inr (p, e) ↦ rw (resolve_by_txn, txn_again same_txn txn, e, kept_tenant p, kept_id p)
      ]

  by_txn_key_again :
      KeepsTxn f
      → (txn : Key) → (by_txn_key txn written).0 ≡ on_found (apply_if c f) (by_txn_key txn db).0
  unfolding by_txn_key
  by_txn_key_again same_txn txn =
      elim (Option-cases (resolve_by_txn PaymentProvider.payme txn db)) [
        | inl missing ↦ rw (resolve_again same_txn txn, missing)
        | inr ((tenant, id), e) ↦
            rw (resolve_again same_txn txn, e)
              (ground (arith, find_again tenant id PaymentProvider.payme))
      ]

  by_txn_id_again :
      KeepsTxn f
      → (id : Value) → (by_txn_id id written).0 ≡ on_found (apply_if c f) (by_txn_id id db).0
  unfolding by_txn_id
  by_txn_id_again same_txn (text k) = ground (arith, by_txn_key_again same_txn k)
  by_txn_id_again same_txn (number n) = refl
  by_txn_id_again same_txn other = refl

  -- The transaction's payment is found again, as it was written.
  pub by_txn_again :
      KeepsTxn f
      → (params : PaymeParams)
      → (by_txn params written).0 ≡ on_found (apply_if c f) (by_txn params db).0
  unfolding by_txn
  by_txn_again same_txn params = by_txn_id_again same_txn params.id

of_provider-some :
    (provider : PaymentProvider) (o : Option Payment) {p : Payment}
    → of_provider provider o ≡ some p
    → (o ≡ some p) × (provider_eq p.provider provider ≡ true)
of_provider-some provider none h = cc
of_provider-some provider (some q) h = ground arith

pub by_txn_pure : (params : PaymeParams) (db : Db) → (by_txn params db).1 ≡ db
unfolding by_txn
by_txn_pure params db = by_txn_id_pure params.id db

-- What is found is the tenant's own payment through that provider, as the tables hold it.
pub find_found :
    (tenant id : Key) (provider : PaymentProvider) (db : Db) {p : Payment}
    → find tenant id provider db ≡ some p
    → (find_payment tenant p.id db ≡ some p) × (provider_eq p.provider provider ≡ true)
unfolding find
find_found tenant id provider db {p} h =
    let (e, mine) = of_provider-some provider (find_payment tenant id db) h in
    let held = find_first_holds (is_row tenant id) db.payments e in
    let same : p.id ≡ id = ground arith in
    (subst (λ k. find_payment tenant k db ≡ some p) (sym same) e, mine)

found_txn_found :
    (o : Option (Key × Key)) (db : Db) {tenant : Key} {p : Payment}
    → found_txn o db ≡ some (tenant, p)
    → find_payment tenant p.id db ≡ some p
found_txn_found none db h = cc
found_txn_found (some (t, id)) db {tenant} {p} h =
    elim (Option-cases (find t id PaymentProvider.payme db)) [
      | inl missing ↦ ground arith
      | inr (q, e) ↦ ground (arith, find_found t id PaymentProvider.payme db {p = q} e)
    ]

by_txn_id_found :
    (id : Value) (db : Db) {tenant : Key} {p : Payment}
    → (by_txn_id id db).0 ≡ ok (tenant, p)
    → find_payment tenant p.id db ≡ some p
unfolding by_txn_id by_txn_key
by_txn_id_found (text k) db {tenant} {p} h =
    elim (Option-cases (found_txn (resolve_by_txn PaymentProvider.payme k db) db)) [
      | inl missing ↦ ground arith
      | inr (q, e) ↦ ground (
        arith,
        found_txn_found (resolve_by_txn PaymentProvider.payme k db) db {tenant = tenant} {p = p},
      )
    ]
by_txn_id_found (number n) db h = cc
by_txn_id_found other db h = cc

-- A transaction is answered for a payment that its own tenant's tables hold.
pub by_txn_found :
    (params : PaymeParams) (db : Db) {tenant : Key} {p : Payment}
    → (by_txn params db).0 ≡ ok (tenant, p)
    → find_payment tenant p.id db ≡ some p
unfolding by_txn
by_txn_found params db h = by_txn_id_found params.id db h

-- Inversion of a chain of two steps that returned.
pub continue-eq-ok :
    {A B : Type 0} (step : Rpc A × Db) (f : A → Method B) {b : B} {db' : Db}
    → continue step f ≡ (ok b, db')
    → (a : A) × (mid : Db) × (step ≡ (ok a, mid)) × (f a mid ≡ (ok b, db'))
continue-eq-ok (ok a, mid) f h = (a, mid, refl, h)
continue-eq-ok (refused x, mid) f h = cc
continue-eq-ok (failed, mid) f h = cc

-- A method that begins with the lookup and returned, worked on the payment that was found.
pub by_txn_then :
    {B : Type 0} (params : PaymeParams) (f : Found → Method B) (db : Db) {b : B} {db' : Db}
    → (by_txn params >>= f) db ≡ (ok b, db')
    → (tenant : Key) × (p : Payment) × ((by_txn params db).0 ≡ ok (tenant, p))
      × (find_payment tenant p.id db ≡ some p)
      × (f (tenant, p) db ≡ (ok b, db'))
by_txn_then params f db {b} {db'} h =
    let ((tenant, p), mid, found, rest) = continue-eq-ok (by_txn params db) f h in
    let here : (by_txn params db).0 ≡ ok (tenant, p) = ap (λ s. s.0) found in
    let same : db ≡ mid = sym (by_txn_pure params db) ∙ ap (λ s. s.1) found in
    (
      tenant,
      p,
      here,
      by_txn_found params db here,
      subst (λ s. f (tenant, p) s ≡ (ok b, db')) (sym same) rest,
    )

-- The method, where the lookup finds a payment.
pub by_txn_start :
    {B : Type 0} (params : PaymeParams) (f : Found → Method B) (db : Db) {found : Found}
    → (by_txn params db).0 ≡ ok found
    → (by_txn params >>= f) db ≡ f found db
by_txn_start params f db h = ap (λ s. continue s f) (λ i. (h i, by_txn_pure params db i))
