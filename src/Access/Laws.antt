-- ===== src/Access/Laws.antt =====
-- What a payment opens, and what the windows let through: apps/api/src/common/trial.ts and
-- rate-limit.ts.
use mathlib.Core.Path.{subst}
use mathlib.Core.Option.{some-injective}
use president_tech_award_e_s.Prelude.{
  ℕ, ◌+◌, ◌≤◌, ◌<◌, ◌≡◌, refl, sym, ◌∙◌, ap, inl, inr, ◌⊎◌, Bool, true, false, some, List, [], ◌∷◌,
  ◌++◌, ltb, leb, length, select, find_first, any, All, arith, Bool-cases, Option-cases,
  All-find_first, All-update_where,
}
use president_tech_award_e_s.Calendar.{Instant}
use president_tech_award_e_s.Billing.Period.{granted_period}
use president_tech_award_e_s.Billing.Store.{
  Key, PaymentStatus, TenantPlan, Payment, Tenant, Db, find_payment, find_tenant,
}
use president_tech_award_e_s.Billing.Service.{activate}
use president_tech_award_e_s.Billing.Validity.{IsValid}
use president_tech_award_e_s.Billing.Settlement.{activate_grants}
use president_tech_award_e_s.Access.Trial.{tenant_access, pro_access, is_locked, state_locked}
use president_tech_award_e_s.Access.RateLimit.{
  Limiter, has_key, hits_of, set_hits, is_recent, sweep, allow,
}

pro_open :
    (trial_ends_at end now : Instant)
    → now < end
    → is_locked (tenant_access TenantPlan.pro trial_ends_at (some end) now) ≡ false
unfolding is_locked tenant_access pro_access state_locked
pro_open trial_ends_at end now h = ground arith

-- A payment that is activated opens the workspace: on valid tables, after `activate` of a pending
-- payment, the workspace is not locked at any moment before the end of the period granted.
pub activate_unlocks :
    (tenant id : Key) (now later : Instant) (db : Db) {p : Payment} {t : Tenant}
    → IsValid db
    → find_payment tenant id db ≡ some p
    → find_tenant tenant db ≡ some t
    → p.status ≡ PaymentStatus.pending
    → later < (granted_period t.paid_until p.months now).1
    → (db' : Db) × (u : Tenant) × (activate tenant id now db ≡ some (true, db'))
      × (find_tenant tenant db' ≡ some u)
      × (is_locked (tenant_access u.plan u.trial_ends_at u.paid_until later) ≡ false)
activate_unlocks tenant id now later db {p} {t} valid found tenant_found pending before =
    let (t', db', same, activated, _, after, _) =
      activate_grants tenant id now db valid found pending in
    let is_t : t ≡ t' = some-injective _ _ (sym tenant_found ∙ same) in
    (
      db',
      _,
      activated,
      after,
      pro_open t'.trial_ends_at _ later
          (subst (λ x. later < (granted_period x.paid_until p.months now).1) is_t before),
    )

-- No key has more recent calls on record than the limit.
abbrev pub IsWithin : Limiter → Type 0
IsWithin l = All (λ entry. length entry.1 ≤ l.max_calls) l.hits

select-le : {A : Type 0} (p : A → Bool) (xs : List A) → length (select p xs) ≤ length xs
select-le p [] = omega arith
select-le p (x ∷ xs) = ground (arith, select-le p xs)

length-snoc : {A : Type 0} (xs : List A) (x : A) → length (xs ++ (x ∷ [])) ≡ length xs + 1
length-snoc [] x = refl
length-snoc (y ∷ xs) x = ground (arith, length-snoc xs x)

abbrev Bounded : ℕ → Key × List Instant → Type 0
Bounded n entry = length entry.1 ≤ n

All-snoc :
    {A : Type 0} (P : A → Type 0) (xs : List A) (x : A) → All P xs → P x → All P (xs ++ (x ∷ []))
All-snoc P [] x h hx = (hx, tt)
All-snoc P (y ∷ ys) x h hx = (h.0, All-snoc P ys x h.1 hx)

All-select :
    {A : Type 0} (P : A → Type 0) (p : A → Bool) (xs : List A) → All P xs → All P (select p xs)
All-select P p [] h = tt
All-select P p (x ∷ xs) h = elim (Bool-cases (p x)) [
  | inl kept ↦ rw kept (h.0, All-select P p xs h.1)
  | inr dropped ↦ rw dropped (All-select P p xs h.1)
]

hits_of-Bounded :
    (n : ℕ) (key : Key) (hits : List (Key × List Instant))
    → All (Bounded n) hits
    → length (hits_of key hits) ≤ n
unfolding hits_of
hits_of-Bounded n key hits h = elim (Option-cases (find_first (has_key key) hits)) [
  | inl missing ↦ rw (hits_of, missing) (omega arith)
  | inr (entry, e) ↦ rw (hits_of, e) (All-find_first (Bounded n) (has_key key) hits h e)
]

set_hits-Bounded :
    (n : ℕ) (key : Key) (times : List Instant) (hits : List (Key × List Instant))
    → All (Bounded n) hits
    → length times ≤ n
    → All (Bounded n) (set_hits key times hits)
unfolding set_hits
set_hits-Bounded n key times hits h fits = elim (Bool-cases (any (has_key key) hits)) [
  | inl old ↦
      rw (set_hits, old)
        (All-update_where (Bounded n) (has_key key) (λ entry. (entry.0, times)) hits
          (λ entry _ _. fits) h)
  | inr new ↦ rw (set_hits, new) (All-snoc (Bounded n) hits (key, times) h fits)
]

sweep-Bounded :
    (n window : ℕ) (now : Instant) (hits : List (Key × List Instant))
    → All (Bounded n) hits
    → All (Bounded n) (sweep window now hits)
unfolding sweep
sweep-Bounded n window now hits h = elim (Bool-cases (ltb 10000 (length hits))) [
  | inl many ↦ rw (sweep, many) (All-select (Bounded n) _ hits h)
  | inr few ↦ rw (sweep, few) h
]

-- A call of `allow` leaves no key with more calls on record than the limit, where none had more
-- before; and if it lets the call through, fewer than the limit of those on record were recent.
pub allow-IsWithin :
    (key : Key) (now : Instant) (l : Limiter) {ok : Bool} {l' : Limiter}
    → IsWithin l
    → allow key now l ≡ (ok, l')
    → IsWithin l'
      × ((ok ≡ false)
          ⊎ (length (select (is_recent l.window_ms now) (hits_of key l.hits)) < l.max_calls))
unfolding allow
allow-IsWithin key now l {ok} {l'} within h =
    let recent = select (is_recent l.window_ms now) (hits_of key l.hits) in
    let small : length recent ≤ l.max_calls = omega (
      arith,
      select-le (is_recent l.window_ms now) (hits_of key l.hits),
      hits_of-Bounded l.max_calls key l.hits within,
    ) in
    elim (Bool-cases (leb l.max_calls (length recent))) [
      | inl full ↦
          let e : (false, record l { hits = set_hits key recent l.hits }) ≡ (ok, l') =
            rw (allow, full) at h in
          (
            subst IsWithin (ap (λ x. x.1) e)
                (set_hits-Bounded l.max_calls key recent l.hits within small),
            inl (sym (ap (λ x. x.0) e)),
          )
      | inr room ↦
          let fits : length recent < l.max_calls = ground arith in
          let e : (
            true,
            record l { hits = sweep l.window_ms now (set_hits key (recent ++ (now ∷ [])) l.hits) },
          )
              ≡ (ok, l') =
            rw (allow, room) at h in
          (
            subst IsWithin (ap (λ x. x.1) e) (
                sweep-Bounded l.max_calls l.window_ms now
                  (set_hits key (recent ++ (now ∷ [])) l.hits)
                  (set_hits-Bounded l.max_calls key (recent ++ (now ∷ [])) l.hits within
                    (omega (arith, length-snoc recent now, fits)))),
            inr fits,
          )
    ]
