-- ===== src/Access/Entry.antt =====
-- Whom the guard lets through: apps/api/src/common/policy.ts.
use president_tech_award_e_s.Prelude.{
  ◌<◌, ◌≡◌, refl, inl, inr, ◌⊎◌, Bool, true, false, Option, none, some, arith, Bool-cases,
  Option-cases,
}
use president_tech_award_e_s.Calendar.{Instant}
use president_tech_award_e_s.Billing.Store.{TenantPlan}
use president_tech_award_e_s.Billing.Payme.Protocol.{Text, is_empty}
use president_tech_award_e_s.Access.Trial.{
  tenant_access, pro_access, trial_access, is_locked, state_locked,
}
use president_tech_award_e_s.Access.Claims.{MembershipRole, role_satisfies, VerifiedIdentity}
use president_tech_award_e_s.Access.Policy.{
  PolicyName, Request, Entitlement, Auth, Decision, Windows, Secrets, Services, is_paid_up,
  check_session, can_activate,
}

-- The workspace is in its trial, or in time that was paid for or granted without an end.
abbrev pub IsOpen : Entitlement → Instant → Type 0
IsOpen e now =
    ((e.plan ≡ TenantPlan.trial) × (now < e.trial_ends_at))
    ⊎ ((e.plan ≡ TenantPlan.pro)
        × ((e.paid_until ≡ none) ⊎ ((t : Instant) × (e.paid_until ≡ some t) × (now < t))))

-- The handler is open to locked workspaces, or the workspace has no entitlement on record, or an open
-- one.
abbrev pub MayEnter : Option Entitlement → Bool → Instant → Type 0
MayEnter entitlement allow_when_locked now =
    (allow_when_locked ≡ true)
    ⊎ ((entitlement ≡ none) ⊎ ((e : Entitlement) × (entitlement ≡ some e) × IsOpen e now))

trial_unlocked :
    (trial_ends_at now : Instant) (paid_until : Option Instant)
    → is_locked (tenant_access TenantPlan.trial trial_ends_at paid_until now) ≡ false
    → now < trial_ends_at
unfolding is_locked tenant_access trial_access state_locked
trial_unlocked trial_ends_at now paid_until h = ground arith

pro_unlocked :
    (trial_ends_at now : Instant) (paid_until : Option Instant)
    → is_locked (tenant_access TenantPlan.pro trial_ends_at paid_until now) ≡ false
    → (paid_until ≡ none) ⊎ ((t : Instant) × (paid_until ≡ some t) × (now < t))
unfolding is_locked tenant_access pro_access state_locked
pro_unlocked trial_ends_at now none h = inl refl
pro_unlocked trial_ends_at now (some t) h = inr (t, refl, ground arith)

unlocked-IsOpen :
    (plan : TenantPlan) (e : Entitlement) (now : Instant)
    → e.plan ≡ plan
    → is_locked (tenant_access plan e.trial_ends_at e.paid_until now) ≡ false
    → IsOpen e now
unlocked-IsOpen TenantPlan.trial e now is_plan h =
    inl (is_plan, trial_unlocked e.trial_ends_at now e.paid_until h)
unlocked-IsOpen TenantPlan.pro e now is_plan h =
    inr (is_plan, pro_unlocked e.trial_ends_at now e.paid_until h)

is_paid_up-MayEnter :
    (entitlement : Option Entitlement) (allow_when_locked : Bool) (now : Instant)
    → is_paid_up entitlement allow_when_locked now ≡ Decision.allowed
    → MayEnter entitlement allow_when_locked now
is_paid_up-MayEnter none allow_when_locked now h = inr (inl refl)
is_paid_up-MayEnter (some e) true now h = inl refl
is_paid_up-MayEnter (some e) false now h =
    inr (inr (e, refl, unlocked-IsOpen e.plan e now refl (ground arith)))

-- What a role policy has established of a caller that it lets through.
pub record Admits (services : Services) (role : MembershipRole) (allow_when_locked : Bool)
    (req : Request) (now : Instant) : Type 0 where
  pub token : Text
  pub identity : VerifiedIdentity
  pub auth : Auth
  pub has_token : req.bearer ≡ some token
  pub verified : services.verify_bearer token ≡ some identity
  pub established : services.establish identity ≡ some auth
  pub ranked : role_satisfies auth.role role ≡ true
  pub may_enter : MayEnter auth.entitlement allow_when_locked now

-- A handler for a role is reached only with a bearer token that the session service verifies, for a
-- member whose role is at least the one required, and, unless the handler is open to locked
-- workspaces or the workspace has no entitlement on record, before the end of the workspace's trial, or,
-- on the plan pro, before the end of the time paid for, if that has one.
pub can_activate-Admits :
    (services : Services) (secrets : Secrets) (role : MembershipRole) (allow_when_locked : Bool)
    (req : Request) (now : Instant) (w : Windows)
    → (can_activate services secrets
        (some (PolicyName.min_role role))
        allow_when_locked
        req
        now
        w).0
      ≡ Decision.allowed
    → Admits services role allow_when_locked req now
unfolding can_activate check_session
can_activate-Admits services secrets role allow_when_locked req now w h =
    elim (Option-cases req.bearer) [
      | inl missing ↦ absurd (ground arith)
      | inr (token, e) ↦ elim (Bool-cases (is_empty token)) [
        | inl blank ↦ absurd (ground arith)
        | inr named ↦ elim (Option-cases (services.verify_bearer token)) [
          | inl unknown ↦ absurd (ground arith)
          | inr (identity, e') ↦ elim (Option-cases (services.establish identity)) [
            | inl outside ↦ absurd (ground arith)
            | inr (auth, e'') ↦ elim (Bool-cases (role_satisfies auth.role role)) [
              | inr low ↦ absurd (ground arith)
              | inl ranked ↦ record {
                token = token;
                identity = identity;
                auth = auth;
                has_token = e;
                verified = e';
                established = e'';
                ranked = ranked;
                may_enter =
                    is_paid_up-MayEnter auth.entitlement allow_when_locked now (ground arith);
              }
            ]
          ]
        ]
      ]
    ]
