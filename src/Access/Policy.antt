-- ===== src/Access/Policy.antt =====
-- The guard in front of every handler: `PolicyGuard.canActivate` of apps/api/src/common/policy.ts.
use president_tech_award_e_s.Prelude.{
  Bool, true, false, not, ◌&&◌, Option, none, some, if◌then◌else◌,
}
use president_tech_award_e_s.Calendar.{Instant}
use president_tech_award_e_s.Billing.Store.{Key, TenantPlan}
use president_tech_award_e_s.Billing.Payme.Protocol.{Text, text_eq, is_empty}
use president_tech_award_e_s.Access.Trial.{tenant_access, is_locked}
use president_tech_award_e_s.Access.Claims.{MembershipRole, role_satisfies, VerifiedIdentity}
use president_tech_award_e_s.Access.RateLimit.{Limiter, Verdict, shared_allow}

-- `PolicyName`
pub data PolicyName : Type 0 where
  public public_verify session sign_relay : PolicyName
  min_role : MembershipRole → PolicyName

-- `secretOk`
unfoldable pub secret_ok : Option Text → Option Text → Bool
secret_ok none expected = false
secret_ok (some header) none = false
secret_ok (some header) (some expected) =
    not (is_empty header) && not (is_empty expected) && text_eq header expected

-- The request as the guard reads it. `client_ip` is what `trustedClientIp` makes of its header when
-- the caller is vouched for; `bearer` is the token, `none` without one.
pub record Request : Type 0 where
  pub socket_address : Key
  pub internal_auth : Option Text
  pub client_ip : Option Key
  pub bearer : Option Text

pub record Entitlement : Type 0 where
  pub plan : TenantPlan
  pub trial_ends_at : Instant
  pub paid_until : Option Instant

pub record Auth : Type 0 where
  pub role : MembershipRole
  pub entitlement : Option Entitlement

pub data Decision : Type 0 where
  allowed forbidden unauthorized not_found too_many_requests : Decision
  payment_required onboarding_required : Decision

-- The four windows of the guard.
pub record Windows : Type 0 where
  pub sign : Limiter
  pub sign_source : Limiter
  pub verify : Limiter
  pub verify_source : Limiter

pub record Secrets : Type 0 where
  pub sign_relay : Option Text
  pub verify_relay : Option Text

-- What the guard calls: the session check of Clerk, the membership, and the shared windows.
pub record Services : Type 0 where
  pub verify_bearer : Text → Option VerifiedIdentity
  pub establish : VerifiedIdentity → Option Auth
  pub verdict : Key → Verdict

abbrev pub trusted_client : Request → Bool → Option Key
trusted_client req vouched = if vouched then req.client_ip else none

abbrev pub limit_client :
    Decision
    → (Limiter → Windows)
    → Option Key
    → (Key → Verdict)
    → Instant
    → Limiter
    → Windows
    → Decision × Windows
limit_client refusal put none verdict now l w = (Decision.allowed, w)
limit_client refusal put (some client) verdict now l w =
    let (fits, l') = shared_allow (verdict client) client now l in
    (if fits then Decision.allowed else refusal, put l')

-- `public-verify`: limited by source, and by client where the relay vouches for it.
unfoldable pub check_verify : Services → Secrets → Request → Instant → Windows → Decision × Windows
check_verify services secrets req now w =
    let (fits, source) =
      shared_allow (services.verdict req.socket_address) req.socket_address now w.verify_source in
    let w' = record w { verify_source = source } in
    if not fits
    then (Decision.too_many_requests, w')
    else limit_client Decision.too_many_requests (λ l. record w' { verify = l })
        (trusted_client req (secret_ok req.internal_auth secrets.verify_relay)) services.verdict now
        w'.verify w'

-- `sign-relay`: only through the relay, and every refusal looks like a link that is not valid.
unfoldable pub check_sign : Services → Secrets → Request → Instant → Windows → Decision × Windows
unfolding secret_ok
check_sign services secrets req now w =
    let (fits, source) =
      shared_allow (services.verdict req.socket_address) req.socket_address now w.sign_source in
    let w' = record w { sign_source = source } in
    if not (secret_ok req.internal_auth secrets.sign_relay)
    then (Decision.not_found, w)
    else if not fits
    then (Decision.not_found, w')
    else limit_client Decision.not_found (λ l. record w' { sign = l }) (trusted_client req true)
        services.verdict now w'.sign w'

abbrev pub is_paid_up : Option Entitlement → Bool → Instant → Decision
is_paid_up none allow_when_locked now = Decision.allowed
is_paid_up (some e) allow_when_locked now =
    if is_locked (tenant_access e.plan e.trial_ends_at e.paid_until now) && not allow_when_locked
    then Decision.payment_required
    else Decision.allowed

abbrev pub check_member : MembershipRole → Bool → Instant → Option Auth → Decision
check_member required allow_when_locked now none = Decision.onboarding_required
check_member required allow_when_locked now (some auth) =
    if not (role_satisfies auth.role required)
    then Decision.forbidden
    else is_paid_up auth.entitlement allow_when_locked now

abbrev pub check_identity :
    Services → Option MembershipRole → Bool → Instant → Option VerifiedIdentity → Decision
check_identity services required allow_when_locked now none = Decision.unauthorized
check_identity services none allow_when_locked now (some identity) = Decision.allowed
check_identity services (some required) allow_when_locked now (some identity) =
    check_member required allow_when_locked now (services.establish identity)

unfoldable pub check_session :
    Services → Option MembershipRole → Bool → Instant → Option Text → Decision
check_session services required allow_when_locked now none = Decision.unauthorized
check_session services required allow_when_locked now (some token) =
    if is_empty token
    then Decision.unauthorized
    else check_identity services required allow_when_locked now (services.verify_bearer token)

-- `canActivate`
unfoldable pub can_activate :
    Services → Secrets → Option PolicyName → Bool → Request → Instant → Windows → Decision × Windows
unfolding check_verify check_sign check_session
can_activate services secrets none allow_when_locked req now w = (Decision.forbidden, w)
can_activate services secrets (some PolicyName.public) allow_when_locked req now w =
    (Decision.allowed, w)
can_activate services secrets (some PolicyName.public_verify) allow_when_locked req now w =
    check_verify services secrets req now w
can_activate services secrets (some PolicyName.sign_relay) allow_when_locked req now w =
    check_sign services secrets req now w
can_activate services secrets (some PolicyName.session) allow_when_locked req now w =
    (check_session services none allow_when_locked now req.bearer, w)
can_activate services secrets (some (PolicyName.min_role role)) allow_when_locked req now w =
    (check_session services (some role) allow_when_locked now req.bearer, w)
