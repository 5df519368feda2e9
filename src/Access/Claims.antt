-- ===== src/Access/Claims.antt =====
-- Who a verified session speaks for: apps/api/src/auth/claims.ts.
use president_tech_award_e_s.Prelude.{ℕ, Bool, Option, none, some, [], ◌∷◌, leb, if◌then◌else◌}
use president_tech_award_e_s.Billing.Payme.Protocol.{Text, text_eq, strip_prefix}

pub data MembershipRole : Type 0 where
  owner admin member viewer : MembershipRole

-- `RANK`
unfoldable pub rank : MembershipRole → ℕ
rank MembershipRole.owner = 4
rank MembershipRole.admin = 3
rank MembershipRole.member = 2
rank MembershipRole.viewer = 1

-- `roleSatisfies`
unfoldable pub role_satisfies : MembershipRole → MembershipRole → Bool
unfolding rank
role_satisfies actual required = leb (rank required) (rank actual)

pub record VerifiedIdentity : Type 0 where
  pub clerk_user_id : Text
  pub email : Option Text
  pub clerk_org_id : Option Text
  pub org_name : Option Text
  pub role : Option MembershipRole

-- The claims of either token version; `o_id` and `o_rol` stand in the object `o` of the newer one.
pub record Claims : Type 0 where
  pub sub : Option Text
  pub email : Option Text
  pub org_id : Option Text
  pub org_role : Option Text
  pub org_name : Option Text
  pub o_id : Option Text
  pub o_rol : Option Text

-- `a ?? b`
abbrev pub or_else : {A : Type 0} → Option A → Option A → Option A
or_else none b = b
or_else (some a) b = some a

abbrev pub or_empty : Option Text → Text
or_empty none = []
or_empty (some s) = s

abbrev org_colon : Text
org_colon = b'o' ∷ b'r' ∷ b'g' ∷ b':' ∷ []

abbrev owner_text : Text
owner_text = b'o' ∷ b'w' ∷ b'n' ∷ b'e' ∷ b'r' ∷ []

abbrev admin_text : Text
admin_text = b'a' ∷ b'd' ∷ b'm' ∷ b'i' ∷ b'n' ∷ []

abbrev member_text : Text
member_text = b'm' ∷ b'e' ∷ b'm' ∷ b'b' ∷ b'e' ∷ b'r' ∷ []

abbrev basic_member_text : Text
basic_member_text = b'b' ∷ b'a' ∷ b's' ∷ b'i' ∷ b'c' ∷ b'_' ∷ member_text

unfoldable pub role_of_text : Text → MembershipRole
role_of_text s =
    if text_eq s owner_text
    then MembershipRole.owner
    else if text_eq s admin_text
    then MembershipRole.admin
    else if text_eq s member_text
    then MembershipRole.member
    else if text_eq s basic_member_text
    then MembershipRole.member
    else MembershipRole.viewer

abbrev without_org : Text → Text
without_org s = elim (strip_prefix org_colon s) [ none ↦ s | some rest ↦ rest ]

-- `toLowerCase` is a parameter.
module _ (lower : Text → Text) where
  -- `toMembershipRole`
  unfoldable pub to_membership_role : Option Text → MembershipRole
  unfolding role_of_text
  to_membership_role none = MembershipRole.viewer
  to_membership_role (some raw) = role_of_text (lower (without_org raw))

  abbrev role_in : Option Text → Option Text → Option MembershipRole
  role_in none raw = none
  role_in (some org) raw = some (to_membership_role raw)

  -- `normalizeClaims`
  unfoldable pub normalize_claims : Claims → VerifiedIdentity
  unfolding to_membership_role
  normalize_claims payload =
      let org = or_else payload.org_id payload.o_id in
      record {
        clerk_user_id = or_empty payload.sub;
        email = payload.email;
        clerk_org_id = org;
        org_name = payload.org_name;
        role = role_in org (or_else payload.org_role payload.o_rol);
      }
