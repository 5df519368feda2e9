-- ===== src/Billing/Payme/Protocol.antt =====
-- The values of the protocol: apps/api/src/modules/billing/payme.protocol.ts. A text is its list of
-- code points where the code looks inside it.
use president_tech_award_e_s.Prelude.{
  ℕ, ◌*◌, Bool, true, false, ◌&&◌, Option, none, some, List, [], ◌∷◌, ◌==◌, if◌then◌else◌,
}
use president_tech_award_e_s.Prelude.Int.{ℤ, pos, neg}

pub data PaymeState : Type 0 where
  created performed cancelled_before_perform cancelled_after_perform : PaymeState

unfoldable pub state_code : PaymeState → ℤ
state_code PaymeState.created = pos 1
state_code PaymeState.performed = pos 2
state_code PaymeState.cancelled_before_perform = neg 1
state_code PaymeState.cancelled_after_perform = neg 2

pub data PaymeError : Type 0 where
  invalid_amount transaction_not_found cannot_perform order_not_found order_not_payable : PaymeError
  insufficient_privilege method_not_found parse_error invalid_request : PaymeError

unfoldable pub error_code : PaymeError → ℤ
error_code PaymeError.invalid_amount = neg 31001
error_code PaymeError.transaction_not_found = neg 31003
error_code PaymeError.cannot_perform = neg 31008
error_code PaymeError.order_not_found = neg 31050
error_code PaymeError.order_not_payable = neg 31051
error_code PaymeError.insufficient_privilege = neg 32504
error_code PaymeError.method_not_found = neg 32601
error_code PaymeError.parse_error = neg 32700
error_code PaymeError.invalid_request = neg 32600

-- 12 hours.
abbrev pub transaction_timeout_ms : ℕ
transaction_timeout_ms = 12 * 60 * 60 * 1000

abbrev pub Text : Type 0
Text = List ℕ

unfoldable pub text_eq : Text → Text → Bool
text_eq [] [] = true
text_eq [] (_ ∷ _) = false
text_eq (_ ∷ _) [] = false
text_eq (c ∷ s) (d ∷ t) = (c == d) && text_eq s t

-- `s.slice(p.length)` if `s.startsWith(p)`
unfoldable pub strip_prefix : Text → Text → Option Text
strip_prefix [] s = some s
strip_prefix (_ ∷ _) [] = none
strip_prefix (c ∷ p) (d ∷ s) = if c == d then strip_prefix p s else none

-- What stands before and after the first colon, if there is one.
unfoldable pub split_colon : Text → Option (Text × Text)
split_colon [] = none
split_colon (c ∷ s) =
    let rest = split_colon s in
    if c == b':'
    then some ([], s)
    else elim rest [ none ↦ none | some (login, password) ↦ some (c ∷ login, password) ]

abbrev pub basic : Text
basic = b'B' ∷ b'a' ∷ b's' ∷ b'i' ∷ b'c' ∷ b' ' ∷ []

abbrev pub paycom : Text
paycom = b'P' ∷ b'a' ∷ b'y' ∷ b'c' ∷ b'o' ∷ b'm' ∷ []

unfoldable pub is_empty : Text → Bool
is_empty [] = true
is_empty (_ ∷ _) = false

-- The login and the password against the merchant key.
unfoldable pub credentials_ok : Option (Text × Text) → Text → Bool
credentials_ok none key = false
credentials_ok (some (login, password)) key = text_eq login paycom && text_eq password key

-- `Buffer.from(…, 'base64').toString('utf8')` is a parameter: it decodes what it can and never throws.
module _ (decode_base64 : Text → Text) where
  unfoldable pub payme_authorized : Option Text → Option Text → Bool
  unfolding text_eq strip_prefix split_colon is_empty credentials_ok
  payme_authorized none merchant_key = false
  payme_authorized (some header) none = false
  payme_authorized (some header) (some key) =
      if is_empty header
      then false
      else if is_empty key
      then false
      else elim (strip_prefix basic header) [
        | none ↦ false
        | some encoded ↦ credentials_ok (split_colon (decode_base64 encoded)) key
      ]
