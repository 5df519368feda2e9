-- ===== src/Billing/Click/Protocol.antt =====
-- What Click and the service exchange: apps/api/src/modules/billing/click.protocol.ts.
use president_tech_award_e_s.Prelude.{
  ℕ, ◌*◌, ◌-◌, ◌+◌, ◌^◌, Bool, false, not, ◌&&◌, ◌||◌, Option, none, some, ◌==◌, ltb, ◌++◌,
  if◌then◌else◌,
}
use president_tech_award_e_s.Prelude.Int.{ℤ, pos, neg}
use president_tech_award_e_s.Billing.Store.{Key}
use president_tech_award_e_s.Billing.Payme.Protocol.{Text, text_eq}

-- `ClickError`
pub data ClickError : Type 0 where
  success sign_check_failed incorrect_amount action_not_found already_paid : ClickError
  user_not_found transaction_not_found failed_to_update bad_request : ClickError
  transaction_cancelled : ClickError

unfoldable pub click_code : ClickError → ℤ
click_code ClickError.success = pos 0
click_code ClickError.sign_check_failed = neg 1
click_code ClickError.incorrect_amount = neg 2
click_code ClickError.action_not_found = neg 3
click_code ClickError.already_paid = neg 4
click_code ClickError.user_not_found = neg 5
click_code ClickError.transaction_not_found = neg 6
click_code ClickError.failed_to_update = neg 7
click_code ClickError.bad_request = neg 8
click_code ClickError.transaction_cancelled = neg 9

-- `ClickAction`
pub data ClickAction : Type 0 where
  prepare complete : ClickAction

unfoldable pub action_code : ClickAction → ℤ
action_code ClickAction.prepare = pos 0
action_code ClickAction.complete = pos 1

unfoldable pub int_eq : ℤ → ℤ → Bool
int_eq (ℤ.pos m) (ℤ.pos n) = m == n
int_eq (ℤ.negsuc m) (ℤ.negsuc n) = m == n
int_eq _ _ = false

-- A decimal number, mantissa / 10 ^ scale.
pub record Decimal : Type 0 where
  pub negative : Bool
  pub mantissa : ℕ
  pub scale : ℕ

-- `ClickCallbackSchema`, once a body has been parsed.
pub record ClickCallback : Type 0 where
  pub click_trans_id : Text
  pub service_id : Text
  pub merchant_trans_id : Text
  pub merchant_prepare_id : Text
  pub amount : Text
  pub action : ℤ
  pub error : ℤ
  pub sign_time : Text
  pub sign_string : Text

-- What the code takes from its platform: `createHash('md5')`, `toLowerCase`, `Number`, which is
-- `none` for no finite number, `String`, the database's view of an identifier, and an `Int` column,
-- which is `none` where the client throws.
pub record Platform : Type 0 where
  pub md5 : Text → Text
  pub lower : Text → Text
  pub read_number : Text → Option Decimal
  pub show_int : ℤ → Text
  pub key : Text → Key
  pub int_column : ℤ → Option ℤ

-- `clickSignature`, of a callback and the secret key.
unfoldable pub click_signature : Platform → Text → ClickCallback → Text
click_signature node secret body = node.md5 (
    body.click_trans_id
    ++ body.service_id
    ++ secret
    ++ body.merchant_trans_id
    ++ body.merchant_prepare_id
    ++ body.amount
    ++ node.show_int body.action
    ++ body.sign_time)

-- `clickSignatureValid`
unfoldable pub click_signature_valid : Platform → Text → Text → Bool
click_signature_valid node presented expected = text_eq (node.lower presented) (node.lower expected)

-- `Math.abs(value - expectedSum) < 0.005`, in exact arithmetic.
unfoldable pub is_near : Decimal → ℕ → Bool
is_near d expected =
    let unit = 10 ^ d.scale in
    let wanted = expected * unit in
    let gap =
      if d.negative then d.mantissa + wanted else ((d.mantissa - wanted) + (wanted - d.mantissa)) in
    ltb (gap * 200) unit

-- `clickAmountMatches`
unfoldable pub click_amount_matches : Platform → Text → ℕ → Bool
unfolding is_near
click_amount_matches node presented expected = elim (node.read_number presented) [
  | none ↦ false
  | some d ↦ is_near d expected
]

-- `Number.isInteger(quoted) && quoted === prepareId`
unfoldable pub is_quoted : Option Decimal → ℕ → Bool
is_quoted none id = false
is_quoted (some d) id = (d.mantissa == id * 10 ^ d.scale) && (not d.negative || (d.mantissa == 0))
