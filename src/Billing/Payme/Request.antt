-- ===== src/Billing/Payme/Request.antt =====
-- What the methods check before they act, and how they find the payment:
-- apps/api/src/modules/billing/payme.service.ts and apps/api/src/tenant/payment.resolver.ts.
use president_tech_award_e_s.Prelude.{
  ℕ, ◌-◌, Bool, true, false, not, ◌&&◌, ◌||◌, Option, none, some, ◌==◌, leb, if◌then◌else◌,
  find_first,
}
use president_tech_award_e_s.Calendar.{Instant}
use president_tech_award_e_s.Billing.Store.{Key, PaymentProvider, is_pending, Payment, Db, has_txn}
use president_tech_award_e_s.Billing.Service.{find}
use president_tech_award_e_s.Billing.Payme.Protocol.{PaymeError, transaction_timeout_ms}

-- A finite number by its sign, its whole part and its fraction (0 for none), or no finite number.
pub data Number : Type 0 where
  finite : Bool → ℕ → ℕ → Number
  not_finite : Number

-- A value of the request that the code looks at.
pub data Value : Type 0 where
  text : Key → Value
  number : Number → Value
  other : Value

-- `params`, with `account` as the value of the account field that is configured, `none` if
-- `account` is no object.
pub record PaymeParams : Type 0 where
  pub id : Value
  pub time : Value
  pub amount : Value
  pub reason : Value
  pub from : Value
  pub to : Value
  pub account : Option Value

-- A method's answer: a result, a `PaymeRpcError`, or any other exception.
pub data Rpc (A : Type 0) : Type 0 where
  ok : A → Rpc A
  refused : PaymeError → Rpc A
  failed : Rpc A

abbrev pub Method : Type 0 → Type 0
Method A = Db → Rpc A × Db

module _ {A : Type 0} where
  abbrev pub pure : A → Method A
  pure a db = (ok a, db)

  abbrev pub refuse : PaymeError → Method A
  refuse e db = (refused e, db)

  -- A call of `BillingService` that may throw.
  abbrev pub attempt : Option (A × Db) → Db → Rpc A × Db
  attempt none db = (failed, db)
  attempt (some (a, db')) db = (ok a, db')

  -- `x ?? throw`
  abbrev pub or_refuse : Option A → PaymeError → Method A
  or_refuse none e = refuse e
  or_refuse (some a) e = pure a

-- An exception ends the method.
abbrev pub continue : {A B : Type 0} → Rpc A × Db → (A → Method B) → Rpc B × Db
continue (ok a, db) f = f a db
continue (refused e, db) f = (refused e, db)
continue (failed, db) f = (failed, db)

infixl 5 ◌>>=◌ ◌>>◌
abbrev pub ◌>>=◌ : {A B : Type 0} → Method A → (A → Method B) → Method B
◌>>=◌ m f db = continue (m db) f

abbrev pub ◌>>◌ : {B : Type 0} → Method (Unit {0}) → Method B → Method B
m >> k = m >>= λ _. k

abbrev pub require : Bool → PaymeError → Method (Unit {0})
require true e = pure tt
require false e = refuse e

-- `requireString` and `requireNumber`
unfoldable pub require_string : Value → PaymeError → Method Key
require_string (text k) e = if k == 0 then refuse e else pure k
require_string _ e = refuse e

unfoldable pub require_number : Value → PaymeError → Method Number
require_number (number (finite negative whole fraction)) e = pure (finite negative whole fraction)
require_number _ e = refuse e

-- `new Date(n)`: a fraction is cut off. A date before 1970 is taken for the epoch, and none is too late.
unfoldable pub date_of : Number → Instant
date_of (finite false whole fraction) = whole
date_of _ = 0

-- `date.getTime()`
abbrev pub time_of : Instant → Number
time_of t = finite false t 0

-- `Math.trunc(amount) !== payment.amountTiyin`, refused too if it is no finite number.
unfoldable pub amount_matches : Value → ℕ → Bool
amount_matches (number (finite negative whole fraction)) expected =
    (whole == expected) && (not negative || (whole == 0))
amount_matches _ expected = false

unfoldable pub require_payable : Payment → Method (Unit {0})
require_payable payment = require (is_pending payment.status) PaymeError.order_not_payable

unfoldable pub require_amount : Payment → Value → Method (Unit {0})
unfolding amount_matches
require_amount payment amount =
    require (amount_matches amount payment.amount_tiyin) PaymeError.invalid_amount

unfoldable pub require_not_timed_out : Instant → Instant → Method (Unit {0})
require_not_timed_out now created_at =
    require (leb (now - created_at) transaction_timeout_ms) PaymeError.cannot_perform

-- `PaymentResolver.resolve` and `resolveByTxn`: the tenant that a payment belongs to.
unfoldable pub resolve : Key → Db → Option Key
resolve id db = elim (find_first (λ p. p.id == id) db.payments) [
  | none ↦ none
  | some p ↦ some p.tenant_id
]

unfoldable pub resolve_by_txn : PaymentProvider → Key → Db → Option (Key × Key)
resolve_by_txn provider txn db = elim (find_first (has_txn provider txn) db.payments) [
  | none ↦ none
  | some p ↦ some (p.tenant_id, p.id)
]

-- The tenant that is open, and its payment.
abbrev pub Found : Type 0
Found = Key × Payment

abbrev pub find_in : Key → Option Key → Db → Option Found
find_in id none db = none
find_in id (some tenant) db = elim (find tenant id PaymentProvider.payme db) [
  | none ↦ none
  | some p ↦ some (tenant, p)
]

abbrev pub found_order : Option Value → Db → Option Found
found_order (some (text id)) db = if id == 0 then none else find_in id (resolve id db) db
found_order _ db = none

-- `byAccount` and `byTxn`
unfoldable pub by_account : PaymeParams → Method Found
by_account params db = or_refuse (found_order params.account db) PaymeError.order_not_found db

abbrev pub found_txn : Option (Key × Key) → Db → Option Found
found_txn none db = none
found_txn (some (tenant, id)) db = elim (find tenant id PaymentProvider.payme db) [
  | none ↦ none
  | some p ↦ some (tenant, p)
]

-- The lookup by Payme's own transaction id, once it is known to be a text.
unfoldable pub by_txn_key : Key → Method Found
by_txn_key txn db =
    or_refuse (found_txn (resolve_by_txn PaymentProvider.payme txn db) db)
      PaymeError.transaction_not_found db

unfoldable pub by_txn_id : Value → Method Found
unfolding by_txn_key require_string
by_txn_id id = do txn ← require_string id PaymeError.transaction_not_found; by_txn_key txn

unfoldable pub by_txn : PaymeParams → Method Found
unfolding by_txn_id
by_txn params = by_txn_id params.id
