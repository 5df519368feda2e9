-- ===== src/Billing/Click/Tests.antt =====
-- A prepared Click payment, and the Complete that pays it.
use president_tech_award_e_s.Prelude.{◌≡◌, refl, false, Option, none, some, [], ◌∷◌, arith}
use president_tech_award_e_s.Prelude.Int.{pos}
use president_tech_award_e_s.Billing.Period.{BillingPlan, sum_from_tiyin}
use president_tech_award_e_s.Billing.Store.{
  Key, PaymentProvider, provider_eq, PaymentStatus, TenantPlan, Payment, Db,
}
use president_tech_award_e_s.Billing.Service.{find, activate}
use president_tech_award_e_s.Billing.Validity.{IsValid}
use president_tech_award_e_s.Billing.Payme.Protocol.{Text, text_eq, is_empty}
use president_tech_award_e_s.Billing.Payme.Request.{resolve}
use president_tech_award_e_s.Billing.Click.Protocol.{
  ClickError, ClickAction, ClickCallback, Decimal, Platform, click_signature, click_signature_valid,
  click_amount_matches, is_quoted, int_eq, action_code,
}
use president_tech_award_e_s.Billing.Click.Methods.{ClickResult, fail, Settings, complete}
use president_tech_award_e_s.Billing.Click.Complete.{Verified, Confirms}
use president_tech_award_e_s.Billing.Click.Repeat.{complete-Confirms, complete_again}

abbrev order : Payment
order = record {
  id = 7;
  tenant_id = 1;
  plan = BillingPlan.personal;
  provider = PaymentProvider.click;
  amount_tiyin = 9900000;
  months = 1;
  status = PaymentStatus.pending;
  provider_txn_id = some 9;
  provider_created_at = some 1769817500000;
  click_prepare_id = some 55;
  paid_at = none;
  cancelled_at = none;
  cancel_reason = none;
  period_start = none;
  period_end = none;
  created_at = 1769817500000;
}

abbrev db : Db
db = record {
  payments = order ∷ [];
  tenants =
      record { id = 1; plan = TenantPlan.trial; trial_ends_at = 1769900000000; paid_until = none }
      ∷ [];
}

db-IsValid : IsValid db
db-IsValid = record {
  unique_payments = (refl, tt);
  unique_tenants = (refl, tt);
  rows = (
    record {
      positive = omega arith;
      some_month = omega arith;
      has_tenant = refl;
      matches = (record { no_paid_at = refl; no_start = refl; no_end = refl }, refl);
    },
    tt,
  );
}

abbrev first_key : Text → Key
first_key [] = 0
first_key (c ∷ _) = c

abbrev whole_number : Text → Option Decimal
whole_number [] = none
whole_number (c ∷ _) = some (record { negative = false; mantissa = c; scale = 0 })

abbrev node : Platform
node = record {
  md5 = λ s. s;
  lower = λ s. s;
  read_number = whole_number;
  show_int = λ _. [];
  key = first_key;
  int_column = some;
}

abbrev settings : Settings
settings = record { secret_key = some (3 ∷ []); service_id = some (4 ∷ []) }

abbrev body : ClickCallback
body = record {
  click_trans_id = 9 ∷ [];
  service_id = 4 ∷ [];
  merchant_trans_id = 7 ∷ [];
  merchant_prepare_id = 55 ∷ [];
  amount = 99000 ∷ [];
  action = pos 1;
  error = pos 0;
  sign_time = 1 ∷ [];
  sign_string = 9 ∷ 4 ∷ 3 ∷ 7 ∷ 55 ∷ 99000 ∷ 1 ∷ [];
}

abbrev confirmed : ClickResult
confirmed = record {
  error = ClickError.success;
  merchant_prepare_id = some 55;
  merchant_confirm_id = some 55;
}

complete_runs : (db' : Db) × (complete node settings body 1769817600000 db ≡ (some confirmed, db'))
unfolding complete is_empty int_eq action_code text_eq click_signature_valid click_signature resolve
    find provider_eq sum_from_tiyin click_amount_matches is_quoted activate
complete_runs = (_, refl)

complete_again_example :
    complete node settings body 1769817700000 complete_runs.0
    ≡ (some (fail ClickError.already_paid), complete_runs.0)
complete_again_example =
    complete_again node settings body 1769817600000 1769817700000 db db-IsValid complete_runs.1 refl

complete-Confirms_example :
    (tenant : Key) × (p : Payment) × Verified node settings body ClickAction.complete db tenant p
    × Confirms node body 1769817600000 tenant p db confirmed complete_runs.0
complete-Confirms_example =
    complete-Confirms node settings body 1769817600000 db complete_runs.1 refl
