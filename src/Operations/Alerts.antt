-- ===== src/Operations/Alerts.antt =====
-- When somebody is told of a failure: apps/api/src/ops/alerts.ts. The log is left aside.
use president_tech_award_e_s.Prelude.{
  ℕ, zero, suc, ◌+◌, ◌*◌, ◌<◌, ◌≡◌, refl, ap, ◌∙◌, Bool, false, not, Option, none, some, List, [],
  ◌∷◌, ◌==◌, ltb, if◌then◌else◌, select, find_first, arith,
}
use president_tech_award_e_s.Calendar.{Instant}
use president_tech_award_e_s.Billing.Store.{Key}

abbrev pub alert_cooldown_ms : ℕ
alert_cooldown_ms = 60 * 60 * 1000

-- `Map<string, number>`: at most one entry for a key.
pub record Entry : Type 0 where
  pub key : Key
  pub value : ℕ

abbrev pub value_of : Option Entry → Option ℕ
value_of none = none
value_of (some e) = some e.value

-- `Map.get`, `Map.delete` and `Map.set`
unfoldable pub get_value : Key → List Entry → Option ℕ
get_value k entries = value_of (find_first (λ e. e.key == k) entries)

unfoldable pub delete_value : Key → List Entry → List Entry
delete_value k entries = select (λ e. not (e.key == k)) entries

unfoldable pub set_value : Key → ℕ → List Entry → List Entry
unfolding delete_value
set_value k v entries = record { key = k; value = v } ∷ delete_value k entries

-- JavaScript subtracts below zero where the clock went back.
abbrev pub is_cooling : ℕ → Instant → Option Instant → Bool
is_cooling cooldown now none = false
is_cooling cooldown now (some previous) = ltb now (previous + cooldown)

abbrev pub is_sent : Option Key → Bool → Bool
is_sent none accepted = false
is_sent (some address) accepted = if address == 0 then false else accepted

-- `Alerter.raise`: whether a mail went out, and what is remembered. `accepted` says whether the mail
-- provider took the mail.
unfoldable pub raise : ℕ → Option Key → Instant → Bool → Key → List Entry → Bool × List Entry
unfolding get_value set_value
raise cooldown to now accepted k last_sent =
    if is_cooling cooldown now (get_value k last_sent)
    then (false, last_sent)
    else (is_sent to accepted, set_value k now last_sent)

-- `Alerter.clear`
unfoldable pub clear : Key → List Entry → List Entry
unfolding delete_value
clear k last_sent = delete_value k last_sent

abbrev pub or_zero : Option ℕ → ℕ
or_zero none = 0
or_zero (some n) = n

-- `FailureStreak.count`, `fail` and `succeed`
unfoldable pub count_failures : Key → List Entry → ℕ
unfolding get_value
count_failures k streak = or_zero (get_value k streak)

unfoldable pub fail : ℕ → Key → List Entry → Bool × List Entry
unfolding count_failures set_value
fail threshold k streak =
    let n = suc (count_failures k streak) in (n == threshold, set_value k n streak)

unfoldable pub succeed : Key → List Entry → List Entry
unfolding delete_value
succeed k streak = delete_value k streak

-- The streaks after some failures of one key in a row, and whether the last of them was reported.
unfoldable pub fail_times : ℕ → Key → ℕ → List Entry → List Entry
unfolding fail
fail_times threshold k zero streak = streak
fail_times threshold k (suc n) streak = (fail threshold k (fail_times threshold k n streak)).1

get-delete_value : (k : Key) (entries : List Entry) → get_value k (delete_value k entries) ≡ none
unfolding get_value delete_value
get-delete_value k [] = refl
get-delete_value k (e ∷ es) = ground (arith, get-delete_value k es)

get-set_value :
    (k : Key) (v : ℕ) (entries : List Entry) → get_value k (set_value k v entries) ≡ some v
unfolding get_value set_value
get-set_value k v entries = ground arith

count-fail_times :
    (threshold : ℕ) (k : Key) (n : ℕ) (streak : List Entry)
    → count_failures k (fail_times threshold k n streak) ≡ n + count_failures k streak
unfolding fail_times fail count_failures
count-fail_times threshold k zero streak = ground arith
count-fail_times threshold k (suc n) streak =
    ap or_zero (
      get-set_value k (suc (count_failures k (fail_times threshold k n streak)))
        (fail_times threshold k n streak))
    ∙ ground (arith, count-fail_times threshold k n streak)

-- After a success, the failure that is reported is the threshold's, whether fewer or more follow.
pub fail-succeed :
    (threshold : ℕ) (k : Key) (n : ℕ) (streak : List Entry)
    → (fail threshold k (fail_times threshold k n (succeed k streak))).0 ≡ (suc n == threshold)
unfolding fail succeed count_failures
fail-succeed threshold k n streak =
    let none_before : count_failures k (delete_value k streak) ≡ 0 =
      ap or_zero (get-delete_value k streak) in
    ground (arith, count-fail_times threshold k n (delete_value k streak), none_before)

-- A second alert within the cooldown is not sent, and does not extend the cooldown.
pub raise_again :
    (cooldown : ℕ) (to : Option Key) (now later : Instant) (accepted taken : Bool) (k : Key)
    (last_sent : List Entry)
    → later < now + cooldown
    → raise cooldown to later taken k (set_value k now last_sent)
      ≡ (false, set_value k now last_sent)
unfolding raise
raise_again cooldown to now later accepted taken k last_sent soon =
    rw (raise, get-set_value k now last_sent) (ground arith)
