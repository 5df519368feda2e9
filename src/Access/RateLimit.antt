-- ===== src/Access/RateLimit.antt =====
-- The sliding windows: apps/api/src/common/rate-limit.ts.
use president_tech_award_e_s.Prelude.{
  ℕ, ◌+◌, Bool, true, false, not, Option, none, some, List, [], ◌∷◌, ◌++◌, ◌==◌, ltb, leb,
  if◌then◌else◌, length, select, find_first, any, every, update_where,
}
use president_tech_award_e_s.Calendar.{Instant}
use president_tech_award_e_s.Billing.Store.{Key}

-- `SlidingWindowRateLimiter`: the most calls in a window, its length, and the recent calls by key.
pub record Limiter : Type 0 where
  pub max_calls : ℕ
  pub window_ms : ℕ
  pub hits : List (Key × List Instant)

abbrev pub has_key : Key → Key × List Instant → Bool
has_key key entry = entry.0 == key

-- `this.hits.get(key) ?? []`
unfoldable pub hits_of : Key → List (Key × List Instant) → List Instant
hits_of key hits = elim (find_first (has_key key) hits) [ none ↦ [] | some entry ↦ entry.1 ]

-- `this.hits.set(key, times)`
unfoldable pub set_hits : Key → List Instant → List (Key × List Instant) → List (Key × List Instant)
set_hits key times hits =
    if any (has_key key) hits
    then update_where (has_key key) (λ entry. (entry.0, times)) hits
    else hits ++ ((key, times) ∷ [])

-- `t > now - windowMs`
abbrev pub is_recent : ℕ → Instant → Instant → Bool
is_recent window now t = ltb now (t + window)

-- The sweep of entries without a recent call, once there are more than ten thousand keys.
unfoldable pub sweep : ℕ → Instant → List (Key × List Instant) → List (Key × List Instant)
sweep window now hits =
    if ltb 10000 (length hits)
    then select (λ entry. not (every (λ t. not (is_recent window now t)) entry.1)) hits
    else hits

-- `SlidingWindowRateLimiter.allow`
unfoldable pub allow : Key → Instant → Limiter → Bool × Limiter
unfolding hits_of set_hits sweep
allow key now l =
    let recent = select (is_recent l.window_ms now) (hits_of key l.hits) in
    if leb l.max_calls (length recent)
    then (false, record l { hits = set_hits key recent l.hits })
    else (
      true,
      record l { hits = sweep l.window_ms now (set_hits key (recent ++ (now ∷ [])) l.hits) },
    )

-- What the shared window of Redis answers: its verdict, or nothing if it cannot be asked in time.
abbrev pub Verdict : Type 0
Verdict = Option Bool

-- `SharedSlidingWindow.allow`: the local limiter first, the shared verdict where there is one.
unfoldable pub shared_allow : Verdict → Key → Instant → Limiter → Bool × Limiter
unfolding allow
shared_allow verdict key now l =
    let (here, l') = allow key now l in
    if not here then (false, l') else elim verdict [ none ↦ (true, l') | some there ↦ (there, l') ]
