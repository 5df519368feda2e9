-- ===== src/Calendar/Years.antt =====
-- Finding the unit of time that holds a day: the last `n ≤ bound` whose start is not after it.
use native.Mathlib.Decide.{dec_le}
use president_tech_award_e_s.Prelude.{
  ℕ, zero, suc, ◌≤◌, ◌<◌, ◌≡◌, arith, leb, if◌then◌else◌, inl, inr, Bool-cases,
}

unfoldable pub locate : (ℕ → ℕ) → ℕ → ℕ → ℕ
locate start zero d = 0
locate start (suc n) d =
    let earlier = locate start n d in if leb (start (suc n)) d then suc n else earlier

module _ (start : ℕ → ℕ) (grows : (a b : ℕ) → a ≤ b → start a ≤ start b) where
  -- The unit that holds a day is the one that is found, from any bound that is not below it.
  pub locate_unique :
      (bound n d : ℕ) → n ≤ bound → start n ≤ d → d < start (suc n) → locate start bound d ≡ n
  unfolding locate
  locate_unique zero n d below lo hi = omega arith
  locate_unique (suc b) n d below lo hi = elim (Bool-cases (leb (start (suc b)) d)) [
    | inl late ↦ ground (arith, grows (suc n) (suc b))
    | inr early ↦ ground (arith, locate_unique b n d)
  ]

-- What is found does not start after the day.
pub locate-le : (start : ℕ → ℕ) (bound d : ℕ) → start 0 ≤ d → start (locate start bound d) ≤ d
unfolding locate
locate-le start zero d h = h
locate-le start (suc b) d h = ground (arith, locate-le start b d h)

pub locate_bounded : (start : ℕ → ℕ) (bound d : ℕ) → locate start bound d ≤ bound
unfolding locate
locate_bounded start zero d = omega arith
locate_bounded start (suc b) d = ground (arith, locate_bounded start b d)

-- The unit after the one that is found starts later, if the one after the bound does.
pub lt-locate :
    (start : ℕ → ℕ) (bound d : ℕ) → d < start (suc bound) → d < start (suc (locate start bound d))
unfolding locate
lt-locate start zero d h = h
lt-locate start (suc b) d h = ground (arith, lt-locate start b d)

-- A sequence that never falls from one place to the next keeps the order of any two places.
pub mono_of_steps :
    (start : ℕ → ℕ) → ((n : ℕ) → start n ≤ start (suc n)) → (a b : ℕ) → a ≤ b → start a ≤ start b
mono_of_steps start step zero zero h = omega arith
mono_of_steps start step (suc a) zero h = elim h [ ]
mono_of_steps start step a (suc b) h = elim (dec_le a b) [
  | yes below ↦ omega (arith, mono_of_steps start step a b below, step b)
  | no above ↦ let e : a ≡ suc b = omega arith in rw e (omega arith)
]
