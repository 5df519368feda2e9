-- ===== src/Prelude/Tables.antt =====
-- Rows that are found, counted and updated by a condition: what the queries of the source promise.
use Prim.Native.Nat.{ℕ}
use mathlib.Core.Path.{◌≡◌, refl, subst}
use mathlib.Core.Logic.{inl, inr}
use mathlib.Core.Bool.{Bool, true, false, ◌&&◌}
use mathlib.Core.Option.{Option, none, some, some-injective}
use mathlib.Core.List.{List, [], ◌∷◌}
use native.Mathlib.Omega.{arith}
use president_tech_award_e_s.Prelude.Tests.{if◌then◌else◌, ◌==◌, Bool-cases}
use president_tech_award_e_s.Prelude.Lists.{find_first, any, count_where, update_where, All}

abbrev pub apply_if {ℓ} : {A : Type ℓ} → (A → Bool) → (A → A) → A → A
apply_if p f x = if p x then f x else x

abbrev pub map_option {ℓ κ} : {A : Type ℓ} {B : Type κ} → (A → B) → Option A → Option B
map_option f none = none
map_option f (some x) = some (f x)

module _ {ℓ} {A : Type ℓ} where
  -- A row that an update does not move in or out of a search is found again, as updated.
  pub find_first-update_where :
      (q p : A → Bool) (f : A → A) (xs : List A)
      → ((x : A) → q (f x) ≡ q x)
      → find_first q (update_where p f xs) ≡ map_option (apply_if p f) (find_first q xs)
  find_first-update_where q p f [] same = refl
  find_first-update_where q p f (x ∷ xs) same =
      ground (arith, same x, find_first-update_where q p f xs same)

  -- A search that no updated row meets, before or after, is not changed.
  pub find_first-update_where_other :
      (q p : A → Bool) (f : A → A) (xs : List A)
      → ((x : A) → p x ≡ true → q x ≡ false)
      → ((x : A) → p x ≡ true → q (f x) ≡ false)
      → find_first q (update_where p f xs) ≡ find_first q xs
  find_first-update_where_other q p f [] before after = refl
  find_first-update_where_other q p f (x ∷ xs) before after =
      ground (arith, before x, after x, find_first-update_where_other q p f xs before after)

  pub find_first_holds :
      (q : A → Bool) (xs : List A) {x : A} → find_first q xs ≡ some x → q x ≡ true
  find_first_holds q [] h = cc
  find_first_holds q (y ∷ ys) {x} h = ground (arith, find_first_holds q ys {x = x})

  pub find_first-none :
      (q p : A → Bool) (xs : List A) → find_first q xs ≡ none → count_where (λ x. q x && p x) xs ≡ 0
  find_first-none q p [] h = refl
  find_first-none q p (x ∷ xs) h = ground (arith, find_first-none q p xs)

  pub any-update_where :
      (q p : A → Bool) (f : A → A) (xs : List A)
      → ((x : A) → q (f x) ≡ q x)
      → any q (update_where p f xs) ≡ any q xs
  any-update_where q p f [] same = refl
  any-update_where q p f (x ∷ xs) same = ground (arith, same x, any-update_where q p f xs same)

  pub count_where-any :
      (q p : A → Bool) (xs : List A) → any q xs ≡ false → count_where (λ x. q x && p x) xs ≡ 0
  count_where-any q p [] h = refl
  count_where-any q p (x ∷ xs) h = ground (arith, count_where-any q p xs)

  pub All-update_where {κ} :
      (P : A → Type κ) (p : A → Bool) (f : A → A) (xs : List A)
      → ((x : A) → P x → p x ≡ true → P (f x))
      → All P xs
      → All P (update_where p f xs)
  All-update_where P p f [] step h = tt
  All-update_where P p f (x ∷ xs) step h = (
    elim (Bool-cases (p x)) [ inl hit ↦ rw hit (step x h.0 hit) | inr miss ↦ rw miss h.0 ],
    All-update_where P p f xs step h.1,
  )

  pub All-find_first {κ} :
      (P : A → Type κ) (q : A → Bool) (xs : List A) {x : A}
      → All P xs
      → find_first q xs ≡ some x
      → P x
  All-find_first P q [] h e = cc
  All-find_first P q (y ∷ ys) {x} h e = elim (Bool-cases (q y)) [
    | inl hit ↦ let same : some y ≡ some x = rw hit at e in subst P (some-injective y x same) h.0
    | inr miss ↦ All-find_first P q ys h.1 (rw miss at e)
  ]

-- Rows whose keys are all different.
module _ {ℓ} {A : Type ℓ} (key : A → ℕ) where
  abbrev pub HasUniqueKeys : List A → Type 0
  HasUniqueKeys [] = Unit
  HasUniqueKeys (x ∷ xs) = (any (λ y. key y == key x) xs ≡ false) × HasUniqueKeys xs

  key-apply_if :
      (p : A → Bool) (f : A → A) (x : A)
      → ((y : A) → key (f y) ≡ key y)
      → key (apply_if p f x) ≡ key x
  key-apply_if p f x same = ground (arith, same x)

  count_where_no_key :
      (k : ℕ) (q p : A → Bool) (xs : List A)
      → ((y : A) → q y ≡ true → key y ≡ k)
      → any (λ y. key y == k) xs ≡ false
      → count_where (λ y. q y && p y) xs ≡ 0
  count_where_no_key k q p [] keyed h = refl
  count_where_no_key k q p (x ∷ xs) keyed h =
      ground (arith, keyed x, count_where_no_key k q p xs keyed)

  pub HasUniqueKeys-update_where :
      (p : A → Bool) (f : A → A) (xs : List A)
      → ((x : A) → key (f x) ≡ key x)
      → HasUniqueKeys xs
      → HasUniqueKeys (update_where p f xs)
  HasUniqueKeys-update_where p f [] same h = tt
  HasUniqueKeys-update_where p f (x ∷ xs) same h = (
    rw (key-apply_if p f x same, any-update_where (λ y. key y == key x) p f xs (λ y. rw (same y)))
        h.0,
    HasUniqueKeys-update_where p f xs same h.1,
  )

  -- With a unique key, the rows that a condition claims are the one that a search finds, or none.
  pub count_where_unique :
      (k : ℕ) (q p : A → Bool) (xs : List A) {x : A}
      → HasUniqueKeys xs
      → ((y : A) → q y ≡ true → key y ≡ k)
      → find_first q xs ≡ some x
      → count_where (λ y. q y && p y) xs ≡ (if p x then 1 else 0)
  count_where_unique k q p [] unique keyed e = cc
  count_where_unique k q p (y ∷ ys) {x} unique keyed e = ground (
    arith,
    keyed y,
    count_where_no_key k q p ys keyed,
    count_where_unique k q p ys {x = x} unique.1 keyed,
  )

  update_where_no_key :
      (k : ℕ) (q : A → Bool) (f : A → A) (xs : List A)
      → ((y : A) → q y ≡ true → key y ≡ k)
      → any (λ y. key y == k) xs ≡ false
      → update_where q f xs ≡ xs
  update_where_no_key k q f [] keyed h = refl
  update_where_no_key k q f (x ∷ xs) keyed h =
      ground (arith, keyed x, update_where_no_key k q f xs keyed)

  -- A compare-and-set that claims the row with a unique key, and a write to that row after it, are
  -- one write.
  pub update_where_claimed :
      (k : ℕ) (q p : A → Bool) (f g : A → A) (xs : List A) {x : A}
      → HasUniqueKeys xs
      → ((y : A) → q y ≡ true → key y ≡ k)
      → ((y : A) → q (f y) ≡ q y)
      → find_first q xs ≡ some x
      → p x ≡ true
      → update_where q g (update_where (λ y. q y && p y) f xs)
        ≡ update_where (λ y. q y && p y) (λ y. g (f y)) xs
  update_where_claimed k q p f g [] unique keyed same e c = refl
  update_where_claimed k q p f g (y ∷ ys) {x} unique keyed same e c = ground (
    arith,
    keyed y,
    same y,
    update_where_no_key k q g ys keyed,
    update_where_no_key k (λ z. q z && p z) f ys,
    update_where_no_key k (λ z. q z && p z) (λ z. g (f z)) ys,
    update_where_claimed k q p f g ys {x = x} unique.1 keyed same,
  )

-- A row that meets a condition is found by it.
pub find_first-any {ℓ} :
    {A : Type ℓ} (q : A → Bool) (xs : List A)
    → any q xs ≡ true
    → (x : A) × (find_first q xs ≡ some x)
find_first-any q [] h = cc
find_first-any q (x ∷ xs) h = elim (Bool-cases (q x)) [
  | inl hit ↦ (x, rw hit)
  | inr miss ↦ let (y, e) = find_first-any q xs (rw miss at h) in (y, rw miss e)
]

pub All-map {ℓ κ} :
    {A : Type ℓ} (P Q : A → Type κ) (xs : List A) → ((x : A) → P x → Q x) → All P xs → All Q xs
All-map P Q [] f h = tt
All-map P Q (x ∷ xs) f h = (f x h.0, All-map P Q xs f h.1)
