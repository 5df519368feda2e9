-- ===== src/Sealing/Follows.antt =====
-- How the rows of envelopes change while they are sealed, and what outlasts the change.
use president_tech_award_e_s.Prelude.{
  ◌≡◌, refl, sym, ◌∙◌, ◌⊎◌, inl, inr, Bool, true, false, Option, none, some, List, [], ◌∷◌, ◌==◌,
  any, find_first, update_where, All, arith, Bool-cases, ==_iff, HasUniqueKeys,
}
use mathlib.Core.Path.{subst}
use mathlib.Core.Option.{some-injective}
use president_tech_award_e_s.Billing.Store.{Key}
use president_tech_award_e_s.Envelope.Store.{SignatureRequest, has_id}

-- What the pipeline records of a sealed envelope.
pub record Recorded : Type 0 where
  pub signed_pdf_key : Option Key
  pub certificate_key : Option Key
  pub document_hash : Option Key
  pub seal_signature : Option Key
  pub seal_kid : Option Key

abbrev pub recorded : SignatureRequest → Recorded
recorded r = record {
  signed_pdf_key = r.signed_pdf_key;
  certificate_key = r.certificate_key;
  document_hash = r.document_hash;
  seal_signature = r.seal_signature;
  seal_kid = r.seal_kid;
}

abbrev pub blank : Recorded
blank = record {
  signed_pdf_key = none;
  certificate_key = none;
  document_hash = none;
  seal_signature = none;
  seal_kid = none;
}

-- A row keeps its id, its time of completion once it has one, and what is recorded once.
abbrev pub Keeps : SignatureRequest → SignatureRequest → Type 0
Keeps x y =
    (y.id ≡ x.id)
    × ((x.completed_at ≡ none) ⊎ (y.completed_at ≡ x.completed_at))
    × ((recorded x ≡ blank) ⊎ (recorded y ≡ recorded x))

abbrev pub Follows : List SignatureRequest → List SignatureRequest → Type 0
Follows [] [] = Unit
Follows [] (_ ∷ _) = ⊥
Follows (_ ∷ _) [] = ⊥
Follows (x ∷ xs) (y ∷ ys) = Keeps x y × Follows xs ys

-- What the other handlers leave of the rows: everything that the pipeline goes by, but for the time of
-- completion of an envelope that has none.
abbrev pub Spared : SignatureRequest → SignatureRequest → Type 0
Spared x y =
    (y.id ≡ x.id)
    × ((x.completed_at ≡ none) ⊎ (y.completed_at ≡ x.completed_at))
    × (recorded y ≡ recorded x)
    × (y.completion_emailed_at ≡ x.completion_emailed_at)

abbrev pub Spares : List SignatureRequest → List SignatureRequest → Type 0
Spares [] [] = Unit
Spares [] (_ ∷ _) = ⊥
Spares (_ ∷ _) [] = ⊥
Spares (x ∷ xs) (y ∷ ys) = Spared x y × Spares xs ys

pub Spares-Follows : (xs ys : List SignatureRequest) → Spares xs ys → Follows xs ys
Spares-Follows [] [] h = tt
Spares-Follows [] (y ∷ ys) h = absurd h
Spares-Follows (x ∷ xs) [] h = absurd h
Spares-Follows (x ∷ xs) (y ∷ ys) ((i, c, r, m), h) = ((i, c, inr r), Spares-Follows xs ys h)

pub Spares-All {κ μ} :
    (P : SignatureRequest → Type κ) (Q : SignatureRequest → Type μ) (xs ys : List SignatureRequest)
    → ((x y : SignatureRequest) → P x → Spared x y → Q y)
    → Spares xs ys
    → All P xs
    → All Q ys
Spares-All P Q [] [] step h all = tt
Spares-All P Q [] (y ∷ ys) step h all = absurd h
Spares-All P Q (x ∷ xs) [] step h all = absurd h
Spares-All P Q (x ∷ xs) (y ∷ ys) step h all =
    (step x y all.0 h.0, Spares-All P Q xs ys step h.1 all.1)

pub Spares-find :
    (id : Key) (xs ys : List SignatureRequest) {x : SignatureRequest}
    → Spares xs ys
    → find_first (has_id id) xs ≡ some x
    → (y : SignatureRequest) × (find_first (has_id id) ys ≡ some y) × Spared x y
Spares-find id [] ys h found = cc
Spares-find id (x ∷ xs) [] h found = absurd h
Spares-find id (x ∷ xs) (y ∷ ys) {x = w} h found = elim (Bool-cases (x.id == id)) [
  | inl hit ↦
      let same : x ≡ w = some-injective x w (rw hit at found) in
      (y, rw (h.0.0, hit) refl, subst (λ z. Spared z y) same h.0)
  | inr miss ↦
      let (z, e, k) = Spares-find id xs ys {x = w} h.1 (rw miss at found) in
      (z, rw (h.0.0, miss) e, k)
]

pub Spares-update_where {κ} :
    (P : SignatureRequest → Type κ) (p : SignatureRequest → Bool)
    (f : SignatureRequest → SignatureRequest) (xs : List SignatureRequest)
    → ((x : SignatureRequest) → P x → p x ≡ true → Spared x (f x))
    → All P xs
    → Spares xs (update_where p f xs)
Spares-update_where P p f [] spared h = tt
Spares-update_where P p f (x ∷ xs) spared h = (
  elim (Bool-cases (p x)) [
    | inl hit ↦ rw hit (spared x h.0 hit)
    | inr miss ↦ rw miss (refl, inr refl, refl, refl)
  ],
  Spares-update_where P p f xs spared h.1,
)

pub Keeps-refl : (x : SignatureRequest) → Keeps x x
Keeps-refl x = (refl, inr refl, inr refl)

pub Follows-refl : (xs : List SignatureRequest) → Follows xs xs
Follows-refl [] = tt
Follows-refl (x ∷ xs) = (Keeps-refl x, Follows-refl xs)

Keeps-trans : (x y z : SignatureRequest) → Keeps x y → Keeps y z → Keeps x z
Keeps-trans x y z (i, c, a) (j, d, b) = (
  j ∙ i,
  elim c [
    | inl not_yet ↦ inl not_yet
    | inr same ↦ elim d [ inl not_yet ↦ inl (sym same ∙ not_yet) | inr still ↦ inr (still ∙ same) ]
  ],
  elim a [
    | inl none_yet ↦ inl none_yet
    | inr same ↦ elim b [
      | inl none_yet ↦ inl (sym same ∙ none_yet)
      | inr still ↦ inr (still ∙ same)
    ]
  ],
)

pub Follows-trans :
    (xs ys zs : List SignatureRequest) → Follows xs ys → Follows ys zs → Follows xs zs
Follows-trans [] [] zs h k = k
Follows-trans [] (y ∷ ys) zs h k = absurd h
Follows-trans (x ∷ xs) [] zs h k = absurd h
Follows-trans (x ∷ xs) (y ∷ ys) [] h k = absurd k
Follows-trans (x ∷ xs) (y ∷ ys) (z ∷ zs) h k =
    (Keeps-trans x y z h.0 k.0, Follows-trans xs ys zs h.1 k.1)

pub Follows-update_where {κ} :
    (P : SignatureRequest → Type κ) (p : SignatureRequest → Bool)
    (f : SignatureRequest → SignatureRequest) (xs : List SignatureRequest)
    → ((x : SignatureRequest) → P x → p x ≡ true → Keeps x (f x))
    → All P xs
    → Follows xs (update_where p f xs)
Follows-update_where P p f [] keeps h = tt
Follows-update_where P p f (x ∷ xs) keeps h = (
  elim (Bool-cases (p x)) [
    | inl hit ↦ rw hit (keeps x h.0 hit)
    | inr miss ↦ rw miss (Keeps-refl x)
  ],
  Follows-update_where P p f xs keeps h.1,
)

-- What holds of a row and outlasts its changes holds of the later rows.
pub Follows-All {κ μ} :
    (P : SignatureRequest → Type κ) (Q : SignatureRequest → Type μ) (xs ys : List SignatureRequest)
    → ((x y : SignatureRequest) → P x → Keeps x y → Q y)
    → Follows xs ys
    → All P xs
    → All Q ys
Follows-All P Q [] [] step h all = tt
Follows-All P Q [] (y ∷ ys) step h all = absurd h
Follows-All P Q (x ∷ xs) [] step h all = absurd h
Follows-All P Q (x ∷ xs) (y ∷ ys) step h all =
    (step x y all.0 h.0, Follows-All P Q xs ys step h.1 all.1)

pub Follows-any :
    (q : SignatureRequest → Bool) (xs ys : List SignatureRequest)
    → ((x y : SignatureRequest) → Keeps x y → q x ≡ true → q y ≡ true)
    → Follows xs ys
    → any q xs ≡ true
    → any q ys ≡ true
Follows-any q [] ys step h found = cc
Follows-any q (x ∷ xs) [] step h found = absurd h
Follows-any q (x ∷ xs) (y ∷ ys) step h found = elim (Bool-cases (q x)) [
  | inl hit ↦ rw (step x y h.0 hit) refl
  | inr miss ↦ let later = Follows-any q xs ys step h.1 (rw miss at found) in ground (arith, later)
]

-- The row with an id is found again.
pub Follows-find :
    (id : Key) (xs ys : List SignatureRequest) {x : SignatureRequest}
    → Follows xs ys
    → find_first (has_id id) xs ≡ some x
    → (y : SignatureRequest) × (find_first (has_id id) ys ≡ some y) × Keeps x y
Follows-find id [] ys h found = cc
Follows-find id (x ∷ xs) [] h found = absurd h
Follows-find id (x ∷ xs) (y ∷ ys) {x = w} h found = elim (Bool-cases (x.id == id)) [
  | inl hit ↦
      let same : x ≡ w = some-injective x w (rw hit at found) in
      (y, rw (h.0.0, hit) refl, subst (λ z. Keeps z y) same h.0)
  | inr miss ↦
      let (z, e, k) = Follows-find id xs ys {x = w} h.1 (rw miss at found) in
      (z, rw (h.0.0, miss) e, k)
]

All-none {κ} :
    (q : SignatureRequest → Bool) (R : SignatureRequest → Type κ) (xs : List SignatureRequest)
    → any q xs ≡ false
    → All (λ x. q x ≡ true → R x) xs
All-none q R [] h = tt
All-none q R (x ∷ xs) h = (λ hit. absurd (ground arith), All-none q R xs (ground arith))

-- Rows with unique ids: the one that is found is the only one.
pub All-unique :
    (id : Key) (xs : List SignatureRequest) {x : SignatureRequest}
    → HasUniqueKeys (λ r. r.id) xs
    → find_first (has_id id) xs ≡ some x
    → All (λ y. has_id id y ≡ true → y ≡ x) xs
All-unique id [] unique found = tt
All-unique id (y ∷ ys) {x} unique found = elim (Bool-cases (y.id == id)) [
  | inl hit ↦ (
    λ _. some-injective y x (rw hit at found),
    All-none (has_id id) (λ z. z ≡ x) ys (rw ((==_iff y.id id).0 hit) at unique.0),
  )
  | inr miss ↦ (λ hit. absurd (ground arith), All-unique id ys unique.1 (rw miss at found))
]

any_id-Follows :
    (id : Key) (xs ys : List SignatureRequest)
    → Follows xs ys
    → any (has_id id) ys ≡ any (has_id id) xs
any_id-Follows id [] [] h = refl
any_id-Follows id [] (y ∷ ys) h = absurd h
any_id-Follows id (x ∷ xs) [] h = absurd h
any_id-Follows id (x ∷ xs) (y ∷ ys) h = rw (h.0.0, any_id-Follows id xs ys h.1) refl

pub HasUniqueKeys-Follows :
    (xs ys : List SignatureRequest)
    → Follows xs ys
    → HasUniqueKeys (λ r. r.id) xs
    → HasUniqueKeys (λ r. r.id) ys
HasUniqueKeys-Follows [] [] h unique = tt
HasUniqueKeys-Follows [] (y ∷ ys) h unique = absurd h
HasUniqueKeys-Follows (x ∷ xs) [] h unique = absurd h
HasUniqueKeys-Follows (x ∷ xs) (y ∷ ys) h unique =
    (any_id-Follows y.id xs ys h.1 ∙ rw h.0.0 unique.0, HasUniqueKeys-Follows xs ys h.1 unique.1)
