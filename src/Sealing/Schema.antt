-- ===== src/Sealing/Schema.antt =====
-- A ring that the schema accepts starts the service: packages/crypto/src/seal.ts.
use president_tech_award_e_s.Prelude.{
  true, false, ◌≡◌, refl, inl, inr, none, some, List, [], ◌∷◌, ◌==◌, length, select, any, every,
  find_first, All, map_option, arith, Bool-cases,
}
use president_tech_award_e_s.Billing.Store.{Key}
use president_tech_award_e_s.Sealing.Ring.{
  NodeCrypto, SealKey, SealEntry, SealService, Built, Opened, is_active, is_seal_key, is_seal_ring,
  distinct_kids, has_kid, entry_for, open_key, build_from, build,
}

-- The PEM of a key parses, as an Ed25519 key.
abbrev pub Opens : NodeCrypto → SealKey → Type 0
Opens node k =
    (key : Key) × (node.create_private_key k.private_key_pem ≡ some key)
    × (node.is_ed25519 key ≡ true)

abbrev IsNew : List SealEntry → SealKey → Type 0
IsNew entries k = any (has_kid k.kid) entries ≡ false

-- The keys left stay new when an entry of a different kid is added.
IsNew-cons :
    (entry : SealEntry) (entries : List SealEntry) (ks : List SealKey)
    → any (λ k. k.kid == entry.kid) ks ≡ false
    → All (IsNew entries) ks
    → All (IsNew (entry ∷ entries)) ks
IsNew-cons entry entries [] other h = tt
IsNew-cons entry entries (k ∷ ks) other h =
    (ground (arith, h.0), IsNew-cons entry entries ks (ground arith) h.1)

IsNew-nil : (ks : List SealKey) → All (IsNew []) ks
IsNew-nil [] = tt
IsNew-nil (k ∷ ks) = (refl, IsNew-nil ks)

module _ (node : NodeCrypto) where
  open_key-Opens :
      (k : SealKey) (entries : List SealEntry)
      → IsNew entries k
      → (o : Opens node k) → open_key node k entries ≡ Opened.opened (entry_for node k.kid o.0)
  open_key-Opens k entries new (key, opens, good) = rw (new, opens, good) refl

  -- Once a kid is claimed, keys that only verify are added.
  builds_claimed :
      (ks : List SealKey) (entries : List SealEntry) (kid : Key)
      → (kid == 0) ≡ false
      → length (select is_active ks) ≡ 0
      → distinct_kids ks ≡ true
      → All (IsNew entries) ks
      → All (Opens node) ks
      → (s : SealService) × (build_from node ks entries (some kid) ≡ Built.built s)
        × (s.active_kid ≡ kid)
  unfolding build_from
  builds_claimed [] entries kid full idle distinct new opens =
      (record { entries = entries; active_kid = kid }, rw full refl, refl)
  builds_claimed (k ∷ ks) entries kid full idle distinct new opens =
      let entry = entry_for node k.kid opens.0.0 in
      let retiring : is_active k ≡ false = ground arith in
      let (s, e, same) =
        builds_claimed ks (entry ∷ entries) kid full (ground arith) (ground arith)
          (IsNew-cons entry entries ks (ground arith) new.1) opens.1 in
      (s, rw (build_from, open_key-Opens k entries new.0 opens.0, retiring) e, same)

  builds_unclaimed :
      (ks : List SealKey) (entries : List SealEntry)
      → length (select is_active ks) ≡ 1
      → every is_seal_key ks ≡ true
      → distinct_kids ks ≡ true
      → All (IsNew entries) ks
      → All (Opens node) ks
      → (s : SealService) × (build_from node ks entries none ≡ Built.built s)
        × (some s.active_kid ≡ map_option (λ k. k.kid) (find_first is_active ks))
  unfolding build_from is_seal_key
  builds_unclaimed [] entries one good distinct new opens = absurd (ground arith)
  builds_unclaimed (k ∷ ks) entries one good distinct new opens =
      let entry = entry_for node k.kid opens.0.0 in
      let new' = IsNew-cons entry entries ks (ground arith) new.1 in
      elim (Bool-cases (is_active k)) [
        | inl now ↦
            let (s, e, same) =
              builds_claimed ks (entry ∷ entries) k.kid (ground arith) (ground arith) (ground arith)
                new' opens.1 in
            (s, rw (build_from, open_key-Opens k entries new.0 opens.0, now) e, rw (now, same) refl)
        | inr later ↦
            let (s, e, same) =
              builds_unclaimed ks (entry ∷ entries) (ground arith) (ground arith) (ground arith)
                new' opens.1 in
            (s, rw (build_from, open_key-Opens k entries new.0 opens.0, later) e, rw later same)
      ]

  -- A ring that the schema accepts, of Ed25519 keys, starts the service: the constructor throws on no
  -- such ring, and the key that signs is the ring's active one.
  pub build-is_seal_ring :
      (ring : List SealKey)
      → is_seal_ring ring ≡ true
      → All (Opens node) ring
      → (s : SealService) × (build node ring ≡ Built.built s)
        × (some s.active_kid ≡ map_option (λ k. k.kid) (find_first is_active ring))
  unfolding build is_seal_ring
  build-is_seal_ring ring ok opens =
      builds_unclaimed ring [] (ground arith) (ground arith) (ground arith) (IsNew-nil ring) opens
