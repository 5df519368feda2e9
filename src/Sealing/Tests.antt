-- ===== src/Sealing/Tests.antt =====
-- One envelope with one signer, sealed with a toy signature scheme.
use mathlib.Core.Option.{some-injective}
use president_tech_award_e_s.Prelude.{
  ◌+◌, ◌-◌, ◌≡◌, refl, ap, inl, inr, true, false, some, List, [], ◌∷◌, ◌==◌, length, find_first,
  map_option, arith, Bool-cases,
}
use president_tech_award_e_s.Billing.Store.{Key}
use president_tech_award_e_s.Sealing.Ring.{
  NodeCrypto, SealPayload, KeyState, SealKey, SealService, Built, Seal, is_active, is_seal_ring,
  build, seal, verify, private_key_words,
}
use president_tech_award_e_s.Sealing.Rotation.{Signs, find_key, verify-seal}
use president_tech_award_e_s.Sealing.Schema.{build-is_seal_ring}
use president_tech_award_e_s.Sealing.Bytes.{Writes, canonical_bytes-injective}

abbrev pub node : NodeCrypto
node = record {
  create_private_key = λ pem. some (length pem);
  is_ed25519 = λ _. true;
  create_public_key = λ key. key;
  sign = λ message key. length message + key;
  verify = λ message key signature. some (signature == length message + key);
  to_base64 = λ bytes. 1 + bytes;
  from_base64 = λ text. text - 1;
  to_iso = λ t. (125 + t) ∷ [];
  chars = λ k. (125 + k) ∷ [];
  sha256 = λ body. 1 + length body;
}

pub node-Signs : Signs node
node-Signs = record {
  verify-sign = λ message key _. ap (λ b. some b) (ground arith);
  from-to_base64 = λ bytes. omega arith;
}

node-Writes : Writes node
node-Writes = record {
  to_iso-has_no_bar = λ t. ground arith;
  to_iso-injective = λ t u e. ground arith;
  chars-injective = λ k l e. ground arith;
}

abbrev first_key : SealKey
first_key = record { kid = 1; private_key_pem = private_key_words; state = KeyState.active }

abbrev second_key : SealKey
second_key = record { kid = 2; private_key_pem = 45 ∷ private_key_words; state = KeyState.active }

abbrev pub ring : List SealKey
ring = first_key ∷ []

abbrev later_ring : List SealKey
later_ring = second_key ∷ record first_key { state = KeyState.retiring } ∷ []

abbrev pub service : SealService
service = record {
  entries = record { kid = 1; private_key = 11; public_key = 11 } ∷ [];
  active_kid = 1;
}

abbrev later_service : SealService
later_service = record {
  entries =
      record { kid = 1; private_key = 11; public_key = 11 }
      ∷ record { kid = 2; private_key = 12; public_key = 12 }
      ∷ [];
  active_kid = 2;
}

pub service-build : build node ring ≡ Built.built service
unfolding build
service-build = refl

later_service-build : build node later_ring ≡ Built.built later_service
unfolding build
later_service-build = refl

abbrev payload : SealPayload
payload = record { request_id = 5; signed_at = 90; document_hash = 4 }

kept :
    (kid : Key) (k : SealKey)
    → find_key kid ring ≡ some k
    → (k' : SealKey) × (find_key kid later_ring ≡ some k')
      × (k'.private_key_pem ≡ k.private_key_pem)
kept kid k found = elim (Bool-cases (1 == kid)) [
  | inl hit ↦
      let same : first_key ≡ k = some-injective _ _ (rw hit at found) in
      let new : (2 == kid) ≡ false = ground arith in
      (
        record first_key { state = KeyState.retiring },
        rw (new, hit) refl,
        ap (λ x. x.private_key_pem) same,
      )
  | inr miss ↦ absurd (ground arith)
]

verify-seal_example :
    (mark : Seal) × (seal node service payload ≡ some mark)
    × (verify node later_service payload mark.signature mark.kid ≡ true)
verify-seal_example =
    verify-seal node node-Signs ring later_ring payload service-build later_service-build kept

later_ring-is_seal_ring : is_seal_ring later_ring ≡ true
unfolding is_seal_ring
later_ring-is_seal_ring = refl

build-is_seal_ring_example :
    (s : SealService) × (build node later_ring ≡ Built.built s)
    × (some s.active_kid ≡ map_option (λ k. k.kid) (find_first is_active later_ring))
build-is_seal_ring_example =
    build-is_seal_ring node later_ring later_ring-is_seal_ring
      ((12, refl, refl), ((11, refl, refl), tt))

canonical_bytes-injective_example : payload ≡ payload
canonical_bytes-injective_example =
    canonical_bytes-injective node node-Writes payload payload refl refl refl
