-- ===== src/Sealing/Ring.antt =====
-- The keyring that seals documents: packages/crypto/src/seal.ts.
use president_tech_award_e_s.Prelude.{
  Bool, true, false, not, ◌&&◌, Option, none, some, List, [], ◌∷◌, ◌++◌, ◌==◌, leb, if◌then◌else◌,
  length, select, any, every, find_first,
}
use president_tech_award_e_s.Calendar.{Instant}
use president_tech_award_e_s.Billing.Store.{Key}
use president_tech_award_e_s.Billing.Payme.Protocol.{Text, strip_prefix}

-- What the code takes from node:crypto, Buffer and Date. A key object, a signature and its base64
-- text are opaque; `chars` gives the characters of an id or a hash. `none` is an exception.
pub record NodeCrypto : Type 0 where
  pub create_private_key : Text → Option Key
  pub is_ed25519 : Key → Bool
  pub create_public_key : Key → Key
  pub sign : Text → Key → Key
  pub verify : Text → Key → Key → Option Bool
  pub to_base64 : Key → Key
  pub from_base64 : Key → Key
  pub to_iso : Instant → Text
  pub chars : Key → Text
  pub sha256 : Text → Key

pub record SealPayload : Type 0 where
  pub request_id : Key
  pub signed_at : Instant
  pub document_hash : Key

pub data KeyState : Type 0 where
  active retiring : KeyState

pub record SealKey : Type 0 where
  pub kid : Key
  pub private_key_pem : Text
  pub state : KeyState

abbrev pub is_active : SealKey → Bool
is_active k = elim k.state [ active ↦ true | retiring ↦ false ]

-- `s.includes(p)`
unfoldable pub includes : Text → Text → Bool
unfolding strip_prefix
includes p [] = elim (strip_prefix p []) [ none ↦ false | some _ ↦ true ]
includes p (c ∷ s) = elim (strip_prefix p (c ∷ s)) [ none ↦ includes p s | some _ ↦ true ]

abbrev pub private_key_words : Text
private_key_words = b'P' ∷ b'R' ∷ b'I' ∷ b'V' ∷ b'A' ∷ b'T' ∷ b'E' ∷ b' ' ∷ b'K' ∷ b'E' ∷ b'Y' ∷ []

-- `sealKeySchema`
unfoldable pub is_seal_key : SealKey → Bool
unfolding includes
is_seal_key k = not (k.kid == 0) && includes private_key_words k.private_key_pem

abbrev pub distinct_kids : List SealKey → Bool
distinct_kids [] = true
distinct_kids (k ∷ ks) = not (any (λ j. j.kid == k.kid) ks) && distinct_kids ks

-- `sealRingSchema`
unfoldable pub is_seal_ring : List SealKey → Bool
unfolding is_seal_key
is_seal_ring ring =
    leb 1 (length ring)
    && (every is_seal_key ring && ((length (select is_active ring) == 1) && distinct_kids ring))

pub record SealEntry : Type 0 where
  pub kid : Key
  pub private_key : Key
  pub public_key : Key

pub record SealService : Type 0 where
  pub entries : List SealEntry
  pub active_kid : Key

pub data RingError : Type 0 where
  duplicate_kid not_ed25519 : Key → RingError
  bad_key two_active no_active : RingError

pub data Built : Type 0 where
  failed : RingError → Built
  built : SealService → Built

pub data Opened : Type 0 where
  closed : RingError → Opened
  opened : SealEntry → Opened

abbrev pub has_kid : Key → SealEntry → Bool
has_kid kid e = e.kid == kid

-- `seal`'s answer
pub record Seal : Type 0 where
  pub signature : Key
  pub kid : Key

abbrev pub version_prefix : Text
version_prefix =
    b'd' ∷ b'o' ∷ b'c' ∷ b'f' ∷ b'l' ∷ b'o' ∷ b'w' ∷ b'-' ∷ b's' ∷ b'e' ∷ b'a' ∷ b'l' ∷ b'-' ∷ b'v'
    ∷ b'1' ∷ b'|' ∷ []

abbrev pub answers_true : Option Bool → Bool
answers_true none = false
answers_true (some b) = b

-- A kid may be claimed as the active one once.
abbrev pub claim_active : SealKey → Option Key → Option (Option Key)
claim_active k none = if is_active k then some (some k.kid) else some none
claim_active k (some kid) = if is_active k then none else some (some kid)

module _ (node : NodeCrypto) where
  abbrev pub entry_for : Key → Key → SealEntry
  entry_for kid key = record {
    kid = kid;
    private_key = key;
    public_key = node.create_public_key key;
  }

  abbrev pub open_private : SealKey → Option Key → Opened
  open_private k none = Opened.closed RingError.bad_key
  open_private k (some key) =
      if not (node.is_ed25519 key)
      then Opened.closed (RingError.not_ed25519 k.kid)
      else Opened.opened (entry_for k.kid key)

  abbrev pub open_key : SealKey → List SealEntry → Opened
  open_key k entries =
      if any (has_kid k.kid) entries
      then Opened.closed (RingError.duplicate_kid k.kid)
      else open_private k (node.create_private_key k.private_key_pem)

  -- The loop of the constructor.
  unfoldable pub build_from : List SealKey → List SealEntry → Option Key → Built
  build_from [] entries none = Built.failed RingError.no_active
  build_from [] entries (some kid) =
      if kid == 0
      then Built.failed RingError.no_active
      else Built.built (record { entries = entries; active_kid = kid })
  build_from (k ∷ ks) entries claimed = elim (open_key k entries) [
    | closed e ↦ Built.failed e
    | opened entry ↦ elim (claim_active k claimed) [
      | none ↦ Built.failed RingError.two_active
      | some claimed' ↦ build_from ks (entry ∷ entries) claimed'
    ]
  ]

  -- `new SealService(ring)`
  unfoldable pub build : List SealKey → Built
  unfolding build_from
  build ring = build_from ring [] none

  unfoldable pub canonical_bytes : SealPayload → Text
  canonical_bytes p =
      version_prefix
      ++ (node.chars p.request_id
          ++ (b'|' ∷ (node.to_iso p.signed_at ++ (b'|' ∷ node.chars p.document_hash))))

  -- `none` where the active key is missing.
  unfoldable pub seal : SealService → SealPayload → Option Seal
  unfolding canonical_bytes
  seal service payload = elim (find_first (has_kid service.active_kid) service.entries) [
    | none ↦ none
    | some entry ↦ some (record {
      signature = node.to_base64 (node.sign (canonical_bytes payload) entry.private_key);
      kid = service.active_kid;
    })
  ]

  unfoldable pub verify : SealService → SealPayload → Key → Key → Bool
  unfolding canonical_bytes
  verify service payload signature kid = elim (find_first (has_kid kid) service.entries) [
    | none ↦ false
    | some entry ↦
        answers_true
          (node.verify (canonical_bytes payload) entry.public_key (node.from_base64 signature))
  ]
