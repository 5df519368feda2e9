-- ===== src/Sealing/Bytes.antt =====
-- The bytes that a seal signs: `canonicalBytes` of packages/crypto/src/seal.ts.
use president_tech_award_e_s.Prelude.{Bool, true, ◌≡◌, refl, [], ◌∷◌, ◌++◌, ◌==◌, every, not, arith}
use president_tech_award_e_s.Calendar.{Instant}
use president_tech_award_e_s.Billing.Store.{Key}
use president_tech_award_e_s.Billing.Payme.Protocol.{Text}
use president_tech_award_e_s.Sealing.Ring.{NodeCrypto, SealPayload, version_prefix, canonical_bytes}

abbrev pub has_no_bar : Text → Bool
has_no_bar s = every (λ c. not (c == b'|')) s

-- A text with no bar ends at the first bar after it.
split_bar :
    (s t : Text) {s' t' : Text}
    → has_no_bar s ≡ true
    → has_no_bar t ≡ true
    → (s ++ (b'|' ∷ s')) ≡ (t ++ (b'|' ∷ t'))
    → (s ≡ t) × (s' ≡ t')
split_bar [] [] a b e = (refl, cc)
split_bar [] (d ∷ t) a b e = absurd (ground arith)
split_bar (c ∷ s) [] a b e = absurd (ground arith)
split_bar (c ∷ s) (d ∷ t) {s'} {t'} a b e =
    let (same, rest) =
      split_bar s t {s' = s'} {t' = t'} (ground arith) (ground arith) (ground arith) in
    (ground arith, rest)

-- `Date.prototype.toISOString` writes no bar, and different instants differently; neither do the
-- characters of two ids.
pub record Writes (node : NodeCrypto) : Type 0 where
  pub to_iso-has_no_bar : (t : Instant) → has_no_bar (node.to_iso t) ≡ true
  pub to_iso-injective : (t u : Instant) → node.to_iso t ≡ node.to_iso u → t ≡ u
  pub chars-injective : (k l : Key) → node.chars k ≡ node.chars l → k ≡ l

drop_front : (p : Text) {s t : Text} → (p ++ s) ≡ (p ++ t) → s ≡ t
drop_front [] e = e
drop_front (c ∷ p) {s} {t} e = drop_front p {s = s} {t = t} (ground arith)

-- The signed bytes determine what was sealed: two payloads whose request ids have no bar in them are
-- signed as the same bytes only if they are the same, in the request, the instant and the hash; different
-- instants and different ids are taken to be written differently, and instants without a bar.
pub canonical_bytes-injective :
    (node : NodeCrypto)
    → Writes node
    → (p q : SealPayload) → has_no_bar (node.chars p.request_id) ≡ true
    → has_no_bar (node.chars q.request_id) ≡ true
    → canonical_bytes node p ≡ canonical_bytes node q
    → p ≡ q
unfolding canonical_bytes
canonical_bytes-injective node writes p q uuid uuid' e =
    let (ids, rest) = split_bar _ _ uuid uuid' (drop_front version_prefix e) in
    let (times, hashes) =
      split_bar _ _ (writes.to_iso-has_no_bar p.signed_at) (writes.to_iso-has_no_bar q.signed_at)
        rest in
    let same_id = writes.chars-injective _ _ ids in
    let same_time = writes.to_iso-injective _ _ times in
    let same_hash = writes.chars-injective _ _ hashes in ground arith
