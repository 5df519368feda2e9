-- ===== src/Sealing/Rotation.antt =====
-- Seals outlive the ring that made them: packages/crypto/src/seal.ts.
use mathlib.Core.Path.{subst}
use mathlib.Core.Option.{some-injective}
use president_tech_award_e_s.Prelude.{
  true, false, ◌≡◌, refl, sym, ap, ◌∙◌, ◌⊎◌, inl, inr, Option, none, some, List, [], ◌∷◌, ◌==◌, any,
  ==_iff, find_first, arith, Bool-cases, Option-cases,
}
use president_tech_award_e_s.Billing.Store.{Key}
use president_tech_award_e_s.Billing.Payme.Protocol.{Text}
use president_tech_award_e_s.Sealing.Ring.{
  NodeCrypto, SealPayload, SealKey, SealEntry, SealService, Built, Opened, Seal, RingError, has_kid,
  entry_for, open_key, claim_active, build_from, build, canonical_bytes, seal, verify,
}

-- Signatures verify under the public half of their key, and base64 loses nothing.
pub record Signs (node : NodeCrypto) : Type 0 where
  pub verify-sign :
      (message : Text) (key : Key)
      → node.is_ed25519 key ≡ true
      → node.verify message (node.create_public_key key) (node.sign message key) ≡ some true
  pub from-to_base64 : (bytes : Key) → node.from_base64 (node.to_base64 bytes) ≡ bytes

abbrev pub find_key : Key → List SealKey → Option SealKey
find_key kid ring = find_first (λ k. k.kid == kid) ring

abbrev pub find_entry : Key → SealService → Option SealEntry
find_entry kid service = find_first (has_kid kid) service.entries

-- The key that a ring lists was opened under its kid.
abbrev Listed : NodeCrypto → SealKey → Key → SealService → Type 0
Listed node k kid service =
    (key : Key) × (node.create_private_key k.private_key_pem ≡ some key)
    × (node.is_ed25519 key ≡ true)
    × (find_entry kid service ≡ some (entry_for node kid key))

-- A kid with an entry is not one without.
other_kid :
    (entries : List SealEntry) (kid new : Key) {e : SealEntry}
    → find_first (has_kid kid) entries ≡ some e
    → any (has_kid new) entries ≡ false
    → (new == kid) ≡ false
other_kid [] kid new found none_of_them = cc
other_kid (x ∷ xs) kid new {e} found none_of_them = ground (arith, other_kid xs kid new {e = e})

-- A claim that ends at another kid was there before.
claimed_before :
    (k : SealKey) (claimed : Option Key) {claimed' : Option Key} {kid : Key}
    → claim_active k claimed ≡ some claimed'
    → claimed' ≡ some kid
    → (k.kid == kid) ≡ false
    → claimed ≡ some kid
claimed_before k none once now miss = ground arith
claimed_before k (some a) once now miss = ground arith

module _ (node : NodeCrypto) where
  -- A key that was opened had no entry before, and has one of its own.
  open_key-opened :
      (k : SealKey) (entries : List SealEntry) {entry : SealEntry}
      → open_key node k entries ≡ Opened.opened entry
      → (any (has_kid k.kid) entries ≡ false)
        × ((key : Key) × (node.create_private_key k.private_key_pem ≡ some key)
            × (node.is_ed25519 key ≡ true)
            × (entry ≡ entry_for node k.kid key))
  open_key-opened k entries h = elim (Bool-cases (any (has_kid k.kid) entries)) [
    | inl old ↦ absurd (ground arith)
    | inr new ↦ elim (Option-cases (node.create_private_key k.private_key_pem)) [
      | inl bad ↦ absurd (ground arith)
      | inr (key, opens) ↦ elim (Bool-cases (node.is_ed25519 key)) [
        | inl good ↦ (new, (key, opens, good, ground arith))
        | inr other ↦ absurd (ground arith)
      ]
    ]
  ]

  Opened-cases :
      (o : Opened)
      → ((e : RingError) × (o ≡ Opened.closed e))
        ⊎ ((entry : SealEntry) × (o ≡ Opened.opened entry))
  Opened-cases (Opened.closed e) = inl (e, refl)
  Opened-cases (Opened.opened entry) = inr (entry, refl)

  -- One pass of the loop that went on.
  pub build_from-step :
      (k : SealKey) (ks : List SealKey) (entries : List SealEntry) (claimed : Option Key)
      {s : SealService}
      → build_from node (k ∷ ks) entries claimed ≡ Built.built s
      → (entry : SealEntry) × (claimed' : Option Key) × (open_key node k entries
          ≡ Opened.opened entry)
        × (claim_active k claimed ≡ some claimed')
        × (build_from node ks (entry ∷ entries) claimed' ≡ Built.built s)
  unfolding build_from
  build_from-step k ks entries claimed h = elim (Opened-cases (open_key node k entries)) [
    | inl (e, bad) ↦ absurd (ground arith)
    | inr (entry, ok) ↦ elim (Option-cases (claim_active k claimed)) [
      | inl twice ↦ absurd (ground arith)
      | inr (claimed', once) ↦ (entry, claimed', ok, once, rw (build_from, ok, once) at h)
    ]
  ]

  -- An entry stays where it is while later keys are added.
  build_from_keeps :
      (ks : List SealKey) (entries : List SealEntry) (claimed : Option Key) (kid : Key)
      {s : SealService} {e : SealEntry}
      → build_from node ks entries claimed ≡ Built.built s
      → find_first (has_kid kid) entries ≡ some e
      → find_entry kid s ≡ some e
  unfolding build_from
  build_from_keeps [] entries none kid h found = absurd (ground arith)
  build_from_keeps [] entries (some a) kid h found = elim (Bool-cases (a == 0)) [
    | inl empty ↦ absurd (ground arith)
    | inr full ↦ ground arith
  ]
  build_from_keeps (k ∷ ks) entries claimed kid h found =
      let (entry, claimed', ok, once, rest) = build_from-step k ks entries claimed h in
      let (new, (key, opens, good, same)) = open_key-opened k entries ok in
      build_from_keeps ks (entry ∷ entries) claimed' kid rest
        (rw (ap (λ x. x.kid) same, other_kid entries kid k.kid found new) found)

  -- Every key of the ring has its entry.
  build_from-Listed :
      (ks : List SealKey) (entries : List SealEntry) (claimed : Option Key) (kid : Key)
      {s : SealService} {k : SealKey}
      → build_from node ks entries claimed ≡ Built.built s
      → find_key kid ks ≡ some k
      → Listed node k kid s
  build_from-Listed [] entries claimed kid h found = absurd (ground arith)
  build_from-Listed (j ∷ ks) entries claimed kid {s} {k} h found =
      let (entry, claimed', ok, once, rest) = build_from-step j ks entries claimed h in
      elim (Bool-cases (j.kid == kid)) [
        | inl hit ↦
            let (new, (key, opens, good, same)) = open_key-opened j entries ok in
            let head : find_first (has_kid kid) (entry ∷ entries) ≡ some entry =
              rw (ap (λ x. x.kid) same, hit) refl in
            let there : find_entry kid s ≡ some (entry_for node kid key) =
              build_from_keeps ks (entry ∷ entries) claimed' kid rest head
              ∙ ap (λ x. some x)
                  (same ∙ ap (λ x. entry_for node x key) ((==_iff j.kid kid).0 hit)) in
            subst (λ x. Listed node x kid s) (some-injective _ _ (rw hit at found))
              (key, opens, good, there)
        | inr miss ↦ build_from-Listed ks (entry ∷ entries) claimed' kid rest (rw miss at found)
      ]

  -- The active kid is one that was claimed before, or one of the ring.
  build_from-active :
      (ks : List SealKey) (entries : List SealEntry) (claimed : Option Key) {s : SealService}
      → build_from node ks entries claimed ≡ Built.built s
      → (claimed ≡ some s.active_kid) ⊎ ((k : SealKey) × (find_key s.active_kid ks ≡ some k))
  unfolding build_from
  build_from-active [] entries none h = absurd (ground arith)
  build_from-active [] entries (some a) h = elim (Bool-cases (a == 0)) [
    | inl empty ↦ absurd (ground arith)
    | inr full ↦ inl (ground arith)
  ]
  build_from-active (k ∷ ks) entries claimed {s} h =
      let (entry, claimed', ok, once, rest) = build_from-step k ks entries claimed h in
      elim (Bool-cases (k.kid == s.active_kid)) [
        | inl hit ↦ inr (k, rw hit)
        | inr miss ↦ elim (build_from-active ks (entry ∷ entries) claimed' rest) [
          | inl now ↦ inl (claimed_before k claimed once now miss)
          | inr (k', found) ↦ inr (k', rw miss found)
        ]
      ]

  -- A service that was started from a ring seals whatever it is given, and a service that was started
  -- from a ring which still lists every key of the first one, whatever it added and whichever key signs
  -- now, verifies that seal; signatures are taken to verify under the public half of their key, and
  -- base64 to lose nothing.
  pub verify-seal :
      Signs node
      → (ring later : List SealKey) (payload : SealPayload) {s t : SealService}
      → build node ring ≡ Built.built s
      → build node later ≡ Built.built t
      → ((kid : Key) (k : SealKey)
          → find_key kid ring ≡ some k
          → (k' : SealKey) × (find_key kid later ≡ some k')
            × (k'.private_key_pem ≡ k.private_key_pem))
      → (mark : Seal) × (seal node s payload ≡ some mark)
        × (verify node t payload mark.signature mark.kid ≡ true)
  unfolding build seal verify
  verify-seal laws ring later payload {s} {t} h h' kept = elim (build_from-active ring [] none h) [
    | inl never ↦ absurd (ground arith)
    | inr (k, found) ↦
        let (k', found', same) = kept s.active_kid k found in
        let (key, opens, good, entry) = build_from-Listed ring [] none s.active_kid h found in
        let (key', opens', good', entry') =
          build_from-Listed later [] none s.active_kid h' found' in
        let key_same : key' ≡ key =
          some-injective _ _ (sym opens' ∙ ap node.create_private_key same ∙ opens) in
        let entry'' : find_entry s.active_kid t ≡ some (entry_for node s.active_kid key) =
          entry' ∙ ap (λ x. some (entry_for node s.active_kid x)) key_same in
        (
          record {
            signature = node.to_base64 (node.sign (canonical_bytes node payload) key);
            kid = s.active_kid;
          },
          rw (seal, entry) refl,
          rw (verify, entry'', laws.from-to_base64, laws.verify-sign _ key good) refl,
        )
  ]
