-- ===== src/Sealing/Copies.antt =====
-- Who is mailed a copy: `deliver` of apps/api/src/modules/signing/completion.ts.
use president_tech_award_e_s.Prelude.{
  ◌+◌, ◌≡◌, refl, ap, ◌∙◌, inl, inr, Bool, true, false, not, ◌&&◌, ◌||◌, Option, none, some, List,
  [], ◌∷◌, ◌++◌, map, ◌==◌, if◌then◌else◌, any, count_where, arith, Bool-cases, ==_iff,
}
use president_tech_award_e_s.Billing.Store.{Key}
use president_tech_award_e_s.Billing.Payme.Protocol.{Text}
use president_tech_award_e_s.Envelope.Store.{Recipient, SignatureRequest}
use president_tech_award_e_s.Sealing.Completion.{Mail}
use president_tech_award_e_s.Sealing.Runs.{
  Worker, unseen, audience, mail_to, sender_mails, mails_of,
}

module _ (worker : Worker) where
  -- `true` of one address is written in lower case as `k`.
  abbrev pub spells : Key → Key → Bool
  spells k e = worker.lower e == k

  count-unseen :
      (k : Key) (seen es : List Key)
      → count_where (spells k) (unseen worker seen es)
        ≡ (if any (λ s. s == k) seen then 0 else (if any (spells k) es then 1 else 0))
  unfolding unseen
  count-unseen k seen [] = ground arith
  count-unseen k seen (e ∷ es) = elim (Bool-cases (any (λ s. s == worker.lower e) seen)) [
    | inl old ↦
        let again : (worker.lower e == k) ≡ true → any (λ s. s == k) seen ≡ true =
          λ hit. rw ((==_iff (worker.lower e) k).0 hit) at old in
        rw (unseen, old) (ground (arith, count-unseen k seen es, again))
    | inr new ↦
        let fresh : (worker.lower e == k) ≡ true → any (λ s. s == k) seen ≡ false =
          λ hit. rw ((==_iff (worker.lower e) k).0 hit) at new in
        rw (unseen, new) (ground (arith, count-unseen k (worker.lower e ∷ seen) es, fresh))
  ]

  any-count : (k : Key) (es : List Key) → any (spells k) es ≡ not (count_where (spells k) es == 0)
  any-count k [] = refl
  any-count k (e ∷ es) = ground (arith, any-count k es)

  any-unseen : (k : Key) (es : List Key) → any (spells k) (unseen worker [] es) ≡ any (spells k) es
  any-unseen k es = any-count k (unseen worker [] es) ∙ ground (arith, count-unseen k [] es)

  abbrev pub is_to : Key → Mail → Bool
  is_to k m = spells k m.address

  count-mail_to :
      (k : Key) (signed certificate : Text) (es : List Key)
      → count_where (is_to k) (map (mail_to worker false signed certificate) es)
        ≡ count_where (spells k) es
  count-mail_to k signed certificate [] = refl
  count-mail_to k signed certificate (e ∷ es) =
      ground (arith, count-mail_to k signed certificate es)

  count-++ :
      (p : Mail → Bool) (ms ns : List Mail)
      → count_where p (ms ++ ns) ≡ count_where p ms + count_where p ns
  count-++ p [] ns = ground arith
  count-++ p (m ∷ ms) ns = ground (arith, count-++ p ms ns)

  abbrev pub is_sender : Key → Option Key → Bool
  is_sender k none = false
  is_sender k (some sender) = not (sender == 0) && spells k sender

  count-sender_mails :
      (k : Key) (signed certificate : Text) (sender : Option Key) (es : List Key)
      → count_where (is_to k) (sender_mails worker signed certificate sender (unseen worker [] es))
        ≡ (if is_sender k sender && not (any (spells k) es) then 1 else 0)
  count-sender_mails k signed certificate none es = refl
  count-sender_mails k signed certificate (some sender) es = elim (Bool-cases (spells k sender)) [
    | inl hit ↦
        let told =
          ap (λ x. any (spells x) (unseen worker [] es)) ((==_iff _ _).0 hit) ∙ any-unseen k es in
        rw told (ground (arith, hit))
    | inr miss ↦ ground (arith, miss)
  ]

  -- The mails of one delivery: one for whoever is on the envelope or sent it, and none for anybody else.
  pub mails_of-once :
      (req : SignatureRequest) (people : List Recipient) (signed certificate : Text) (k : Key)
      → count_where (is_to k) (mails_of worker req people signed certificate) ≡ (
          if any (spells k) (audience worker req people) || is_sender k req.sender_email
          then 1
          else 0)
  unfolding mails_of
  mails_of-once req people signed certificate k =
      let told = unseen worker [] (audience worker req people) in
      ground (
        arith,
        count-++ (is_to k) (map (mail_to worker false signed certificate) told)
            (sender_mails worker signed certificate req.sender_email told),
        count-mail_to k signed certificate told,
        count-unseen k [] (audience worker req people),
        count-sender_mails k signed certificate req.sender_email (audience worker req people),
      )
