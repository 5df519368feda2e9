-- ===== src/Envelope/Wire.antt =====
-- What the dashboard shows of an envelope: `toWire` of
-- apps/api/src/modules/signature-requests/signature-requests.service.ts.
use president_tech_award_e_s.Prelude.{
  ℕ, max, Bool, true, false, not, Option, none, some, List, [], ◌∷◌, leb, if◌then◌else◌, length,
  select,
}
use president_tech_award_e_s.Calendar.{Instant}
use president_tech_award_e_s.Billing.Store.{Key}
use president_tech_award_e_s.Envelope.Store.{
  SignatureStatus, RoutingMode, Recipient, SignatureRequest, is_live, is_done, is_signer,
}

-- `SignatureRequestWire`, as far as it is computed.
pub record SignatureRequestWire : Type 0 where
  pub id : Key
  pub document_name : Key
  pub routing_mode : RoutingMode
  pub signed_count : ℕ
  pub signer_count : ℕ
  pub status : SignatureStatus
  pub last_change_at : Instant
  pub waiting_on : Option Key
  pub has_signed_pdf : Bool

-- The first of the least routing order: the head after a stable sort.
abbrev pub least : Recipient → List Recipient → Recipient
least r [] = r
least r (q ∷ qs) = least (if leb r.routing_order q.routing_order then r else q) qs

abbrev pub first_outstanding : List Recipient → Option Recipient
first_outstanding [] = none
first_outstanding (r ∷ rs) = some (least r rs)

abbrev pub later : Option Instant → Instant → Instant
later none t = t
later (some s) t = max s t

abbrev pub holds_key : Option Key → Bool
holds_key none = false
holds_key (some _) = true

-- The address of whom the sender waits for; the name that is shown in its place is left aside.
abbrev pub waiting : Bool → Option Recipient → Option Key
waiting true (some r) = some r.email
waiting _ _ = none

unfoldable pub to_wire : SignatureRequest → List Recipient → SignatureRequestWire
to_wire row all =
    let signers = select is_signer all in
    record {
      id = row.id;
      document_name = row.document_name;
      routing_mode = row.routing_mode;
      signed_count = length (select (λ r. is_done r.status) signers);
      signer_count = length signers;
      status = row.status;
      last_change_at =
          later row.completed_at (later row.voided_at (later row.viewed_at row.sent_at));
      waiting_on =
          waiting (is_live row.status)
            (first_outstanding (select (λ r. not (is_done r.status)) signers));
      has_signed_pdf = holds_key row.signed_pdf_key;
    }
