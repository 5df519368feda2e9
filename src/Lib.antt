-- ===== src/Lib.antt =====
-- The document signing service: billing, access, envelopes and their seals.
--
-- The repository is a service that sends documents for signature and is paid through two providers.
-- This library models the parts of the API that decide: what a payment grants, who may call, who may
-- sign, and what is sealed and sent out.
--
--  * Calendar models the UTC calendar of `Date` since 1970: getters, `Date.UTC`, `setUTCDate`,
--    `setUTCMonth`. Instants are milliseconds on the natural numbers.
--  * Billing/Period models apps/api/src/modules/billing/billing.math.ts: prices and periods.
--  * Billing/Store and Billing/Validity are the tables of payments and workspaces and what holds of them
--    between transactions; Billing/Service models billing.service.ts (checkout, find, attach, activate,
--    cancel). Billing/Activation, Settled, Settlement, Revocation, Closing and Reversal prove what it promises.
--  * Billing/Payme models payme.protocol.ts, payme.service.ts, payme.controller.ts and
--    apps/api/src/tenant/payment.resolver.ts. A method is a function from the tables to an answer
--    (a result, a PaymeRpcError or another exception) and the tables after it.
--  * Billing/Click models click.protocol.ts, click.service.ts and click.controller.ts.
--  * Access models apps/api/src/common/trial.ts, policy.ts and rate-limit.ts, and
--    apps/api/src/auth/claims.ts.
--  * Envelope models apps/api/src/modules/signing/signing.service.ts and field-values.ts, and
--    apps/api/src/modules/signature-requests/signature-requests.service.ts and lifecycle.ts, over the
--    tables as the workspace sees them whose context is open. Envelope/SignFields models
--    apps/sign/lib/sign-fields.ts, and when apps/sign/app/sign/[token]/ceremony.tsx lets the signer finish
--    and what it then submits; Envelope/Agreement compares the two sides. Envelope/Turns and
--    Envelope/Invited are about the routing.
--  * Sealing/Ring models packages/crypto/src/seal.ts; Rotation, Schema and Bytes are about it.
--  * Sealing/Completion and Sealing/Runs model apps/api/src/modules/signing/completion.ts with
--    apps/api/src/storage/worker-storage.ts: a run is a phase, `advance` takes it from one await to the
--    next, and Step lets any number of runs start, go on and die in any order. Follows, Evidence,
--    Making, Steps and Preserved show what a step keeps; Once, Ledger, Copies, Delivered and Finishes what
--    the pipeline promises; Signed, Others and Journey join it to the handlers of Envelope.
--  * Operations models apps/api/src/ops/alerts.ts and `reconcile` of apps/api/src/worker.ts, which runs the
--    pipeline of Sealing on the envelopes that were not finished.
--  * Sealing/Check models `verify` of signature-requests.service.ts and
--    apps/api/src/modules/verify/verify.service.ts; Checked joins them to the pipeline.
--
-- The parts meet in the tables: Payme and Click call `find`, `activate` and `cancel` of the billing
-- service, and the guard of the API reads the plan and the paid time that `activate` writes. The job that
-- `submit` queues is a run of the pipeline on the tables that it leaves.
--
-- A database transaction is one step on the tables, and a call that throws inside it leaves them as
-- they were. Calls are modelled one after the other, each with its own clock reading; a race is two calls
-- in some order. Identifiers and hashes are natural numbers, with 0 for the empty text; texts that are
-- split or joined are lists of characters. Every loop is a recursion on a list; the search for the year
-- of a day goes down from day / 365, which is far enough since every year has at least 365 days.
--
-- A run that goes on to its end takes as many steps as the envelope has mails, and six more at most; its
-- fuel is that number. Between the steps of the runs the tables may change in any way that spares what the
-- pipeline goes by (Spares in Follows), as the handlers in Sealing/Others do; new envelopes are not added.
--
-- Parameters stand for what is not in the repository: base64, md5, sha256, Ed25519, lower case and number
-- parsing, the session service, Redis, the regular expressions of the field rules, the random tokens, and
-- the chunks of a stream. Drawing on a PDF is a parameter as well, since it is the calls of a PDF library.
-- Not modelled: the rest of the two user interfaces, the shape of storage keys, the queue, and the names,
-- methods and wording of certificates and mails.
mod Prelude
pub mod Calendar
pub mod Billing
pub mod Access
pub mod Envelope
pub mod Sealing
pub mod Operations
