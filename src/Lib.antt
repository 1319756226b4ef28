-- ===== src/Lib.antt =====
-- A payment gateway: the domain layers of its services, the reconciliation service above its own, and
-- middlewares of the gateway, modelled and verified.
--
-- Merchants create payments, which the payment service authorizes, captures, voids and refunds at a
-- payment provider. Every change of state is an event; the ledger service posts a double-entry
-- journal for each event that moves money, and the webhook service delivers the events to the
-- merchants' endpoints. All amounts are int64 numbers of minor units with a currency.
--
-- The parts and their files:
-- + Base: shared notation and lemmas. Base.Int has int64 with its wrap-around written out (add64,
--   sub64, mul64, quot64, rem64 over the integers), Base.Action and Base.Method Go's `(value, error)`
--   results of functions and of methods on a pointer, Base.Dict maps as association lists, Base.Bags
--   counters, Base.Clock time.
-- + Money (pkg/money): `Add`, `Sub`, `MulBps`, `Cmp`, `Equal`, `GreaterThan`, `Validate` and the
--   table of currencies.
-- + Ids (pkg/ids): `Format`, `Parse` and `ParseWithPrefix` of public ids.
-- + Payment (internal/payment/domain): Status has the states and the table of transitions,
--   ProviderError the categories of provider errors, Model the records of payments, attempts, refunds
--   and events, Create `NewPayment`, `emit` and `transition`, Attempts and Attempt the attempts,
--   Authorization `RequireAction`, `Authorize`, `Capture`, `Void`, `Fail` and `Expire`, Refunding
--   `ReserveRefund`, `MarkRefunded` and `ReleaseRefund`, and Refund a refund's own life. Rules states
--   what each operation does, Invariant the bookkeeping of the amounts, Trace any sequence of calls.
-- + Ledger (internal/ledger/domain): Chart has the errors, the chart of accounts and the codes,
--   Account the keys and the accounts, Journal journals and `Validate`, Reversal `Reverse` and
--   `ValidateReversal`, Fee the fees, Event the events that are posted, Posting what the templates of
--   template.go share, Template the journal of each event, Settlement that of a settlement, Balances
--   the balances in memory and the trial balance.
-- + Reconciliation (internal/reconciliation/domain): Settlement has the files and lines of a provider's
--   settlement, Record what the gateway knows of payments, refunds and disputes, Discrepancy the
--   differences and how they are closed, Matcher `Match` with its helpers, Run the life of a run. The
--   children of Matcher prove what a match reports: Pairs the pairs, Absent the records that are missed,
--   Accounts that every line is accounted for, Sums the totals.
--   Above the domain (internal/reconciliation/app): Event has what is published, Store the repositories
--   in memory (app/porttest/fakes.go), Command an import as it is asked for and its checks, Import
--   `ImportSettlementFile`, Reconcile the reconciliation that it runs, Closing `ResolveDiscrepancy`,
--   Projector the consumer of payment events. The store is the state of a method, and every repository
--   call a step on it; a Go map is read in order of insertion. Store.Frame and Store.Filed prove what
--   the repository calls keep and leave, Reconcile.Stored what a reconciliation leaves, Import.Again and
--   Closing.Repeat that a request may be sent again, and Projector.Newest what messages leave in
--   whatever order.
-- + Idempotency (pkg/idempotency): the store of idempotency keys in memory. Replay has the calls of
--   concurrent requests as a list, in the order in which they take the store's mutex.
-- + Gateway (internal/gateway): Request has what the middlewares read and answer, Once the middleware
--   `Idempotency`, which calls the store and the handler, RateLimit the limit per merchant.
-- + Webhook (internal/webhook/domain): Backoff has the schedule of retries, Truncate the cut of a
--   response body, Delivery the state machine of a delivery, Endpoint subscriptions and `FanOut`.
-- + Signature (pkg/sig): `ParseSignature`, `checkTimestamp` with its wrap-around, `Verify` and `VerifyAny`;
--   Window describes the window of time and the format of a signature apart from them.
--
-- How the code is read:
-- + A method that changes its receiver takes it as an argument and returns it with the result, also
--   after an error, so that what was written before the error is still there.
-- + Errors are known by their code; messages are left out. An enumeration is a data type with the
--   source's constants, and with a constructor `other` where the code tests for a value outside them.
-- + A Go string is a text whose characters stand for its bytes. A map is an association list. A UUID
--   is a number, 0 for the nil one; a fresh UUID, and the function that prints one, are arguments.
-- + A time is a natural number of nanoseconds from Go's zero time; a duration is one too. An event's
--   payload keeps a time as such, where the code prints it.
-- + The random number of the retry schedule is a fraction, computed exactly, where the code uses
--   float64.
-- + Attempts are values in the payment's list; the code holds pointers to them, which only the
--   methods of an attempt write through.
--
-- No definition needs fuel: the loops run over lists, and `truncate` has the source's own bound.
--
-- Not modelled: the application services but for reconciliation's (sagas, repositories), the merchant
-- service, the gateway's handlers, and everything that is transport, storage or generated code.
pub mod Base
pub mod Money
pub mod Ids
pub mod Payment
pub mod Ledger
pub mod Reconciliation
pub mod Webhook
pub mod Gateway
pub mod Idempotency
pub mod Signature
