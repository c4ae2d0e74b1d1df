-- ===== src/Lib.antt =====
-- Verification of the marketplace backend, the TypeScript program under src/.
--
-- The program is an HTTP server over a PostgreSQL database. Consumers post jobs, providers bid on
-- them, and a job goes through award, start, completion in two steps, cancellation and disputes.
-- Each of these is one request handler under src/routes that reads and writes the tables through
-- Prisma, and then notifies users, writes an audit entry and enqueues webhook events. A worker
-- (src/webhooks/worker.ts) sends the enqueued deliveries to their endpoints, again and again with
-- growing delays until one succeeds or the attempts are used up.
--
-- What stands where:
--   Prelude          names of the libraries, Boolean tests on numbers, lists.
--   Text             `trim`, `slice`, `length` and `===` of JavaScript's strings; Text/Laws on `trim`.
--   Db               the interface of a Prisma table, with the laws of its calls; Db/ListTable is an
--                    instance of it, Db/Laws what follows from it.
--   Http             responses, and handlers as computations on a state that go on, return a
--                    response early or throw; Http/Rules has one rule of reasoning for each,
--                    Http/Keeps rules for what stays true of the state.
--   Jobs/Model       the rows of jobs, bids, disputes and users (prisma/schema.prisma).
--   Jobs/World       the state of the job handlers: four tables, the calls made to the injected
--                    functions, and which call to the outside fails. One operation for each call.
--   Jobs/Request     the request schemas; the refinements are with the handlers.
--   Jobs/Guards      src/services/jobFlowGuards.ts.
--   Jobs/Participants  resolveParticipants of src/routes/jobCompletion.ts and jobCancellation.ts.
--   Jobs/Award       createPostJobAwardHandler of src/routes/jobAward.ts.
--   Jobs/Start       createPostJobStartHandler of src/routes/jobStart.ts.
--   Jobs/Completion  the mark and confirm handlers of src/routes/jobCompletion.ts.
--   Jobs/Cancellation  createPostJobCancelHandler of src/routes/jobCancellation.ts, and
--                    src/services/jobCancellationReasons.ts.
--   Jobs/Disputes    the open and resolve handlers of src/routes/jobDisputes.ts.
--   Jobs/*/…Outcome  what each handler may do, as a data type that does not follow its code.
--   Jobs/Rules       the rules for the calls of Jobs/World, with which the outcomes are shown.
--   Jobs/*/…Granted  that a request which meets the conditions is granted where no call fails, by
--                    the rules of Jobs/Passing.
--   Jobs/Lifecycle   sequences of requests to all seven handlers: the diagram of a job's status,
--                    and the disputes of a job.
--   Webhooks/Model, State, Backoff, Worker, Loop
--                    src/webhooks/worker.ts: the rows, the calls to the outside, the delays, each
--                    function of the worker, and the turns of its loop.
--   Webhooks/Enqueue, Running, Traffic
--                    src/webhooks/enqueue.ts, and the turns of the loop with events that are
--                    enqueued between them.
--   Webhooks/Keeps, Delivering, Candidates, CallRules, Claims, Invariants, Delays
--                    what stays true through a computation, through the handling of one delivery,
--                    through a claim and a turn; the invariants; the bounds of the delays.
--   Queue/Model, State, Worker
--                    src/jobs/worker.ts, src/jobs/enqueue.ts and src/jobs/jobErrors.ts: the queue of
--                    background jobs, its leases and claims, and the ways to settle a job.
--   Queue/Digest     src/services/jobMatchNotifier.ts: the job of a provider's digest.
--   Queue/Rules, Settling, Calls, Rows, Invariants, Claims, Failures
--                    the calls of any number of workers in any order; what they keep, what a claim
--                    gives, and what a failure does to a job.
--   Payments/Zips, Addons, Purchases
--                    src/services/addonPurchasesV2.ts: the codes, the requests with their prices and
--                    their metadata, the purchase and the events of its payment.
--   Payments/Leads   src/services/providerEntitlements.ts.
--   Payments/Ledger, Platform
--                    the rows of both, and the platform's functions on texts with their laws.
--   Notifications/Preferences, QuietHours
--                    src/services/notificationPreferences.ts.
--   Exchange/Model, Handlers, Steps, Serving, Rules, OnePending, Privacy
--                    src/routes/contactExchange.ts: the three handlers, the ways in which a request
--                    may change, and to whom contacts are shown.
--   Exchange/Gate    src/services/contactExchangeGate.ts.
--   Ssrf/Address, Guard, Ranges, Blocks, Safe
--                    src/utils/ssrfGuard.ts: the texts of addresses, the refused blocks by their
--                    prefixes, and the URLs of webhooks that pass.
--   */Tests          runs on small tables, and each theorem at an input.
--
-- How the code is read:
--   A handler has the name of its route (`post_job_award` for POST /jobs/:jobId/award). Its early
--   returns are `reply_if` and `some_or_reply`, its outer `try` is `run`, an inner one `try_catch`.
--   Prisma and zod are third-party packages and are interfaces, taken as parameters; what the
--   proofs use of them are the laws of Db.Table, and that an accepted id is positive.
--   Every call to the outside asks `faults` by the number of the call whether it throws. A call that
--   throws has no effect, and an interactive or a batch transaction that throws has none either.
--   Requests and turns of the webhook worker's loop run one after the other: a request is not
--   interleaved with another one, and one such worker runs. The calls of the workers of the job queue
--   are interleaved, each call as a whole; the write that schedules a digest is a call of its own, since
--   other calls may come after its read. A transaction on the ledger of payments is one function,
--   since a throw in it leaves nothing. Dates are milliseconds; in the job handlers the time of the
--   request is a parameter, and the worker reads a clock that may give any times.
--   Whether the optional audit function is injected is the parameter `audits`.
--   Loops are recursion on lists; the loop of the worker, which has no end, is any number of turns.
--   No fuel is used.
--
-- What is not modelled: logging; columns that the handlers do not touch; the shape of the rows that
-- `select` cuts down; lone surrogates in texts that are cut; the hash of the signature, the case of
-- letters, the printing and reading of numbers, the clocks of time zones, and the parser of URLs
-- and resolver of names, which are parameters.
-- Of the program: the routes that are written in server.ts; the services that the background jobs
-- run and the schedules of two of them; reviews, the payment service, attestation, the AI gateway,
-- ranking and search, rate limits, mail and push notifications, and the mobile application.
mod Prelude
pub mod Text
pub mod Http
pub mod Db
pub mod Jobs
pub mod Exchange
pub mod Notifications
pub mod Payments
pub mod Queue
pub mod Ssrf
pub mod Webhooks
