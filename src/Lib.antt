-- ===== src/Lib.antt =====
-- Vigilo repairs GitHub repositories: a run takes a baseline of a repository in a sandbox,
-- investigates the failure, generates a candidate patch, verifies it in a second sandbox, and may
-- repeat this in a loop, until a human reviews the result. Every call of a provider that costs
-- money or touches a sandbox goes through one gate, lib/external-execution, modelled in Execution.
--
-- How the parts interact. A worker asks the gate for a permit: `reserve` checks the grants that a
-- reviewed plan staged in the database, and writes a reservation with a lease. The permit's client
-- calls `beginProviderAttempt` and `finishProviderAttempt` around each call, `renew` while it
-- works, and `complete` at the end. The sandbox client classifies each request by the transport
-- policy of the permit before it begins an attempt. The baseline runner extracts the repository's
-- archive inside the sandbox; the repair loop compares the evidence of a verification with the
-- baseline.
--
-- Files and what they model:
--   Execution: lib/external-execution. Types (types.ts), Account (provider-account.ts), Store (the
--     tables of db/schema.ts that the gate reads, as lists of rows, the newest first), Fence
--     (business-fence.ts and source-checkpoint.ts), Reserve and Permit (authority.ts: `reserve`,
--     `beginProviderAttempt`, `finishProviderAttempt`, `renew`, `complete`). Steps.Relation is the
--     step relation of one transaction on the database, and `Reach` its histories. Budget, Fencing,
--     Attempts, Ambiguity, Completion and Revocation hold the theorems. Availability is
--     availability.ts, the answer that pages show, and Availability.Refinement compares it with the
--     checks of `reserve`. Metered is `meteredFetch`, one request under one attempt;
--     Metered.Dispatch and Metered.Settlement hold its theorems. Creation is
--     `resolveSandboxCreation`, with its theorem in Creation.Resolution.
--   Transport: lib/external-execution/sandbox-transport.ts, `SandboxTransportPolicy`. Policy is the
--     model, Safety holds the theorems.
--   Archive: lib/repository-baselines/archive.ts, the embedded extraction script. Bytes (the
--     readers of fields and names), Reader (its variables), Pax (`acceptGlobalPax`), Entries
--     (`beginEntry`), Consume (`consume` and the main loop); Paths, Cases, Sound, Rounds, Progress,
--     PaxFuel and Extraction hold the theorems.
--   RepairLoop: lib/repair-loops/objective-contract.ts and lib/repair-loops/decision.ts. Recovery
--     holds the theorems.
--   Comparison: lib/candidate-verifications/classification.ts. Regression holds the theorem.
--   RepairRun: lib/repair-runs/state-machine.ts, the table of transitions. Histories holds the
--     theorems. The workers that write the state of a run are not modelled, and not all of them ask
--     this table.
--   RateLimit: lib/operations/http-rate-limit.ts and lib/operations/rate-limit.ts. Buckets
--     (`consumeRateLimit`), Subjects (`rateLimitRequest` with its subject and its action);
--     Sweeping, Counting, Bound and Attribution hold the theorems.
--   Profile: lib/execution-profiles/detector.ts. Shell (`splitCommands`, `shellWords`), Scripts
--     (`classifyTestRunner` with `visit`), Detect (`detectExecutionProfile` and the readers of
--     package.json); Printer, Order, Walks, Manifest and Ready hold the theorems.
--   Candidate: lib/investigations/policy.ts (Context) and lib/repair-candidates/policy.ts (Rules
--     and Proposal); Paths, Files and Accepted hold the theorems on what is accepted, Causes,
--     PathRefusals, FileRefusals and Refusals those on what is refused.
--   Json: what JSON.parse returns. Prelude: helpers on lists, texts, tests and options.
--
-- Conventions. A transaction is a function from the database to a result, since the advisory locks
-- of the code make transactions follow one another; an error carries its failure code and leaves
-- the database as it was. The readings of clocks in a transaction are the fields of `Times`: one
-- for each clock and place, so that nothing is assumed of how the clocks agree, but one for all
-- calls of `clock_timestamp()` in later statements, and one for all of the caller's `clock()`. What
-- other transactions do between those of one `meteredFetch` are fields of `Surroundings`.
-- Identifiers that the code draws at random are the fields of `Ids`. The hash of a grant is the
-- parameter `grant_identity`, the test of the reviewed plan the parameter `reviewed_plan`. The
-- triggers and unique indexes of the database are left out: they can only reject what the model
-- accepts. Among them is the guard on the insertion of a reservation, which tests the expiry of
-- both grants once more. Left out is also the construction of the transport policy at the end of
-- `reserve`, after its transaction, which throws on a malformed binding. Event ids and the stored
-- hash of a reservation, which nothing reads back, are left out. In Transport, a URL is given by
-- the parts that `new URL` returns and `encodeURIComponent` is a parameter. In Archive, the UTF-8
-- decoder and `path.resolve` are the parameters `Host`, and calls of the file system are the list
-- of outputs. In Profile, `JSON.parse`, the hashes and semver are the parameters `Host`, and a text
-- that the code takes apart is the list of its code points. In Candidate, Unicode normalization and
-- case, node:path, the text coders, the hash and the order of `localeCompare` are another `Host`. A
-- phase of RepairLoop is a record of the three fields that the source spells out for each.
--
-- Fuel. `consume` of Archive takes fuel: one more than twice the pending bytes, plus one for a
-- current entry. Every round that goes on reads a header of 512 bytes or ends the current entry, so
-- the fuel never runs out. `pax_records` takes the length of its body as fuel: each record is
-- longer than two bytes. `visit` of Profile recurs on the levels that MAX_SCRIPT_DEPTH leaves.
-- Nothing else needs fuel.
--
-- What is not modelled: the issuing and staging of reviewed plans, GitHub, Vercel and OpenAI
-- clients, queues and workers, publications and reviews, authentication, pages and presentation,
-- SQL migrations, operations scripts.
pub mod Prelude
pub mod Json
pub mod Execution
pub mod Archive
pub mod Transport
pub mod RepairLoop
pub mod RateLimit
pub mod Comparison
pub mod RepairRun
pub mod Profile
pub mod Candidate
