-- ===== src/Lib.antt =====
-- The core of ContentLens, a browser extension that decides which posts of a feed a reader sees.
--
-- Parts, and the files that model them:
--   Rules        src/core/rules/engine.ts with the types of src/core/rules/contracts/rule.ts,
--                src/core/content/contracts.ts and src/core/decisions/contracts.ts. Rules.Index is
--                `buildRuleIndex` and the class `RuleIndex`, Rules.Matches the rules that match an item,
--                Rules.Engine `resolveBucket`, and Rules.Evaluation `evaluateRules` and
--                `dryRunRuleChanges`.
--   Operations   src/core/operations/journal.ts, `AtomicOperationJournal`: each change of the profile
--                is an operation with an entry. Operations.Entries are the records that it writes,
--                Operations.Execution its methods, and Operations.Machine the interleaving of calls with
--                the mutation that is awaited.
--   Budget       src/ai/routing/budget.ts, `RoutingBudget`.
--   Circuit      the three circuit breakers: Circuit.Capability of
--                src/application/decision-pipeline/circuit-breaker.ts, Circuit.Route of
--                src/ai/routing/circuit-breaker.ts and Circuit.Native of
--                src/application/native-feedback/circuit-breaker.ts.
--   Routing      Routing.Catalog has the queries of src/ai/models/catalog.ts, Routing.Resolver is
--                src/ai/routing/resolver.ts and Routing.Eligibility src/ai/routing/eligibility.ts, which
--                calls the resolver, the catalog, the budget and the circuit breaker of routes.
--   Sync         Sync.Retry is `retryDelay` and `retryUnavailable` of src/sync/retry-policy.ts,
--                Sync.Journal is src/sync/journal.ts, Sync.Lock `SyncOperationLock` of
--                src/sync/operation-lock.ts, Sync.Envelope the envelopes of src/sync/contracts.ts with
--                src/sync/canonical.ts, Sync.Merge src/sync/three-way-merge.ts, Sync.Tombstones
--                src/sync/tombstones.ts and Sync.Cas `SyncCasService` of src/sync/cas-service.ts, which
--                merges envelopes and writes the phases of the journal.
--   Feeds        src/application/feed-subscriptions/schedule.ts: Feeds.Backoff is `nextRssAttemptAt` and
--                Feeds.Queue `RssAcquisitionQueue`.
--   Decisions    src/application/decision-pipeline/scheduler.ts, `DecisionScheduler`, which asks
--                Circuit.Capability. Decisions.Scheduler has its state with `#finish` and `#pump`, and
--                Decisions.Scheduler.Calls its methods and the events of work that is awaited.
--   Prelude      strings, lists, sorting and maps. Examples has the theorems at concrete inputs.
--
-- A class is a record of its private fields, and a method a function from the record and its arguments to
-- the result and the record that it leaves. A `Map` with string keys is a list of entries in insertion
-- order. A string is the list of its UTF-16 code units. Times, counts and costs are natural numbers;
-- where the source subtracts a later time from an earlier one, both its negative number and the 0 here are
-- within the window that they are compared with. A promise that is awaited splits a method in the part
-- before it and the part after it; a method that awaits its store and its transport all along is the program
-- of its calls, with what follows each answer. A promise that is handed out is a number. A loop is a recursion
-- on its list, or on the number of attempts that are left, so that nothing needs fuel.
--
-- Parameters stand for what is not in this repository: the schemas of zod, `URL`, `Intl.DateTimeFormat`,
-- `toLowerCase`, the numbers of JavaScript in the rules engine, `Math.random`, and the browser's answers on
-- permissions. The stored consents and credentials are parameters as well. An envelope takes its platform as a
-- parameter: SHA-256, the text of a payload by `JSON.stringify`, `localeCompare`, and the schemas of the
-- entities; an entity has its own JSON text with sorted keys as a field.
--
-- Not modelled: deep copies and `Object.freeze` (values are immutable here), the catalog's changes, the
-- snapshots of the journal, and the parts of the program beside these: in src/sync the resolution of conflicts,
-- the store and the formats of exports, then storage, adapters of the platforms, clients of model providers, the stages of
-- decisions, the acquisition of feeds, and the user interface.
pub mod Prelude
pub mod Budget
pub mod Circuit
pub mod Decisions
pub mod Feeds
pub mod Examples
pub mod Operations
pub mod Routing
pub mod Rules
pub mod Sync
