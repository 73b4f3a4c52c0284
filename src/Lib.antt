-- ===== src/Lib.antt =====
-- A verification library for GitScale, a git hosting platform in Go whose planes (application, data,
-- git, workflow) talk over interfaces. It models nine components of the application and data planes
-- and proves what they promise.
--
-- The components and their files:
--
--   Policy (plane/application/policy): which plans of agents need an approval, who gives it, and the
--     audit log. Policy/Types is dsl.go and plan.go; Policy/Validate is Validate of validate.go, and
--     Validate/Laws says what it accepts; Policy/Predicates is predicates.go; Policy/Canonical the
--     canonical JSON of audit.go and plan.go; Policy/Audit the hash chain of audit.go; Policy/Service
--     is MemService of memservice.go with the types of service.go, and its children Submit, Decide
--     and Escalate are SubmitPlan with RecordSubmission, RecordDecision, and Escalate;
--     Policy/Engine is Engine of engine.go. The remaining children prove: Effect, Invariant and
--     Submitted what each operation writes, Safety, Intact, Finality, Ladder, Walk and Selection
--     theorems.
--   Cache (plane/data/cache): the CacheStore interface of store.go as a record that its clients take;
--     Cache/Memory is store_memory.go, Cache/Namespace store_namespace.go, Cache/ReadThrough and
--     Cache/Records identity.go and repo_location.go.
--   Invalidator (plane/application/identity-cache-invalidator): the consumer of identity events, which
--     deletes cached identities through a CacheStore.
--   IssueNoise (plane/application/issuenoise): IssueNoise/Rules and IssueNoise/Scorer are
--     rules/*.go and rule_scorer.go, with the scores' bounds in its child Bounds, IssueNoise/Router
--     is router.go over the interfaces of store.go and workflow_starter.go, and IssueNoise/Stub is
--     store_stub.go.
--   RateLimit (plane/data/ratelimit): the token bucket of limiter_memory.go.
--   AgentsMd (plane/application/agentsmd): what a push by an agent must not do. AgentsMd is policy.go,
--     evaluate.go and merge.go, and AgentsMd/Union has the theorem on merged policies.
--   GraphCost (plane/application/graphql/cost): what a GraphQL query may cost. GraphCost has the
--     documents of parser.go, GraphCost/Lexer and GraphCost/Parser the parser, GraphCost/Weights the
--     tables and multipliers of analyzer.go, and GraphCost/Analyzer its walk and limits. Their
--     children prove: Lengths, Arguments, Fields and Total that fuel suffices, Grown and Visits what
--     a walk does to its state, Depth, Doubling and Multiplier theorems.
--   Outbox (plane/data/outbox): how events reach their topic. Outbox/Drain is drainBatch of drain.go
--     with the outcome of each statement as an input, Outbox/Expirer is expirer.go, Outbox/Mock is
--     producer_mock.go, an implementation of the interface of producer.go; Outbox/History puts them
--     together with the services' inserts. Rows and Keeps hold lemmas, Delivery, Backlog and
--     Expiry theorems.
--   MetadataStub (plane/data/store/stub/metadata.go): the in-memory store of users, agents,
--     repositories and events, which the services are tested on. Calls are what a transaction does,
--     Reads its reads; Serial holds the theorem about several calls in one.
--   Common: the shared names, lists, maps, integers and strings.
--
-- Conventions. An operation takes the state and returns the new state with its result; a mutex that
-- is held for the whole method makes a history a sequence of calls. Readings of the clock and fresh
-- UUIDs are arguments; a time is a number of nanoseconds, a UUID a number, a string its bytes, a Go
-- map an association list. An `int` is an integer without bounds, and a duration is not wrapped:
-- what could pass 2^63 is a policy's expiry of 292 years or more, and the cost of a query that
-- takes longer than that to walk. Where a pointer to a caller's object is kept and read again, the
-- object counts: an audit row of Policy keeps a pointer to the proposer of the submitted plan,
-- which a reader follows (Policy/Audit, Actor and reread). Registered policies are taken as not
-- written by their caller afterwards, although MemService keeps the pointer. Go's panic on an index
-- out of range is an outcome. A Go map that is ranged over is a list in some order. Most loops are
-- structural recursions. Those of GraphCost have fuel: the parser's is one more than the query's
-- bytes, the walk's the number of the document's fragments, and both are proved enough. So has the
-- expirer's loop, whose fuel is one more than the table's rows and those that others insert
-- meanwhile, also proved enough, and itoa64, which writes at most 19 digits.
--
-- Parameters. SHA-256, encoding/json, path.Match, fmt of a UUID, regular expressions, Unicode
-- tables, float64, the Kafka reader and the backends behind interfaces are arguments, with what the
-- code relies on as named hypotheses: Cache.ReadThrough.Laws.FormatOk of encoding/json, which reads
-- back the records whose strings are valid UTF-8, Invalidator.Gone.Forgets of a store,
-- Outbox.ProducerOk of a Kafka producer, Invalidator.Gone.IsUuidText of a UUID's text,
-- IssueNoise.OrderOk of comparing numbers that are not NaN, IssueNoise.Scorer.Bounds.AddOk of
-- adding numbers that are not negative, and RateLimit.Bounds.ArithOk of comparing floats. A
-- database under the outbox is the outcome of each statement, as an input, on a table that the
-- statement's SQL changes: not done, done, or, for a COMMIT and for the expirer's DELETE, which
-- commits by itself, done with the answer lost. The expirer's loop takes what other sessions do
-- between its DELETEs as an argument.
--
-- Not modelled: the SQL stores, Redis, HTTP, gRPC and Temporal wiring, logging and duration metrics;
-- and, of the program's own logic, the parser of AGENTS.md, the identity, billing and repository
-- services, and the MCP server, which no theorem here rests on.
pub mod Common
pub mod AgentsMd
pub mod Cache
pub mod GraphCost
pub mod Invalidator
pub mod IssueNoise
pub mod MetadataStub
pub mod Outbox
pub mod Policy
pub mod RateLimit
