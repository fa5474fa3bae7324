-- ===== src/Lib.antt =====
-- Models and proofs for solace-broker-mcp, an MCP server that gives agents access to Solace brokers
-- over SEMP, the brokers' management protocol.
--
-- A request to a broker passes the tool layer and then `Sender.Do` of
-- internal/semp/resilience/sender.go: it is admitted by the fair scheduler
-- (internal/semp/resilience/scheduler.go) or by the two plain gates, is sent by an HTTP client that
-- asks `checkRetry` (internal/semp/resilience/retry.go) after every attempt, and gives its slot back.
--
-- Which file models what:
--   Common        the names shared by all files; Common/Assoc has Go's maps as lists of entries with
--                 distinct keys.
--   Scheduler     internal/semp/resilience/scheduler.go. Scheduler/State has the types, Scheduler/Rotor
--                 `rotor`, Scheduler/Ops the calls (`Enqueue`, `Abandon`, `Release`) and
--                 Scheduler/Dispatch the dispatcher (`grantOneLocked`, `dequeueLocked`,
--                 `dispatchLocked`, `drain`) and the relation `Step` of all that can happen. A waiter
--                 is a number and `waiters` the heap of them; the pointers to the entries of a map are
--                 their keys, and a write through one is a `put`. The files beside them have the proofs.
--   Retry         internal/semp/resilience/retry.go: `checkRetry`, a function per part of its body, and
--                 `prepareRetry` of sender.go.
--   Sender        internal/semp/resilience/sender.go: `admit`, `admitScheduled`, `shed`, `errorHandler`,
--                 `brokerSignalStatus`, and `Do` around the HTTP client.
--   Authz         internal/authz/authz.go (the policy and its decisions), the groups of a claim in
--                 internal/auth/claims.go, and the filter of tools/list in
--                 internal/tools/listfilter.go with the exemption of internal/tools/authorization.go.
--   TokenExchange internal/tokenexchange/retry_after_gate.go, with the loop of compare-and-swap under
--                 interference, and the callbacks in internal/tokenexchange/circuitbreaker.go.
--                 TokenExchange/Response has response.go, TokenExchange/Cache
--                 internal/oauth/cache/otter.go, and TokenExchange/Exchange `Exchange` of exchange.go
--                 for a caller that runs the exchange itself, between the cache, gate and breaker.
--   Composite     internal/composite: `GroupStepsIntoBatches` here; Composite/Single the call of
--                 `runSingle`, Composite/FanOut `fetchFanOut`, Composite/Pages `fetchPaginated`,
--                 Composite/Body `constructRequestBody` and Composite/Scrub `scrubEnvelope` of
--                 executor.go with internal/semp/sempv2/envelope.go; Composite/Checks bodychecks.go;
--                 Composite/Bound bound.go, whose two passes are in Composite/Bound/Passes. JSON is the
--                 data type of Common/Json, an object a list of entries.
--   Tools         internal/tools/errors.go: a message is a list of parts, the broker's told from ours.
--   Health        internal/observability/health/readiness.go and tracker.go.
--   Owner         internal/tools/owner_validation.go: `extractOwner` and the check before a write.
--
-- Bounds and fuel: `for s.grantOneLocked() {}` takes the limit of slots as its fuel, since each grant
-- takes a slot; the ring scans take its length. The loop over pages takes the number of pages the
-- executor allows, which the source has too. The loops that shave rows take the number of rows they can
-- shave, one per round. The counters are native naturals: they are bounded by the number of requests in
-- flight, far below 2^63, and where Go subtracts, the models say why the result is not negative or
-- compare it with 0 or 1 only. Times are nanoseconds; the source bounds a lifetime before it multiplies.
-- Indexes out of range, where Go panics, are `none`. A Go map is a list of entries, and a loop over one
-- takes its order as it stands.
--
-- Parameters: the default policy of retryablehttp and an authenticator's answer to a 401 (`Hooks`), the
-- reply of the HTTP client (`Reply`), the reads of the broker (`Broker`), `sort.Strings`, the comparison
-- of floats in `ready_to_trip`, the broker's answers page by page, `url.Parse`, `strconv`,
-- `strings.EqualFold`, the sizes that encoding/json gives, the answer of the identity provider, the
-- verdict of gobreaker, when a context ends, and the rewordings by regular expression (`Texts`).
--
-- Not modelled: logs, metrics, spans and timers; the text of most errors; I/O, configuration loading and
-- the start-up code; the composite executor's templates, concurrent batches and result strategies,
-- how the failure of one call of a fan-out reaches the others, and the loading of its tools; the sharing of one token
-- exchange by several callers; the middleware of the tool manager; the SEMP clients and the client of the identity provider.
pub mod Common
pub mod Scheduler
pub mod Retry
pub mod Sender
pub mod Authz
pub mod TokenExchange
pub mod Health
pub mod Owner
pub mod Composite
pub mod Tools
