-- ===== src/Lib.antt =====
-- A model of OrbitPlus, the services that keep bus trip details fresh: orbitplusworker takes refresh
-- jobs from RabbitMQ, asks BITS for trip details within a quota for each zone, and submits them to
-- orbitplusmaster, which stores them in Dragonfly and Cassandra and serves them.
--
-- Files and code:
--   Common: tests on numbers, lists, signed integers, text (`strings.TrimSpace`, and in Pieces what
--     cuts texts up) and calendar dates (`time.Parse` with the layout 2006-01-02).
--   Json: the values of encoding/json, with the laws of Go's maps.
--   Worker/Message: orbitplusworker/internal/domain/tripdetails_refresh_message.go.
--   Worker/RateLimit: orbitplusworker/internal/application/worker/ratelimit.go.
--   Worker/Config, Worker/Settings, Worker/Endpoints, Worker/Runtime: config.go in that folder: the
--     quotas, the single settings, the rules for addresses, and LoadRuntimeConfig as a whole.
--   Worker/Errors, Worker/Deps: the error values and the interfaces of that folder (retry.go, bits.go,
--     orbit.go, orbitplus.go, rabbitmq.go, result.go).
--   Worker/Exec: the effects. A step runs in the world behind the interfaces; each call of a
--     dependency is also noted in a trace, newest first, that no step reads.
--   Worker/Await, Worker/Attempt, Worker/Handle: worker.go in the same folder, with WorkerConfig of
--     config.go: awaitZoneRateLimit, processOnce and what it calls, Handle and its retry loop.
--   Worker/Combine, Worker/SearchBusMap: search_busmap.go in the same folder.
--   Worker/Trace: rules for assertions on the trace, and the theorems about a whole delivery.
--   Master: the storage side, orbitplus/internal/application/master.
--     Keys, Projection: tripdetails_cache_storage.go, with the cache writes in Storage.
--     Stations: stage_route_matcher.go. Metadata: tripdetails_metadata_storage.go.
--     Storage, Storage/Extract: tripdetails_storage_coordinator.go and
--     tripdetails_searchbusmap_storage.go. Receive: tripdetails_receiver.go.
--     Read (how documents are merged), Freshness, Lookup (Search and BusMap): tripdetails_reader.go.
--     Compare, Compare/Canonical: cache_freshness_comparator.go.
--     Zones: orionmax_zone_url.go. Live: cache_freshness_source.go; its children are
--     Live/{Verifier, Repair, Verify, Pair, Enrich} for cache_freshness_verifier.go, Live/Rows for
--     cache_difference_storage.go and Live/Cold for cold_cache_refresher.go.
--     Inventory, Inventory/Job, Inventory/Receive: orionmax_inventory_job_builder.go and
--     orionmax_inventory_change_receiver.go. Refresh, Refresh/Run: orbit_route_refresh.go.
--     Exec, Errors: the effects of storing, with a log of writes that no step reads, and the errors.
--   Jobs: a job that the master queues, as the message that the worker reads.
--   Shared: the quota that both services take from Dragonfly. Shared/Distributed is the worker's
--     limiter, rate_limiter.go in orbitplusworker/internal/infrastructure/dragonfly, and Shared/Live
--     the master's, rate_limiter.go in orbitplus/internal/infrastructure/dragonfly, with
--     rate_limit.go; Shared/Equal and Shared/Quota prove that they agree and what they grant,
--     and Shared/Expiry that the quotas which the worker reads give a counter an expiry.
--   Children are named for what they prove: Json/Laws, Worker/Message/Laws,
--     Worker/RateLimit/{Quota, Retry}, Worker/Await/Alone, Worker/Combine/{Merge, Deep},
--     Worker/Runtime/Secure, Worker/Trace/{Work, Once, Source, Finish, Loop, Quota, Delivery, Gate,
--     Total}, Master/Keys/Apart, Master/Stations/Route, Master/Metadata/Routes,
--     Master/Storage/{Effects, Complete, Persisted, Entries, Codes, Reported},
--     Master/Receive/Lifecycle, Master/Read/{RoundTrip, Served}, Master/Freshness/Tiers,
--     Master/Lookup/{Answer, Found}, Master/Compare/{Same, Cap}, Master/Live/Slots with {Repairs,
--     Recorded}, Master/Live/Pair/{Counted, Total, Kept, Equal}, Master/Live/Enrich/Kept,
--     Master/Live/Cold/Refreshed, Master/Inventory/Receive/{Induct, Claims, Orderly},
--     Master/Refresh/{Pairs, Groups, Future}, Master/Refresh/Run/Orderly, Jobs/{Dates, Accepted}.
--   Tests and examples: Worker/Tests, Worker/QuotaTests, Worker/CombineTests, Worker/ConfigTests,
--     Master/Tests, Master/LookupTests, Master/CompareTests, Master/LiveTests, Master/RefreshTests,
--     Jobs/JobTests, Shared/SharedTests.
--
-- Parameters: the clients behind the interfaces (RabbitMQ, OrbitService, BITS, OrbitPlus, the
-- limiter, timers and contexts) are the record `Deps` over any world; encoding/json is the record
-- `Codec`, a message's decoded payload is an argument, and strconv.Atoi and time.ParseDuration are
-- the record `Parsers`, with the environment, os.ReadFile and net/url in the record `Environment`.
-- On the master's side the repositories, the clock and json.Marshal are its own record `Deps`, the
-- readers, the refresher of cold routes and json.Unmarshal the record `Readers`, and in Compare the
-- text of a reduced fraction (math/big), strconv.Quote and strconv.Itoa the record `Formats`. What
-- live verification calls is the record `Verifier`, and what the receiver of inventory changes
-- calls the records `Inbox` and `JobDeps`, and what the route refresh calls the record
-- `RouteRefresher`. The commands of the Dragonfly server that the limiters' scripts use are the
-- record `Dragonfly`. Theorems hold for all of these.
--
-- Fuel: awaitZoneRateLimit polls without end, so it takes a number of polls, and a run that uses them
-- up is `exhausted`. For a worker that is alone at its process-local limiter two are enough. The attempts of Handle recur on the attempts left, which are MaxAttempts at the
-- start, as the loop has it.
--
-- Not modelled: logging, HTTP and broker transport, the databases' adapters, the master's
-- configuration from the environment, the worker's settings file, `.env` and
-- certificates, the reports of the master, the older service V1, and process start-up.
pub mod Common
pub mod Json
pub mod Worker
pub mod Master
pub mod Jobs
pub mod Shared
