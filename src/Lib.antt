-- ===== src/Lib.antt =====
-- Verification library of fin-data-platform.
--
-- The hub (src/fin_data_hub) fetches data within rate limits and caches it in memory. Threads
-- that ask it for one key share one load. Processes share its limits through a counter of the
-- platform's cache (src/fin_data_platform/quota). The derived series
-- (src/fin_data_platform/derived) are computed in the order of their dependencies. The registry
-- (src/fin_data_platform/registry) keeps who is who, in rows that are only appended. The control
-- plane (src/fin_data_platform/runtime) runs the jobs that store it. Its roles share one metadata
-- repository and nothing else: the scheduler turns due windows into intents, the dispatcher
-- queues an intent when its parents have run and the queue has room, a worker claims a run,
-- executes it, writes its end and offers the dependent tasks. Each method of the repository holds
-- its lock, so it is one function of the state, and what threads do to it is one list of calls
-- (Runtime/Repository/Commands).
--
--   Prelude, Dict, Outcome     shared: Boolean tests, lists, sorting, Python's dict, results with errors
--   Runtime/Models, Keys       runtime/models.py, runtime/keys.py
--   Runtime/Repository         runtime/repository.py, `InMemoryMetaRepository`: the record Repository has
--                              the fields of `__init__`, a function per method: create_run, claim_next,
--                              finish (`_finish`), succeed, fail, interrupt, interrupt_running,
--                              sync_defs, sync_dependencies; its reads stand in Repository/Queries and
--                              its watermarks in Repository/Watermarks
--   Runtime/Sql                runtime/repository.py, `SqlMetaRepository`: the life of a run, over a
--                              table that is known by its statements (Statements) and compared with
--                              Runtime/Repository (Refines, Creation, Claiming, Endings, Moves)
--   Runtime/Registry           runtime/registry.py, `TaskRegistry`
--   Runtime/Scheduler          runtime/roles.py, `Scheduler.tick`
--   Runtime/Dispatcher         runtime/roles.py, `Dispatcher`
--   Runtime/Worker             runtime/roles.py, `WorkerPool.execute_once`
--   Runtime/Calendar, Windows  runtime/calendar.py, runtime/windows.py and `_watermark_handler` of
--                              src/fin_data_platform/ingestion/tasks.py
--   Hub/Cache                  src/fin_data_hub/cache.py, `MemoryCache`: drop is `_remove`, evict is
--                              `_evict`, its loop over the entries in order of their last use
--   Hub/Flights                src/fin_data_hub/cache.py, `get_or_load`: a Phase is where a thread stands
--                              in it, `act` what it does next, `run` an interleaving of threads
--   Hub/Limiter, Hub/Retry     src/fin_data_hub/ratelimit.py, `RateLimiter` and `retry_call`
--   Layered                    src/fin_data_platform/cache/layered.py and keys.py: the generations of
--                              the domains over two layers, bump_both the part with a second layer
--   Quota/Shared               src/fin_data_platform/quota/shared.py, `SharedRateLimiter`, over the counter
--                              of the cache as the interface Counter and with Hub/Limiter as fallback
--   Derived                    src/fin_data_platform/derived/graph.py, `FactorGraph`: topological_order
--                              (Graph), upstream_closure (Closure), cycles and validate (Cycles)
--   Entities                   src/fin_data_platform/registry: models.py, `covers` of _util.py, the
--                              in-memory repository (Store), and `EntityRegistry` of service.py: the
--                              rows of an entity (Rows), `resolve` (Codes), registration
--                              (Service), changes of names and codes (Changes), relations
--                              with the check of relation_types.py (Relations), external identifiers
--                              (ExternalIds), batch reads (Batch), and universe.py (Universe); Calls has
--                              the sequences of its calls
--   Checks                     small states and the theorems at them
--
-- Times are microseconds and dates are day numbers, both natural numbers; `utcnow()` is the
-- argument `clock`. A kind is a text. Priorities and attempt budgets are natural numbers. The
-- digest of a job key, the executor of a task, its version provider, its callback and the answers
-- of the hub are arguments. A callback acts on the repository by its methods only, so it answers
-- with a list of calls. Three loops of the factor graph take fuel, each as much as ends it:
-- topological_order a round per node, cycles a depth of as many nodes, upstream_closure a round
-- per input. The other loops run over a list or count down. Floating point is replaced by exact
-- numbers: the safety factor of the cache and the delays of a retry are fractions, the tokens of
-- the bucket are counted in a unit of which a whole number flows in per tick.
--
-- The database of the SQL repository is an argument, known by what its statements answer;
-- Checks/Sql has a list that answers so. Days and times of the registry come read; Python's
-- `strip` is an argument.
--
-- Not modelled: the build of the registry from the hub and its SQL store, the locks of the SQL
-- repository, its mirrored definitions and its watermarks, threads and their start and stop, cron
-- triggers, the HTTP interface, the storage layer, the data sources, the values of the layered
-- cache, the reading of the factor graph from the dictionary and its digest.
pub mod Prelude
pub mod Dict
pub mod Outcome
pub mod Runtime
pub mod Hub
pub mod Layered
pub mod Entities
pub mod Derived
pub mod Quota
pub mod Checks
