-- ===== src/Lib.antt =====
-- Verification library of the Polymarket trading framework.
--
-- The program trades on prediction markets. Workers read the exchange's sockets and publish events on
-- a bus, the account and market stores hold what is known, a strategy proposes order intents, and every
-- intent passes the risk gate before it is sent. The library models the domain layer, the runtime
-- stores and the supervisor, which the trading path reads without locks or I/O, the services from the
-- intent to the order that the exchange is asked for, the reconcile that repairs the local state, and the
-- outbox with the worker that empties it into the database:
--
--   Base                shared helpers: tests, lists, texts, dicts as association lists, integers
--   Decimal             Python's decimal numbers, with their order, their signs and their texts
--   Domain.Order, Domain.Intent       src/polymarket_trader/domain/order.py
--   Domain.Market                     src/polymarket_trader/domain/market.py
--   Domain.Orderbook                  src/polymarket_trader/domain/orderbook.py
--   Domain.Position                   src/polymarket_trader/domain/position.py
--   Domain.Account                    src/polymarket_trader/domain/account.py, and Fill of domain/events.py
--   Domain.Allocation                 src/polymarket_trader/domain/allocation.py
--   Domain.Fees                       src/polymarket_trader/domain/fees.py
--   Domain.Risk                       src/polymarket_trader/domain/risk.py, RiskManager
--   Runtime.AccountStore              src/polymarket_trader/runtime/account_state.py, AccountStateStore
--   Runtime.Registry                  src/polymarket_trader/runtime/registry.py, MarketRegistry
--   Runtime.EventBus                  src/polymarket_trader/runtime/event_bus.py, EventBus
--   Runtime.Scheduler                 src/polymarket_trader/runtime/scheduler.py
--   Runtime.Supervisor, Runtime.Values
--                                     src/polymarket_trader/runtime/supervisor.py and status.py
--   Outbox                            src/polymarket_trader/infra/outbox/local_queue.py, OutboxEvent of domain/events.py
--   App.Projection                    src/polymarket_trader/app/order_projection.py
--   App.Trading                       src/polymarket_trader/app/trading_service.py
--   App.Decisions                     src/polymarket_trader/app/extension_intent_builder.py, extension_api/decisions.py
--   App.Reconcile                     src/polymarket_trader/app/reconcile_service.py
--   Infra.Executor                    src/polymarket_trader/infra/polymarket/order_executor.py,
--                                     order_execution_types.py, order_result_builder.py
--   Workers.Persistence               src/polymarket_trader/workers/persistence_worker.py, persistence_records.py
--   Workers.Reconcile                 src/polymarket_trader/workers/reconcile_action_applier.py, reconcile_worker.py
--   Tests                             the theorems at concrete inputs
--
-- Functions keep their names, less a leading underscore. The risk gate calls the exposure of
-- Domain.Allocation and the depth of the orderbook; the account store publishes the snapshot of
-- Domain.Account; the registry holds the markets of Domain.Market;
-- the trading service asks the supervisor and the risk gate, and hands what they admit to the executor;
-- the projection writes order results onto the account store; the sink of the bus feeds the outbox, and
-- the persistence worker takes batches from it; the reconcile worker plans over the snapshots and applies
-- the plan to the account store. The exchange's client, the database's repository and the hooks of a
-- strategy are arguments of the definitions that call them.
--
-- Decimals are finite: an integer over a power of ten, with arithmetic rounded to 28 digits, half to
-- even, as in the default context. NaN, infinities, signed zeros and exponent limits are left out, and
-- so are the exceptions of a division by zero, which callers exclude, and of a remainder or a
-- quantization of more than 28 digits. A datetime is a number of microseconds, and an enumeration of
-- texts is a data type. A dict is an association list in insertion order.
--
-- Each method of the stores runs under a lock or on one event loop, so it is one step. Where a lock
-- may time out (the registry), whether it was acquired is an argument; where a call may wait (the
-- bus), the step ends there. A resumption in the registry reads the market before it takes the lock,
-- so what it read is an argument of its step. Capacities of the bus are not negative, a put into the
-- outbox that finds no room runs into its timeout, and the reconcile of a market runs without other
-- writes between its actions. A raw response stands as the text that `sanitize_raw_response` makes of
-- it. The registry's step takes any interleaving of writers, and so do the runs of the account store,
-- the bus, the outbox and the supervisor. A run of the executor is any sequence of requests and ends
-- of operations, and the batches of the persistence worker are any lists of events. Recursion is on
-- lists throughout; in Decimal it is on a number of digits, and a number has at most as many digits as
-- its value.
--
-- The eviction of retained outbox events runs on fuel, the number of retained events; each round takes
-- one out, and the eviction theorem shows that this is enough.
--
-- Not modelled: the HTTP and websocket clients of the exchange with their schemas, the database's
-- models and repositories, the HTTP API, the loops of the socket workers and the front end, which are
-- I/O and its formats; observability, configuration and the entry point, which wire the parts
-- together; and the event sink, the book projector, the entry planner, the strategies and the admin
-- services, which call the parts above.
pub mod Base
pub mod Decimal
pub mod Domain
pub mod Runtime
pub mod App
pub mod Infra
pub mod Outbox
pub mod Tests
pub mod Workers
