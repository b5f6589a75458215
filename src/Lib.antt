-- ===== src/Lib.antt =====
-- Verification library of Monitower.
--
-- Monitower is a simulator of an order pipeline with injected faults (cmd/simulator,
-- internal/simulator) and a monitor (cmd/monitor, internal/monitor) that shares a SQLite database
-- with it (internal/db/schema.go). The simulator's fault engine keeps the map of active faults and
-- writes each change to the table fault_events; the workers ask it how to behave. The monitor turns
-- metric rows into anomaly signals, keeps the active ones, groups them into correlated events with a
-- root service, matches these with the rows of the table incidents, and resolves an incident after
-- two clean checks.
--
-- Files and the code they model:
--   Prelude          helpers: equality tests, lists, permutations, association lists for Go maps, and
--                    what the code uses of the packages strings and strconv
--   Float64          the interface that stands for Go's float64, and its IEEE 754 laws;
--                    Float64/Hundredths is an instance, on which the examples run
--   Simulator/Fault  internal/simulator/fault_engine.go: activate, deactivate, apply and
--                    get_fault_context are Activate, Deactivate, apply and GetFaultContext;
--                    Fault/Api is internal/simulator/api.go, its handlers under their own names;
--                    activate_locked and deactivate_locked are what the mutex covers, and
--                    Fault/Interleaved has the locks and inserts of calls that overlap; Fault/Log is the
--                    table as a history; proofs in Fault/Handlers, Context and Names
--   Simulator/Queue  internal/simulator/queue.go: send, receive, try_receive and subscribe are the
--                    methods; Queue/Counters is the relation of their atomic steps, which interleave;
--                    Queue/Fanout has the proofs about the tree of subscribers
--   Simulator/Metrics
--                    the helpers of writeMetrics in internal/simulator/order_service.go, and the row;
--                    proofs in Metrics/Sorting, Ranks and Rows
--   Simulator/Order  internal/simulator/order_service.go: process_tick is processTick, Order/Metrics
--                    its writeMetrics and ForceWriteMetrics; Order/Interleaved has the two locks
--                    of a tick and the flushes in any order; proofs in Order/Ticks
--   Simulator/Payment
--                    internal/simulator/payment_service.go: process_message and process_tick are the
--                    methods, attempt_loop the loop of retries, Payment/Metrics its writeMetrics;
--                    proofs in Payment/Accounts, Routing and Ticks
--   Simulator/Fulfillment, Simulator/Notification
--                    internal/simulator/fulfillment_service.go and notification_service.go:
--                    process_message is processMessage, their Metrics are the tick and writeMetrics;
--                    proofs in Fulfillment/Counts and Notification/Delivery
--   Simulator/Pipeline
--                    cmd/simulator/main.go: new_pipeline makes the queues and services, step is a tick
--                    or a goroutine of one of them with the sends that its call makes; proofs in
--                    Pipeline/Queues, Sent, Sequence and Run
--   Monitor/Signal   the signal of internal/monitor/anomaly.go, and the topology tables and signal
--                    helpers of internal/monitor/correlator.go
--   Monitor/Baselines, Monitor/Detect
--                    internal/monitor/anomaly.go: add_sample and stats are the methods of a baseline,
--                    detect_service_anomalies and detect_queue_anomalies the two detectors; proofs in
--                    Baselines/Window and Detect/Best, Services and Queues
--   Monitor/Correlator
--                    internal/monitor/correlator.go: add_signals is AddSignals, group_loop the first
--                    loop of Correlate; Correlator/Nominate is nominateRoot, Correlator/Build is
--                    buildCorrelatedEvent with its helpers and Correlate; proofs in Active, Origin,
--                    Represented, Groups, Root, Evidence, Blame, Affected and Events
--   Monitor/Incidents
--                    internal/monitor/incidents.go: the store over a table, with reconcile for
--                    Reconcile, create, append_timeline and the queries; Incidents/Tracker is the
--                    ResolutionTracker, its check is Check; proofs in Rows, Growth, Round, Loop,
--                    Reconcile, Returns and Resolution
--   Monitor/Snapshot buildSnapshot of internal/monitor/poller.go, with BuildServiceStatus and
--                    BuildQueueStatus of internal/monitor/incidents.go; proofs in Snapshot/Latest,
--                    Statuses, Reports and FaultNames
--   Monitor/Sse      internal/monitor/sse.go: broadcast, connect, disconnect and flush are the locked
--                    sections and the loop of ServeHTTP; proofs in Sse/Delivery, Buffers and Bounds
--   Monitor/Poller   internal/monitor/poller.go: tick is the method, start_round a round of Start, with
--                    the reads of the database as an argument; Poller/Queries is what they are over the
--                    tables; proofs in Poller/Dlq, Reported, Sound and Errors
--   Monitor/Api, Monitor/History
--                    internal/monitor/api.go: the handlers under their own names; proofs in
--                    Api/Numbers, Lookup and Pages and in History/Points
--   .../Tests        inputs on which the theorems apply
--
-- How the code is modelled:
--   - a Go map is an association list without a promise of order; where the code ranges over a map,
--     the order is an argument, or the list's own order;
--   - time stamps are natural numbers of milliseconds; `now - window` is cut at 0, which compares
--     with a time stamp the way the negative number does;
--   - what a mutex covers is one step, and where the code uses atomic counters without a lock each of
--     them is a step of its own. A call with several locks, or with an insert behind its lock, is given
--     by its steps, which interleave in Fault/Interleaved and Order/Interleaved, and as a whole where
--     nothing comes between them. The clock and the database's answers are arguments;
--   - a send of a worker names whether its select takes the branch of the cancelled context, which drops
--     the message; the queue in the state of a service holds what was put on it;
--   - a database statement may be refused: the error is a value, and what was done before stays done;
--   - sort.Slice is a parameter that sorts by its key and keeps no order of equal keys, and
--     ORDER BY is one in the same way;
--   - JSON columns hold the values that their texts encode;
--   - json.Unmarshal of a message is a parameter, and what each attempt meets in the world (the clock,
--     the dice, the fault context, a cancelled context) is an argument;
--   - no definition takes fuel: the loops are structural, that of the attempts in the number left.
--
-- Not modelled: the timers that start ticks and flushes, the random ids of newUUID, the registration of
-- the routes, the opening of the database and the program of the monitor (I/O and wiring), the
-- interleaving of the sends of several goroutines to a queue and its subscribers, and the dashboard
-- (another language).
pub mod Prelude
pub mod Float64
pub mod Simulator
pub mod Monitor
