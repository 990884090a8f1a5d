-- ===== src/Lib.antt =====
-- A GPU cluster service: a backend with an HTTP interface (backend/), a scheduler that starts tasks on
-- nodes (scheduler/), and an agent on each node. The backend and the scheduler share one database and one
-- Redis server; the agents report to the backend by heartbeats and callbacks and start containers for the
-- scheduler. This library models the services of the backend that keep accounts, tasks, nodes, billing,
-- monitoring and served models, the gateway to these models, the scheduler, and the agent.
--
-- The files:
-- - Prelude: tests on numbers, lists, a stable sort, tables of rows with a key, signed integers.
-- - Data, Data/Cluster, Data/Work: the tables of backend/app/models/ as lists of rows, in one record Db.
--   scheduler/models.py maps a part of the same columns.
-- - Queue/Server, Queue: the three Redis lists, and their two clients, scheduler/queue_manager.py
--   (enqueue, dequeue, requeue, queue_length, total_pending) and backend/app/services/queue_service.py.
--   Queue/Order: the order in which entries leave.
-- - World: the database and the server, which is all that the services share.
-- - Allocator: scheduler/gpu_allocator.py (allocate, release, release_by_task). Allocator/Candidates and
--   Allocator/Choice: what is chosen. Allocator/Keys and Allocator/Booking: what is booked and given back.
-- - Container: scheduler/container_manager.py and the request of scheduler/agent_client.py.
-- - Scheduler: scheduler/scheduler.py. schedule_one is _schedule_one; its try block is try_launch, and
--   conclude is what follows with either result. handle_message is the body of _pubsub_listener, and
--   serve runs any interleaving of the main loop and the listener. Scheduler/Steps, Scheduler/Safety and
--   Scheduler/Blocking: what one attempt can do. Scheduler/Exclusive and
--   Scheduler/Runs: what holds over any run.
-- - Errors: backend/app/utils/exceptions.py.
-- - Tasks, Tasks/Lifecycle: backend/app/services/task_service.py, the queries and the operations that
--   change a task. Tasks/Rules, Tasks/Moves and Tasks/Callbacks: what they do to the rows.
-- - Billing, Billing/Decimal, Billing/Api: backend/app/services/billing_service.py. Billing/Charges: what
--   is charged.
-- - Auth: backend/app/services/auth_service.py and backend/app/dependencies.py, over a record Crypto of the
--   packages' functions. Auth/Accounts: accounts from their registration on.
-- - Models, Models/Requirement, Models/Deploy, Models/Registry: backend/app/services/model_service.py: the
--   placing of replicas, ports, stopping and deleting; _parse_gpu_requirement; deploy_model with the launch of
--   an instance, the wait for its health and both cleanups; and the rows of the table. Models/Placing,
--   Models/Ports, Models/Stopping, Models/Health: what they find and leave. Models/Undo, Models/Marks,
--   Models/Launched, Models/Deployed: how a deployment ends.
-- - Gateway, Gateway/Proxy: backend/app/services/ai_service.py behind backend/app/routers/ai_gateway.py; the
--   class's counters are a field of the state. Gateway/Rotation: whose turn it is. Gateway/Accounting: what a
--   request leaves.
-- - Periodic: backend/app/tasks/. Periodic/Runs, with Billing/Once: what holds over any run of them.
-- - Routes: backend/app/utils/responses.py and the handlers of backend/app/main.py. Routes/Requests,
--   Routes/Writes, Routes/Reads, Routes/Calls: backend/app/routers/, where the constructors of Call are the
--   routes. Routes/Guards: calls without a user. Routes/Missing: models that are not there.
-- - Agent, Agent/Gpus, Agent/Reporter: agent/agent.py with agent/container_tracker.py, agent/gpu_monitor.py,
--   and agent/heartbeat.py with agent/resource_monitor.py, over a record Docker of the library's functions.
--   Agent/Tracking: what the control plane learns of a container that was started.
-- - Nodes, Nodes/Heartbeat, Nodes/Serialized: backend/app/services/node_service.py.
--   Nodes/Statuses, Nodes/Present, Nodes/Reported: what a heartbeat leaves.
-- - Monitor: backend/app/services/monitor_service.py. Monitor/Offline: the heartbeat check.
-- - Services: what the services do to each other's work, Services/Races and Services/Finishing.
-- - Migrations, with Migrations/Phase1, Migrations/Heartbeat and Migrations/Ai: the scripts of
--   backend/migrations/versions/ as lists of alembic's operations, over a function for the database.
--   Migrations/History: their chain, and the way back.
-- - Examples: a small cluster on which each theorem is applied.
--
-- The conventions: identifiers, addresses and container ids are numbers, and 0 is the empty text. Times
-- are in microseconds, credits in cents, costs in units of 0.0001. Calls to uuid4 and to the clock are
-- arguments. A log text is a value of LogMessage. An autoincrement key is taken from next_row. A function
-- returns the tables as they are after its commit; one that raises before it returns them unchanged.
-- A Redis list is written from the end that rpop takes, and `faults` says which of the coming calls raise,
-- so a theorem that assumes IsUp assumes that none does. Rows come in the order of insertion, and a sort
-- keeps the order of rows with equal keys. The answer of an agent is a parameter, a function of the request.
-- Decimals have 28 digits; a quotient is searched with 60 as fuel, enough for any quotient from 10 ^ -33.
--
-- The search for a port has the number of used ports as fuel, which is enough; the wait for health has a
-- number of rounds, and one per unit of the timeout is enough if a round takes a unit.
--
-- Not modelled: errors of the database and row locks (the lock of the scheduler and that of the model
-- service make their calls single steps), logging, connections, the parsing of requests by the
-- framework and the encoding of its answers as JSON, the frontend. Of the agent's process,
-- the start, the end and the waiting between heartbeats are left out; of the migrations, the offline mode.
pub mod Prelude
pub mod Data
pub mod Queue
pub mod World
pub mod Allocator
pub mod Container
pub mod Scheduler
pub mod Errors
pub mod Tasks
pub mod Billing
pub mod Nodes
pub mod Monitor
pub mod Auth
pub mod Periodic
pub mod Models
pub mod Services
pub mod Agent
pub mod Gateway
pub mod Routes
pub mod Migrations
mod Examples
