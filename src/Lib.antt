-- ===== src/Lib.antt =====
-- Verification library for runner-observability: a monitor of self-hosted CI runners, with an agent
-- that sends events to it.
--
-- The parts of the program (src/runner_observability/), and where they are modelled:
--   contracts.py    Contracts: the validation of an event. Fields has the constants and the checks of
--                   single fields, Content the search for forbidden content, Event `validate_event`,
--                   Job the job of an event as the other parts read it.
--   projection.py   Projection: `apply_event`, by which an event advances the current state.
--   health.py       Health: incidents that open and close.
--   store.py        Database: the tables, as association lists in the order of their row ids, and
--                   Store: Ingest, Liveness, Replay, Prune, History and Queries have its
--                   methods, Transaction the commit and the rollback of a replay and of a
--                   cleanup.
--   outbox.py       Outbox: Enqueue and Drain, on directories that are tables of texts by file stem.
--   agent.py        Agent: Delivery has `deliver_event`.
--   heartbeat.py    Heartbeat: Config, State, Loop and Schedule.
--   credentials.py  Credentials: `read_token_file`.
--   dashboard.py    Dashboard: Reading has how a payload is read, Phases, Timeline and Views the
--                   views, and Snapshot `dashboard_snapshot`.
--   server.py       Server: Post and Get have the handlers, on a Request; Query reads the filters of
--                   the history.
--   deploy.py       Deploy: Preflight has the checks, Layout the release directories, Release
--                   `deploy_release`, Service the Windows service, Command the commands.
--   service.py      Service: Config, and Child for the process of the monitor.
--   gate.py         Gate: Suite, Report and Run, where the stages of the gate are parameters.
-- Value has the Python values that JSON can give, the frozen ones included, and Base what all parts
-- share. Tests has concrete inputs and the runs on them.
--
-- How they interact: an agent validates an event and delivers it, or puts it into the outbox, from
-- which a later drain delivers it. The store validates an event again, appends it to the log of
-- events, and applies it to the projections in the same transaction; a replay applies the log again
-- to empty projections; a cleanup deletes old rows and records that the log has a gap. The heartbeat
-- loop reserves a sequence number in a file before it sends it. The server brings the events of its
-- requests to the store, and shows what the dashboard makes of it. A deployment stages a release,
-- points at it, and goes back to the one before if a check fails.
--
-- Conventions. A method takes the state and returns the new one. An exception is a value of
-- `Result Exception`; a method of the store that raises carries no state, since its transaction is
-- rolled back. Stack space is a parameter: json.dumps, the search for forbidden content and the copy
-- of an event raise a RecursionError where it ends. The standard library (regular expressions, UUIDs, times, URLs, JSON texts, files) is
-- the record `Python` of Python.antt or a further argument, and nothing is assumed of it but what a
-- theorem names. Times are whole microseconds. Numbers are the unbounded naturals and integers, as
-- in Python.
--
-- Fuel: the retry loop of a delivery runs on `enough_rounds`, one for each call that may be made, and
-- the loop that moves the due time of the heartbeat runs on one step for each unit of the clock and
-- one more. A theorem shows for each that this is enough. Every other loop is structural.
--
-- The supervision of the monitor's process runs on a number of rounds, and a theorem shows that it
-- ends once the process has exited or is to stop.
--
-- A request is its parsed path, its headers and what a read of its body gives; a release is the
-- content of its directory, as a text. The steps on files that can fail, the probes, the checks and
-- the service answer as their parameters say.
--
-- Not modelled: the SQL text, the range of SQLite's integers and the errors of the database outside
-- the cleanup, a RecursionError on reading a file of the outbox or of the heartbeat, the lock file
-- of the outbox, sockets and TLS, the process of the smoke test, the diagnostics but for the reason
-- that a request is refused for, the drills of the gate, and onboarding.py, heartbeat_service.py
-- and __main__.py.
pub mod Base
pub mod Value
pub mod Python
pub mod Contracts
pub mod Database
pub mod Health
pub mod Projection
pub mod Store
pub mod Outbox
pub mod Agent
pub mod Heartbeat
pub mod Credentials
pub mod Dashboard
pub mod Server
pub mod Service
pub mod Gate
pub mod Deploy
pub mod Tests
