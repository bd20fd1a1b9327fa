-- ===== src/Lib.antt =====
-- Verification of bare-arti: an Arti (Tor) client that one process starts and stops through a C
-- interface, and that serves a local SOCKS5 port.
--
-- The program's parts. The C interface (addon/src/lib.rs) checks the options and keeps one request
-- of each kind in flight. It calls the controller (src/service.rs), a state machine behind a mutex:
-- stopped, starting, running, stopping, failed. A start spawns a supervisor thread, which spawns the
-- worker's thread and a reaper that joins it. The supervisor waits for the worker's port, then for its
-- end, and moves the state machine. Every caller's completion is sent to one dispatcher thread, which
-- calls it. The worker (`run_production_worker`) prepares the data directory, bootstraps the client and
-- serves SOCKS5 until it is cancelled. Each connection is one conversation (`handle_conn`, src/lib.rs).
--
-- Files, with the code that they model:
--   Base, Paths                  shared names; paths and pieces of texts of Rust's library
--   Service/Types                options, events, errors of src/service.rs and their messages
--   Service/Lifecycle, Owner     `WorkerLifecycle`, `WorkerOwner`
--   Service/Dispatch             `CompletionDispatcher`
--   Service/World                `Shared`, its state machine, and the objects behind `Arc`s as stores
--   Service/Effects, Lock        what is done after the mutex is left; `lock_inner`
--   Service/Sections             `mark_running`, `stop_after_startup`, `cancel_current`,
--                                `transition_to_stopping`; Finish: `finish_worker`,
--                                `finish_creation_failure`
--   Service/Controller           `ServiceController::start` and `stop`
--   Service/Supervisor           `supervise` and what follows it; Workers: the start of a worker and
--                                its reaper in `run_supervisor`; Actions: their pieces, and the
--                                production gate, reaper and spawner
--   Service/System               the threads' interleavings as a step relation
--   Service/Completions          where completions are, in every reachable state
--   Service/Diagram              the diagram of states, its refinement, and generations
--   Service/Terminal, Verdict    failure, and the end of a generation
--   Service/Requests             rejected calls
--   Service/Starts, Stops        calls while a generation is active
--   Service/Sends, Recovery      what effects send; calls that find the mutex poisoned
--   Service/Told                 which events completions are told: Items, one completion and one effect;
--                                Sections, Still, Pieces, Calls: where they come from; Truthful,
--                                Reachable: every reachable state
--   Service/Reaping              the owners of workers: Takes, Pieces, what each function does to them;
--                                Reachable: which reaper takes a worker
--   Service/Progress             how much work the threads have left
--   Worker, DataDir              `run_production_worker`; `prepare_data_dir` on Unix
--   Worker/Production, Codes     `ProductionWorkerFactory`, its hooks and the adaptor of `SocksService`;
--                                the codes of the worker's errors
--   Socks, Addresses             `handle_conn`; the list of reachable addresses (src/lib.rs)
--   Socks/Dialogue               well-formed requests
--   Socks/Stages, Asked,
--   Conversation                 what the client's bytes ask for, stage by stage
--   Socks/Transcript             what is said and dialled for every input
--   Socks/Listener               `serve_socks_with` and `SocksService`; Steps: the accept task's steps;
--                                Accounts, Drain: its connections, and how it ends
--   Bootstrap, CommandLine       `bootstrap` and its like; `main` of src/bin/arti-socks.rs
--   Abi                          `copy_options`, `start_impl`, `stop_impl` (addon/src/lib.rs); Requests,
--                                StopRequests: each call of the two; Sequence:
--                                requests and callbacks one after the other; CString, Strings:
--                                `c_string` and what a callback is given; TestMode: a debug build;
--                                Joint: calls and callbacks together with the controller's threads;
--                                Callbacks, Outstanding, Active, Booked, Tracks: what they are told,
--                                and which generation is known as active
--   Tests                        examples
--
-- How the code is represented. A critical section is a function on the world that also returns the
-- effects which the code has after the mutex is left. A thread is the list of its pieces, each between
-- two waits; a step of the system runs one piece of one thread with any answer of its environment, so
-- that a theorem on reachable states holds for every interleaving. A wait answers `none` while it
-- would block. In Abi/Joint a call of the C interface is one step with the controller's section. No
-- function runs on fuel; all are total. Machine integers are natural numbers: the code only
-- compares them, and the bounds that it checks are written out.
--
-- Parameters: the answers of the file system, of the environment's variables and of `geteuid`, the
-- worker's runtime and which of its races the cancellation wins, the spawners of threads, the system's
-- refusal of the dispatcher's thread, Tor's client with its `connect` and the splice, the builder of its
-- configuration, the parser of one address pattern, and what the listener's socket and tasks do.
--
-- Not modelled: the choice of a cryptography provider, the JavaScript and C glue, where a panic of the
-- C interface comes from (that it becomes a status is), and the data directory on other systems than
-- Unix. A supervisor panics only where its body waits. A connection's task, whose work is
-- `handle_conn`, is known to the listener by its end alone.
pub mod Base
pub mod Paths
pub mod Service
pub mod DataDir
pub mod Worker
pub mod Socks
pub mod Addresses
pub mod Bootstrap
pub mod CommandLine
pub mod Abi
mod Tests
