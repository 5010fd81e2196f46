-- ===== src/Lib.antt =====
-- Supervice, a process supervisor: what it promises about the processes that it runs.
--
-- The program. `supervice/core.py` holds one `Process` (`supervice/process.py`) for each configured
-- instance and one `EventBus` (`supervice/events.py`). A `Process` owns one child at a time. Its
-- supervision task alone starts children and decides on restarts; the health task checks the child
-- that runs and may end it; requests from the RPC server start and stop it. All of them are coroutines
-- of one event loop on the same object: between two awaits nothing else runs, at an await everything
-- may. A transition of state publishes an event, and the bus hands events to their subscribers.
--
-- How code is modelled.
--   Task.antt: a coroutine is a resumption. It runs on the object up to an await, a stretch, and goes
--     on from what it is answered and from the object as it is by then. Task/Waits.antt lists the
--     awaits and their answers, an exception among them. Task/Guarantee.antt and Task/Ensures.antt
--     reason about a task among others, Task/Alone.antt about a task that runs alone in a world that
--     answers it.
--   Events.antt: events.py. A full queue, its unfinished count and the drops are the bus's state;
--     asyncio's Queue is modelled by its documented behaviour. Children: Bounds, Order, Handlers.
--   Models.antt: models.py.
--   Process/State.antt: the fields of `Process`, `__init__`, `_set_state_locked`, `update_config`, and
--     journals of what a process does to the world (events, signals, children, log writers).
--   Process/Kill.antt: `kill`, `force_kill`, `_stop_health_checks`, `_signal_group`.
--   Process/Spawn.antt: `spawn`, `wait`, `_start_health_checks`.
--   Process/Supervise.antt: `supervise`. Process/Health.antt: `_run_health_checks`.
--   Process/Requests.antt: `start`, `stop`, `start_process`, `stop_process`.
--   Process/System.antt: all tasks of a process at once, as a step relation.
--   The other files below Process hold proofs: X/Stretches what a stretch of X can change,
--     EventLog, Ownership, Supervise/Attempts, Supervise/GivesUp and Requests/Outcomes what follows
--     from it.
--   Process/Requests/Deadline.antt: when a start request ends. Process/Requests/Stops.antt: how a stop
--     request ends. Process/Kill/Outcome.antt: how kill ends.
--   ChildLog.antt: `_ChildLogWriter` and, in Pump, `_pump_stream` of process.py. Children: Retained, Writes,
--     Pump.
--   Rpc/Frame.antt: `_read_message` and `_write_message` of rpc.py and client.py. Child: RoundTrip.
--   Rpc/Replies.antt: `_start_one`, `_stop_one` and the restart of rpc.py. Child: Truth.
--   Core/Instances.antt: `_expand` to `_instance_config` of core.py. Child: Names.
--   Core/Reload.antt: `_create_processes`, `_rebuild_groups`, `_reload_config_locked` and
--     `_program_changed` of core.py. Children: Stages, Configs, Groups.
--   Rpc/Server.antt: `handle_client` and `process_request` of rpc.py. Children: Serves,
--     Groups.
--   Config/Environment.antt: `_parse_env` of config.py. Children: Ends, RoundTrip.
--   Config/Validation.antt: `_validate_signal` to `_validate_program` of config.py. Child: Promises.
--   Config/Numbers.antt: `int` and `_parse_bool`. Config/Parse.antt, Config/File.antt: `parse_config` of
--     config.py, on the sections of the file. Children: Inversion, Accepted. Config/Groups.antt: its sections
--     of groups. Child: Last.
--   Core/Loading.antt: `__init__`, `load_config` and `_reload_config_locked` of core.py, on a file.
--   Attempt.antt: code that changes a state and returns or raises, with `finally`.
--   Rpc/Socket.antt: `_probe_socket`, `start` and `stop` of rpc.py. Child: Starts.
--   Core/Run.antt: `run`, `shutdown` and the lock of core.py as a journal of effects. Children: Cycle (the
--     order that is promised), Cycle/Shutdown and Cycle/Follows (the proof), Begins (what is started).
--   Core/PidFile.antt: the pid file of core.py, with several daemons, one system call at a time. Children:
--     Locks, Excludes.
--   Client/Commands.antt: the commands of client.py. Children: Exits, Answers (the client with the server).
--   Client/Table.antt: the table of `status`. Child: Aligned. Client/Uptime.antt: `_format_uptime`.
--   Process/Health/Restarts.antt: how a restart for the sake of health ends.
--   Health.antt: both checkers of health.py. Child: Verdicts. Logging.antt: `setup_logger` of logger.py.
--   Entry.antt: `main` of main.py. Children: Runs, Starts (with config.py, logger.py and core.py).
--   Prelude/Int.antt: the integers of the configuration. A health check keeps the numbers of its section,
--     also negative ones, which config.py lets pass where no check is configured.
--
-- Conventions. A loop that has no bound of its own takes the number of its rounds, and a run that
-- needs more ends in `out_of_rounds`, which is no result. The theorems about a task among others hold
-- of every stretch, for every number of rounds; where a task is to come to an end, the theorem says how
-- many rounds are enough. Times are in milliseconds on the clock of the event loop, which the source
-- reads in seconds. Texts are lists of code points.
--
-- What the program relies on and this library does not model is a parameter: the host (`Host` of
-- Process/Spawn.antt: shlex, shutil, pwd, os and the opening of files) and the answers to awaits (the
-- child's exit, a health check, the passing of time).
--
-- Not modelled: the reading of the file by configparser (config.py), the parsing of command lines by
-- argparse (client.py, main.py), the forks of `_daemonize` (main.py), and the network.
-- Log messages are left out of the model, except for the event bus's warnings, which have a rule of
-- their own.
mod Prelude
pub mod Events
pub mod Task
pub mod Attempt
pub mod Models
pub mod ChildLog
pub mod Config
pub mod Core
pub mod Client
pub mod Process
pub mod Health
pub mod Logging
pub mod Entry
pub mod Rpc
mod Tests
