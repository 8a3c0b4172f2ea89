-- ===== src/Lib.antt =====
-- Verification of the Argus manager, a daemon that watches a device's memory, heat, load and battery
-- and tells an inference engine how to adapt.
--
-- Monitors (src/monitor) read the system and classify each reading by a threshold evaluator with
-- hysteresis (src/evaluator.rs); they send signals (src/signal.rs) to the main loop. The policy
-- (src/lua_policy.rs) keeps the readings, the pressures and the triggers (src/policy/common/state.rs),
-- asks the operator's Lua script what to do, parses its answer, and answers by itself
-- (src/lua/fallback.rs) when the script fails. What it decides becomes a numbered directive, the
-- deduplicator (src/pipeline.rs) keeps repetitions from the engine, and a channel (src/channel)
-- carries it there and brings the engine's messages back; src/main.rs is the loop over all that.
--
-- Which file models what:
--   Prelude      shared names, Boolean tests on the native numbers, integers, lists
--   Float        `f64` and `f32` as an interface with the laws of IEEE 754; Float/Fixed meets them
--   Signal       src/signal.rs, src/types.rs; Signal/Dbus the D-Bus names, with src/emitter/dbus.rs
--   Contract     the messages between manager and engine, which an external crate declares
--   Config       src/config.rs
--   Evaluator    src/evaluator.rs; Schmitt says what it computes, Ceiling how far it climbs
--   Policy/State src/policy/common/state.rs; Pressure, Triggers and Warmup are its theorems
--   Pipeline     src/pipeline.rs; Dedup is its theorem
--   Fallback     src/lua/fallback.rs
--   Lua/Context  src/lua/context.rs
--   Lua/Actions  parse_actions and parse_single_action of src/lua_policy.rs; Valid its theorems
--   LuaPolicy    the rest of src/lua_policy.rs; Latch, Reload and Directives are its theorems, and
--                Sys the helpers that the script can call, with Sys/Keys and Sys/Fps for theorems
--   Text         what the program uses of Rust's strings; Laws and Trim are its theorems
--   Monitor      src/monitor: memory.rs, thermal.rs, compute.rs, energy.rs, external.rs and
--                gpu_provider.rs (Gpu), a file for each; their children are theorems, but for
--                Memory/Meminfo, which is parse_meminfo of memory.rs, with Meminfo/Lines for its
--                theorems
--   Channel      src/channel/unix_socket.rs (tcp.rs is the same but for its sockets); Channel/Frame
--                the wire format, Channel/Inbox the loop of src/main.rs that empties the inbox while
--                nothing arrives; Frame/Stream and Reconnect are theorems
--   Manager      the loop of src/main.rs, with the engine's messages as they arrive between the calls
--                of a turn; Manager/Startup is what comes before it, Monitors its build_monitors;
--                Directives, Receipt, Startup/Life and Startup/Outcomes are theorems
--   Emitter      the trait of src/emitter.rs; UnixSocket is src/emitter/unix_socket.rs, EngineChannel
--                the channel as an emitter, Sessions what both promise, Runs theorems
--   Mock         Wire is the reading of src/bin/mock_engine.rs and src/bin/mock_manager.rs, Engine
--                the former, Manager the latter with its scenarios; Exchange puts both together
--   Sim/Clock    src/sim/clock.rs; Drain and Periodic are its theorems; Sim/Event its EventKind
--   Sim/Config   the records of src/sim/config.rs; Config/Merge the merge of YAML values and the
--                files that extend others, with Lookup and Chain for theorems; Config/Validate the
--                validation, load_scenario, and make_dry_run_context of src/sim/expr.rs, and
--                Accepted their theorem
--   Sim/State    src/sim/state.rs; Fields are its theorems
--   Sim/Expr     the contexts of src/sim/expr.rs, and its compute_phase_throughput
--   Sim/Physics  src/sim/physics.rs but for its step; Bounds are its theorems
--   Sim/Compose  src/sim/compose.rs; Keys and Order are its theorems
--   Sim/Derived  src/sim/derived.rs, and the step of src/sim/physics.rs
--   Sim/Signal   src/sim/signal.rs, and the choice of gaussian in src/sim/noise.rs between 0 and a
--                sample; Ranges are its theorems
--   Sim/Noise    src/sim/noise.rs, the streams of random numbers; Streams are its theorems
--   Sim/Harness  src/sim/harness.rs, with Load its loading of events and run_for, and Until its
--                run_until; Sends, Steps, Preload, Runs, Changes, Noticed and Levels are theorems
--   Sim/Trajectory  src/sim/trajectory.rs: the calls of its methods, with Dumps and Entries what
--                they record and Summary the summary; Entries/Nearest and Summary/Counts are theorems
--   Examples     concrete inputs, and each theorem that has conditions applied to them
--
-- A method that changes `self` is a function from the state to the new state and its result. A
-- state is a record with the fields of the source's struct that decisions depend on; log lines are
-- left out. Unsigned integers wrap at their width where the source adds to them. An `f64` is a
-- value of a type `W`, an `f32` of a type `S`, with the operations of the interface `Float`; a
-- comparison is `le`, so a NaN is a value that is not `le` itself. Errors that the source only logs
-- are `none` or a constructor. Loops are over lists, but for the scans of the thermal directory,
-- which run over the source's counts (256 zones, 64 devices), and some that take fuel: `drain`,
-- one more than the inbox holds (what arrives meanwhile is a finite list); `read_loop`, one more than the stream has bytes, each message
-- taking at least four; `schedule_from`, one more than the nanoseconds to the end, each turn adding
-- a period that is at least one (for 0 the source's loop does not end); `run_to`, which `run_for`
-- gives, as `run_until` its loop, one more than the nanoseconds of the duration, a tick taking at
-- least one; `load_yaml_with_extends`, for which one more than the number of files is enough; and
-- `nonzero`, for which enough is what the generator needs to give a number that is not 0.
--
-- Parameters: the Lua VM with the scripts, the tables of the Lua library, and the contract's limit
-- for yield intervals, the JSON encoding, what files and sockets answer, the contexts and trees of
-- the evalexpr library, `exp`, `powf`, the parsing of an `f64`, the casts to signed integers, the
-- samples of the noise in a simulation, the generator of random numbers with `ln`, `sqrt` and
-- `cos`, the scalars of YAML, the resolution of paths, the deserialisation of a
-- scenario, and `Duration::from_secs_f64`. Not modelled: the bus, the parsing of TOML, JSON and
-- YAML, the processes and threads behind the GPU
-- telemetry, what the trajectory of a simulation prints, the D-Bus mode of
-- the mock manager, and the front end of the simulator.
pub mod Prelude
pub mod Float
pub mod Signal
pub mod Contract
pub mod Config
pub mod Evaluator
pub mod Policy
pub mod Pipeline
pub mod Fallback
pub mod Lua
pub mod LuaPolicy
pub mod Monitor
pub mod Channel
pub mod Emitter
pub mod Manager
pub mod Mock
pub mod Sim
pub mod Text
mod Examples
