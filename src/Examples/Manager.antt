-- ===== src/Examples/Manager.antt =====
-- The main loop with the small VM.
use argus_manager.Prelude.{ℕ, true, false, none, some, List, [], ◌∷◌, All, arith}
use argus_manager.Float.{nat}
use argus_manager.Float.Fixed.{Fixed, fixed_float, fixed_casts, Fixed-IsIeee}
use argus_manager.Signal.{Level, memory_pressure}
use argus_manager.Contract.{EngineDirective, EngineMessage, CommandResult, response, ManagerMessage}
use argus_manager.Config.{default_adaptation, default_config}
use argus_manager.Channel.{Link, connected, client, would_block}
use argus_manager.Lua.Actions.Valid.{IsValid}
use argus_manager.LuaPolicy.{made}
use argus_manager.Pipeline.{with_cooldown}
use argus_manager.Pipeline.Dedup.{Spaced}
use argus_manager.Manager.{Manager, Turn, message, reader_end, receive_all}
use argus_manager.Manager.Directives.{outputs, outputs-IsValid-Spaced}
use argus_manager.Manager.Monitors.{build_monitors}
use argus_manager.Manager.Receipt.{Receives, receive_all-Receives}
use argus_manager.Manager.Startup.{Outside, Started, start}
use argus_manager.Manager.Startup.Life.{IsLife, start-IsLife}
use argus_manager.Manager.Startup.Outcomes.{IsStart, start-IsStart}
use argus_manager.Emitter.{Answer}
use argus_manager.Text.{Text}
use argus_manager.Examples.Vm.{toy}

-- The engine answers the directive with the given number.
abbrev answer : ℕ → EngineMessage Fixed
answer n = response record { seq_id = n; results = CommandResult.ok ∷ [] }

abbrev manager : Manager ℕ Fixed Fixed
manager = record {
  policy = made toy 64 "policy.lua" default_adaptation 0;
  counter = 1;
  dedup = with_cooldown (nat 60);
  transport = connected record { writer = []; inbox = answer 1 ∷ []; reader_ended = false };
}

abbrev json : ManagerMessage Fixed → List ℕ
json m = []

abbrev at_second : ℕ → ℕ → Turn Fixed Fixed
at_second s available = record {
  sighup = false;
  arrivals = [];
  signal = some (memory_pressure Level.warning available 1000 50);
  now = nat s;
  accept = would_block;
  write_ok = true;
}

-- The engine answers, also while its answers are read, and goes away in the third turn.
abbrev turns : List (Turn Fixed Fixed)
turns =
    at_second 1 300
    ∷ record (at_second 2 300) {
      arrivals = (message (answer 2) ∷ []) ∷ (message (answer 3) ∷ message (answer 4) ∷ []) ∷ [];
    }
    ∷ record (at_second 3 50) {
      sighup = true;
      arrivals = (message (answer 5) ∷ reader_end ∷ []) ∷ [];
    }
    ∷ record (at_second 99 300) { signal = none }
    ∷ record (at_second 100 300) { accept = client true }
    ∷ []

outputs-IsValid-Spaced_example :
    All (λ x. All (IsValid 64) x.0.commands) (outputs toy 64 json manager turns)
    × Spaced manager.dedup.cooldown_secs manager.dedup.last_commands manager.dedup.last_sent_at
        (outputs toy 64 json manager turns)
outputs-IsValid-Spaced_example = outputs-IsValid-Spaced toy 64 json Fixed-IsIeee manager turns

-- One answer waits; another and the end of the stream come between the first two calls.
abbrev engine_link : Link (EngineMessage Fixed)
engine_link = record { writer = []; inbox = answer 1 ∷ []; reader_ended = false }

receive_all-Receives_example :
    Receives engine_link
      ([] ∷ (message (answer 2) ∷ reader_end ∷ []) ∷ [])
      (receive_all ([] ∷ (message (answer 2) ∷ reader_end ∷ []) ∷ []) (connected engine_link))
receive_all-Receives_example =
    receive_all-Receives engine_link ([] ∷ (message (answer 2) ∷ reader_end ∷ []) ∷ [])

-- "tcp:" and no address
abbrev over_tcp : Text
over_tcp = 116 ∷ 99 ∷ 112 ∷ 58 ∷ []

-- A client comes in the second turn of the wait.
abbrev engine_connects : Outside
engine_connects = record {
  binds = true;
  bus = false;
  turns =
      record { shutdown = true; accept = would_block; timed_out = false }
      ∷ record { shutdown = true; accept = client true; timed_out = false }
      ∷ [];
  shutdown = true;
}

abbrev all_written : ℕ → Answer
all_written k = record { accept = would_block; write_ok = true }

-- With the monitors' defaults.
abbrev started : Started (Manager ℕ Fixed Fixed × List (EngineDirective Fixed))
started =
    start toy 64 json over_tcp (some "policy.lua") default_config true engine_connects all_written

start-IsLife_example : IsLife toy 64 json turns started
unfolding build_monitors
start-IsLife_example =
    start-IsLife toy 64 json default_config true all_written turns Fixed-IsIeee over_tcp
      (some "policy.lua") engine_connects (omega arith)

start-IsStart_example : IsStart toy 64 json over_tcp (some "policy.lua") engine_connects started
start-IsStart_example =
    start-IsStart toy 64 json default_config true all_written over_tcp engine_connects
      (some "policy.lua")
