-- ===== src/Examples/LuaPolicy.antt =====
-- The policy run with the small VM.
use argus_manager.Prelude.{ℕ, ◌≡◌, refl, List, [], ◌∷◌, All}
use argus_manager.Float.{nat}
use argus_manager.Float.Fixed.{Fixed, fixed_float, fixed_casts, Fixed-IsIeee}
use argus_manager.Signal.{Level, SystemSignal, memory_pressure}
use argus_manager.Contract.{EngineDirective, kv_compress}
use argus_manager.Config.{default_adaptation}
use argus_manager.Prelude.Int.{◌-ℤ◌, ◌/ℤ◌, ◌*ℤ◌}
use argus_manager.Lua.Context.{build_ctx}
use argus_manager.Lua.Actions.{parse_actions, parse_single_action}
use argus_manager.Pipeline.{next_seq_id}
use argus_manager.Policy.State.{update_mem, new_engine}
use argus_manager.LuaPolicy.{LuaPolicy, call_decide, take_signal, process_signal, made}
use argus_manager.LuaPolicy.Latch.{run, three_failures, outcomes, run-three_failures}
use argus_manager.LuaPolicy.Reload.{
  Request, signal, reload, play, recent, in_use, play-three_failures,
}
use argus_manager.LuaPolicy.Directives.{process_signal-All}
use argus_manager.Lua.Actions.Valid.{IsValid}
use argus_manager.Examples.Vm.{toy}

abbrev start : LuaPolicy ℕ Fixed Fixed
start = made toy 64 "policy.lua" default_adaptation 0

-- 30 % of the memory is left, and 5 %.
abbrev tight : SystemSignal Fixed
tight = memory_pressure Level.warning 300 1000 50

abbrev short : SystemSignal Fixed
short = memory_pressure Level.emergency 50 1000 200

abbrev history : List (SystemSignal Fixed)
history = tight ∷ short ∷ short ∷ short ∷ tight ∷ []

abbrev sent : EngineDirective Fixed
sent = record { seq_id = 1; commands = kv_compress (nat 1) ∷ [] }

process_signal-All_example : All (IsValid 64) sent.commands
unfolding process_signal call_decide take_signal build_ctx update_mem new_engine ◌-ℤ◌ ◌/ℤ◌ ◌*ℤ◌
    parse_actions parse_single_action next_seq_id
process_signal-All_example = process_signal-All toy 64 Fixed-IsIeee start 1 tight sent refl

run-three_failures_example :
    (run toy 64 start 1 history).permanent_fallback
    ≡ three_failures (outcomes toy 64 start 1 history)
run-three_failures_example = run-three_failures toy 64 start 1 history refl refl

-- The script is given up, a script is missing, another loads, and the VM fails once more.
abbrev requests : List (Request Fixed)
requests =
    signal tight
    ∷ signal short
    ∷ signal short
    ∷ signal short
    ∷ reload "missing"
    ∷ reload "other.lua"
    ∷ signal short
    ∷ []

play-three_failures_example :
    ((play toy 64 start 1 requests).permanent_fallback
      ≡ three_failures (recent toy 64 [] start 1 requests))
    × ((play toy 64 start 1 requests).script_path ≡ in_use toy 64 start.script_path requests)
play-three_failures_example = play-three_failures toy 64 start 1 requests refl refl
