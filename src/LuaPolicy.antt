-- ===== src/LuaPolicy.antt =====
-- src/lua_policy.rs: the decision layer around the script. The Lua VM and the operator's scripts
-- are parameters (`LuaVm`); building `ctx`, looking `decide` up and calling it is one call, which
-- fails if any of them fails. `W` is `f64`, `S` is `f32`; counters wrap at their width.
pub mod Latch
pub mod Directives
pub mod Reload
pub mod Sys
use mathlib.Core.Option
use Prim.Native.String.{String}
use argus_manager.Prelude.{
  ℕ, ◌+◌, ◌%◌, ◌^◌, Bool, true, false, ◌||◌, Option, none, some, List, [], ◌∷◌, ltb, leb,
  if◌then◌else◌,
}
use argus_manager.Float.{Float, Casts, nat}
use argus_manager.Signal.{
  SystemSignal, memory_pressure, compute_guidance, thermal_alert, energy_constraint, OperatingMode,
}
use argus_manager.Contract.{
  EngineCommand, EngineDirective, EngineStatus, EngineMessage, heartbeat, response,
}
use argus_manager.Config.{AdaptationConfig}
use argus_manager.Pipeline.{next_seq_id}
use argus_manager.Fallback.{fallback_decide}
use argus_manager.Lua.Context.{Ctx, build_ctx}
use argus_manager.Lua.Actions.{Value, LuaTable, parse_actions}
use argus_manager.Policy.State.{
  Pressure6D, SignalState, TriggerEngine, default_signal_state, update_compute, update_memory,
  update_thermal, new_engine, degradation_ratio, update_tbt_ms, update_mem, update_temp,
  pressure_with_thermal,
}

pub record PolicyMeta : Type 0 where
  pub name : String
  pub version : String

-- `V` is a VM, `T` a table of it. `fresh` is a sandboxed VM with the `sys` helpers registered;
-- `read_file` reads a script; `exec` runs its text in a VM. A step that fails is `none`.
pub record LuaVm (V T W S : Type 0) : Type 0 where
  pub fresh : Option V
  pub read_file : String → Option String
  pub exec : V → String → Option V
  pub has_decide : V → Bool
  pub meta : V → Option PolicyMeta
  pub call : V → Ctx W S → V × Option (Value T W)
  pub tables : LuaTable T W S

abbrev pub fallback_error_threshold : ℕ
fallback_error_threshold = 3

pub record LuaPolicy (V W S : Type 0) : Type 0 where
  pub lua : V
  pub script_path : String
  pub policy_meta : Option PolicyMeta
  pub signal_state : SignalState W
  pub trigger_engine : TriggerEngine W
  pub engine_state : Option (EngineStatus S)
  pub adaptation_config : AdaptationConfig W S
  pub consecutive_errors : ℕ
  pub permanent_fallback : Bool
  pub dropped_actions : ℕ

module _ {V T W S : Type 0} ⦃f : Float W⦄ ⦃g : Float S⦄ ⦃c : Casts W S⦄ (vm : LuaVm V T W S)
    (yield_max : ℕ) where
  abbrev exec_checked : V → Option String → Option V
  exec_checked lua none = none
  exec_checked lua (some script) =
      Option.bind (vm.exec lua script) (λ lua'. if vm.has_decide lua' then some lua' else none)

  -- The VM after the script, if the script loads and defines `decide`.
  unfoldable pub load_script : V → String → Option V
  load_script lua script_path = exec_checked lua (vm.read_file script_path)

  abbrev pub load_fresh : String → Option V
  load_fresh script_path = Option.bind vm.fresh (λ lua. load_script lua script_path)

  abbrev pub made : String → AdaptationConfig W S → V → LuaPolicy V W S
  made script_path config lua = record {
    lua = lua;
    script_path = script_path;
    policy_meta = vm.meta lua;
    signal_state = default_signal_state;
    trigger_engine = new_engine config.trigger;
    engine_state = none;
    adaptation_config = config;
    consecutive_errors = 0;
    permanent_fallback = false;
    dropped_actions = 0;
  }

  unfoldable pub new_with_gpu : String → AdaptationConfig W S → Option (LuaPolicy V W S)
  new_with_gpu script_path config = Option.map (made script_path config) (load_fresh script_path)

  abbrev pub pressure : LuaPolicy V W S → Pressure6D S
  pressure p =
      pressure_with_thermal p.signal_state p.adaptation_config.temp_safe_c
        p.adaptation_config.temp_critical_c (degradation_ratio p.trigger_engine.tbt)

  -- The two arms of `match result` in `call_decide`.
  abbrev pub after_call :
      LuaPolicy V W S
      → SystemSignal W
      → Option (Value T W)
      → LuaPolicy V W S × List (EngineCommand S)
  after_call p signal (some value) =
      let (cmds, dropped) = parse_actions vm.tables yield_max value p.dropped_actions in
      (record p { consecutive_errors = 0; dropped_actions = dropped }, cmds)
  after_call p signal none =
      let errors = (p.consecutive_errors + 1) % 2 ^ 32 in
      (
        record p {
          consecutive_errors = errors;
          permanent_fallback =
              if leb fallback_error_threshold errors then true else p.permanent_fallback;
        },
        fallback_decide signal,
      )

  unfoldable pub call_decide :
      LuaPolicy V W S → SystemSignal W → LuaPolicy V W S × List (EngineCommand S)
  call_decide p signal =
      if p.permanent_fallback
      then (p, fallback_decide signal)
      else let ctx =
          build_ctx (pressure p) p.trigger_engine.trigger p.signal_state p.engine_state in
        let (lua, value) = vm.call p.lua ctx in after_call (record p { lua = lua }) signal value

  -- The `match signal` at the head of `process_signal`.
  unfoldable pub take_signal : LuaPolicy V W S → SystemSignal W → LuaPolicy V W S
  take_signal p (memory_pressure l available_bytes total_bytes r) =
      let share =
        if ltb 0 total_bytes
        then f.sub (nat 1) (f.div (f.of_nat available_bytes) (f.of_nat total_bytes))
        else nat 0 in
      record p {
        signal_state = update_memory p.signal_state available_bytes total_bytes;
        trigger_engine = update_mem p.trigger_engine share;
      }
  take_signal p (compute_guidance l b r cpu_usage_pct gpu_usage_pct) = record p {
    signal_state = update_compute p.signal_state cpu_usage_pct gpu_usage_pct;
  }
  take_signal p (thermal_alert l temperature_mc throttling_active r) =
      let q = record p {
        signal_state = update_thermal p.signal_state temperature_mc throttling_active;
      } in
      record q { trigger_engine = update_temp q.trigger_engine (c.widen (pressure q).thermal) }
  take_signal p (energy_constraint l r b) = p

  abbrev directive_of : ℕ → List (EngineCommand S) → ℕ × Option (EngineDirective S)
  directive_of counter [] = (counter, none)
  directive_of counter (x ∷ xs) =
      let (seq_id, counter') = next_seq_id counter in
      (counter', some (record { seq_id = seq_id; commands = x ∷ xs }))

  -- The policy, the counter of sequence numbers, and the directive.
  unfoldable pub process_signal :
      LuaPolicy V W S → ℕ → SystemSignal W → LuaPolicy V W S × ℕ × Option (EngineDirective S)
  process_signal p counter signal =
      let (p', commands) = call_decide (take_signal p signal) signal in
      let (counter', directive) = directive_of counter commands in (p', counter', directive)

  unfoldable pub update_engine_state : LuaPolicy V W S → EngineMessage S → LuaPolicy V W S
  update_engine_state p (heartbeat status) = record p {
    trigger_engine = update_tbt_ms p.trigger_engine (c.widen status.tbt_ms);
    engine_state = some status;
  }
  update_engine_state p (response resp) = p

  unfoldable pub mode : LuaPolicy V W S → OperatingMode
  mode p =
      let t = p.trigger_engine.trigger in
      if t.mem_low
      then OperatingMode.critical
      else if t.temp_high || t.tbt_degraded
      then OperatingMode.warning
      else OperatingMode.normal

  abbrev reloaded : LuaPolicy V W S → String → Option V → LuaPolicy V W S × Bool
  reloaded p path none = (p, false)
  reloaded p path (some lua) = (
    record p {
      policy_meta = vm.meta lua;
      lua = lua;
      script_path = path;
      consecutive_errors = 0;
      permanent_fallback = false;
    },
    true,
  )

  -- The policy, and whether the script was swapped.
  unfoldable pub reload_script : LuaPolicy V W S → String → LuaPolicy V W S × Bool
  reload_script p path = reloaded p path (load_fresh path)
