-- ===== src/Sim/Harness.antt =====
-- src/sim/harness.rs: the simulator's tick and its runs. The policy is an interface; the lines that
-- only record (the trajectory) are the list of entries `Recorded`. A `Duration` is its number of
-- nanoseconds; `as_secs_f64` divides by 10^9. `W` is `f64`, `S` is `f32`.
pub mod Sends
pub mod Steps
pub mod Load
pub mod Preload
pub mod Runs
pub mod Until
pub mod Changes
pub mod Noticed
pub mod Levels
use Prim.Native.String.{String}
use text.Mathlib.Text.{◌==◌ as str_eq}
use argus_manager.Prelude.{
  ℕ, zero, suc, ◌+◌, ◌*◌, ◌/◌, ◌%◌, ◌^◌, Bool, true, false, Option, none, some, List, [], ◌∷◌, ◌++◌,
  ltb, leb, ◌==◌, ◌&&◌, ◌>>=◌, if◌then◌else◌,
}
use argus_manager.Float.{Float, Casts}
use argus_manager.Signal.{SystemSignal}
use argus_manager.Contract.{
  EngineCommand, kv_compress, restore_defaults, suspend, resume, gpu_yield, gpu_offload,
  EngineDirective, EngineMessage,
}
use argus_manager.Pipeline.{DirectiveDeduplicator, process}
use argus_manager.Sim.Clock.{
  VirtualClock, ScheduledEvent, schedule, schedule_periodic, drain_until, advance,
}
use argus_manager.Sim.Config.{ScenarioConfig, ExternalInjection, get}
use argus_manager.Sim.Event.{EventKind}
use argus_manager.Sim.State.{PhysicalState, EngineStateModel, apply_directive}
use argus_manager.Sim.Expr.{EvalExpr}
use argus_manager.Sim.Compose.{insert}
use argus_manager.Sim.Physics.{RealFunctions}
use argus_manager.Sim.Derived.{StepError, Stepped, ok, err, step}
use argus_manager.Sim.Signal.{IntCasts, derive_signal, derive_heartbeat}
use argus_manager.Sim.Trajectory.{
  Recorded, heartbeat, directive, signal, observation, injection, custom, overrun, transition,
  snapshot, SignalDump, from_signal,
}

-- The trait `PolicyStrategy` of src/pipeline.rs, as far as the simulator uses it.
pub record PolicyStrategy (P W S : Type 0) : Type 0 where
  pub process_signal : P → SystemSignal W → P × Option (EngineDirective S)
  pub update_engine_state : P → EngineMessage S → P
  pub cancel_last_observation : P → P
  pub observation_overrun_count : P → P × ℕ

pub record Simulator (P X W S : Type 0) : Type 0 where
  pub clock : VirtualClock EventKind
  pub state : PhysicalState W
  pub engine : EngineStateModel W
  pub policy : P
  pub trajectory : List (Recorded W S)
  pub tick_dt : ℕ
  pub ctx : X
  pub last_overrun_count : ℕ
  pub dedup : DirectiveDeduplicator W S
  pub last_signal_levels : List (String × String)

abbrev pub observation_delay : ℕ
observation_delay = 3 * 10 ^ 9

unfoldable pub observable_action_name : {S : Type 0} → EngineCommand S → Option String
observable_action_name (kv_compress budget) = some "kv.compress"
observable_action_name restore_defaults = none
observable_action_name suspend = none
observable_action_name resume = none
observable_action_name (gpu_yield every) = none
observable_action_name (gpu_offload on) = none

abbrev pub observed : VirtualClock EventKind → Option String → VirtualClock EventKind
observed c none = c
observed c (some action) =
    (schedule c (EventKind.observation_due action c.now) (c.now + observation_delay)).0

abbrev pub observe_all :
    {S : Type 0} → VirtualClock EventKind → List (EngineCommand S) → VirtualClock EventKind
observe_all c [] = c
observe_all c (x ∷ xs) = observe_all (observed c (observable_action_name x)) xs

abbrev pub is_level : Option String → String → Bool
is_level none level = false
is_level (some before) level = str_eq before level

module _ {P X E W S : Type 0} ⦃f : Float W⦄ ⦃g : Float S⦄ ⦃c : Casts W S⦄ ⦃i : IntCasts W⦄
    ⦃r : RealFunctions W⦄ (policy : PolicyStrategy P W S) (x : EvalExpr X E W)
    (cfg : ScenarioConfig E W) where
  abbrev pub as_secs_f64 : ℕ → W
  as_secs_f64 nanos = f.div (f.of_nat nanos) (f.of_nat (10 ^ 9))

  abbrev pub recorded : Simulator P X W S → Recorded W S → Simulator P X W S
  recorded m entry = record m { trajectory = m.trajectory ++ (entry ∷ []) }

  -- `Simulator::apply_directive`
  unfoldable pub applied : Simulator P X W S → EngineDirective S → Simulator P X W S
  applied m d = record m {
    engine = apply_directive m.engine d;
    clock = observe_all m.clock d.commands;
  }

  abbrev pub sent :
      Simulator P X W S → ℕ → SystemSignal W → Option (EngineDirective S) → Simulator P X W S
  sent m at s none = record m { policy = policy.cancel_last_observation m.policy }
  sent m at s (some d) = recorded (applied m d) (directive at s d)

  abbrev pub decided :
      Simulator P X W S → ℕ → SystemSignal W → Option (EngineDirective S) → Simulator P X W S
  decided m at s none = m
  decided m at s (some d) =
      let (dedup, out) = process m.dedup d (as_secs_f64 at) in
      sent (record m { dedup = dedup }) at s out

  -- A level that is not the last one of its kind is a transition.
  abbrev pub noticed_from : Simulator P X W S → ℕ → SignalDump W → Option String → Simulator P X W S
  noticed_from m at dump prev =
      if is_level prev dump.level
      then m
      else record (recorded m (transition at dump.kind prev dump.level m.state)) {
        last_signal_levels = insert m.last_signal_levels dump.kind dump.level;
      }

  abbrev pub noticed : Simulator P X W S → ℕ → SignalDump W → Simulator P X W S
  noticed m at dump = noticed_from m at dump (get m.last_signal_levels dump.kind)

  abbrev pub signalled : Simulator P X W S → ℕ → Option (SystemSignal W) → Simulator P X W S
  signalled m at none = m
  signalled m at (some s) =
      let n = noticed m at (from_signal s) in
      let (p, out) = policy.process_signal n.policy s in
      recorded (decided (record n { policy = p }) at s out) (signal at s)

  abbrev pub handle_kind :
      Simulator P X W S → ℕ → Option (String → W) → EventKind → Simulator P X W S
  handle_kind m at rng EventKind.heartbeat =
      recorded (record m { policy = policy.update_engine_state m.policy derive_heartbeat })
        (heartbeat at derive_heartbeat)
  handle_kind m at rng (EventKind.observation_due action recorded_at) =
      recorded m (observation at action recorded_at)
  handle_kind m at rng (EventKind.external_injection_start index) =
      recorded m (injection at index true)
  handle_kind m at rng (EventKind.external_injection_end index) =
      recorded m (injection at index false)
  handle_kind m at rng (EventKind.custom name) = recorded m (custom at name)
  handle_kind m at rng kind = signalled m at (derive_signal kind m.state cfg rng)

  -- One event. The samples that the noise gives for it are an argument.
  unfoldable pub handle :
      Simulator P X W S → ScheduledEvent EventKind → Option (String → W) → Simulator P X W S
  handle m e rng = handle_kind m e.at rng e.kind

  abbrev pub handle_all :
      Simulator P X W S
      → List (ScheduledEvent EventKind)
      → (ScheduledEvent EventKind → Option (String → W))
      → Simulator P X W S
  handle_all m [] rng = m
  handle_all m (e ∷ es) rng = handle_all (handle m e (rng e)) es rng

  abbrev pub drain_overruns : Simulator P X W S → ℕ → Simulator P X W S
  drain_overruns m tick_end =
      let (p, total) = policy.observation_overrun_count m.policy in
      if ltb m.last_overrun_count total
      then recorded (record m { policy = p; last_overrun_count = total }) (overrun tick_end total)
      else record m { policy = p }

  abbrev pub stepped :
      Simulator P X W S → ℕ → Stepped (PhysicalState W × X) → Stepped (Simulator P X W S)
  stepped m tick_end (ok (state, ctx)) =
      let n = recorded (record m { state = state; ctx = ctx }) (snapshot tick_end state m.engine) in
      ok record n { clock = advance n.clock n.tick_dt }
  stepped m tick_end (err e) = err e

  -- What `tick` does before the physics.
  unfoldable pub events_of_tick :
      Simulator P X W S → (ScheduledEvent EventKind → Option (String → W)) → Simulator P X W S
  events_of_tick m rng =
      let tick_end = m.clock.now + m.tick_dt in
      let (clock, events) = drain_until m.clock tick_end in
      drain_overruns (handle_all (record m { clock = clock }) events rng) tick_end

  unfoldable pub tick :
      Simulator P X W S
      → (ScheduledEvent EventKind → Option (String → W))
      → Stepped (Simulator P X W S)
  tick m rng =
      let m1 = events_of_tick m rng in
      stepped m1 (m.clock.now + m.tick_dt)
        (step x m1.state m1.engine cfg (as_secs_f64 m1.clock.now) (as_secs_f64 m1.tick_dt) m1.ctx)

  -- The result of a run: it ended, an error ended it, or it has not ended within the fuel.
  abbrev pub continued :
      (Simulator P X W S → Option (Stepped (Simulator P X W S)))
      → Stepped (Simulator P X W S)
      → Option (Stepped (Simulator P X W S))
  continued next (ok m) = next m
  continued next (err e) = some (err e)

  -- The loop of `run_for`.
  unfoldable pub run_to :
      ℕ
      → Simulator P X W S
      → ℕ
      → (ScheduledEvent EventKind → Option (String → W))
      → Option (Stepped (Simulator P X W S))
  run_to zero m end rng = none
  run_to (suc n) m end rng =
      if ltb m.clock.now end
      then continued (λ m1. run_to n m1 end rng) (tick m rng)
      else some (ok m)
