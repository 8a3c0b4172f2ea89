-- ===== src/Sim/Trajectory.antt =====
-- What src/sim/harness.rs records of a simulation by the methods of src/sim/trajectory.rs, whose
-- children are the rest of that file. `W` is `f64`, `S` is `f32`.
pub mod Dumps
pub mod Entries
pub mod Summary
use Prim.Native.String.{String}
use text.Mathlib.Text.{◌==◌ as str_eq}
use argus_manager.Prelude.{
  ℕ, ◌+◌, ◌^◌, Bool, true, false, ◌&&◌, ◌||◌, Option, none, some, List, [], ◌∷◌, ◌++◌, map,
  if◌then◌else◌,
}
use argus_manager.Prelude.Int.{ℤ}
use argus_manager.Float.{Float, fle, flt}
use argus_manager.Signal.{
  Level, SystemSignal, memory_pressure, compute_guidance, thermal_alert, energy_constraint,
}
use argus_manager.Contract.{EngineCommand, EngineDirective, EngineMessage}
use argus_manager.Sim.State.{PhysicalState, EngineStateModel}
use argus_manager.Text.{Text}

-- The object of JSON that a signal's detail is.
pub data SignalDetail (W : Type 0) : Type 0 where
  memory : (available_bytes total_bytes reclaim_target_bytes : ℕ) → SignalDetail W
  compute : (cpu_usage_pct gpu_usage_pct : W) → SignalDetail W
  thermal : (temperature_mc : ℤ) (throttling_active : Bool) → SignalDetail W
  energy : (power_budget_mw : ℕ) → SignalDetail W

pub record SignalDump (W : Type 0) : Type 0 where
  pub kind : String
  pub level : String
  pub detail : SignalDetail W

-- `{:?}` of a level.
unfoldable pub level_debug : Level → String
level_debug Level.normal = "Normal"
level_debug Level.warning = "Warning"
level_debug Level.critical = "Critical"
level_debug Level.emergency = "Emergency"

unfoldable pub from_signal : {W : Type 0} → SystemSignal W → SignalDump W
from_signal (memory_pressure l a t r) = record {
  kind = "memory_pressure";
  level = level_debug l;
  detail = memory a t r;
}
from_signal (compute_guidance l b r c g) = record {
  kind = "compute_guidance";
  level = level_debug l;
  detail = compute c g;
}
from_signal (thermal_alert l t a r) = record {
  kind = "thermal_alert";
  level = level_debug l;
  detail = thermal t a;
}
from_signal (energy_constraint l r p) = record {
  kind = "energy_constraint";
  level = level_debug l;
  detail = energy p;
}

-- A call of one of the `record_` methods, with the time in nanoseconds.
pub data Recorded (W S : Type 0) : Type 0 where
  heartbeat : (at : ℕ) → EngineMessage S → Recorded W S
  directive : (at : ℕ) → SystemSignal W → EngineDirective S → Recorded W S
  signal : (at : ℕ) → SystemSignal W → Recorded W S
  observation : (at : ℕ) → String → (recorded_at : ℕ) → Recorded W S
  injection : (at index : ℕ) → (started : Bool) → Recorded W S
  custom : (at : ℕ) → String → Recorded W S
  overrun : (at total : ℕ) → Recorded W S
  transition :
      (at : ℕ) (kind : String) (before : Option String) (level : String)
      → PhysicalState W
      → Recorded W S
  snapshot : (at : ℕ) → PhysicalState W → EngineStateModel W → Recorded W S
