-- ===== src/Signal.antt =====
-- src/signal.rs and src/types.rs: the monitors' vocabulary, with the D-Bus spelling of its enums
-- (the printers are those of src/emitter/dbus.rs).
pub mod Dbus
use argus_manager.Prelude.{ℕ, Bool, true, false}
use argus_manager.Prelude.Int.{ℤ}

-- In order of severity.
pub data Level : Type 0 where
  normal warning critical emergency : Level

pub data RecommendedBackend : Type 0 where
  cpu gpu any : RecommendedBackend

pub data ComputeReason : Type 0 where
  cpu_bottleneck gpu_bottleneck cpu_available gpu_available both_loaded balanced : ComputeReason

pub data EnergyReason : Type 0 where
  battery_low battery_critical power_limit thermal_power charging none : EnergyReason

pub data OperatingMode : Type 0 where
  normal warning critical : OperatingMode

-- The derived order of `Level` compares these.
abbrev pub severity : Level → ℕ
severity Level.normal = 0
severity Level.warning = 1
severity Level.critical = 2
severity Level.emergency = 3

-- `W` is `f64`.
pub data SystemSignal (W : Type 0) : Type 0 where
  memory_pressure :
      (level : Level) (available_bytes total_bytes reclaim_target_bytes : ℕ) → SystemSignal W
  compute_guidance :
      (level : Level) (recommended_backend : RecommendedBackend) (reason : ComputeReason)
      (cpu_usage_pct gpu_usage_pct : W)
      → SystemSignal W
  thermal_alert :
      (level : Level) (temperature_mc : ℤ) (throttling_active : Bool) (throttle_ratio : W)
      → SystemSignal W
  energy_constraint : (level : Level) (reason : EnergyReason) (power_budget_mw : ℕ) → SystemSignal W

abbrev pub level : {W : Type 0} → SystemSignal W → Level
level (memory_pressure l a t r) = l
level (compute_guidance l b r c g) = l
level (thermal_alert l t a r) = l
level (energy_constraint l r p) = l
