-- ===== src/Config.antt =====
-- src/config.rs: the manager's configuration and its defaults. Reading it from TOML is left out.
-- `W` is `f64` and `S` is `f32`.
use Prim.Native.String.{String}
use argus_manager.Prelude.{ℕ, Bool, true, false, Option, none, List, []}
use argus_manager.Prelude.Int.{ℤ, pos}
use argus_manager.Float.{Float, nat}

pub record ManagerConfig : Type 0 where
  pub poll_interval_ms : ℕ

pub record MemoryMonitorConfig (W : Type 0) : Type 0 where
  pub enabled : Bool
  pub poll_interval_ms : Option ℕ
  pub warning_pct : W
  pub critical_pct : W
  pub emergency_pct : W
  pub hysteresis_pct : W

pub record ThermalMonitorConfig : Type 0 where
  pub enabled : Bool
  pub poll_interval_ms : Option ℕ
  pub zone_types : List String
  pub warning_mc : ℤ
  pub critical_mc : ℤ
  pub emergency_mc : ℤ
  pub hysteresis_mc : ℤ

pub data GpuBackend : Type 0 where
  auto null sysfs : GpuBackend
  custom_sysfs : (path : String) → GpuBackend
  jetson : GpuBackend
  jetson_explicit : (freq_path : String) (tegrastats_bin : Option String) → GpuBackend

pub record ComputeMonitorConfig (W : Type 0) : Type 0 where
  pub enabled : Bool
  pub poll_interval_ms : Option ℕ
  pub warning_pct : W
  pub critical_pct : W
  pub hysteresis_pct : W
  pub gpu_sysfs_path : Option String
  pub gpu_backend : GpuBackend

pub record EnergyMonitorConfig (W : Type 0) : Type 0 where
  pub enabled : Bool
  pub poll_interval_ms : Option ℕ
  pub warning_pct : W
  pub critical_pct : W
  pub emergency_pct : W
  pub warning_power_budget_mw : ℕ
  pub critical_power_budget_mw : ℕ
  pub emergency_power_budget_mw : ℕ
  pub ignore_when_charging : Bool

pub record ExternalMonitorConfig : Type 0 where
  pub enabled : Bool
  pub transport : String

pub record TriggerConfig (W : Type 0) : Type 0 where
  pub tbt_enter : W
  pub tbt_exit : W
  pub tbt_warmup_tokens : ℕ
  pub mem_enter : W
  pub mem_exit : W
  pub temp_enter : W
  pub temp_exit : W

pub record AdaptationConfig (W S : Type 0) : Type 0 where
  pub temp_safe_c : S
  pub temp_critical_c : S
  pub trigger : TriggerConfig W
  pub dedup_cooldown_secs : W

pub record Config (W S : Type 0) : Type 0 where
  pub manager : ManagerConfig
  pub memory : Option (MemoryMonitorConfig W)
  pub thermal : Option ThermalMonitorConfig
  pub compute : Option (ComputeMonitorConfig W)
  pub energy : Option (EnergyMonitorConfig W)
  pub external : Option ExternalMonitorConfig
  pub adaptation : AdaptationConfig W S

abbrev pub default_manager : ManagerConfig
default_manager = record { poll_interval_ms = 1000 }

abbrev pub default_thermal : ThermalMonitorConfig
default_thermal = record {
  enabled = true;
  poll_interval_ms = none;
  zone_types = [];
  warning_mc = pos 60000;
  critical_mc = pos 75000;
  emergency_mc = pos 85000;
  hysteresis_mc = pos 5000;
}

abbrev pub default_external : ExternalMonitorConfig
default_external = record { enabled = false; transport = "stdin" }

module _ {W : Type 0} ⦃f : Float W⦄ where
  abbrev pub default_memory : MemoryMonitorConfig W
  default_memory = record {
    enabled = true;
    poll_interval_ms = none;
    warning_pct = nat 40;
    critical_pct = nat 20;
    emergency_pct = nat 10;
    hysteresis_pct = nat 5;
  }

  abbrev pub default_compute : ComputeMonitorConfig W
  default_compute = record {
    enabled = true;
    poll_interval_ms = none;
    warning_pct = nat 70;
    critical_pct = nat 90;
    hysteresis_pct = nat 5;
    gpu_sysfs_path = none;
    gpu_backend = auto;
  }

  abbrev pub default_energy : EnergyMonitorConfig W
  default_energy = record {
    enabled = true;
    poll_interval_ms = none;
    warning_pct = nat 30;
    critical_pct = nat 15;
    emergency_pct = nat 5;
    warning_power_budget_mw = 3000;
    critical_power_budget_mw = 1500;
    emergency_power_budget_mw = 500;
    ignore_when_charging = true;
  }

  abbrev pub default_trigger : TriggerConfig W
  default_trigger = record {
    tbt_enter = f.lit 30 100;
    tbt_exit = f.lit 10 100;
    tbt_warmup_tokens = 20;
    mem_enter = f.lit 80 100;
    mem_exit = f.lit 60 100;
    temp_enter = f.lit 70 100;
    temp_exit = f.lit 50 100;
  }

module _ {W S : Type 0} ⦃f : Float W⦄ ⦃g : Float S⦄ where
  abbrev pub default_adaptation : AdaptationConfig W S
  default_adaptation = record {
    temp_safe_c = nat 35;
    temp_critical_c = nat 50;
    trigger = default_trigger;
    dedup_cooldown_secs = nat 60;
  }

  abbrev pub default_config : Config W S
  default_config = record {
    manager = default_manager;
    memory = none;
    thermal = none;
    compute = none;
    energy = none;
    external = none;
    adaptation = default_adaptation;
  }
