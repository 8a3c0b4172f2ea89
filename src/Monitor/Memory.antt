-- ===== src/Monitor/Memory.antt =====
-- src/monitor/memory.rs. What `parse_meminfo` makes of the file is the reading: the total and the
-- available bytes, or none for its errors.
pub mod Signals
pub mod Meminfo
use argus_manager.Prelude.{ℕ, Bool, Option, none, some, ◌==◌, if◌then◌else◌}
use argus_manager.Float.{Float, fle, nat}
use argus_manager.Signal.{Level, SystemSignal, memory_pressure}
use argus_manager.Config.{MemoryMonitorConfig, default_memory}
use argus_manager.Evaluator.{ThresholdEvaluator, descending, evaluate}
use argus_manager.Evaluator

pub record MemoryMonitor (W : Type 0) : Type 0 where
  pub poll_interval : ℕ  -- in milliseconds
  pub evaluator : ThresholdEvaluator W
  pub last_total : ℕ
  pub last_available : ℕ

-- `config.poll_interval_ms.unwrap_or(default_poll_ms)`
abbrev pub interval : Option ℕ → ℕ → ℕ
interval none default_poll_ms = default_poll_ms
interval (some ms) default_poll_ms = ms

-- The `match` of `build_signal`.
abbrev pub reclaim : (W : Type 0) ⦃f : Float W⦄ → Level → ℕ → ℕ
reclaim W Level.normal total = 0
reclaim W ⦃f⦄ Level.warning total = f.to_u64 (f.mul (f.of_nat total) (f.lit 5 100))
reclaim W ⦃f⦄ Level.critical total = f.to_u64 (f.mul (f.of_nat total) (f.lit 10 100))
reclaim W ⦃f⦄ Level.emergency total = f.to_u64 (f.mul (f.of_nat total) (f.lit 20 100))

module _ {W : Type 0} ⦃f : Float W⦄ where
  unfoldable pub memory_level_from_available_pct : W → Level
  memory_level_from_available_pct available_pct =
      let cfg : MemoryMonitorConfig W = default_memory in
      if fle available_pct cfg.emergency_pct
      then Level.emergency
      else if fle available_pct cfg.critical_pct
      then Level.critical
      else if fle available_pct cfg.warning_pct
      then Level.warning
      else Level.normal

  unfoldable pub new : MemoryMonitorConfig W → ℕ → MemoryMonitor W
  unfolding Evaluator.new
  new config default_poll_ms = record {
    poll_interval = interval config.poll_interval_ms default_poll_ms;
    evaluator = Evaluator.new descending record {
      warning = config.warning_pct;
      critical = config.critical_pct;
      emergency = config.emergency_pct;
      hysteresis = config.hysteresis_pct;
    };
    last_total = 0;
    last_available = 0;
  }

  unfoldable pub build_signal : MemoryMonitor W → SystemSignal W
  build_signal m =
      memory_pressure m.evaluator.current m.last_available m.last_total
        (reclaim W m.evaluator.current m.last_total)

  abbrev pub available_pct : ℕ → ℕ → W
  available_pct total available =
      if total == 0 then nat 100 else f.mul (f.div (f.of_nat available) (f.of_nat total)) (nat 100)

  -- One turn of the loop in `run`.
  unfoldable pub poll : MemoryMonitor W → Option (ℕ × ℕ) → MemoryMonitor W × Option (SystemSignal W)
  poll m none = (m, none)
  poll m (some (total, available)) =
      let n = record m {
        last_total = total;
        last_available = available;
        evaluator = (evaluate m.evaluator (available_pct total available)).0;
      } in
      (n, some (build_signal n))
