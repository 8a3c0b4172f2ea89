-- ===== src/Monitor/Energy.antt =====
-- src/monitor/energy.rs. The battery's files are arguments: what `capacity` parses to, and the
-- trimmed, lower-cased `status`.
pub mod Charging
use Prim.Native.String.{String}
use text.Mathlib.Text.{◌==◌}
use argus_manager.Prelude.{ℕ, Bool, true, false, ◌&&◌, ◌||◌, Option, if◌then◌else◌}
use argus_manager.Prelude
use mathlib.Core.Option
use argus_manager.Float.{Float, nat}
use argus_manager.Signal.{
  Level, EnergyReason, battery_low, battery_critical, charging, SystemSignal, energy_constraint,
}
use argus_manager.Config.{EnergyMonitorConfig}
use argus_manager.Evaluator.{ThresholdEvaluator, descending, evaluate, same}
use argus_manager.Evaluator
use argus_manager.Monitor.Memory.{interval}

pub record PowerBudgets : Type 0 where
  pub warning_mw : ℕ
  pub critical_mw : ℕ
  pub emergency_mw : ℕ

pub record EnergyMonitor (W : Type 0) : Type 0 where
  pub poll_interval : ℕ  -- in milliseconds
  pub evaluator : ThresholdEvaluator W
  pub ignore_when_charging : Bool
  pub power_budgets : PowerBudgets
  pub has_battery : Bool
  pub last_charging : Bool

-- The battery's state: the charge in percent, and whether it charges.
abbrev pub is_charging : Option String → Bool
is_charging Option.none = false
is_charging (Option.some status) = status == "charging" || status == "full"

module _ {W : Type 0} ⦃f : Float W⦄ where
  -- `has_battery` is what `find_battery_path` found.
  unfoldable pub new : EnergyMonitorConfig W → ℕ → Bool → EnergyMonitor W
  unfolding Evaluator.new
  new config default_poll_ms has_battery = record {
    poll_interval = interval config.poll_interval_ms default_poll_ms;
    evaluator = Evaluator.new descending record {
      warning = config.warning_pct;
      critical = config.critical_pct;
      emergency = config.emergency_pct;
      hysteresis = nat 2;
    };
    ignore_when_charging = config.ignore_when_charging;
    power_budgets = record {
      warning_mw = config.warning_power_budget_mw;
      critical_mw = config.critical_power_budget_mw;
      emergency_mw = config.emergency_power_budget_mw;
    };
    has_battery = has_battery;
    last_charging = false;
  }

  abbrev on_battery : EnergyMonitor W → Option W → EnergyMonitor W × Option Level
  on_battery m Option.none = (m, Option.none)
  on_battery m (Option.some pct) =
      let (e, l) = evaluate m.evaluator pct in (record m { evaluator = e }, l)

  unfoldable pub evaluate_energy :
      EnergyMonitor W → Option W → Bool → EnergyMonitor W × Option Level
  evaluate_energy m battery_pct charging_ =
      let n = record m { last_charging = charging_ } in
      if charging_ && n.ignore_when_charging
      then if same n.evaluator.current Level.normal
        then (n, Option.none)
        else (record n { evaluator = (evaluate n.evaluator (nat 100)).0 }, Option.some Level.normal)
      else on_battery n battery_pct

  -- The `match` of `build_signal`.
  abbrev pub reason_budget : EnergyMonitor W → Level → EnergyReason × ℕ
  reason_budget m Level.normal = (if m.last_charging then charging else EnergyReason.none, 0)
  reason_budget m Level.warning = (battery_low, m.power_budgets.warning_mw)
  reason_budget m Level.critical = (battery_critical, m.power_budgets.critical_mw)
  reason_budget m Level.emergency = (battery_critical, m.power_budgets.emergency_mw)

  unfoldable pub build_signal : EnergyMonitor W → SystemSignal W
  build_signal m =
      let (reason, budget) = reason_budget m m.evaluator.current in
      energy_constraint m.evaluator.current reason budget

  -- One turn of the loop in `run`: without a battery nothing is read.
  unfoldable pub poll :
      EnergyMonitor W → Option W → Option String → EnergyMonitor W × SystemSignal W
  poll m capacity status =
      let (n, l) =
        if m.has_battery
        then evaluate_energy m capacity (is_charging status)
        else evaluate_energy m Option.none false in
      (n, build_signal n)
