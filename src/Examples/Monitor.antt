-- ===== src/Examples/Monitor.antt =====
-- The monitors at concrete readings.
use argus_manager.Prelude.{
  Any, ℕ, zero, suc, ◌≡◌, ◌≢◌, refl, true, Option, none, some, List, [], ◌∷◌, All, arith, leb, ◌==◌,
  if◌then◌else◌,
}
use argus_manager.Prelude.Int.{ℤ, pos, ◌+ℤ◌, ◌*ℤ◌, ◌/ℤ◌}
use argus_manager.Float.{nat}
use argus_manager.Float.Fixed.{Fixed, fixed_float, Fixed-IsIeee}
use argus_manager.Signal.{Level, charging, energy_constraint, level}
use argus_manager.Config.{default_memory, default_thermal, default_compute, default_energy}
use argus_manager.Evaluator.{descending, evaluate}
use argus_manager.Evaluator
use argus_manager.Evaluator.Schmitt.{IsFalling}
use argus_manager.Monitor.Memory as Memory
use argus_manager.Monitor.Thermal as Thermal
use argus_manager.Monitor.Thermal.{
  ThermalDir, missing, garbled, content, read_thermal_state, discover_zones,
}
use argus_manager.Monitor.Thermal.Hottest.{AtMost, read_thermal_state-hottest}
use argus_manager.Monitor.Thermal.Zones.{Exists, discover_zones_lem}
use argus_manager.Monitor.Compute as Compute
use argus_manager.Monitor.Compute.NoEmergency.{run, run-ne-emergency}
use argus_manager.Monitor.Energy as Energy
use argus_manager.Monitor.Energy.Charging.{evaluate_energy_charging}

abbrev memory : Memory.MemoryMonitor Fixed
memory = Memory.new default_memory 1000

abbrev energy : Energy.EnergyMonitor Fixed
energy = Energy.new default_energy 1000 true

memory-IsFalling : IsFalling memory.evaluator.thresholds
unfolding Memory.new Evaluator.new ◌+ℤ◌
memory-IsFalling = record {
  critical_warning = refl;
  emergency_critical = refl;
  hysteresis_nonneg = refl;
  warning_number = refl;
  critical_number = refl;
  emergency_number = refl;
}

energy-IsFalling : IsFalling energy.evaluator.thresholds
unfolding Energy.new Evaluator.new ◌+ℤ◌
energy-IsFalling = record {
  critical_warning = refl;
  emergency_critical = refl;
  hysteresis_nonneg = refl;
  warning_number = refl;
  critical_number = refl;
  emergency_number = refl;
}

-- Zones 0 and 2 have temperatures; zone 1 does not parse; the second cooling device is active.
abbrev temps : ℕ → Thermal.File ℤ
temps zero = content (pos 41000)
temps (suc zero) = garbled
temps (suc (suc zero)) = content (pos 62000)
temps _ = missing

abbrev fans : ℕ → Thermal.File ℕ
fans zero = content 0
fans (suc zero) = content 3
fans _ = missing

abbrev dir : ThermalDir
dir = record {
  temp_exists = λ i. leb i 2;
  zone_type = λ i. if i == 2 then some "skin" else none;
  temp = temps;
  cur_state = fans;
}

read_thermal_state-hottest_example :
    All (λ i. AtMost (pos 62000) (dir.temp i)) (0 ∷ 1 ∷ 2 ∷ [])
    × Any (λ i. dir.temp i ≡ content (pos 62000)) (0 ∷ 1 ∷ 2 ∷ [])
unfolding read_thermal_state
read_thermal_state-hottest_example =
    read_thermal_state-hottest dir (0 ∷ 1 ∷ 2 ∷ []) (pos 62000) true refl

discover_zones_lem_example :
    let m : Thermal.ThermalMonitor Fixed = Thermal.new default_thermal 1000 in
    ((discover_zones m dir).zone_indices ≢ [])
    × All (Exists dir 256) (discover_zones m dir).zone_indices
discover_zones_lem_example =
    discover_zones_lem dir (Thermal.new {W = Fixed} default_thermal 1000) 2 (refl, omega arith)

abbrev stats : List (List ℕ × Option Fixed)
stats = (10 ∷ 0 ∷ 5 ∷ 80 ∷ [], none) ∷ (109 ∷ 0 ∷ 5 ∷ 81 ∷ [], some (nat 40)) ∷ []

run-ne-emergency_example :
    level (Compute.build_signal (run (Compute.new default_compute 1000) stats)) ≢ Level.emergency
unfolding Compute.new Compute.poll Compute.read_cpu_snapshot Compute.read_once evaluate ◌*ℤ◌ ◌/ℤ◌
run-ne-emergency_example =
    run-ne-emergency {W = Fixed} default_compute 1000 stats (refl, (refl, tt))

evaluate_energy_charging_example :
    Energy.build_signal (Energy.evaluate_energy energy (some (nat 12)) true).0
    ≡ energy_constraint Level.normal charging 0
unfolding Energy.new Evaluator.new ◌+ℤ◌
evaluate_energy_charging_example =
    evaluate_energy_charging Fixed-IsIeee energy (some (nat 12)) refl refl energy-IsFalling refl
