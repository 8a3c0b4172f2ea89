-- ===== src/Examples/Evaluator.antt =====
-- The monitors' evaluator and vocabulary at concrete readings.
use argus_manager.Prelude.{◌≡◌, refl, ◌↔◌, some}
use argus_manager.Prelude.Int.{pos, ◌+ℤ◌}
use argus_manager.Float.Fixed.{Fixed, num, fixed_float, Fixed-IsIeee}
use argus_manager.Float.{nat}
use argus_manager.Signal.{Level, RecommendedBackend, ComputeReason, EnergyReason}
use argus_manager.Signal.Dbus.{
  level_from_dbus_str, level_to_str, backend_from_dbus_str, backend_to_str,
  compute_reason_from_dbus_str, compute_reason_to_str, energy_reason_from_dbus_str,
  energy_reason_to_str, from_dbus_str_iff,
}
use argus_manager.Evaluator.{ascending, descending, Thresholds, ThresholdEvaluator, evaluate}
use argus_manager.Evaluator.Schmitt.{IsFalling, demanded, allowed, worse, milder, evaluate-eq-worse}

abbrev memory : Thresholds Fixed
memory = record { warning = nat 40; critical = nat 20; emergency = nat 10; hysteresis = nat 5 }

abbrev cpu : Thresholds Fixed
cpu = record {
  warning = nat 70;
  critical = nat 90;
  emergency = num (pos 9999999);
  hysteresis = nat 5;
}

-- At Critical.
abbrev low : ThresholdEvaluator Fixed
low = record { direction = descending; thresholds = memory; current = Level.critical }

abbrev busy : ThresholdEvaluator Fixed
busy = record { direction = ascending; thresholds = cpu; current = Level.normal }

memory-IsFalling : IsFalling memory
unfolding ◌+ℤ◌
memory-IsFalling = record {
  critical_warning = refl;
  emergency_critical = refl;
  hysteresis_nonneg = refl;
  warning_number = refl;
  critical_number = refl;
  emergency_number = refl;
}

evaluate-eq-worse_example :
    (evaluate low (nat 30)).0.current
    ≡ worse
        (demanded descending memory (nat 30))
        (milder Level.critical (allowed descending memory (nat 30)))
evaluate-eq-worse_example = evaluate-eq-worse Fixed-IsIeee low (nat 30) memory-IsFalling refl

from_dbus_str_iff_example :
    ((l : Level) → (level_from_dbus_str "normal" ≡ some l) ↔ (level_to_str l ≡ "normal"))
    × ((b : RecommendedBackend)
        → (backend_from_dbus_str "normal" ≡ some b) ↔ (backend_to_str b ≡ "normal"))
    × ((r : ComputeReason)
        → (compute_reason_from_dbus_str "normal" ≡ some r) ↔ (compute_reason_to_str r ≡ "normal"))
    × ((r : EnergyReason)
        → (energy_reason_from_dbus_str "normal" ≡ some r) ↔ (energy_reason_to_str r ≡ "normal"))
from_dbus_str_iff_example = from_dbus_str_iff "normal"
