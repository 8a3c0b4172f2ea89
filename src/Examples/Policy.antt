-- ===== src/Examples/Policy.antt =====
-- The policy's state at concrete readings.
use argus_manager.Prelude.{◌≡◌, refl, false, none, some, [], ◌∷◌, arith}
use argus_manager.Prelude.Int.{pos}
use argus_manager.Float.{nat}
use argus_manager.Float.Fixed.{Fixed, fixed_float, fixed_casts}
use argus_manager.Config.{default_trigger}
use argus_manager.Policy.State.{SignalState, TriggerEngine, new_engine, new_tracker}
use argus_manager.Policy.State.Warmup.{observe_all, baseline_fixed}

abbrev readings : SignalState Fixed
readings = record {
  cpu_pct = nat 150;
  gpu_pct = nat 20;
  mem_available = 250;
  mem_total = 1000;
  temp_mc = pos 44000;
  throttling = false;
}

abbrev engine : TriggerEngine Fixed
engine = new_engine default_trigger

baseline_fixed_example :
    ((observe_all {W = Fixed} (new_tracker 3) (nat 10 ∷ [])).baseline ≡ none)
    × ((observe_all {W = Fixed} (new_tracker 3) (nat 10 ∷ nat 30 ∷ nat 20 ∷ nat 90 ∷ [])).baseline
        ≡ some (observe_all {W = Fixed} (new_tracker 3) (nat 10 ∷ nat 30 ∷ nat 20 ∷ [])).ewma)
baseline_fixed_example =
    baseline_fixed {W = Fixed} 3 (nat 10 ∷ []) (nat 10 ∷ nat 30 ∷ []) (nat 20) (nat 90 ∷ [])
      (omega arith) (omega arith) refl
