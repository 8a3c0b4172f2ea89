-- ===== src/Sim/Event.antt =====
-- The kinds of events of src/sim/clock.rs.
use Prim.Native.String.{String}
use argus_manager.Prelude.{ℕ}

pub data EventKind : Type 0 where
  heartbeat signal_memory signal_compute signal_thermal signal_energy : EventKind
  observation_due : (action : String) (recorded_at : ℕ) → EventKind
  external_injection_start external_injection_end : ℕ → EventKind
  custom : String → EventKind
