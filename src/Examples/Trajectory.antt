-- ===== src/Examples/Trajectory.antt =====
-- A small trajectory.
use argus_manager.Prelude.{◌*◌, ◌^◌, ◌≡◌, List, [], ◌∷◌}
use argus_manager.Float.{nat}
use argus_manager.Float.Fixed.{Fixed, fixed_float, Fixed-IsIeee}
use argus_manager.Signal.{Level, SystemSignal, memory_pressure}
use argus_manager.Contract.{kv_compress, suspend}
use argus_manager.Sim.Trajectory.{signal, directive, snapshot}
use argus_manager.Sim.Trajectory.Entries.{
  TrajectoryEntry, entries, state_at, signal_count_by_kind, signal_count, directive_count,
}
use argus_manager.Sim.Trajectory.Dumps.{Debug}
use argus_manager.Sim.Trajectory.Entries.Nearest.{IsNearest, state_at-IsNearest}
use argus_manager.Sim.Trajectory.Summary.{from_trajectory}
use argus_manager.Sim.Trajectory.Summary.Counts.{
  number_of, total, command_count, from_trajectory-counts,
}
use argus_manager.Examples.Simulator.{state, engine}

-- "A {" for every command
abbrev letters : Debug Fixed
letters = record { command = λ c. 65 ∷ 32 ∷ 123 ∷ []; phase = λ p. "Decode" }

abbrev pressure : SystemSignal Fixed
pressure = memory_pressure Level.warning 300 1000 50

abbrev trajectory : List (TrajectoryEntry Fixed Fixed)
trajectory = entries letters (
    signal (10 ^ 9) pressure
    ∷ directive (10 ^ 9) pressure
        record { seq_id = 1; commands = kv_compress (nat 1) ∷ suspend ∷ [] }
    ∷ snapshot (10 ^ 9) state engine
    ∷ signal (2 * 10 ^ 9) pressure
    ∷ snapshot (2 * 10 ^ 9) state engine
    ∷ [])

state_at-IsNearest_example :
    IsNearest (λ s. s.thermal_c) (nat 2) trajectory (state_at (λ s. s.thermal_c) (nat 2) trajectory)
state_at-IsNearest_example = state_at-IsNearest (λ s. s.thermal_c) (nat 2) Fixed-IsIeee trajectory

from_trajectory-counts_example :
    let s = from_trajectory (λ w. w) trajectory (nat 3200) (nat 900) in
    (number_of s.signal_count_by_kind "memory_pressure"
      ≡ signal_count_by_kind "memory_pressure" trajectory)
    × (total s.signal_count_by_kind ≡ signal_count trajectory)
    × (s.directive_count ≡ directive_count trajectory)
    × (total s.directive_kinds ≡ command_count trajectory)
from_trajectory-counts_example =
    from_trajectory-counts (λ w. w) trajectory (nat 3200) (nat 900) "memory_pressure"
