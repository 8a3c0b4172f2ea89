-- ===== src/Sim/Trajectory/Summary.antt =====
-- `TrajectorySummary` of src/sim/trajectory.rs. Its maps keep the order of insertion here; the
-- source's are sorted by key. `f64::round` is a parameter.
pub mod Counts
use Prim.Native.String.{String}
use text.Mathlib.Text.{◌==◌ as str_eq}
use argus_manager.Prelude.{
  ℕ, ◌+◌, Bool, true, false, Option, none, some, List, [], ◌∷◌, ◌==◌, if◌then◌else◌,
}
use argus_manager.Float.{Float, flt, fmax, nat}
use argus_manager.Sim.Trajectory.Entries.{TrajectoryEntry, state_snapshot, last_at_s}
use argus_manager.Sim.Trajectory.Dumps.{PhysicalStateSnapshot, DirectiveDump}
use argus_manager.Sim.Trajectory.Entries as Entries
use argus_manager.Text.{Text, trim, is_same}

-- `*map.entry(key).or_insert(0) += 1`
unfoldable pub add_one : {K : Type 0} → (K → K → Bool) → List (K × ℕ) → K → List (K × ℕ)
add_one eq [] key = (key, 1) ∷ []
add_one eq ((k, n) ∷ rest) key =
    let added = add_one eq rest key in if eq k key then (k, n + 1) ∷ rest else (k, n) ∷ added

-- `split_once('{')`, as far as it is used.
abbrev pub consed : ℕ → Option Text → Option Text
consed c none = none
consed c (some before) = some (c ∷ before)

abbrev pub before_brace : Text → Option Text
before_brace [] = none
before_brace (c ∷ cs) = let rest = before_brace cs in if c == 123 then some [] else consed c rest

-- The name of the variant that a command is.
abbrev pub named : Text → Option Text → Text
named cmd none = cmd
named cmd (some before) = trim before

unfoldable pub command_kind : Text → Text
command_kind cmd = named cmd (before_brace cmd)

abbrev pub add_kinds : List (Text × ℕ) → List Text → List (Text × ℕ)
add_kinds kinds [] = kinds
add_kinds kinds (cmd ∷ cmds) = add_kinds (add_one is_same kinds (command_kind cmd)) cmds

pub record PhysicalStateSummary (W : Type 0) : Type 0 where
  pub kv_cache_bytes_mib : W
  pub device_memory_used_mb : W
  pub engine_cpu_pct : W
  pub engine_gpu_pct : W
  pub cpu_freq_ratio : W
  pub gpu_freq_ratio : W
  pub thermal_c : W
  pub throughput_tps : W

pub record TrajectorySummary (W : Type 0) : Type 0 where
  pub duration_s : W
  pub heartbeat_count : ℕ
  pub signal_count_by_kind : List (String × ℕ)
  pub directive_count : ℕ
  pub directive_kinds : List (Text × ℕ)
  pub first_directive_at_s : Option W
  pub state_final : Option (PhysicalStateSummary W)

module _ {W : Type 0} ⦃f : Float W⦄ (round : W → W) where
  -- `r1`, `r2` and `r3`
  abbrev pub rounded : ℕ → W → W
  rounded scale v = f.div (round (f.mul v (nat scale))) (nat scale)

  abbrev pub max_freq : W → W → W
  max_freq cfg_max freq = if flt (nat 0) cfg_max then cfg_max else fmax freq (nat 1)

  unfoldable pub from_snapshot : PhysicalStateSnapshot W → W → W → PhysicalStateSummary W
  from_snapshot s cfg_cpu_max cfg_gpu_max = record {
    kv_cache_bytes_mib = rounded 100 (f.div s.kv_cache_bytes (f.mul (nat 1024) (nat 1024)));
    device_memory_used_mb = rounded 10 s.device_memory_used_mb;
    engine_cpu_pct = rounded 10 s.engine_cpu_pct;
    engine_gpu_pct = rounded 10 s.engine_gpu_pct;
    cpu_freq_ratio = rounded 1000 (f.div s.cpu_freq_mhz (max_freq cfg_cpu_max s.cpu_freq_mhz));
    gpu_freq_ratio = rounded 1000 (f.div s.gpu_freq_mhz (max_freq cfg_gpu_max s.gpu_freq_mhz));
    thermal_c = rounded 10 s.thermal_c;
    throughput_tps = rounded 100 s.throughput_tps;
  }

  abbrev pub first_of : Option W → W → Option W
  first_of none at = some (rounded 100 at)
  first_of (some first) at = some first

  abbrev pub duration : Option W → W
  duration none = nat 0
  duration (some v) = rounded 100 v

  abbrev pub summed_up : Option (PhysicalStateSnapshot W) → W → W → Option (PhysicalStateSummary W)
  summed_up none cpu_max_mhz gpu_max_mhz = none
  summed_up (some s) cpu_max_mhz gpu_max_mhz = some (from_snapshot s cpu_max_mhz gpu_max_mhz)

-- What the loop over the directives has gathered.
pub record Gathered (W : Type 0) : Type 0 where
  pub kinds : List (Text × ℕ)
  pub first : Option W
  pub number : ℕ

module _ {W S : Type 0} where
  -- The loop over the signals.
  abbrev pub add_signal : List (String × ℕ) → TrajectoryEntry W S → List (String × ℕ)
  add_signal kinds (TrajectoryEntry.signal at s) = add_one str_eq kinds s.kind
  add_signal kinds _ = kinds

  unfoldable pub add_signals : List (String × ℕ) → List (TrajectoryEntry W S) → List (String × ℕ)
  add_signals kinds [] = kinds
  add_signals kinds (e ∷ es) = add_signals (add_signal kinds e) es

  -- `iter().rev().find_map`
  abbrev pub later :
      Option (PhysicalStateSnapshot W) → TrajectoryEntry W S → Option (PhysicalStateSnapshot W)
  later (some s) e = some s
  later none (state_snapshot at s engine) = some s
  later none _ = none

  abbrev pub last_state : List (TrajectoryEntry W S) → Option (PhysicalStateSnapshot W)
  last_state [] = none
  last_state (e ∷ es) = later (last_state es) e

module _ {W S : Type 0} ⦃f : Float W⦄ (round : W → W) where
  abbrev pub gather : Gathered W → TrajectoryEntry W S → Gathered W
  gather g (TrajectoryEntry.directive at trigger d) = record {
    kinds = add_kinds g.kinds d.commands;
    first = first_of round g.first at;
    number = g.number + 1;
  }
  gather g _ = g

  unfoldable pub gather_all : Gathered W → List (TrajectoryEntry W S) → Gathered W
  gather_all g [] = g
  gather_all g (e ∷ es) = gather_all (gather g e) es

  unfoldable pub from_trajectory : List (TrajectoryEntry W S) → W → W → TrajectorySummary W
  from_trajectory es cpu_max_mhz gpu_max_mhz =
      let g = gather_all record { kinds = []; first = none; number = 0 } es in
      record {
        duration_s = duration round (last_at_s es);
        heartbeat_count = Entries.heartbeat_count es;
        signal_count_by_kind = add_signals [] es;
        directive_count = g.number;
        directive_kinds = g.kinds;
        first_directive_at_s = g.first;
        state_final = summed_up round (last_state es) cpu_max_mhz gpu_max_mhz;
      }
