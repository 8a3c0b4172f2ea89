-- ===== src/Sim/Trajectory/Dumps.antt =====
-- What src/sim/trajectory.rs keeps of a state, a message and a directive. How Rust prints a command
-- or a phase (`{:?}`) is a parameter; what is printed of a command is a text.
use Prim.Native.String.{String}
use argus_manager.Prelude.{ℕ, Option, none, some, List, map}
use argus_manager.Contract.{EngineCommand, EngineDirective, EngineMessage, Phase}
use argus_manager.Sim.State.{PhysicalState, EngineStateModel, Field}
use argus_manager.Text.{Text}

pub record PhysicalStateSnapshot (W : Type 0) : Type 0 where
  pub kv_cache_bytes : W
  pub kv_cache_tokens : W
  pub kv_dtype : String
  pub device_memory_used_mb : W
  pub device_memory_total_mb : W
  pub memory_bw_utilization_pct : W
  pub engine_cpu_pct : W
  pub engine_gpu_pct : W
  pub cpu_freq_mhz : W
  pub gpu_freq_mhz : W
  pub thermal_c : W
  pub cpu_cluster_thermal_c : W
  pub gpu_cluster_thermal_c : W
  pub throughput_tps : W
  pub tbt_ms : W

unfoldable pub from_state : {W : Type 0} → PhysicalState W → PhysicalStateSnapshot W
from_state s = record {
  kv_cache_bytes = s.numbers Field.kv_cache_bytes;
  kv_cache_tokens = s.numbers Field.kv_cache_tokens;
  kv_dtype = s.kv_dtype;
  device_memory_used_mb = s.numbers Field.device_memory_used_mb;
  device_memory_total_mb = s.numbers Field.device_memory_total_mb;
  memory_bw_utilization_pct = s.numbers Field.memory_bw_utilization_pct;
  engine_cpu_pct = s.numbers Field.engine_cpu_pct;
  engine_gpu_pct = s.numbers Field.engine_gpu_pct;
  cpu_freq_mhz = s.numbers Field.cpu_freq_mhz;
  gpu_freq_mhz = s.numbers Field.gpu_freq_mhz;
  thermal_c = s.numbers Field.thermal_c;
  cpu_cluster_thermal_c = s.numbers Field.cpu_cluster_thermal_c;
  gpu_cluster_thermal_c = s.numbers Field.gpu_cluster_thermal_c;
  throughput_tps = s.numbers Field.throughput_tps;
  tbt_ms = s.numbers Field.tbt_ms;
}

pub record EngineStateSnapshot (W : Type 0) : Type 0 where
  pub active_device : String
  pub active_actions : List String
  pub phase : String
  pub partition_ratio : W
  pub throttle_delay_ms : W
  pub skip_ratio : W

unfoldable pub from_engine : {W : Type 0} → EngineStateModel W → EngineStateSnapshot W
from_engine e = record {
  active_device = e.active_device;
  active_actions = e.active_actions;
  phase = e.phase;
  partition_ratio = e.partition_ratio;
  throttle_delay_ms = e.throttle_delay_ms;
  skip_ratio = e.skip_ratio;
}

pub record EngineMessageDump (S : Type 0) : Type 0 where
  pub kind : String
  pub tbt_ms : Option S
  pub kv_cache_bytes : Option ℕ
  pub kv_cache_budget_bytes : Option ℕ
  pub kv_cache_tokens : Option ℕ
  pub phase : Option String

pub record DirectiveDump : Type 0 where
  pub seq_id : ℕ
  pub commands : List Text

pub record Debug (S : Type 0) : Type 0 where
  pub command : EngineCommand S → Text
  pub phase : Phase → String

module _ {S : Type 0} (debug : Debug S) where
  unfoldable pub from_msg : EngineMessage S → EngineMessageDump S
  from_msg (EngineMessage.heartbeat status) = record {
    kind = "heartbeat";
    tbt_ms = some (status.tbt_ms);
    kv_cache_bytes = some (status.kv_cache_bytes);
    kv_cache_budget_bytes = some (status.kv_cache_budget_bytes);
    kv_cache_tokens = some (status.kv_cache_tokens);
    phase = some (debug.phase status.phase);
  }
  from_msg (EngineMessage.response r) = record {
    kind = "other";
    tbt_ms = none;
    kv_cache_bytes = none;
    kv_cache_budget_bytes = none;
    kv_cache_tokens = none;
    phase = none;
  }

  unfoldable pub from_directive : EngineDirective S → DirectiveDump
  from_directive d = record { seq_id = d.seq_id; commands = map debug.command d.commands }
