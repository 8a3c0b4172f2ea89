-- ===== src/Sim/State.antt =====
-- src/sim/state.rs: what the simulator keeps of the device and of the engine. The 28 fields of
-- `PhysicalState` that are an `f64` are a function from their names, since the code reads and
-- writes them by name as well; `s.numbers f` is the field f of s.
pub mod Fields
use Prim.Native.String.{String}
use text.Mathlib.Text.{◌==◌ as str_eq}
use argus_manager.Prelude.{
  ℕ, Bool, true, false, Option, none, some, List, [], ◌∷◌, ◌==◌, if◌then◌else◌,
}
use argus_manager.Float.{Float, Casts, nat}
use argus_manager.Contract.{
  EngineCommand, kv_compress, restore_defaults, suspend, resume, gpu_yield, gpu_offload,
  EngineDirective,
}
use argus_manager.Sim.Config.{InitialState, get}

pub data Field : Type 0 where
  kv_cache_bytes kv_cache_capacity_bytes kv_cache_tokens kv_cache_token_capacity : Field
  device_memory_total_mb device_memory_used_mb memory_bw_utilization_pct : Field
  engine_cpu_pct external_cpu_pct cpu_freq_mhz cpu_max_freq_mhz cpu_min_freq_mhz : Field
  engine_gpu_pct external_gpu_pct gpu_freq_mhz gpu_max_freq_mhz gpu_min_freq_mhz : Field
  thermal_c cpu_cluster_thermal_c gpu_cluster_thermal_c throttle_threshold_c : Field
  base_tps_decode_gpu base_tps_decode_cpu base_tps_decode_partition base_tps_prefill_gpu : Field
  throughput_tps tbt_ms latency_degradation : Field

-- The arms of the two matches on a name, in their order.
abbrev pub names : List (String × Field)
names =
    ("kv_cache_bytes", kv_cache_bytes)
    ∷ ("kv_cache_capacity_bytes", kv_cache_capacity_bytes)
    ∷ ("kv_cache_tokens", kv_cache_tokens)
    ∷ ("kv_cache_token_capacity", kv_cache_token_capacity)
    ∷ ("device_memory_total_mb", device_memory_total_mb)
    ∷ ("device_memory_used_mb", device_memory_used_mb)
    ∷ ("memory_bw_utilization_pct", memory_bw_utilization_pct)
    ∷ ("engine_cpu_pct", engine_cpu_pct)
    ∷ ("external_cpu_pct", external_cpu_pct)
    ∷ ("cpu_freq_mhz", cpu_freq_mhz)
    ∷ ("cpu_max_freq_mhz", cpu_max_freq_mhz)
    ∷ ("cpu_min_freq_mhz", cpu_min_freq_mhz)
    ∷ ("engine_gpu_pct", engine_gpu_pct)
    ∷ ("external_gpu_pct", external_gpu_pct)
    ∷ ("gpu_freq_mhz", gpu_freq_mhz)
    ∷ ("gpu_max_freq_mhz", gpu_max_freq_mhz)
    ∷ ("gpu_min_freq_mhz", gpu_min_freq_mhz)
    ∷ ("thermal_c", thermal_c)
    ∷ ("cpu_cluster_thermal_c", cpu_cluster_thermal_c)
    ∷ ("gpu_cluster_thermal_c", gpu_cluster_thermal_c)
    ∷ ("throttle_threshold_c", throttle_threshold_c)
    ∷ ("base_tps_decode_gpu", base_tps_decode_gpu)
    ∷ ("base_tps_decode_cpu", base_tps_decode_cpu)
    ∷ ("base_tps_decode_partition", base_tps_decode_partition)
    ∷ ("base_tps_prefill_gpu", base_tps_prefill_gpu)
    ∷ ("throughput_tps", throughput_tps)
    ∷ ("tbt_ms", tbt_ms)
    ∷ ("latency_degradation", latency_degradation)
    ∷ []

-- The place of a field in the struct, to tell fields apart.
abbrev pub index : Field → ℕ
index kv_cache_bytes = 0
index kv_cache_capacity_bytes = 1
index kv_cache_tokens = 2
index kv_cache_token_capacity = 3
index device_memory_total_mb = 4
index device_memory_used_mb = 5
index memory_bw_utilization_pct = 6
index engine_cpu_pct = 7
index external_cpu_pct = 8
index cpu_freq_mhz = 9
index cpu_max_freq_mhz = 10
index cpu_min_freq_mhz = 11
index engine_gpu_pct = 12
index external_gpu_pct = 13
index gpu_freq_mhz = 14
index gpu_max_freq_mhz = 15
index gpu_min_freq_mhz = 16
index thermal_c = 17
index cpu_cluster_thermal_c = 18
index gpu_cluster_thermal_c = 19
index throttle_threshold_c = 20
index base_tps_decode_gpu = 21
index base_tps_decode_cpu = 22
index base_tps_decode_partition = 23
index base_tps_prefill_gpu = 24
index throughput_tps = 25
index tbt_ms = 26
index latency_degradation = 27

pub record PhysicalState (W : Type 0) : Type 0 where
  pub numbers : Field → W
  pub kv_dtype : String

pub record EngineStateModel (W : Type 0) : Type 0 where
  pub active_device : String
  pub active_actions : List String
  pub phase : String
  pub partition_ratio : W
  pub throttle_delay_ms : W
  pub tbt_target_ms : W
  pub skip_ratio : W
  pub kv_quant_bits : Option ℕ
  pub last_evict_ratio : Option W
  pub last_switch_device : Option String

module _ {W : Type 0} where
  -- `s.f = v`
  abbrev pub assign : PhysicalState W → Field → W → PhysicalState W
  assign s f v = record s { numbers = λ g. if index g == index f then v else s.numbers g }

  abbrev pub read : PhysicalState W → Option Field → Option W
  read s none = none
  read s (some f) = some (s.numbers f)

  abbrev pub write : PhysicalState W → Option Field → W → PhysicalState W × Bool
  write s none v = (s, false)
  write s (some f) v = (assign s f v, true)

  unfoldable pub get_f64 : PhysicalState W → String → Option W
  get_f64 s name = read s (get names name)

  -- The state, and whether the name is known.
  unfoldable pub set_f64 : PhysicalState W → String → W → PhysicalState W × Bool
  set_f64 s name v = write s (get names name) v

module _ {W : Type 0} ⦃f : Float W⦄ where
  -- The fields of the literal in `from_config`.
  abbrev pub initial_number : InitialState W → Field → W
  initial_number i kv_cache_bytes = f.of_nat i.kv_cache_bytes
  initial_number i kv_cache_capacity_bytes = f.of_nat i.kv_cache_capacity_bytes
  initial_number i kv_cache_tokens = f.of_nat i.kv_cache_tokens
  initial_number i kv_cache_token_capacity = f.of_nat i.kv_cache_token_capacity
  initial_number i device_memory_total_mb = f.of_nat i.device_memory_total_mb
  initial_number i device_memory_used_mb = f.of_nat i.device_memory_used_mb
  initial_number i memory_bw_utilization_pct = i.memory_bw_utilization_pct
  initial_number i engine_cpu_pct = i.engine_cpu_pct
  initial_number i external_cpu_pct = i.external_cpu_pct
  initial_number i cpu_freq_mhz = f.of_nat i.cpu_freq_mhz
  initial_number i cpu_max_freq_mhz = f.of_nat i.cpu_max_freq_mhz
  initial_number i cpu_min_freq_mhz = f.of_nat i.cpu_min_freq_mhz
  initial_number i engine_gpu_pct = i.engine_gpu_pct
  initial_number i external_gpu_pct = i.external_gpu_pct
  initial_number i gpu_freq_mhz = f.of_nat i.gpu_freq_mhz
  initial_number i gpu_max_freq_mhz = f.of_nat i.gpu_max_freq_mhz
  initial_number i gpu_min_freq_mhz = f.of_nat i.gpu_min_freq_mhz
  initial_number i thermal_c = i.thermal_c
  initial_number i cpu_cluster_thermal_c = i.cpu_cluster_thermal_c
  initial_number i gpu_cluster_thermal_c = i.gpu_cluster_thermal_c
  initial_number i throttle_threshold_c = i.throttle_threshold_c
  initial_number i base_tps_decode_gpu = i.base_tps_decode_gpu
  initial_number i base_tps_decode_cpu = i.base_tps_decode_cpu
  initial_number i base_tps_decode_partition = i.base_tps_decode_partition
  initial_number i base_tps_prefill_gpu = i.base_tps_prefill_gpu
  initial_number i throughput_tps = nat 0
  initial_number i tbt_ms = nat 0
  initial_number i latency_degradation = nat 0

  unfoldable pub state_from_config : InitialState W → PhysicalState W
  state_from_config i = record { numbers = initial_number i; kv_dtype = i.kv_dtype }

  unfoldable pub engine_from_config : InitialState W → EngineStateModel W
  engine_from_config i = record {
    active_device = i.active_device;
    active_actions = i.active_actions;
    phase = i.phase;
    partition_ratio = i.partition_ratio;
    throttle_delay_ms = i.throttle_delay_ms;
    tbt_target_ms = i.tbt_target_ms;
    skip_ratio = nat 0;
    kv_quant_bits = none;
    last_evict_ratio = none;
    last_switch_device = none;
  }

module _ {W S : Type 0} ⦃f : Float W⦄ ⦃c : Casts W S⦄ where
  unfoldable pub apply_command : EngineStateModel W → EngineCommand S → EngineStateModel W
  apply_command e (kv_compress budget) = record e { last_evict_ratio = some (c.widen budget) }
  apply_command e restore_defaults = record e {
    active_actions = [];
    throttle_delay_ms = nat 0;
    skip_ratio = nat 0;
    partition_ratio = nat 0;
    last_evict_ratio = none;
  }
  apply_command e suspend = e
  apply_command e resume = e
  apply_command e (gpu_yield every) = e
  apply_command e (gpu_offload on) = e

  abbrev pub apply_commands : EngineStateModel W → List (EngineCommand S) → EngineStateModel W
  apply_commands e [] = e
  apply_commands e (x ∷ xs) = apply_commands (apply_command e x) xs

  unfoldable pub apply_directive : EngineStateModel W → EngineDirective S → EngineStateModel W
  apply_directive e d = apply_commands e d.commands
