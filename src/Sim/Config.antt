-- ===== src/Sim/Config.antt =====
-- The types of src/sim/config.rs. A `HashMap` is the list of its entries in the order in which it
-- gives them; a value of a type `E` is an expression tree of the `evalexpr` library. `W` is `f64`.
pub mod Merge
pub mod Validate
pub mod Accepted
use Prim.Native.String.{String}
use text.Mathlib.Text.{◌==◌ as str_eq}
use argus_manager.Prelude.{ℕ, Option, none, some, List, [], ◌∷◌, if◌then◌else◌}

-- `HashMap::get`
abbrev pub get : {A : Type 0} → List (String × A) → String → Option A
get [] name = none
get ((key, a) ∷ rest) name = if str_eq key name then some a else get rest name

pub data ExprOrValue (E W : Type 0) : Type 0 where
  literal : W → ExprOrValue E W
  expr : E → ExprOrValue E W
  string_literal : String → ExprOrValue E W

pub data Effect (E W : Type 0) : Type 0 where
  set scale add : (value : ExprOrValue E W) (tau_s : W) → Effect E W
  set_tau : (value : W) → Effect E W

pub record ActionSpec (E W : Type 0) : Type 0 where
  pub condition : Option E  -- `when`
  pub effects : List (String × Effect E W)

pub data CompositionOp : Type 0 where
  multiply add add_delta max min : CompositionOp

pub record Composition : Type 0 where
  pub default_op : CompositionOp  -- `default`
  pub per_dimension : List (String × CompositionOp)

pub record InteractionTerm (E W : Type 0) : Type 0 where
  pub actions : List String
  pub effects : List (String × Effect E W)

pub record ClusterThermalDynamics (W : Type 0) : Type 0 where
  pub baseline : W
  pub tau_s : W
  pub heating : List (String × W)

pub record ThermalCoupling (W : Type 0) : Type 0 where
  pub cpu_to_gpu : W
  pub gpu_to_cpu : W

pub record KvCacheGrowth (E : Type 0) : Type 0 where
  pub growth_per_token : List (String × ℕ)
  pub applies_when : E

pub record DerivedExpr (E W : Type 0) : Type 0 where
  pub expr : E
  pub tau_s : W

pub record PassiveDynamics (E W : Type 0) : Type 0 where
  pub cpu_cluster_thermal_c : ClusterThermalDynamics W
  pub gpu_cluster_thermal_c : ClusterThermalDynamics W
  pub thermal_coupling : ThermalCoupling W
  pub thermal_c : DerivedExpr E W
  pub memory_bw_utilization_pct : DerivedExpr E W
  pub kv_cache_bytes : KvCacheGrowth E

pub record DvfsCluster (W : Type 0) : Type 0 where
  pub soft_threshold_c : W
  pub hard_threshold_c : W
  pub k_thermal : W
  pub tau_s : W

pub record DvfsConfig (W : Type 0) : Type 0 where
  pub cpu : DvfsCluster W
  pub gpu : DvfsCluster W

pub record ExternalInjection (W : Type 0) : Type 0 where
  pub t_start : W
  pub duration : W
  pub variable : String  -- `var`
  pub op : String
  pub delta : Option W
  pub delta_mb : Option W
  pub tau_s : W

pub record NoiseSpec (W : Type 0) : Type 0 where
  pub sigma : Option W
  pub sigma_mb : Option W
  pub sigma_mc : Option W
  pub seed_key : String

pub record HeartbeatObservation (W : Type 0) : Type 0 where
  pub interval_s : W
  pub noise : List (String × NoiseSpec W)

pub record SignalSourceConfig (W : Type 0) : Type 0 where
  pub source : String
  pub poll_interval_s : W
  pub noise : List (String × NoiseSpec W)

pub record SignalsObservation (W : Type 0) : Type 0 where
  pub memory : SignalSourceConfig W
  pub compute : SignalSourceConfig W
  pub thermal : SignalSourceConfig W
  pub energy : SignalSourceConfig W

pub record ObservationConfig (W : Type 0) : Type 0 where
  pub heartbeat : HeartbeatObservation W
  pub signals : SignalsObservation W

pub record InitialState (W : Type 0) : Type 0 where
  pub kv_cache_bytes : ℕ
  pub kv_cache_capacity_bytes : ℕ
  pub kv_cache_tokens : ℕ
  pub kv_cache_token_capacity : ℕ
  pub kv_dtype : String
  pub device_memory_total_mb : ℕ
  pub device_memory_used_mb : ℕ
  pub memory_bw_utilization_pct : W
  pub engine_cpu_pct : W
  pub external_cpu_pct : W
  pub cpu_freq_mhz : ℕ
  pub cpu_max_freq_mhz : ℕ
  pub cpu_min_freq_mhz : ℕ
  pub engine_gpu_pct : W
  pub external_gpu_pct : W
  pub gpu_freq_mhz : ℕ
  pub gpu_max_freq_mhz : ℕ
  pub gpu_min_freq_mhz : ℕ
  pub thermal_c : W
  pub cpu_cluster_thermal_c : W
  pub gpu_cluster_thermal_c : W
  pub throttle_threshold_c : W
  pub phase : String
  pub base_tps_decode_gpu : W
  pub base_tps_decode_cpu : W
  pub base_tps_decode_partition : W
  pub base_tps_prefill_gpu : W
  pub active_device : String
  pub active_actions : List String
  pub partition_ratio : W
  pub throttle_delay_ms : W
  pub tbt_target_ms : W

pub record ScenarioConfig (E W : Type 0) : Type 0 where
  pub initial_state : InitialState W
  pub actions : List (String × ActionSpec E W)
  pub composition : Composition
  pub interactions : List (InteractionTerm E W)
  pub passive_dynamics : PassiveDynamics E W
  pub dvfs : DvfsConfig W
  pub derived : List (String × DerivedExpr E W)
  pub external_injections : List (ExternalInjection W)
  pub observation : ObservationConfig W
  pub rng_seed : Option ℕ
