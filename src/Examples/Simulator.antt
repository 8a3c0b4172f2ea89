-- ===== src/Examples/Simulator.antt =====
-- A small scenario of the simulator: one action, one derived value, an injection, and a policy that
-- compresses at each signal.
use Prim.Native.String.{String}
use argus_manager.Prelude.{
  Bool, ltb, ℕ, ◌+◌, ◌*◌, ◌^◌, ◌≡◌, ◌≢◌, refl, true, Option, none, some, List, [], ◌∷◌, arith, suc,
}
use argus_manager.Prelude.Int.{ℤ, pos}
use argus_manager.Float.{nat}
use argus_manager.Float.Fixed.{Fixed, nan, num, fixed_float, fixed_casts, Fixed-IsIeee}
use argus_manager.Contract.{kv_compress}
use argus_manager.Pipeline.{with_cooldown}
use argus_manager.Sim.Clock
use argus_manager.Sim.Config.{
  ScenarioConfig, ActionSpec, literal, set, scale, CompositionOp, InitialState,
}
use argus_manager.Sim.Config.Merge.{
  Value, mapping, leaf, empty, entry, deep_merge, File, parsed, load_yaml_with_extends, out_of_fuel,
}
use argus_manager.Sim.Config.Merge.Lookup.{IsUnique, said, over, stands, stands-deep_merge}
use argus_manager.Sim.Config.Merge.Chain.{load_yaml_with_extends-ends}
use argus_manager.Sim.Compose.{
  DimEffects, Collected, collect_all, action_effect, collect_effect, eval_expr_or_value,
  apply_effects,
}
use argus_manager.Sim.Compose.Keys.{Distinct}
use argus_manager.Sim.Compose.Order.{apply_effects-order}
use argus_manager.Sim.Event.{EventKind}
use argus_manager.Sim.State.{PhysicalState, EngineStateModel, state_from_config, engine_from_config}
use argus_manager.Sim.Physics.Bounds.{Fits, passive_dynamics-Fits}
use argus_manager.Sim.Signal.Ranges.{IsInRange, derive_signal-IsInRange}
use argus_manager.Sim.Harness.Runs.{IsRun, run_for-IsRun}
use argus_manager.Sim.Harness.Levels.{AtEnd, run_for-transitions}
use argus_manager.Sim.Harness.Until.{run_until, IsStop, run_until-IsStop}
use mathlib.Core.List.{Permᴰ}
use argus_manager.Sim.Expr.{EvalExpr}
use argus_manager.Sim.Physics.{RealFunctions, passive_dynamics}
use argus_manager.Sim.Signal.{IntCasts, derive_signal}
use argus_manager.Sim.Harness.{PolicyStrategy, Simulator}
use argus_manager.Sim.Harness.Load.{run_for}

-- Rough stand-ins: what the proofs need of these functions is nothing.
instance abbrev reals : RealFunctions Fixed
reals = record {
  exp = λ x. fixed_float.div (nat 1) (fixed_float.sub (nat 1) x);
  powf = λ x y. x;
  neg = λ x. fixed_float.sub (nat 0) x;
  infinity = num (pos (10 ^ 18));
}

abbrev thousandths : Fixed → ℤ
thousandths nan = pos 0
thousandths (num a) = a

instance abbrev ints : IntCasts Fixed
ints = record { to_i64 = thousandths; to_i32 = thousandths }

-- Every expression is a constant.
abbrev pub constants : EvalExpr ℕ Fixed Fixed
constants = record {
  set_f64 = λ ctx name v. suc ctx;
  set_str = λ ctx name v. suc ctx;
  eval_float = λ ctx e. some e;
  eval_boolean = λ ctx e. some true;
  eval_string = λ ctx e. none;
}

abbrev initial : InitialState Fixed
initial = record {
  kv_cache_bytes = 10;
  kv_cache_capacity_bytes = 100;
  kv_cache_tokens = 1;
  kv_cache_token_capacity = 50;
  kv_dtype = "f16";
  device_memory_total_mb = 8000;
  device_memory_used_mb = 7000;
  memory_bw_utilization_pct = nat 20;
  engine_cpu_pct = nat 30;
  external_cpu_pct = nat 90;
  cpu_freq_mhz = 2000;
  cpu_max_freq_mhz = 3200;
  cpu_min_freq_mhz = 400;
  engine_gpu_pct = nat 50;
  external_gpu_pct = nat 0;
  gpu_freq_mhz = 700;
  gpu_max_freq_mhz = 900;
  gpu_min_freq_mhz = 200;
  thermal_c = nat 40;
  cpu_cluster_thermal_c = nat 45;
  gpu_cluster_thermal_c = nat 42;
  throttle_threshold_c = nat 85;
  phase = "decode";
  base_tps_decode_gpu = nat 20;
  base_tps_decode_cpu = nat 8;
  base_tps_decode_partition = nat 24;
  base_tps_prefill_gpu = nat 200;
  active_device = "opencl";
  active_actions = "throttle" ∷ [];
  partition_ratio = nat 0;
  throttle_delay_ms = nat 0;
  tbt_target_ms = nat 50;
}

abbrev throttle : ActionSpec Fixed Fixed
throttle = record {
  condition = none;
  effects =
      ("engine_gpu_pct", scale (literal (fixed_float.lit 8 10)) (nat 1))
      ∷ ("engine_cpu_pct", set (literal (nat 20)) (nat 0))
      ∷ [];
}

abbrev pub cfg : ScenarioConfig Fixed Fixed
cfg = record {
  initial_state = initial;
  actions = ("throttle", throttle) ∷ [];
  composition = record { default_op = CompositionOp.multiply; per_dimension = [] };
  interactions = [];
  passive_dynamics = record {
    cpu_cluster_thermal_c = record { baseline = nat 35; tau_s = nat 10; heating = [] };
    gpu_cluster_thermal_c = record { baseline = nat 35; tau_s = nat 12; heating = [] };
    thermal_coupling = record {
      cpu_to_gpu = fixed_float.lit 1 10;
      gpu_to_cpu = fixed_float.lit 1 10;
    };
    thermal_c = record { expr = nat 40; tau_s = nat 0 };
    memory_bw_utilization_pct = record { expr = nat 20; tau_s = nat 0 };
    kv_cache_bytes = record { growth_per_token = ("f16", 64) ∷ []; applies_when = nat 1 };
  };
  dvfs = record {
    cpu = record {
      soft_threshold_c = nat 78;
      hard_threshold_c = nat 95;
      k_thermal = fixed_float.lit 8 100;
      tau_s = nat 1;
    };
    gpu = record {
      soft_threshold_c = nat 78;
      hard_threshold_c = nat 95;
      k_thermal = fixed_float.lit 8 100;
      tau_s = nat 1;
    };
  };
  derived = ("throughput_tps", record { expr = nat 10; tau_s = nat 0 }) ∷ [];
  external_injections =
      record {
        t_start = nat 1;
        duration = nat 5;
        variable = "device_memory_used_mb";
        op = "add";
        delta = none;
        delta_mb = some (nat 500);
        tau_s = nat 0;
      }
      ∷ [];
  observation = record {
    heartbeat = record { interval_s = nat 1; noise = [] };
    signals = record {
      memory = record { source = "sim"; poll_interval_s = nat 1; noise = [] };
      compute = record { source = "sim"; poll_interval_s = nat 1; noise = [] };
      thermal = record { source = "sim"; poll_interval_s = nat 1; noise = [] };
      energy = record { source = "sim"; poll_interval_s = nat 5; noise = [] };
    };
  };
  rng_seed = none;
}

abbrev pub state : PhysicalState Fixed
unfolding state_from_config
state = state_from_config initial

abbrev pub engine : EngineStateModel Fixed
unfolding engine_from_config
engine = engine_from_config initial

-- It counts its signals.
abbrev policy : PolicyStrategy ℕ Fixed Fixed
policy = record {
  process_signal =
      λ n s. (suc n, some record { seq_id = n; commands = kv_compress (fixed_float.lit 1 2) ∷ [] });
  update_engine_state = λ n m. n;
  cancel_last_observation = λ n. n;
  observation_overrun_count = λ n. (n, 0);
}

abbrev simulator : Simulator ℕ ℕ Fixed Fixed
unfolding state engine with_cooldown
simulator = record {
  clock = Clock.new;
  state = state;
  engine = engine;
  policy = 0;
  trajectory = [];
  tick_dt = 50 * 10 ^ 6;
  ctx = 0;
  last_overrun_count = 0;
  dedup = with_cooldown (nat 60);
  last_signal_levels = [];
}

-- Whole seconds.
abbrev seconds : Fixed → Option ℕ
seconds x = some (fixed_float.to_u64 x * 10 ^ 9)

run_for-IsRun_example :
    IsRun policy constants cfg
      (λ e. none)
      simulator
      (simulator.clock.now + 10 ^ 8)
      (run_for policy constants cfg seconds simulator (10 ^ 8) (λ e. none))
unfolding simulator
run_for-IsRun_example =
    run_for-IsRun policy constants cfg (λ e. none) seconds simulator (10 ^ 8) (omega arith) refl

abbrev warm : Simulator ℕ ℕ Fixed Fixed → Bool
warm m = ltb 0 m.clock.now

run_until-IsStop_example :
    IsStop policy constants cfg
      (λ e. none)
      warm
      (simulator.clock.now + 10 ^ 8)
      simulator.tick_dt
      (run_until policy constants cfg (λ e. none) warm seconds simulator (10 ^ 8))
unfolding simulator
run_until-IsStop_example =
    run_until-IsStop policy constants cfg (λ e. none) warm seconds simulator (10 ^ 8) (omega arith)

abbrev collected : Collected Fixed
collected = collect_all constants 0 cfg ("throttle" ∷ [])

-- The two effects, in the other order.
abbrev swapped : DimEffects Fixed
swapped =
    ("engine_cpu_pct", (CompositionOp.max, nat 20 ∷ []))
    ∷ ("engine_gpu_pct", (CompositionOp.multiply, fixed_float.lit 8 10 ∷ []))
    ∷ []

apply_effects-order_example :
    Distinct swapped
    × (apply_effects collected.dim_tau (fixed_float.lit 1 20) swapped state
        ≡ apply_effects collected.dim_tau (fixed_float.lit 1 20) collected.dim_effects state)
unfolding collect_all action_effect collect_effect eval_expr_or_value
apply_effects-order_example =
    apply_effects-order constants 0 cfg ("throttle" ∷ []) (fixed_float.lit 1 20) state swapped
      (Permᴰ.swap refl refl)

passive_dynamics-Fits_example : Fits (passive_dynamics state engine cfg (fixed_float.lit 1 20))
unfolding state
passive_dynamics-Fits_example =
    passive_dynamics-Fits Fixed-IsIeee state engine cfg (fixed_float.lit 1 20) refl

derive_signal-IsInRange_example :
    IsInRange (derive_signal EventKind.signal_compute state cfg (some (λ key. nat 1)))
derive_signal-IsInRange_example =
    derive_signal-IsInRange Fixed-IsIeee EventKind.signal_compute state cfg (some (λ key. nat 1))

abbrev parent : Value ℕ
parent = mapping (entry "dvfs" (mapping (entry "hot" (leaf 3) (entry "tau" (leaf 1) empty))) empty)

abbrev child : Value ℕ
child = mapping (entry "dvfs" (mapping (entry "tau" (leaf 2) empty)) empty)

-- The child leaves the other key of the mapping alone.
stands-deep_merge_example :
    stands (some (deep_merge parent child)) ("dvfs" ∷ "hot" ∷ [])
    ≡ over (said (some child) ("dvfs" ∷ "hot" ∷ [])) (stands (some parent) ("dvfs" ∷ "hot" ∷ []))
unfolding IsUnique
stands-deep_merge_example =
    stands-deep_merge ("dvfs" ∷ "hot" ∷ []) child parent (refl, (refl, tt, tt), tt)

-- Two files that extend each other.
abbrev circle : List (String × File ℕ)
circle =
    ("a.yaml", parsed child (some (some "b.yaml")))
    ∷ ("b.yaml", parsed parent (some (some "a.yaml")))
    ∷ []

load_yaml_with_extends-ends_example :
    load_yaml_with_extends (λ from to. to) circle 3 [] "a.yaml" ≢ out_of_fuel
load_yaml_with_extends-ends_example = load_yaml_with_extends-ends (λ from to. to) circle "a.yaml"

run_for-transitions_example :
    AtEnd policy constants cfg
      (λ e. none)
      (run_for policy constants cfg seconds simulator (2 * 10 ^ 9) (λ e. none))
unfolding simulator
run_for-transitions_example =
    run_for-transitions policy constants cfg (λ e. none) seconds simulator (2 * 10 ^ 9) refl refl
