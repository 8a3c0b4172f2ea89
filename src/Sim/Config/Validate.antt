-- ===== src/Sim/Config/Validate.antt =====
-- `load_scenario` and the validation of src/sim/config.rs, with `make_dry_run_context` of
-- src/sim/expr.rs. An error is the place that its message names; `empty` is `ExprContext::new()`.
use Prim.Native.String.{String}
use argus_manager.Prelude.{
  ℕ, suc, Bool, true, false, Option, none, some, List, [], ◌∷◌, ◌++◌, leb, length, ◌&&◌,
}
use argus_manager.Float.{Float, nat}
use argus_manager.Sim.Config.{
  ExprOrValue, expr, Effect, set, scale, add, set_tau, ActionSpec, InteractionTerm, DerivedExpr,
  InitialState, ScenarioConfig,
}
use argus_manager.Sim.Config.Merge as Merge
use argus_manager.Sim.Expr.{EvalExpr}

pub data Location : Type 0 where
  thermal bandwidth applies_when : Location
  derived_field : String → Location
  action_when : String → Location
  action_dimension : (action dim : String) → Location
  interaction_dimension : (index : ℕ) → (dim : String) → Location

-- The validators of `InitialState`; true for `Ok`.
abbrev pub validate_kv_cache_capacity : {W : Type 0} → InitialState W → Bool
validate_kv_cache_capacity s = leb s.kv_cache_bytes s.kv_cache_capacity_bytes

abbrev pub validate_device_memory : {W : Type 0} → InitialState W → Bool
validate_device_memory s = leb s.device_memory_used_mb s.device_memory_total_mb

abbrev pub validate_kv_token_capacity : {W : Type 0} → InitialState W → Bool
validate_kv_token_capacity s = leb s.kv_cache_tokens s.kv_cache_token_capacity

-- The derived `validate`, which runs all three.
unfoldable pub validate : {W : Type 0} → InitialState W → Bool
validate s =
    validate_kv_cache_capacity s && (validate_device_memory s && validate_kv_token_capacity s)

abbrev pub numeric_fields : List String
numeric_fields =
    "kv_cache_bytes" ∷ "kv_cache_capacity_bytes" ∷ "kv_cache_tokens" ∷ "kv_cache_token_capacity"
    ∷ "device_memory_total_mb" ∷ "device_memory_used_mb" ∷ "memory_bw_utilization_pct"
    ∷ "engine_cpu_pct" ∷ "external_cpu_pct" ∷ "cpu_freq_mhz" ∷ "cpu_max_freq_mhz"
    ∷ "cpu_min_freq_mhz" ∷ "engine_gpu_pct" ∷ "external_gpu_pct" ∷ "gpu_freq_mhz"
    ∷ "gpu_max_freq_mhz" ∷ "gpu_min_freq_mhz" ∷ "thermal_c" ∷ "cpu_cluster_thermal_c"
    ∷ "gpu_cluster_thermal_c" ∷ "throttle_threshold_c" ∷ "base_tps_decode_gpu"
    ∷ "base_tps_decode_cpu" ∷ "base_tps_decode_partition" ∷ "base_tps_prefill_gpu"
    ∷ "partition_ratio" ∷ "throttle_delay_ms" ∷ "tbt_target_ms" ∷ "skip_ratio" ∷ "target_ratio"
    ∷ "delay_ms" ∷ "ratio" ∷ "bits" ∷ []

abbrev pub derived_fields : List String
derived_fields = "throughput_tps" ∷ "tbt_ms" ∷ "latency_degradation" ∷ "skip_ratio" ∷ []

-- The results of `load_scenario`.
pub data LoadResult (E W : Type 0) : Type 0 where
  accepted : ScenarioConfig E W → LoadResult E W
  not_loaded invalid_shape invalid_state : LoadResult E W
  invalid_expressions : List Location → LoadResult E W

module _ {X E W : Type 0} ⦃f : Float W⦄ (x : EvalExpr X E W) (empty : X) where
  abbrev pub bind_zeros : X → List String → X
  bind_zeros ctx [] = ctx
  bind_zeros ctx (name ∷ rest) = bind_zeros (x.set_f64 ctx name (nat 0)) rest

  unfoldable pub make_dry_run_context : X
  make_dry_run_context =
      let c1 = bind_zeros (bind_zeros empty numeric_fields) derived_fields in
      let c2 = x.set_str c1 "phase" "idle" in
      let c3 = x.set_str c2 "active_device" "opencl" in
      let c4 = x.set_str c3 "kv_dtype" "f16" in x.set_str c4 "device" "opencl"

  -- The first of the three results decides; no error if there is one.
  abbrev pub passes : Option W → Option Bool → Option String → Bool
  passes (some v) b s = true
  passes none (some b) s = true
  passes none none (some s) = true
  passes none none none = false

  abbrev pub evaluates : E → Bool
  evaluates e =
      passes (x.eval_float make_dry_run_context e) (x.eval_boolean make_dry_run_context e)
        (x.eval_string make_dry_run_context e)

  abbrev pub unless : Bool → Location → List Location
  unless true l = []
  unless false l = l ∷ []

  unfoldable pub check_expr : E → Location → List Location
  check_expr e l = unless (evaluates e) l

  abbrev pub check_value : ExprOrValue E W → Location → List Location
  check_value (expr e) l = check_expr e l
  check_value v l = []

  unfoldable pub check_effect_exprs : Effect E W → Location → List Location
  check_effect_exprs (set value tau_s) l = check_value value l
  check_effect_exprs (add value tau_s) l = check_value value l
  check_effect_exprs (scale factor tau_s) l = check_value factor l
  check_effect_exprs (set_tau value) l = []

  abbrev pub check_when : Option E → Location → List Location
  check_when none l = []
  check_when (some e) l = check_expr e l

  abbrev pub check_effects : (String → Location) → List (String × Effect E W) → List Location
  check_effects at [] = []
  check_effects at ((dim, effect) ∷ rest) =
      check_effect_exprs effect (at dim) ++ check_effects at rest

  abbrev pub check_derived : List (String × DerivedExpr E W) → List Location
  check_derived [] = []
  check_derived ((name, d) ∷ rest) = check_expr d.expr (derived_field name) ++ check_derived rest

  abbrev pub check_actions : List (String × ActionSpec E W) → List Location
  check_actions [] = []
  check_actions ((name, spec) ∷ rest) =
      check_when spec.condition (action_when name)
      ++ (check_effects (action_dimension name) spec.effects ++ check_actions rest)

  abbrev pub check_interactions : ℕ → List (InteractionTerm E W) → List Location
  check_interactions index [] = []
  check_interactions index (t ∷ rest) =
      check_effects (interaction_dimension index) t.effects ++ check_interactions (suc index) rest

  -- The errors, in the order in which they are pushed; `Ok` if there are none.
  unfoldable pub validate_expressions : ScenarioConfig E W → List Location
  validate_expressions cfg =
      let p = cfg.passive_dynamics in
      check_expr p.thermal_c.expr thermal
      ++ (check_expr p.memory_bw_utilization_pct.expr bandwidth
          ++ (check_expr p.kv_cache_bytes.applies_when applies_when
              ++ (check_derived cfg.derived
                  ++ (check_actions cfg.actions ++ check_interactions 0 cfg.interactions))))

  abbrev pub checked : ScenarioConfig E W → Bool → List Location → LoadResult E W
  checked cfg false errors = invalid_state
  checked cfg true [] = accepted cfg
  checked cfg true (l ∷ ls) = invalid_expressions (l ∷ ls)

  module _ {A : Type 0} (from_value : Merge.Value A → Option (ScenarioConfig E W)) where
    abbrev pub deserialised : Option (ScenarioConfig E W) → LoadResult E W
    deserialised none = invalid_shape
    deserialised (some cfg) = checked cfg (validate cfg.initial_state) (validate_expressions cfg)

    abbrev pub shaped : Merge.Loaded A → LoadResult E W
    shaped (Merge.ok value) = deserialised (from_value value)
    shaped e = not_loaded

    -- `path` is canonical.
    unfoldable pub load_scenario :
        (String → String → String) → List (String × Merge.File A) → String → LoadResult E W
    load_scenario resolve files path =
        shaped (Merge.load_yaml_with_extends resolve files (suc (length files)) [] path)
