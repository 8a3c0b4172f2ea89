-- ===== src/Sim/Expr.antt =====
-- src/sim/expr.rs: what the expressions of a scenario see. The contexts and the evaluation of
-- expression trees belong to the `evalexpr` library, so they are an interface: `X` is its
-- `HashMapContext`, `E` its trees. An evaluation that fails is none.
use Prim.Native.String.{String}
use text.Mathlib.Text.{◌==◌ as str_eq}
use argus_manager.Prelude.{Bool, Option, none, some, List, [], ◌∷◌, ◌||◌, if◌then◌else◌}
use argus_manager.Float.{Float, fle, is_nan, nat}
use argus_manager.Sim.State.{Field, names, PhysicalState, EngineStateModel}

pub record EvalExpr (X E W : Type 0) : Type 0 where
  pub set_f64 : X → String → W → X
  pub set_str : X → String → String → X
  pub eval_float : X → E → Option W
  pub eval_boolean : X → E → Option Bool
  pub eval_string : X → E → Option String

-- `unwrap_or`
abbrev pub or_else : {A : Type 0} → A → Option A → A
or_else a none = a
or_else a (some b) = b

module _ {X E W : Type 0} ⦃f : Float W⦄ (x : EvalExpr X E W) where
  abbrev bind_numbers : X → PhysicalState W → List (String × Field) → X
  bind_numbers ctx s [] = ctx
  bind_numbers ctx s ((name, field) ∷ rest) =
      bind_numbers (x.set_f64 ctx name (s.numbers field)) s rest

  -- `PhysicalState::bind_to_context`
  unfoldable pub bind_state : X → PhysicalState W → X
  bind_state ctx s = x.set_str (bind_numbers ctx s names) "kv_dtype" s.kv_dtype

  -- `EngineStateModel::bind_to_context`
  unfoldable pub bind_engine : X → EngineStateModel W → X
  bind_engine ctx e =
      let c1 = x.set_str ctx "active_device" e.active_device in
      let c2 = x.set_str c1 "phase" e.phase in
      let c3 = x.set_f64 c2 "partition_ratio" e.partition_ratio in
      let c4 = x.set_f64 c3 "throttle_delay_ms" e.throttle_delay_ms in
      let c5 = x.set_f64 c4 "tbt_target_ms" e.tbt_target_ms in
      let c6 = x.set_f64 c5 "skip_ratio" e.skip_ratio in
      let c7 = x.set_f64 c6 "target_ratio" (or_else (nat 0) e.last_evict_ratio) in
      let c8 = x.set_f64 c7 "delay_ms" e.throttle_delay_ms in
      let c9 = x.set_f64 c8 "ratio" e.partition_ratio in
      x.set_str c9 "device" (or_else e.active_device e.last_switch_device)

module _ {W : Type 0} ⦃f : Float W⦄ where
  -- `f64::min`
  abbrev pub fmin : W → W → W
  fmin a b = if is_nan a then b else if is_nan b then a else if fle a b then a else b

  unfoldable pub compute_merge_overhead : W → W
  compute_merge_overhead ratio =
      f.mul (f.mul (f.mul (nat 4) ratio) (f.sub (nat 1) ratio)) (f.lit 15 100)

  abbrev bw_penalty : W → W
  bw_penalty bw_util = fmin (f.div bw_util (nat 200)) (f.lit 4 10)

  abbrev decode_partition : W → W → W → W → W → W → W
  decode_partition ratio cpu_freq gpu_freq bw_util base_gpu base_partition =
      if fle ratio (nat 0) || fle (nat 1) ratio
      then f.mul base_gpu gpu_freq
      else (let base =
            f.mul (f.mul base_partition (f.sub (nat 1) (compute_merge_overhead ratio)))
              (f.sub (nat 1) (bw_penalty bw_util)) in
          let gpu_part = f.mul ratio gpu_freq in
          let cpu_part = f.mul (f.sub (nat 1) ratio) cpu_freq in
          f.mul base (f.add gpu_part cpu_part))

  unfoldable pub compute_phase_throughput : String → String → W → W → W → W → W → W → W → W → W
  compute_phase_throughput phase device ratio cpu_freq gpu_freq bw_util base_gpu base_cpu
        base_partition base_prefill =
      if str_eq phase "idle"
      then nat 0
      else if str_eq phase "prefill"
      then f.mul base_prefill gpu_freq
      else if str_eq phase "decode"
      then (if str_eq device "cpu"
          then f.mul base_cpu cpu_freq
          else if str_eq device "opencl" || str_eq device "cuda"
          then f.mul (f.mul base_gpu gpu_freq) (f.sub (nat 1) (bw_penalty bw_util))
          else if str_eq device "partition"
          then decode_partition ratio cpu_freq gpu_freq bw_util base_gpu base_partition
          else f.mul base_gpu gpu_freq)
      else nat 0
