-- ===== src/Sim/Physics.antt =====
-- src/sim/physics.rs: one step of the physics but for the effects of actions. `exp` and `powf` are
-- those of the standard library, an argument of the definitions that use them; `clamp` panics if
-- its bounds are not in order, which is none. `W` is `f64`.
pub mod Bounds
use Prim.Native.String.{String}
use text.Mathlib.Text.{◌==◌ as str_eq}
use argus_manager.Prelude.{
  ℕ, Bool, true, false, ◌&&◌, ◌||◌, Option, none, some, List, [], ◌∷◌, ◌>>=◌, if◌then◌else◌,
}
use argus_manager.Float.{Float, fle, flt, fmax, clamp, nat}
use argus_manager.Sim.Config.{
  get, ScenarioConfig, DvfsCluster, ClusterThermalDynamics, ThermalCoupling, KvCacheGrowth,
  ExternalInjection,
}
use argus_manager.Sim.State
use argus_manager.Sim.State.{Field, PhysicalState, EngineStateModel, assign, get_f64, set_f64}
use argus_manager.Sim.Expr.{or_else, fmin}

-- `f64::exp`, `f64::powf` the negation, and `f64::INFINITY`.
pub record RealFunctions (W : Type 0) : Type 0 where
  pub exp : W → W
  pub powf : W → W → W
  pub neg : W → W
  pub infinity : W

module _ {W : Type 0} ⦃f : Float W⦄ where
  abbrev checked_clamp : W → W → W → Option W
  checked_clamp x lo hi = if fle lo hi then some (clamp x lo hi) else none

  abbrev pub scaled : W → Option W → Option W
  scaled a none = none
  scaled a (some ratio) = some (f.mul a ratio)

  unfoldable pub dvfs_target_freq : W → W → W → W → W → W → Option W
  dvfs_target_freq thermal soft hard k_thermal min_freq max_freq =
      if flt thermal soft
      then some max_freq
      else if fle hard thermal
      then some min_freq
      else (let ratio =
            f.sub (nat 1) (f.div (f.mul k_thermal (f.sub thermal soft)) (f.sub hard soft)) in
          scaled max_freq (checked_clamp ratio (f.div min_freq max_freq) (nat 1)))

  module _ ⦃r : RealFunctions W⦄ where
    unfoldable pub lag_step : W → W → W → W → W
    lag_step current target tau_s dt_s =
        if fle tau_s (nat 0)
        then target
        else f.add current
            (f.mul (f.sub target current) (f.sub (nat 1) (r.exp (f.div (r.neg dt_s) tau_s))))

    abbrev lagged : PhysicalState W → Field → Option W → W → W → Option (PhysicalState W)
    lagged s field none tau_s dt_s = none
    lagged s field (some target) tau_s dt_s =
        some (assign s field (lag_step (s.numbers field) target tau_s dt_s))

    abbrev dvfs_cluster :
        PhysicalState W
        → DvfsCluster W
        → Field
        → Field
        → Field
        → Field
        → W
        → Option (PhysicalState W)
    dvfs_cluster s d thermal freq lowest highest dt_s =
        lagged s freq
          (dvfs_target_freq (s.numbers thermal) d.soft_threshold_c d.hard_threshold_c d.k_thermal
            (s.numbers lowest) (s.numbers highest))
          d.tau_s dt_s

    unfoldable pub dvfs_update :
        {E : Type 0} → PhysicalState W → ScenarioConfig E W → W → Option (PhysicalState W)
    dvfs_update s cfg dt_s = do
      s1 ←
          dvfs_cluster s cfg.dvfs.cpu State.cpu_cluster_thermal_c State.cpu_freq_mhz
            State.cpu_min_freq_mhz State.cpu_max_freq_mhz dt_s
      dvfs_cluster s1 cfg.dvfs.gpu State.gpu_cluster_thermal_c State.gpu_freq_mhz
          State.gpu_min_freq_mhz State.gpu_max_freq_mhz dt_s

    -- The target of a cluster: the baseline, the heat of the load, and that of the frequency.
    abbrev target_thermal : ClusterThermalDynamics W → String → W → String → W → W → W → W
    target_thermal d load_key load_default freq_key freq_default load freq_ratio =
        let coeff = or_else load_default (get d.heating load_key) in
        let freq_exp = or_else freq_default (get d.heating freq_key) in
        f.add (f.add d.baseline (f.mul coeff load))
          (f.mul (fmax (f.sub (r.powf freq_ratio freq_exp) (f.lit 1 2)) (nat 0)) (nat 20))

    unfoldable pub heat : {E : Type 0} → PhysicalState W → ScenarioConfig E W → W → PhysicalState W
    heat s cfg dt_s =
        let n = s.numbers in
        let p = cfg.passive_dynamics in
        let cpu_dyn = p.cpu_cluster_thermal_c in
        let gpu_dyn = p.gpu_cluster_thermal_c in
        let cpu_target =
          target_thermal cpu_dyn "engine_cpu_pct_coeff" (f.lit 5 100) "cpu_freq_mhz_exp"
            (f.lit 16 10) (f.add (n State.engine_cpu_pct) (n State.external_cpu_pct))
            (f.div (n State.cpu_freq_mhz) (n State.cpu_max_freq_mhz)) in
        let gpu_target =
          target_thermal gpu_dyn "engine_gpu_pct_coeff" (f.lit 9 100) "gpu_freq_mhz_exp"
            (f.lit 14 10) (f.add (n State.engine_gpu_pct) (n State.external_gpu_pct))
            (f.div (n State.gpu_freq_mhz) (n State.gpu_max_freq_mhz)) in
        let new_cpu = lag_step (n State.cpu_cluster_thermal_c) cpu_target cpu_dyn.tau_s dt_s in
        let new_gpu = lag_step (n State.gpu_cluster_thermal_c) gpu_target gpu_dyn.tau_s dt_s in
        let coupling = p.thermal_coupling in
        let gap = f.sub new_cpu new_gpu in
        let gap2 = f.sub new_gpu new_cpu in
        let over = f.mul (f.mul coupling.cpu_to_gpu gap) dt_s in
        let back = f.mul (f.mul coupling.gpu_to_cpu gap2) dt_s in
        assign (assign s State.cpu_cluster_thermal_c (f.add (f.sub new_cpu over) back))
          State.gpu_cluster_thermal_c (f.sub (f.add new_gpu over) back)

  -- The growth of the KV cache, where a token's size is known.
  abbrev grown : PhysicalState W → W → Option ℕ → PhysicalState W
  grown s dt_s none = s
  grown s dt_s (some bytes_per_token) =
      let tps = s.numbers State.throughput_tps in
      let tokens = if flt (nat 0) tps then f.mul tps dt_s else nat 1 in
      let growth = f.mul (f.of_nat bytes_per_token) tokens in
      assign s State.kv_cache_bytes (
        fmin (f.add (s.numbers State.kv_cache_bytes) growth)
          (s.numbers State.kv_cache_capacity_bytes))

  unfoldable pub grow :
      {E : Type 0} → PhysicalState W → EngineStateModel W → KvCacheGrowth E → W → PhysicalState W
  grow s e g dt_s =
      if str_eq e.phase "decode" || str_eq e.phase "prefill"
      then grown s dt_s (get g.growth_per_token s.kv_dtype)
      else s

  module _ ⦃r : RealFunctions W⦄ where
    unfoldable pub passive_dynamics :
        {E : Type 0}
        → PhysicalState W
        → EngineStateModel W
        → ScenarioConfig E W
        → W
        → PhysicalState W
    passive_dynamics s e cfg dt_s =
        grow (heat s cfg dt_s) e cfg.passive_dynamics.kv_cache_bytes dt_s

    abbrev delta_of : ExternalInjection W → Option W
    delta_of i = elim i.delta [ some d ↦ some d | none ↦ i.delta_mb ]

    abbrev toward : ExternalInjection W → W → Option W → W → W
    toward i target none dt_s = target
    toward i target (some current) dt_s =
        if flt (nat 0) i.tau_s then lag_step current target i.tau_s dt_s else target

    abbrev injected : PhysicalState W → ExternalInjection W → W → W → PhysicalState W
    injected s i delta dt_s =
        if str_eq i.op "add"
        then elim (get_f64 s i.variable) [
          | none ↦ s
          | some current ↦
              (set_f64 s i.variable (toward i (f.add current delta) (some current) dt_s)).0
        ]
        else if str_eq i.op "set"
        then (set_f64 s i.variable (toward i delta (get_f64 s i.variable) dt_s)).0
        else s

    abbrev inject : PhysicalState W → ExternalInjection W → W → W → PhysicalState W
    inject s i now_s dt_s =
        if fle i.t_start now_s && flt now_s (f.add i.t_start i.duration)
        then elim (delta_of i) [ none ↦ s | some delta ↦ injected s i delta dt_s ]
        else s

    unfoldable pub external_injection_apply :
        PhysicalState W → List (ExternalInjection W) → W → W → PhysicalState W
    external_injection_apply s [] now_s dt_s = s
    external_injection_apply s (i ∷ is) now_s dt_s =
        external_injection_apply (inject s i now_s dt_s) is now_s dt_s
