-- ===== src/Sim/Signal.antt =====
-- src/sim/signal.rs: the signals and heartbeats that the simulator makes of its state, with
-- `gaussian` of src/sim/noise.rs. The next sample of the standard normal distribution in the stream
-- of a seed key is an argument (Sim/Noise has the streams), or none for a
-- simulation without a seed; no stream is read twice for one signal. `W` is `f64`, `S` is `f32`.
pub mod Ranges
use Prim.Native.String.{String}
use argus_manager.Prelude.{
  ℕ, suc, ◌+◌, ◌*◌, ◌^◌, ◌-◌, ◌%◌, Bool, true, false, Option, none, some, ltb, leb, if◌then◌else◌,
  ◌>>=◌,
}
use argus_manager.Prelude.Int.{ℤ, pos, negsuc, sub_ℕ, ◌+ℤ◌, ◌-ℤ◌, max_ℤ, pos_part}
use argus_manager.Float.{Float, fle, flt, feq, clamp, nat}
use argus_manager.Signal.{
  Level, severity, RecommendedBackend, ComputeReason, EnergyReason, SystemSignal, memory_pressure,
  compute_guidance, thermal_alert, energy_constraint,
}
use argus_manager.Config.{ComputeMonitorConfig, default_compute}
use argus_manager.Contract.{EngineMessage, heartbeat, Phase, EngineState}
use argus_manager.Monitor.Memory.{memory_level_from_available_pct, reclaim}
use argus_manager.Monitor.Thermal.{thermal_level_from_temp_c}
use argus_manager.Monitor.Compute.{compute_level_from_pcts, compute_recommendation}
use argus_manager.Sim.Config.{get, NoiseSpec, ScenarioConfig}
use argus_manager.Sim.Event.{EventKind}
use argus_manager.Sim.State
use argus_manager.Sim.State.{PhysicalState}
use argus_manager.Sim.Expr.{or_else, fmin}

-- `x as i64` and `x as i32`.
pub record IntCasts (W : Type 0) : Type 0 where
  pub to_i64 : W → ℤ
  pub to_i32 : W → ℤ

-- What is left of an integer in w + 1 bits, as a signed integer.
abbrev signed : ℕ → ℕ → ℤ
signed w n = if ltb n (2 ^ w) then pos n else sub_ℕ n (2 ^ suc w)

abbrev wrapped : ℕ → ℤ → ℤ
wrapped w (pos n) = signed w (n % 2 ^ suc w)
wrapped w (negsuc n) = signed w (2 ^ suc w - 1 - n % 2 ^ suc w)

unfoldable pub derive_heartbeat : {S : Type 0} ⦃g : Float S⦄ → EngineMessage S
derive_heartbeat ⦃g = g⦄ = heartbeat record {
  kv_cache_bytes = 1024;
  kv_cache_budget_bytes = 4096;
  kv_cache_tokens = 32;
  tbt_ms = g.lit 25 2;
  phase = Phase.decode;
  state = EngineState.running;
}

-- The level of the energy signal, from that of the temperature.
abbrev pub energy_level : Level → Level × EnergyReason
energy_level Level.emergency = (Level.emergency, EnergyReason.thermal_power)
energy_level Level.critical = (Level.critical, EnergyReason.thermal_power)
energy_level Level.warning = (Level.normal, EnergyReason.none)
energy_level Level.normal = (Level.normal, EnergyReason.none)

module _ {W : Type 0} ⦃f : Float W⦄ where
  -- `gaussian`, for a sample of the key's stream.
  unfoldable pub gaussian : (String → W) → String → W → W
  gaussian normal seed_key sigma =
      if feq sigma (nat 0) then nat 0 else f.mul (normal seed_key) sigma

  abbrev noise_of : Option (String → W) → String → Option W → W
  noise_of none seed_key sigma = nat 0
  noise_of (some normal) seed_key sigma = gaussian normal seed_key (or_else (nat 0) sigma)

  abbrev bytes_of_mb : W → W
  bytes_of_mb mb = f.mul (f.mul mb (nat 1024)) (nat 1024)

  abbrev pub noisy_cpu : W → Option (String → W) → W
  noisy_cpu usage none = usage
  noisy_cpu usage (some normal) =
      clamp (f.add usage (gaussian normal "sig.cpu" (f.lit 1 2))) (nat 0) (nat 100)

  unfoldable pub sim_compute_recommendation : W → W → W → W → RecommendedBackend × ComputeReason
  sim_compute_recommendation cpu_pct gpu_pct gpu_thermal_c warning_pct =
      if leb 2 (severity (thermal_level_from_temp_c gpu_thermal_c))
      then (RecommendedBackend.cpu, ComputeReason.gpu_bottleneck)
      else compute_recommendation cpu_pct gpu_pct warning_pct

  unfoldable pub derive_compute_signal : PhysicalState W → Option (String → W) → SystemSignal W
  derive_compute_signal s rng =
      let n = s.numbers in
      let usage = fmin (f.add (n State.engine_cpu_pct) (n State.external_cpu_pct)) (nat 100) in
      let gpu = fmin (f.add (n State.engine_gpu_pct) (n State.external_gpu_pct)) (nat 100) in
      let cpu = noisy_cpu usage rng in
      let defaults : ComputeMonitorConfig W = default_compute in
      let (backend, reason) =
        sim_compute_recommendation cpu gpu (n State.gpu_cluster_thermal_c) defaults.warning_pct in
      compute_guidance (compute_level_from_pcts cpu gpu) backend reason cpu gpu

  module _ ⦃c : IntCasts W⦄ where
    unfoldable pub derive_memory_signal :
        {E : Type 0} → PhysicalState W → ScenarioConfig E W → Option (String → W) → SystemSignal W
    derive_memory_signal s cfg rng =
        let total_bytes = f.to_u64 (bytes_of_mb (s.numbers State.device_memory_total_mb)) in
        let sigma =
          get cfg.observation.signals.memory.noise "available_bytes" >>= (λ n. n.sigma_mb) in
        let noise_bytes = c.to_i64 (bytes_of_mb (noise_of rng "sig.mem" sigma)) in
        let used_bytes = c.to_i64 (bytes_of_mb (s.numbers State.device_memory_used_mb)) in
        let free = wrapped 63 (wrapped 63 (signed 63 total_bytes -ℤ used_bytes) +ℤ noise_bytes) in
        let available_bytes = pos_part (max_ℤ free (pos 0)) in
        let available_pct =
          if ltb 0 total_bytes
          then f.mul (f.div (f.of_nat available_bytes) (f.of_nat total_bytes)) (nat 100)
          else nat 100 in
        let level = memory_level_from_available_pct available_pct in
        memory_pressure level available_bytes total_bytes (reclaim W level total_bytes)

    unfoldable pub derive_thermal_signal :
        {E : Type 0} → PhysicalState W → ScenarioConfig E W → Option (String → W) → SystemSignal W
    derive_thermal_signal s cfg rng =
        let n = s.numbers in
        let sigma =
          get cfg.observation.signals.thermal.noise "temperature_mc" >>= (λ n. n.sigma_mc) in
        let noise_c = noise_of rng "sig.therm" (some (f.div (or_else (nat 0) sigma) (nat 1000))) in
        let temp_c = f.add (n State.thermal_c) noise_c in
        let ratio =
          if flt (nat 0) (n State.cpu_max_freq_mhz)
          then clamp (f.div (n State.cpu_freq_mhz) (n State.cpu_max_freq_mhz)) (nat 0) (nat 1)
          else nat 1 in
        thermal_alert (thermal_level_from_temp_c temp_c) (c.to_i32 (f.mul temp_c (nat 1000)))
          (fle cfg.dvfs.cpu.soft_threshold_c (n State.thermal_c)) ratio

    unfoldable pub derive_energy_signal : PhysicalState W → Option (String → W) → SystemSignal W
    derive_energy_signal s rng =
        let noise_mw = c.to_i32 (noise_of rng "sig.energy" (some (nat 100))) in
        let power_budget_mw = pos_part (max_ℤ (wrapped 31 (pos 5000 +ℤ noise_mw)) (pos 0)) in
        let (level, reason) =
          energy_level (thermal_level_from_temp_c (s.numbers State.thermal_c)) in
        energy_constraint level reason power_budget_mw

    unfoldable pub derive_signal :
        {E : Type 0}
        → EventKind
        → PhysicalState W
        → ScenarioConfig E W
        → Option (String → W)
        → Option (SystemSignal W)
    derive_signal EventKind.signal_memory s cfg rng = some (derive_memory_signal s cfg rng)
    derive_signal EventKind.signal_compute s cfg rng = some (derive_compute_signal s rng)
    derive_signal EventKind.signal_thermal s cfg rng = some (derive_thermal_signal s cfg rng)
    derive_signal EventKind.signal_energy s cfg rng = some (derive_energy_signal s rng)
    derive_signal _ s cfg rng = none
