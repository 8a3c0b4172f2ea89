-- ===== src/Monitor/Compute.antt =====
-- src/monitor/compute.rs. The fields of the first line of /proc/stat that parse, and the GPU's
-- utilisation that the shared provider reports, are arguments. Counters are `u64`: a difference
-- saturates at 0, a sum wraps, and `total_delta - idle_delta` wraps (where the source's build
-- checks for overflow it panics there instead).
pub mod Advice
pub mod NoEmergency
use Prim.Native.String.{String}
use argus_manager.Prelude.{
  ℕ, ◌+◌, ◌-◌, ◌%◌, ◌^◌, Bool, true, false, Option, none, some, List, [], ◌∷◌, ltb, leb,
  if◌then◌else◌,
}
use argus_manager.Float.{Float, fle, flt, fmax, nat}
use argus_manager.Signal.{Level, RecommendedBackend, ComputeReason, SystemSignal, compute_guidance}
use argus_manager.Config.{
  ComputeMonitorConfig, default_compute, GpuBackend, auto, null, sysfs, custom_sysfs, jetson,
  jetson_explicit,
}
use argus_manager.Evaluator.{ThresholdEvaluator, ascending, evaluate}
use argus_manager.Evaluator
use argus_manager.Monitor.Memory.{interval}

pub record CpuSnapshot : Type 0 where
  pub total : ℕ
  pub idle : ℕ

pub record ComputeMonitor (W : Type 0) : Type 0 where
  pub poll_interval : ℕ  -- in milliseconds
  pub evaluator : ThresholdEvaluator W
  pub warning_usage_pct : W
  pub prev_snapshot : Option CpuSnapshot
  pub last_cpu : W
  pub last_gpu : W
  pub recommended : RecommendedBackend
  pub reason : ComputeReason

-- `fields.iter().sum()`
abbrev pub sum : List ℕ → ℕ
sum [] = 0
sum (x ∷ xs) = (x + sum xs) % 2 ^ 64

-- Fewer than four fields, or a file that cannot be read, is an error.
unfoldable pub read_cpu_snapshot : List ℕ → Option CpuSnapshot
read_cpu_snapshot (user ∷ nice ∷ system ∷ idle ∷ fields) =
    some record { total = sum (user ∷ nice ∷ system ∷ idle ∷ fields); idle = idle }
read_cpu_snapshot _ = none

abbrev custom_or_auto : Option String → GpuBackend
custom_or_auto none = auto
custom_or_auto (some path) = custom_sysfs path

-- The backend in effect: a deprecated path stands for `auto` only.
abbrev pub effective : GpuBackend → Option String → GpuBackend
effective auto path = custom_or_auto path
effective null path = null
effective sysfs path = sysfs
effective (custom_sysfs p) path = custom_sysfs p
effective jetson path = jetson
effective (jetson_explicit f t) path = jetson_explicit f t

abbrev pub resolve_backend : {W : Type 0} → ComputeMonitorConfig W → GpuBackend
resolve_backend config = effective config.gpu_backend config.gpu_sysfs_path

module _ {W : Type 0} ⦃f : Float W⦄ where
  unfoldable pub compute_level_from_pcts : W → W → Level
  compute_level_from_pcts cpu_pct gpu_pct =
      let cfg : ComputeMonitorConfig W = default_compute in
      let worst = fmax cpu_pct gpu_pct in
      if fle cfg.critical_pct worst
      then Level.critical
      else if fle cfg.warning_pct worst
      then Level.warning
      else Level.normal

  unfoldable pub compute_recommendation : W → W → W → RecommendedBackend × ComputeReason
  compute_recommendation cpu gpu warning_pct =
      if fle warning_pct cpu
      then if fle warning_pct gpu
        then (RecommendedBackend.any, ComputeReason.both_loaded)
        else (RecommendedBackend.gpu, ComputeReason.cpu_bottleneck)
      else if fle warning_pct gpu
      then (RecommendedBackend.cpu, ComputeReason.gpu_bottleneck)
      else if flt (f.abs (f.sub cpu gpu)) (nat 10)
      then (RecommendedBackend.any, ComputeReason.balanced)
      else if flt cpu gpu
      then (RecommendedBackend.cpu, ComputeReason.cpu_available)
      else (RecommendedBackend.gpu, ComputeReason.gpu_available)

  unfoldable pub new : ComputeMonitorConfig W → ℕ → ComputeMonitor W
  unfolding Evaluator.new
  new config default_poll_ms = record {
    poll_interval = interval config.poll_interval_ms default_poll_ms;
    evaluator = Evaluator.new ascending record {
      warning = config.warning_pct;
      critical = config.critical_pct;
      emergency = f.max_value;
      hysteresis = config.hysteresis_pct;
    };
    warning_usage_pct = config.warning_pct;
    prev_snapshot = none;
    last_cpu = nat 0;
    last_gpu = nat 0;
    recommended = RecommendedBackend.any;
    reason = ComputeReason.balanced;
  }

  -- The CPU's share of work between two snapshots.
  abbrev pub cpu_usage : CpuSnapshot → CpuSnapshot → W
  cpu_usage prev snap =
      let total_delta = snap.total - prev.total in
      let idle_delta = snap.idle - prev.idle in
      if ltb 0 total_delta
      then f.mul
          (f.div (f.of_nat ((total_delta + 2 ^ 64 - idle_delta) % 2 ^ 64)) (f.of_nat total_delta))
          (nat 100)
      else nat 0

  -- `read_gpu()`: nothing to report is 0.
  abbrev pub or_zero : Option W → W
  or_zero none = nat 0
  or_zero (some pct) = pct

  abbrev since :
      ComputeMonitor W → Option CpuSnapshot → CpuSnapshot → Option W → ComputeMonitor W × Bool
  since m none snap gpu = (m, false)
  since m (some prev) snap gpu =
      (record m { last_cpu = cpu_usage prev snap; last_gpu = or_zero gpu }, true)

  -- The monitor, and whether there was an earlier snapshot to compare with.
  unfoldable pub read_once : ComputeMonitor W → CpuSnapshot → Option W → ComputeMonitor W × Bool
  read_once m snap gpu =
      let (n, has_delta) = since m m.prev_snapshot snap gpu in
      (record n { prev_snapshot = some snap }, has_delta)

  unfoldable pub build_signal : ComputeMonitor W → SystemSignal W
  build_signal m = compute_guidance m.evaluator.current m.recommended m.reason m.last_cpu m.last_gpu

  -- The arm for `Ok(true)` in `run`.
  abbrev pub assessed : ComputeMonitor W → ComputeMonitor W
  assessed m =
      let (backend, reason) = compute_recommendation m.last_cpu m.last_gpu m.warning_usage_pct in
      record m {
        evaluator = (evaluate m.evaluator (fmax m.last_cpu m.last_gpu)).0;
        recommended = backend;
        reason = reason;
      }

  abbrev pub polled :
      ComputeMonitor W → Option CpuSnapshot → Option W → ComputeMonitor W × Option (SystemSignal W)
  polled m none gpu = (m, none)
  polled m (some snap) gpu =
      let (n, has_delta) = read_once m snap gpu in
      if has_delta then (assessed n, some (build_signal (assessed n))) else (n, none)

  -- One turn of the loop in `run`.
  unfoldable pub poll :
      ComputeMonitor W → List ℕ → Option W → ComputeMonitor W × Option (SystemSignal W)
  poll m fields gpu = polled m (read_cpu_snapshot fields) gpu
