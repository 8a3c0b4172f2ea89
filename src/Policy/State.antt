-- ===== src/Policy/State.antt =====
-- src/policy/common/state.rs. `W` is `f64`, `S` is `f32`; a `u32` counter wraps at 2^32.
pub mod Pressure
pub mod Triggers
pub mod Warmup
use argus_manager.Prelude.{
  ℕ, ◌+◌, ◌%◌, ◌^◌, Bool, true, false, ◌||◌, not, Option, none, some, ltb, leb, ◌==◌, if◌then◌else◌,
}
use mathlib.Core.Option
use argus_manager.Prelude.Int.{ℤ, pos}
use argus_manager.Float.{Float, Casts, fle, flt, clamp, nat}
use argus_manager.Config.{TriggerConfig}

pub record Pressure6D (S : Type 0) : Type 0 where
  pub gpu : S
  pub cpu : S
  pub memory : S
  pub thermal : S
  pub latency : S
  pub main_app : S

pub record SignalState (W : Type 0) : Type 0 where
  pub cpu_pct : W
  pub gpu_pct : W
  pub mem_available : ℕ
  pub mem_total : ℕ
  pub temp_mc : ℤ
  pub throttling : Bool

pub record TriggerState : Type 0 where
  pub tbt_degraded : Bool
  pub mem_low : Bool
  pub temp_high : Bool

abbrev pub default_trigger_state : TriggerState
default_trigger_state = record { tbt_degraded = false; mem_low = false; temp_high = false }

pub record TbtTracker (W : Type 0) : Type 0 where
  pub ewma : W
  pub baseline : Option W
  pub warmup_count : ℕ
  pub warmup_target : ℕ

pub record TriggerEngine (W : Type 0) : Type 0 where
  pub config : TriggerConfig W
  pub tbt : TbtTracker W
  pub trigger : TriggerState

module _ {W : Type 0} ⦃f : Float W⦄ where
  abbrev pub default_signal_state : SignalState W
  default_signal_state = record {
    cpu_pct = nat 0;
    gpu_pct = nat 0;
    mem_available = 0;
    mem_total = 0;
    temp_mc = pos 0;
    throttling = false;
  }

  abbrev pub update_compute : SignalState W → W → W → SignalState W
  update_compute s cpu_pct gpu_pct = record s { cpu_pct = cpu_pct; gpu_pct = gpu_pct }

  abbrev pub update_memory : SignalState W → ℕ → ℕ → SignalState W
  update_memory s available total = record s { mem_available = available; mem_total = total }

  abbrev pub update_thermal : SignalState W → ℤ → Bool → SignalState W
  update_thermal s temp_mc throttling = record s { temp_mc = temp_mc; throttling = throttling }

  unfoldable pub new_tracker : ℕ → TbtTracker W
  new_tracker warmup_target = record {
    ewma = nat 0;
    baseline = none;
    warmup_count = 0;
    warmup_target = warmup_target;
  }

  abbrev smoothed : TbtTracker W → W → W
  smoothed t tbt_ms =
      if t.warmup_count == 0
      then tbt_ms
      else f.add (f.mul (f.lit 875 1000) t.ewma) (f.mul (f.lit 125 1000) tbt_ms)

  abbrev baseline_at : Option W → ℕ → ℕ → W → Option W
  baseline_at none count target ewma = if leb target count then some ewma else none
  baseline_at (some b) count target ewma = some b

  unfoldable pub observe : TbtTracker W → W → TbtTracker W
  observe t tbt_ms =
      let ewma = smoothed t tbt_ms in
      let count = (t.warmup_count + 1) % 2 ^ 32 in
      record t {
        ewma = ewma;
        warmup_count = count;
        baseline = baseline_at t.baseline count t.warmup_target ewma;
      }

  unfoldable pub degradation_ratio : TbtTracker W → Option W
  degradation_ratio t =
      Option.map (λ b. if flt (nat 0) b then f.div (f.sub t.ewma b) b else nat 0) t.baseline

  unfoldable pub new_engine : TriggerConfig W → TriggerEngine W
  unfolding new_tracker
  new_engine config = record {
    config = config;
    tbt = new_tracker config.tbt_warmup_tokens;
    trigger = default_trigger_state;
  }

  -- The `if let Some(ratio)` of `update_tbt_ms`.
  abbrev degraded : TriggerConfig W → Option W → Bool → Bool
  degraded config none flag = flag
  degraded config (some ratio) flag =
      if flag
      then if flt ratio config.tbt_exit then false else flag
      else if flt config.tbt_enter ratio
      then true
      else flag

  unfoldable pub update_tbt_ms : TriggerEngine W → W → TriggerEngine W
  update_tbt_ms e tbt_ms =
      if not (f.is_finite tbt_ms) || fle tbt_ms (nat 0)
      then e
      else let tbt = observe e.tbt tbt_ms in
        record e {
          tbt = tbt;
          trigger = record (e.trigger) {
            tbt_degraded = degraded e.config (degradation_ratio tbt) e.trigger.tbt_degraded;
          };
        }

  unfoldable pub update_mem : TriggerEngine W → W → TriggerEngine W
  update_mem e pressure =
      if e.trigger.mem_low
      then if flt pressure e.config.mem_exit
        then record e { trigger = record (e.trigger) { mem_low = false } }
        else e
      else if flt e.config.mem_enter pressure
      then record e { trigger = record (e.trigger) { mem_low = true } }
      else e

  unfoldable pub update_temp : TriggerEngine W → W → TriggerEngine W
  update_temp e normalized =
      if e.trigger.temp_high
      then if flt normalized e.config.temp_exit
        then record e { trigger = record (e.trigger) { temp_high = false } }
        else e
      else if flt e.config.temp_enter normalized
      then record e { trigger = record (e.trigger) { temp_high = true } }
      else e

  abbrev latency_or_zero : Option W → W
  latency_or_zero none = nat 0
  latency_or_zero (some r) = r

module _ {W S : Type 0} ⦃f : Float W⦄ ⦃g : Float S⦄ ⦃c : Casts W S⦄ where
  unfoldable pub pressure_with_thermal : SignalState W → S → S → Option W → Pressure6D S
  pressure_with_thermal s temp_safe_c temp_critical_c latency_ratio =
      let mem_pressure =
        if ltb 0 s.mem_total
        then g.sub (nat 1) (g.div (g.of_nat s.mem_available) (g.of_nat s.mem_total))
        else nat 0 in
      let temp_c = g.div (g.of_int s.temp_mc) (nat 1000) in
      let temp_range = g.sub temp_critical_c temp_safe_c in
      let thermal =
        if flt (nat 0) temp_range
        then clamp (g.div (g.sub temp_c temp_safe_c) temp_range) (nat 0) (nat 1)
        else nat 0 in
      record {
        gpu = clamp (g.div (c.narrow s.gpu_pct) (nat 100)) (nat 0) (nat 1);
        cpu = clamp (g.div (c.narrow s.cpu_pct) (nat 100)) (nat 0) (nat 1);
        memory = clamp mem_pressure (nat 0) (nat 1);
        thermal = thermal;
        latency = c.narrow (latency_or_zero latency_ratio);
        main_app = nat 0;
      }
