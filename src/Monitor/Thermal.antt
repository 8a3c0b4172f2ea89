-- ===== src/Monitor/Thermal.antt =====
-- src/monitor/thermal.rs. The files under the thermal directory are an argument (`ThermalDir`):
-- what reading one and parsing its trimmed content gives. Temperatures are `i32` in millidegrees.
pub mod Zones
pub mod Hottest
use Prim.Native.String.{String}
use text.Mathlib.Text.{◌==◌}
use argus_manager.Prelude.{
  ℕ, zero, suc, ◌+◌, Bool, true, false, ◌||◌, Option, none, some, List, [], ◌∷◌, ◌++◌, map, ltb,
  if◌then◌else◌,
}
use argus_manager.Prelude.Int.{ℤ, pos, max_ℤ}
use argus_manager.Float.{Float, fle, nat}
use argus_manager.Signal.{Level, SystemSignal, thermal_alert}
use argus_manager.Config.{ThermalMonitorConfig, default_thermal}
use argus_manager.Evaluator.{ThresholdEvaluator, ascending, evaluate}
use argus_manager.Evaluator
use argus_manager.Monitor.Memory.{interval}

-- A file that cannot be read is `missing`, one that does not parse `garbled`.
pub data File (A : Type 0) : Type 0 where
  missing garbled : File A
  content : A → File A

pub record ThermalDir : Type 0 where
  pub temp_exists : ℕ → Bool
  pub zone_type : ℕ → Option String
  pub temp : ℕ → File ℤ
  pub cur_state : ℕ → File ℕ

pub record ThermalMonitor (W : Type 0) : Type 0 where
  pub poll_interval : ℕ  -- in milliseconds
  pub evaluator : ThresholdEvaluator W
  pub zone_indices : List ℕ
  pub zone_type_filter : List String
  pub zones_discovered : Bool
  pub last_temp_mc : ℤ
  pub last_throttling : Bool

-- `unwrap_or_default()`
abbrev type_or_empty : Option String → String
type_or_empty none = ""
type_or_empty (some t) = t

-- The loop over `i`, for n indices from `i` on.
unfoldable pub all_zones : ThermalDir → ℕ → ℕ → List (ℕ × String)
all_zones dir zero i = []
all_zones dir (suc n) i =
    let rest = all_zones dir n (i + 1) in
    if dir.temp_exists i then (i, type_or_empty (dir.zone_type i)) ∷ rest else rest

abbrev pub any_eq : String → List String → Bool
any_eq t [] = false
any_eq t (x ∷ xs) = t == x || any_eq t xs

unfoldable pub matching : List String → List (ℕ × String) → List ℕ
matching types [] = []
matching types ((i, t) ∷ zs) =
    let rest = matching types zs in if any_eq t types then i ∷ rest else rest

-- `all_zones.iter().map(|(idx, _)| *idx)`
abbrev pub indices : List (ℕ × String) → List ℕ
indices = map (λ z. z.0)

abbrev pub or_all : List ℕ → List (ℕ × String) → List ℕ
or_all [] zones = indices zones
or_all (i ∷ is) zones = i ∷ is

-- The zones that a filter chooses.
abbrev pub chosen : List String → List (ℕ × String) → List ℕ
chosen [] zones = indices zones
chosen (t ∷ ts) zones = or_all (matching (t ∷ ts) zones) zones

abbrev pub hotter : Option ℤ → ℤ → Option ℤ
hotter none temp = some temp
hotter (some cur) temp = some (max_ℤ cur temp)

abbrev pub seen : Option ℤ → File ℤ → Option ℤ
seen best missing = best
seen best garbled = best
seen best (content temp) = hotter best temp

-- The loop over the zones, with the maximum so far.
abbrev pub max_temp : ThermalDir → List ℕ → Option ℤ → Option ℤ
max_temp dir [] best = best
max_temp dir (i ∷ is) best = max_temp dir is (seen best (dir.temp i))

-- The loop over the cooling devices, for n of them from `i` on.
abbrev pub throttled : ThermalDir → ℕ → ℕ → Bool
throttled dir zero i = false
throttled dir (suc n) i = elim (dir.cur_state i) [
  | missing ↦ false
  | garbled ↦ throttled dir n (i + 1)
  | content s ↦ if ltb 0 s then true else throttled dir n (i + 1)
]

abbrev pub with_throttling : ThermalDir → Option ℤ → Option (ℤ × Bool)
with_throttling dir none = none
with_throttling dir (some t) = some (t, throttled dir 64 0)

unfoldable pub read_thermal_state : ThermalDir → List ℕ → Option (ℤ × Bool)
read_thermal_state dir zone_indices = with_throttling dir (max_temp dir zone_indices none)

module _ {W : Type 0} ⦃f : Float W⦄ where
  unfoldable pub thermal_level_from_temp_c : W → Level
  thermal_level_from_temp_c temp_c =
      let warning_c = f.div (f.of_int default_thermal.warning_mc) (nat 1000) in
      let critical_c = f.div (f.of_int default_thermal.critical_mc) (nat 1000) in
      let emergency_c = f.div (f.of_int default_thermal.emergency_mc) (nat 1000) in
      if fle emergency_c temp_c
      then Level.emergency
      else if fle critical_c temp_c
      then Level.critical
      else if fle warning_c temp_c
      then Level.warning
      else Level.normal

  abbrev pub throttle_ratio_from_level : Level → W
  throttle_ratio_from_level Level.normal = nat 1
  throttle_ratio_from_level Level.warning = nat 1
  throttle_ratio_from_level Level.critical = f.lit 7 10
  throttle_ratio_from_level Level.emergency = f.lit 3 10

  unfoldable pub new : ThermalMonitorConfig → ℕ → ThermalMonitor W
  unfolding Evaluator.new
  new config default_poll_ms = record {
    poll_interval = interval config.poll_interval_ms default_poll_ms;
    evaluator = Evaluator.new ascending record {
      warning = f.of_int config.warning_mc;
      critical = f.of_int config.critical_mc;
      emergency = f.of_int config.emergency_mc;
      hysteresis = f.of_int config.hysteresis_mc;
    };
    zone_indices = [];
    zone_type_filter = config.zone_types;
    zones_discovered = false;
    last_temp_mc = pos 25000;
    last_throttling = false;
  }

  unfoldable pub discover_zones : ThermalMonitor W → ThermalDir → ThermalMonitor W
  discover_zones m dir = record m {
    zone_indices = chosen m.zone_type_filter (all_zones dir 256 0);
    zones_discovered = true;
  }

  abbrev kept : ThermalMonitor W → Option (ℤ × Bool) → ThermalMonitor W × Bool
  kept m none = (m, false)
  kept m (some (temp, throttling)) =
      (record m { last_temp_mc = temp; last_throttling = throttling }, true)

  -- The monitor, and whether the reading succeeded.
  unfoldable pub read_once : ThermalMonitor W → ThermalDir → ThermalMonitor W × Bool
  read_once m dir =
      let d = if m.zones_discovered then m else discover_zones m dir in
      kept d (read_thermal_state dir d.zone_indices)

  unfoldable pub build_signal : ThermalMonitor W → SystemSignal W
  build_signal m =
      thermal_alert m.evaluator.current m.last_temp_mc m.last_throttling
        (throttle_ratio_from_level m.evaluator.current)

  -- One turn of the loop in `run`.
  unfoldable pub poll : ThermalMonitor W → ThermalDir → ThermalMonitor W × Option (SystemSignal W)
  poll m dir =
      let (r, read) = read_once m dir in
      let e = record r { evaluator = (evaluate r.evaluator (f.of_int r.last_temp_mc)).0 } in
      if read then (e, some (build_signal e)) else (r, none)
