-- ===== src/Signal/Dbus.antt =====
-- The D-Bus names of the enums: `from_dbus_str` of src/signal.rs and the printers of
-- src/emitter/dbus.rs.
use Prim.Native.String.{String}
use text.Mathlib.Text.{◌==◌}
use text.Mathlib.TextEquality.{eq_iff}
use argus_manager.Prelude.{◌≡◌, refl, ◌↔◌, Option, none, some, arith, if◌then◌else◌}
use argus_manager.Signal.{Level, RecommendedBackend, ComputeReason, EnergyReason}

unfoldable pub level_to_str : Level → String
level_to_str Level.normal = "normal"
level_to_str Level.warning = "warning"
level_to_str Level.critical = "critical"
level_to_str Level.emergency = "emergency"

unfoldable pub backend_to_str : RecommendedBackend → String
backend_to_str RecommendedBackend.cpu = "cpu"
backend_to_str RecommendedBackend.gpu = "gpu"
backend_to_str RecommendedBackend.any = "any"

unfoldable pub compute_reason_to_str : ComputeReason → String
compute_reason_to_str ComputeReason.cpu_bottleneck = "cpu_bottleneck"
compute_reason_to_str ComputeReason.gpu_bottleneck = "gpu_bottleneck"
compute_reason_to_str ComputeReason.cpu_available = "cpu_available"
compute_reason_to_str ComputeReason.gpu_available = "gpu_available"
compute_reason_to_str ComputeReason.both_loaded = "both_loaded"
compute_reason_to_str ComputeReason.balanced = "balanced"

unfoldable pub energy_reason_to_str : EnergyReason → String
energy_reason_to_str EnergyReason.battery_low = "battery_low"
energy_reason_to_str EnergyReason.battery_critical = "battery_critical"
energy_reason_to_str EnergyReason.power_limit = "power_limit"
energy_reason_to_str EnergyReason.thermal_power = "thermal_power"
energy_reason_to_str EnergyReason.charging = "charging"
energy_reason_to_str EnergyReason.none = "none"

unfoldable pub level_from_dbus_str : String → Option Level
level_from_dbus_str s =
    if s == "normal"
    then some Level.normal
    else if s == "warning"
    then some Level.warning
    else if s == "critical"
    then some Level.critical
    else if s == "emergency"
    then some Level.emergency
    else none

unfoldable pub backend_from_dbus_str : String → Option RecommendedBackend
backend_from_dbus_str s =
    if s == "cpu"
    then some RecommendedBackend.cpu
    else if s == "gpu"
    then some RecommendedBackend.gpu
    else if s == "any"
    then some RecommendedBackend.any
    else none

unfoldable pub compute_reason_from_dbus_str : String → Option ComputeReason
compute_reason_from_dbus_str s =
    if s == "cpu_bottleneck"
    then some ComputeReason.cpu_bottleneck
    else if s == "gpu_bottleneck"
    then some ComputeReason.gpu_bottleneck
    else if s == "cpu_available"
    then some ComputeReason.cpu_available
    else if s == "gpu_available"
    then some ComputeReason.gpu_available
    else if s == "both_loaded"
    then some ComputeReason.both_loaded
    else if s == "balanced"
    then some ComputeReason.balanced
    else none

unfoldable pub energy_reason_from_dbus_str : String → Option EnergyReason
energy_reason_from_dbus_str s =
    if s == "battery_low"
    then some EnergyReason.battery_low
    else if s == "battery_critical"
    then some EnergyReason.battery_critical
    else if s == "power_limit"
    then some EnergyReason.power_limit
    else if s == "thermal_power"
    then some EnergyReason.thermal_power
    else if s == "charging"
    then some EnergyReason.charging
    else if s == "none"
    then some EnergyReason.none
    else none

level_iff : (s : String) (l : Level) → (level_from_dbus_str s ≡ some l) ↔ (level_to_str l ≡ s)
unfolding level_from_dbus_str level_to_str
level_iff s l = (
  ground (arith, eq_iff s "normal", eq_iff s "warning", eq_iff s "critical", eq_iff s "emergency"),
  elim l as (λ k. level_to_str k ≡ s → level_from_dbus_str s ≡ some k) [
    | Level.normal ↦ λ h. rw (← h) refl
    | Level.warning ↦ λ h. rw (← h) refl
    | Level.critical ↦ λ h. rw (← h) refl
    | Level.emergency ↦ λ h. rw (← h) refl
  ],
)

backend_iff :
    (s : String) (b : RecommendedBackend)
    → (backend_from_dbus_str s ≡ some b) ↔ (backend_to_str b ≡ s)
unfolding backend_from_dbus_str backend_to_str
backend_iff s b = (
  ground (arith, eq_iff s "cpu", eq_iff s "gpu", eq_iff s "any"),
  elim b as (λ k. backend_to_str k ≡ s → backend_from_dbus_str s ≡ some k) [
    | RecommendedBackend.cpu ↦ λ h. rw (← h) refl
    | RecommendedBackend.gpu ↦ λ h. rw (← h) refl
    | RecommendedBackend.any ↦ λ h. rw (← h) refl
  ],
)

compute_reason_iff :
    (s : String) (r : ComputeReason)
    → (compute_reason_from_dbus_str s ≡ some r) ↔ (compute_reason_to_str r ≡ s)
unfolding compute_reason_from_dbus_str compute_reason_to_str
compute_reason_iff s r = (
  ground (
    arith,
    eq_iff s "cpu_bottleneck",
    eq_iff s "gpu_bottleneck",
    eq_iff s "cpu_available",
    eq_iff s "gpu_available",
    eq_iff s "both_loaded",
    eq_iff s "balanced",
  ),
  elim r as (λ k. compute_reason_to_str k ≡ s → compute_reason_from_dbus_str s ≡ some k) [
    | ComputeReason.cpu_bottleneck ↦ λ h. rw (← h) refl
    | ComputeReason.gpu_bottleneck ↦ λ h. rw (← h) refl
    | ComputeReason.cpu_available ↦ λ h. rw (← h) refl
    | ComputeReason.gpu_available ↦ λ h. rw (← h) refl
    | ComputeReason.both_loaded ↦ λ h. rw (← h) refl
    | ComputeReason.balanced ↦ λ h. rw (← h) refl
  ],
)

energy_reason_iff :
    (s : String) (r : EnergyReason)
    → (energy_reason_from_dbus_str s ≡ some r) ↔ (energy_reason_to_str r ≡ s)
unfolding energy_reason_from_dbus_str energy_reason_to_str
energy_reason_iff s r = (
  ground (
    arith,
    eq_iff s "battery_low",
    eq_iff s "battery_critical",
    eq_iff s "power_limit",
    eq_iff s "thermal_power",
    eq_iff s "charging",
    eq_iff s "none",
  ),
  elim r as (λ k. energy_reason_to_str k ≡ s → energy_reason_from_dbus_str s ≡ some k) [
    | EnergyReason.battery_low ↦ λ h. rw (← h) refl
    | EnergyReason.battery_critical ↦ λ h. rw (← h) refl
    | EnergyReason.power_limit ↦ λ h. rw (← h) refl
    | EnergyReason.thermal_power ↦ λ h. rw (← h) refl
    | EnergyReason.charging ↦ λ h. rw (← h) refl
    | EnergyReason.none ↦ λ h. rw (← h) refl
  ],
)

-- For each of the four enums, and whatever the string: reading it gives a value exactly when the
-- string is the one that the value is printed as.
pub from_dbus_str_iff :
    (s : String)
    → ((l : Level) → (level_from_dbus_str s ≡ some l) ↔ (level_to_str l ≡ s))
      × ((b : RecommendedBackend) → (backend_from_dbus_str s ≡ some b) ↔ (backend_to_str b ≡ s))
      × ((r : ComputeReason)
          → (compute_reason_from_dbus_str s ≡ some r) ↔ (compute_reason_to_str r ≡ s))
      × ((r : EnergyReason)
          → (energy_reason_from_dbus_str s ≡ some r) ↔ (energy_reason_to_str r ≡ s))
from_dbus_str_iff s = (level_iff s, backend_iff s, compute_reason_iff s, energy_reason_iff s)
