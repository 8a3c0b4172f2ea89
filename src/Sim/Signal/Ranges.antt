-- ===== src/Sim/Signal/Ranges.antt =====
-- The ranges of the values in the signals of src/sim/signal.rs.
use Prim.Native.String.{String}
use argus_manager.Prelude.{
  ◌≡◌, ◌≢◌, refl, ◌⊎◌, inl, inr, Bool, true, false, Option, none, some, arith, if◌then◌else◌,
}
use argus_manager.Float.{Float, IsIeee, fle, flt, clamp, nat}
use argus_manager.Signal.{
  Level, EnergyReason, SystemSignal, memory_pressure, compute_guidance, thermal_alert,
  energy_constraint,
}
use argus_manager.Monitor.Thermal.{thermal_level_from_temp_c}
use argus_manager.Monitor.Compute.{compute_level_from_pcts}
use argus_manager.Policy.State.Pressure.{IsUnitOrNan, clamp-IsUnitOrNan}
use argus_manager.Sim.Config.{ScenarioConfig}
use argus_manager.Sim.Event.{EventKind}
use argus_manager.Sim.State.{PhysicalState, thermal_c, cpu_freq_mhz, cpu_max_freq_mhz}
use argus_manager.Sim.Expr.{fmin}
use argus_manager.Sim.Signal.{
  IntCasts, noisy_cpu, energy_level, derive_signal, derive_memory_signal, derive_compute_signal,
  derive_thermal_signal, derive_energy_signal,
}

energy_levels :
    (l : Level)
    → ((energy_level l).0 ≢ Level.warning)
      × (((energy_level l).1 ≡ EnergyReason.none) ⊎ ((energy_level l).0 ≢ Level.normal))
energy_levels Level.normal = ((λ e. cc), inl refl)
energy_levels Level.warning = ((λ e. cc), inl refl)
energy_levels Level.critical = ((λ e. cc), inr (λ e. cc))
energy_levels Level.emergency = ((λ e. cc), inr (λ e. cc))

below_emergency :
    (b c : Bool)
    → (if b then Level.critical else if c then Level.warning else Level.normal) ≢ Level.emergency
below_emergency true c e = cc
below_emergency false true e = cc
below_emergency false false e = cc

module _ {W : Type 0} ⦃f : Float W⦄ where
  -- A NaN, or at most 100.
  abbrev pub IsPercentOrNan : W → Type 0
  IsPercentOrNan x = (fle x x ≡ false) ⊎ (fle x (nat 100) ≡ true)

  -- What a signal of the simulator may say.
  abbrev pub IsInRange : Option (SystemSignal W) → Type 0
  IsInRange none = Unit {0}
  IsInRange (some (memory_pressure l a t r)) = Unit {0}
  IsInRange (some (compute_guidance l b r cpu gpu)) =
      (l ≢ Level.emergency) × IsPercentOrNan cpu × IsPercentOrNan gpu
  IsInRange (some (thermal_alert l t a ratio)) = IsUnitOrNan ratio
  IsInRange (some (energy_constraint l r p)) =
      (l ≢ Level.warning) × ((r ≡ EnergyReason.none) ⊎ (l ≢ Level.normal))

  ratio-IsUnitOrNan :
      IsIeee W → (b : Bool) (x : W) → IsUnitOrNan (if b then clamp x (nat 0) (nat 1) else nat 1)
  ratio-IsUnitOrNan L true x = clamp-IsUnitOrNan L x
  ratio-IsUnitOrNan L false x = inr (L.lit_mono 0 1 1 (omega arith), L.lit_mono 1 1 1 (omega arith))

  clamp_percent : IsIeee W → (x : W) → IsPercentOrNan (clamp x (nat 0) (nat 100))
  clamp_percent L x = ground (
    arith,
    L.lit_mono 0 100 1,
    L.lit_mono 100 100 1,
    λ (n : fle x x ≡ true). L.le_total x (nat 100) n (L.lit_mono 100 100 1 (omega arith)),
  )

  fmin-IsPercentOrNan : IsIeee W → (x : W) → IsPercentOrNan (fmin x (nat 100))
  fmin-IsPercentOrNan L x = ground (arith, L.lit_mono 100 100 1)

  noisy_cpu-IsPercentOrNan :
      IsIeee W
      → (usage : W) (rng : Option (String → W)) → IsPercentOrNan usage
      → IsPercentOrNan (noisy_cpu usage rng)
  noisy_cpu-IsPercentOrNan L usage none h = h
  noisy_cpu-IsPercentOrNan L usage (some normal) h = clamp_percent L _

  level-ne-emergency : (cpu gpu : W) → compute_level_from_pcts cpu gpu ≢ Level.emergency
  unfolding compute_level_from_pcts
  level-ne-emergency cpu gpu = below_emergency _ _

  -- Whatever the state, the noise and the kind of event: the usages that a signal of the simulator
  -- reports are NaN or at most 100 and its compute level is never Emergency; its throttle ratio is
  -- NaN or from 0 to 1; its energy level is never Warning, and the reason it gives is none unless
  -- the level is above Normal.
  pub derive_signal-IsInRange :
      ⦃c : IntCasts W⦄
      → {E : Type 0} → IsIeee W
      → (kind : EventKind) (s : PhysicalState W) (cfg : ScenarioConfig E W)
        (rng : Option (String → W))
      → IsInRange (derive_signal kind s cfg rng)
  unfolding derive_signal derive_memory_signal derive_compute_signal derive_thermal_signal
      derive_energy_signal
  derive_signal-IsInRange L EventKind.heartbeat s cfg rng = tt
  derive_signal-IsInRange L EventKind.signal_memory s cfg rng = tt
  derive_signal-IsInRange L EventKind.signal_compute s cfg rng = (
    level-ne-emergency _ _,
    noisy_cpu-IsPercentOrNan L _ rng (fmin-IsPercentOrNan L _),
    fmin-IsPercentOrNan L _,
  )
  derive_signal-IsInRange L EventKind.signal_thermal s cfg rng =
      ratio-IsUnitOrNan L (flt (nat 0) (s.numbers cpu_max_freq_mhz))
        (f.div (s.numbers cpu_freq_mhz) (s.numbers cpu_max_freq_mhz))
  derive_signal-IsInRange L EventKind.signal_energy s cfg rng =
      energy_levels (thermal_level_from_temp_c (s.numbers thermal_c))
  derive_signal-IsInRange L (EventKind.observation_due action recorded) s cfg rng = tt
  derive_signal-IsInRange L (EventKind.external_injection_start i) s cfg rng = tt
  derive_signal-IsInRange L (EventKind.external_injection_end i) s cfg rng = tt
  derive_signal-IsInRange L (EventKind.custom name) s cfg rng = tt
