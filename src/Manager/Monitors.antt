-- ===== src/Manager/Monitors.antt =====
-- The start of src/main.rs: the monitors that the configuration asks for.
-- `has_battery` is what the energy monitor finds; the external monitor, which reads a pipe or a
-- socket, stands by its configuration.
use argus_manager.Prelude.{
  All-append, ◌≡◌, refl, inl, inr, Bool, Option, none, some, List, [], ◌∷◌, ◌++◌, All, Bool-cases,
  if◌then◌else◌,
}
use argus_manager.Float.{Float}
use argus_manager.Signal.{Level, SystemSignal, level}
use argus_manager.Config.{
  Config, ExternalMonitorConfig, default_memory, default_thermal, default_compute, default_energy,
}
use argus_manager.Monitor.Memory as Memory
use argus_manager.Monitor.Thermal as Thermal
use argus_manager.Monitor.Compute as Compute
use argus_manager.Monitor.Energy as Energy

pub data Monitor (W : Type 0) : Type 0 where
  memory : Memory.MemoryMonitor W → Monitor W
  thermal : Thermal.ThermalMonitor W → Monitor W
  compute : Compute.ComputeMonitor W → Monitor W
  energy : Energy.EnergyMonitor W → Monitor W
  external : ExternalMonitorConfig → Monitor W

-- A section that is missing counts as enabled, with the defaults.
abbrev pub built :
    {A : Type 0} {W : Type 0} → Option A → (A → Bool) → A → (A → Monitor W) → List (Monitor W)
built none enabled default_ make = make default_ ∷ []
built (some c) enabled default_ make = if enabled c then make c ∷ [] else []

abbrev pub built_external : {W : Type 0} → Option ExternalMonitorConfig → List (Monitor W)
built_external none = []
built_external (some c) = if c.enabled then external c ∷ [] else []

module _ {W S : Type 0} ⦃f : Float W⦄ where
  unfoldable pub build_monitors : Config W S → Bool → List (Monitor W)
  build_monitors config has_battery =
      let ms = config.manager.poll_interval_ms in
      built config.memory (λ c. c.enabled) default_memory (λ c. memory (Memory.new c ms))
      ++ built config.thermal (λ c. c.enabled) default_thermal (λ c. thermal (Thermal.new c ms))
      ++ built config.compute (λ c. c.enabled) default_compute (λ c. compute (Compute.new c ms))
      ++ built config.energy (λ c. c.enabled) default_energy
          (λ c. energy (Energy.new c ms has_battery))
      ++ built_external config.external

module _ {W : Type 0} ⦃f : Float W⦄ where
  abbrev pub initial_signal : Monitor W → Option (SystemSignal W)
  initial_signal (memory m) = some (Memory.build_signal m)
  initial_signal (thermal m) = some (Thermal.build_signal m)
  initial_signal (compute m) = some (Compute.build_signal m)
  initial_signal (energy m) = some (Energy.build_signal m)
  initial_signal (external c) = none

  -- `monitors.iter().filter_map(|m| m.initial_signal())`
  abbrev pub cons_some : Option (SystemSignal W) → List (SystemSignal W) → List (SystemSignal W)
  cons_some none ss = ss
  cons_some (some s) ss = s ∷ ss

  abbrev pub initial_signals : List (Monitor W) → List (SystemSignal W)
  initial_signals [] = []
  initial_signals (m ∷ ms) = cons_some (initial_signal m) (initial_signals ms)

  -- The first signal of a monitor, if it has one, is Normal.
  abbrev IsCalm : Monitor W → Type 0
  IsCalm m = All (λ s. level s ≡ Level.normal) (cons_some (initial_signal m) [])

  built-All :
      {A : Type 0} (o : Option A) (enabled : A → Bool) (d : A) (make : A → Monitor W)
      → ((a : A) → IsCalm (make a))
      → All IsCalm (built o enabled d make)
  built-All none enabled d make h = (h d, tt)
  built-All (some c) enabled d make h = elim (Bool-cases (enabled c)) [
    | inl e ↦ rw e (h c, tt)
    | inr e ↦ rw e tt
  ]

  initial_signals-All :
      (ms : List (Monitor W))
      → All IsCalm ms
      → All (λ s. level s ≡ Level.normal) (initial_signals ms)
  initial_signals-All [] h = tt
  initial_signals-All (memory m ∷ ms) h = (h.0.0, initial_signals-All ms h.1)
  initial_signals-All (thermal m ∷ ms) h = (h.0.0, initial_signals-All ms h.1)
  initial_signals-All (compute m ∷ ms) h = (h.0.0, initial_signals-All ms h.1)
  initial_signals-All (energy m ∷ ms) h = (h.0.0, initial_signals-All ms h.1)
  initial_signals-All (external c ∷ ms) h = initial_signals-All ms h.1

built_external-All :
    (W : Type 0) ⦃f : Float W⦄ (o : Option ExternalMonitorConfig)
    → All (IsCalm {W = W}) (built_external {W = W} o)
built_external-All W none = tt
built_external-All W (some c) = elim (Bool-cases c.enabled) [
  | inl e ↦ rw e (tt, tt)
  | inr e ↦ rw e tt
]

module _ {W S : Type 0} ⦃f : Float W⦄ where
  -- Whatever the configuration, the signals that the monitors give at the start are all Normal.
  initial_signals-normal :
      (config : Config W S) (has_battery : Bool)
      → All (λ s. level s ≡ Level.normal) (initial_signals (build_monitors config has_battery))
  unfolding build_monitors Memory.new Memory.build_signal Thermal.new Thermal.build_signal
      Compute.new Compute.build_signal Energy.new Energy.build_signal
  initial_signals-normal config has_battery =
      initial_signals-All (build_monitors config has_battery) (
        All-append IsCalm _ _
          (All-append IsCalm _ _
            (All-append IsCalm _ _
              (All-append IsCalm _ _ (built-All config.memory _ _ _ (λ c. (refl, tt)))
                (built-All config.thermal _ _ _ (λ c. (refl, tt))))
              (built-All config.compute _ _ _ (λ c. (refl, tt))))
            (built-All config.energy _ _ _ (λ c. (refl, tt))))
          (built_external-All W config.external))
