-- ===== src/Sim/Harness/Load.antt =====
-- Loading the events of a run of src/sim/harness.rs, and `run_for`.
use Prim.Native.String.{String}
use argus_manager.Prelude.{
  ℕ, suc, ◌+◌, ◌*◌, ◌/◌, ◌%◌, ◌^◌, Option, none, some, List, [], ◌∷◌, ltb, leb, ◌==◌, ◌&&◌, ◌>>=◌,
  if◌then◌else◌,
}
use argus_manager.Float.{Float, Casts}
use argus_manager.Sim.Clock.{VirtualClock, ScheduledEvent, schedule, schedule_periodic}
use argus_manager.Sim.Config.{ScenarioConfig, ExternalInjection}
use argus_manager.Sim.Event.{EventKind}
use argus_manager.Sim.Expr.{EvalExpr}
use argus_manager.Sim.Physics.{RealFunctions}
use argus_manager.Sim.Derived.{StepError, Stepped, err}
use argus_manager.Sim.Signal.{IntCasts}
use argus_manager.Sim.Harness.{PolicyStrategy, Simulator, run_to}

unfoldable pub schedule_periodic_from :
    VirtualClock EventKind → EventKind → ℕ → ℕ → ℕ → VirtualClock EventKind
schedule_periodic_from clock kind now period until =
    if period == 0
    then clock
    else schedule_periodic clock kind (((now / period + 1) * period) % 2 ^ 64) period until

module _ {P X E W S : Type 0} ⦃f : Float W⦄ ⦃g : Float S⦄ ⦃c : Casts W S⦄ ⦃i : IntCasts W⦄
    ⦃r : RealFunctions W⦄ (policy : PolicyStrategy P W S) (x : EvalExpr X E W)
    (cfg : ScenarioConfig E W) where
  -- What `Duration::from_secs_f64` makes of a number; none if it panics.
  module _ (from_secs_f64 : W → Option ℕ) where
    abbrev pub schedule_within :
        VirtualClock EventKind → EventKind → ℕ → ℕ → ℕ → VirtualClock EventKind
    schedule_within clock kind at now until =
        if ltb now at && leb at until then (schedule clock kind at).0 else clock

    abbrev pub preload_injections :
        VirtualClock EventKind
        → ℕ
        → ℕ
        → ℕ
        → List (ExternalInjection W)
        → Option (VirtualClock EventKind)
    preload_injections clock now until index [] = some clock
    preload_injections clock now until index (j ∷ js) = do
      t_start ← from_secs_f64 j.t_start
      lasting ← from_secs_f64 j.duration
      preload_injections
          (schedule_within
            (schedule_within clock (EventKind.external_injection_start index) t_start now until)
            (EventKind.external_injection_end index) (t_start + lasting) now until)
          now until (suc index) js

    abbrev pub preload_periodic :
        VirtualClock EventKind → ℕ → ℕ → ℕ → ℕ → ℕ → ℕ → ℕ → VirtualClock EventKind
    preload_periodic clock now until hb mem cpu therm energy =
        let c1 = schedule_periodic_from clock EventKind.heartbeat now hb until in
        let c2 = schedule_periodic_from c1 EventKind.signal_memory now mem until in
        let c3 = schedule_periodic_from c2 EventKind.signal_compute now cpu until in
        let c4 = schedule_periodic_from c3 EventKind.signal_thermal now therm until in
        schedule_periodic_from c4 EventKind.signal_energy now energy until

    abbrev pub preloaded_clock : VirtualClock EventKind → ℕ → Option (VirtualClock EventKind)
    preloaded_clock clock until = do
      hb ← from_secs_f64 cfg.observation.heartbeat.interval_s
      mem ← from_secs_f64 cfg.observation.signals.memory.poll_interval_s
      cpu ← from_secs_f64 cfg.observation.signals.compute.poll_interval_s
      therm ← from_secs_f64 cfg.observation.signals.thermal.poll_interval_s
      energy ← from_secs_f64 cfg.observation.signals.energy.poll_interval_s
      preload_injections (preload_periodic clock clock.now until hb mem cpu therm energy) clock.now
          until 0 cfg.external_injections

    abbrev pub with_clock :
        Simulator P X W S → Option (VirtualClock EventKind) → Option (Simulator P X W S)
    with_clock m none = none
    with_clock m (some clock) = some record m { clock = clock }

    unfoldable pub preload_events : Simulator P X W S → ℕ → Option (Simulator P X W S)
    preload_events m until = with_clock m (preloaded_clock m.clock until)

    abbrev pub run_preloaded :
        Option (Simulator P X W S)
        → ℕ
        → ℕ
        → (ScheduledEvent EventKind → Option (String → W))
        → Option (Stepped (Simulator P X W S))
    run_preloaded none fuel end rng = some (err StepError.duration_panic)
    run_preloaded (some n) fuel end rng = run_to policy x cfg fuel n end rng

    -- Each tick takes at least a nanosecond, unless the tick is 0.
    unfoldable pub run_for :
        Simulator P X W S
        → ℕ
        → (ScheduledEvent EventKind → Option (String → W))
        → Option (Stepped (Simulator P X W S))
    run_for m duration rng =
        let end = m.clock.now + duration in
        run_preloaded (preload_events m end) (suc duration) end rng
