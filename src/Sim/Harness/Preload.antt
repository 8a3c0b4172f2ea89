-- ===== src/Sim/Harness/Preload.antt =====
-- Loading the events of a run in src/sim/harness.rs does not move its clock.
use argus_manager.Prelude.{
  ℕ, zero, suc, ◌+◌, ◌≡◌, refl, ap, sym, ◌∙◌, inl, inr, ◌&&◌, Option, none, some, List, [], ◌∷◌,
  ltb, leb, ◌==◌, ◌>>=◌, Bool-cases,
}
use mathlib.Core.Option.{some-injective}
use argus_manager.Float.{Float, Casts}
use argus_manager.Sim.Clock.{VirtualClock, schedule, schedule_from, schedule_periodic}
use argus_manager.Sim.Config.{ScenarioConfig, ExternalInjection}
use argus_manager.Sim.Event.{EventKind}
use argus_manager.Sim.Expr.{EvalExpr}
use argus_manager.Sim.Physics.{RealFunctions}
use argus_manager.Sim.Signal.{IntCasts}
use argus_manager.Sim.Harness.{PolicyStrategy}
use argus_manager.Sim.Harness.Load.{
  schedule_periodic_from, preload_injections, preload_periodic, preloaded_clock, schedule_within,
}

schedule_from-now :
    {K : Type 0} (n : ℕ) (c : VirtualClock K) (kind : K) (t period until : ℕ)
    → (schedule_from n c kind t period until).now ≡ c.now
unfolding schedule_from schedule
schedule_from-now zero c kind t period until = refl
schedule_from-now (suc n) c kind t period until = elim (Bool-cases (leb t until)) [
  | inl more ↦ rw more (schedule_from-now n (schedule c kind t).0 kind (t + period) period until)
  | inr over ↦ rw over refl
]

periodic-now :
    (c : VirtualClock EventKind) (kind : EventKind) (now period until : ℕ)
    → (schedule_periodic_from c kind now period until).now ≡ c.now
unfolding schedule_periodic_from schedule_periodic
periodic-now c kind now period until = elim (Bool-cases (period == 0)) [
  | inl zero_period ↦ rw zero_period refl
  | inr positive ↦ rw positive (schedule_from-now (suc until) c kind _ period until)
]

-- What holds of the clock of each possible continuation holds after a `?`.
bound :
    {A : Type 0} (n : ℕ) (o : Option A) (next : A → Option (VirtualClock EventKind))
    → ((a : A) (b : VirtualClock EventKind) → next a ≡ some b → b.now ≡ n)
    → (b : VirtualClock EventKind) → o >>= next ≡ some b
    → b.now ≡ n
bound n none next k b e = cc
bound n (some a) next k b e = k a b e

module _ {P X E W S : Type 0} ⦃f : Float W⦄ ⦃g : Float S⦄ ⦃c : Casts W S⦄ ⦃i : IntCasts W⦄
    ⦃r : RealFunctions W⦄ (policy : PolicyStrategy P W S) (x : EvalExpr X E W)
    (cfg : ScenarioConfig E W) (from_secs_f64 : W → Option ℕ) where
  within-now :
      (clock : VirtualClock EventKind) (kind : EventKind) (at now until : ℕ)
      → (schedule_within policy x cfg from_secs_f64 clock kind at now until).now ≡ clock.now
  unfolding schedule
  within-now clock kind at now until = elim (Bool-cases (ltb now at && leb at until)) [
    | inl scheduled ↦ rw scheduled refl
    | inr outside ↦ rw outside refl
  ]

  injections-now :
      (clock : VirtualClock EventKind) (now until index : ℕ) (js : List (ExternalInjection W))
      (d : VirtualClock EventKind)
      → preload_injections policy x cfg from_secs_f64 clock now until index js ≡ some d
      → d.now ≡ clock.now
  injections-now clock now until index [] d e =
      ap (λ (c : VirtualClock EventKind). c.now) (sym (some-injective clock d e))
  injections-now clock now until index (j ∷ js) d e =
      bound clock.now (from_secs_f64 j.t_start) _
        (λ t_start. bound clock.now (from_secs_f64 j.duration) _ (λ lasting b q.
          let c1 =
            schedule_within policy x cfg from_secs_f64 clock
              (EventKind.external_injection_start index) t_start now until in
          let c2 =
            schedule_within policy x cfg from_secs_f64 c1 (EventKind.external_injection_end index)
              (t_start + lasting) now until in
          injections-now c2 now until (suc index) js b q
          ∙ within-now c1 (EventKind.external_injection_end index) (t_start + lasting) now until
          ∙ within-now clock (EventKind.external_injection_start index) t_start now until))
        d e

  all-now :
      (clock : VirtualClock EventKind) (now until hb mem cpu therm energy : ℕ)
      → (preload_periodic policy x cfg from_secs_f64 clock now until hb mem cpu therm energy).now
        ≡ clock.now
  all-now clock now until hb mem cpu therm energy =
      periodic-now _ EventKind.signal_energy now energy until
      ∙ periodic-now _ EventKind.signal_thermal now therm until
      ∙ periodic-now _ EventKind.signal_compute now cpu until
      ∙ periodic-now _ EventKind.signal_memory now mem until
      ∙ periodic-now clock EventKind.heartbeat now hb until

  pub preloaded-now :
      (clock : VirtualClock EventKind) (until : ℕ) (d : VirtualClock EventKind)
      → preloaded_clock policy x cfg from_secs_f64 clock until ≡ some d
      → d.now ≡ clock.now
  preloaded-now clock until d e =
      bound clock.now (from_secs_f64 cfg.observation.heartbeat.interval_s) _
        (λ hb.
          bound clock.now (from_secs_f64 cfg.observation.signals.memory.poll_interval_s) _ (λ mem.
            bound clock.now (from_secs_f64 cfg.observation.signals.compute.poll_interval_s) _
              (λ cpu.
                bound clock.now (from_secs_f64 cfg.observation.signals.thermal.poll_interval_s) _
                  (λ therm.
                    bound clock.now (from_secs_f64 cfg.observation.signals.energy.poll_interval_s) _
                      (λ energy b q.
                        injections-now
                          (preload_periodic policy x cfg from_secs_f64 clock clock.now until hb mem
                            cpu therm energy)
                          clock.now until 0 cfg.external_injections b q
                        ∙ all-now clock clock.now until hb mem cpu therm energy)))))
        d e
