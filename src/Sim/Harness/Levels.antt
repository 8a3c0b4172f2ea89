-- ===== src/Sim/Harness/Levels.antt =====
-- The transitions that a run of src/sim/harness.rs records, compared with its signals.
use Prim.Native.String.{String}
use mathlib.Core.List.{filter_map}
use argus_manager.Prelude.{
  ℕ, zero, suc, ◌+◌, ◌≡◌, refl, inl, inr, Option, none, some, List, [], ◌∷◌, ltb, Bool-cases,
}
use argus_manager.Float.{Float, Casts}
use argus_manager.Sim.Clock.{VirtualClock, ScheduledEvent, drain_until}
use argus_manager.Sim.Config.{ScenarioConfig}
use argus_manager.Sim.Event.{EventKind}
use argus_manager.Sim.State.{PhysicalState}
use argus_manager.Sim.Expr.{EvalExpr}
use argus_manager.Sim.Physics.{RealFunctions}
use argus_manager.Sim.Derived.{Stepped, ok, err}
use argus_manager.Sim.Signal.{IntCasts}
use argus_manager.Sim.Trajectory.{Recorded, overrun, snapshot}
use argus_manager.Sim.Harness.{
  PolicyStrategy, Simulator, handle_kind, handle, handle_all, drain_overruns, events_of_tick,
  recorded, stepped, tick, continued, run_to,
}
use argus_manager.Sim.Harness.Load.{
  with_clock, preloaded_clock, preload_events, run_preloaded, run_for,
}
use argus_manager.Sim.Harness.Changes.{
  changes, signal_of, change_of, signals, transitions, IsConsistent, keeps-IsConsistent, same,
  pushed,
}
use argus_manager.Sim.Harness.Noticed.{signalled-IsConsistent}

module _ {P X E W S : Type 0} ⦃f : Float W⦄ ⦃g : Float S⦄ ⦃c : Casts W S⦄ ⦃i : IntCasts W⦄
    ⦃r : RealFunctions W⦄ (policy : PolicyStrategy P W S) (x : EvalExpr X E W)
    (cfg : ScenarioConfig E W) where
  pushed-IsConsistent :
      (m : Simulator P X W S) (p : P) (e : Recorded W S)
      → change_of e ≡ none
      → signal_of e ≡ none
      → IsConsistent m
      → IsConsistent (recorded policy x cfg (record m { policy = p }) e)
  pushed-IsConsistent m p e c s h = keeps-IsConsistent (pushed m _ e c s refl refl) h

  kind-IsConsistent :
      (m : Simulator P X W S) (at : ℕ) (rng : Option (String → W)) (kind : EventKind)
      → IsConsistent m
      → IsConsistent (handle_kind policy x cfg m at rng kind)
  kind-IsConsistent m at rng EventKind.heartbeat h = pushed-IsConsistent m _ _ refl refl h
  kind-IsConsistent m at rng EventKind.signal_memory h =
      signalled-IsConsistent policy x cfg m at _ h
  kind-IsConsistent m at rng EventKind.signal_compute h =
      signalled-IsConsistent policy x cfg m at _ h
  kind-IsConsistent m at rng EventKind.signal_thermal h =
      signalled-IsConsistent policy x cfg m at _ h
  kind-IsConsistent m at rng EventKind.signal_energy h =
      signalled-IsConsistent policy x cfg m at _ h
  kind-IsConsistent m at rng (EventKind.observation_due action recorded_at) h =
      pushed-IsConsistent m m.policy _ refl refl h
  kind-IsConsistent m at rng (EventKind.external_injection_start index) h =
      pushed-IsConsistent m m.policy _ refl refl h
  kind-IsConsistent m at rng (EventKind.external_injection_end index) h =
      pushed-IsConsistent m m.policy _ refl refl h
  kind-IsConsistent m at rng (EventKind.custom name) h =
      pushed-IsConsistent m m.policy _ refl refl h

  all-IsConsistent :
      (m : Simulator P X W S) (es : List (ScheduledEvent EventKind))
      (rng : ScheduledEvent EventKind → Option (String → W))
      → IsConsistent m
      → IsConsistent (handle_all policy x cfg m es rng)
  unfolding handle
  all-IsConsistent m [] rng h = h
  all-IsConsistent m (e ∷ es) rng h =
      all-IsConsistent (handle policy x cfg m e (rng e)) es rng
        (kind-IsConsistent m e.at (rng e) e.kind h)

  overruns-IsConsistent :
      (m : Simulator P X W S) (tick_end : ℕ)
      → IsConsistent m
      → IsConsistent (drain_overruns policy x cfg m tick_end)
  overruns-IsConsistent m tick_end h =
      elim (Bool-cases (ltb m.last_overrun_count (policy.observation_overrun_count m.policy).1)) [
        | inl more ↦
            let (p, total) = policy.observation_overrun_count m.policy in
            rw more (keeps-IsConsistent (pushed m _ (overrun tick_end total) refl refl refl refl) h)
        | inr fewer ↦ rw fewer (keeps-IsConsistent (same m _ refl refl) h)
      ]

  abbrev AfterTick : Stepped (Simulator P X W S) → Type 0
  AfterTick (ok k) = IsConsistent k
  AfterTick (err e) = Unit {0}

  stepped-IsConsistent :
      (m : Simulator P X W S) (tick_end : ℕ) (s : Stepped (PhysicalState W × X))
      → IsConsistent m
      → AfterTick (stepped policy x cfg m tick_end s)
  stepped-IsConsistent m tick_end (err e) h = tt
  stepped-IsConsistent m tick_end (ok (state, ctx)) h =
      keeps-IsConsistent (pushed m _ (snapshot tick_end state m.engine) refl refl refl refl) h

  module _ (rng : ScheduledEvent EventKind → Option (String → W)) where
    tick-IsConsistent :
        (m : Simulator P X W S) → IsConsistent m → AfterTick (tick policy x cfg m rng)
    unfolding tick events_of_tick
    tick-IsConsistent m h =
        let tick_end = m.clock.now + m.tick_dt in
        let (clock, events) = drain_until m.clock tick_end in
        let n = record m { clock = clock } in
        stepped-IsConsistent _ tick_end _ (
          overruns-IsConsistent (handle_all policy x cfg n events rng) tick_end
            (all-IsConsistent n events rng (keeps-IsConsistent (same m n refl refl) h)))

    -- What holds of the state that a run ends in without an error.
    abbrev pub AtEnd : Option (Stepped (Simulator P X W S)) → Type 0
    AtEnd none = Unit {0}
    AtEnd (some (err e)) = Unit {0}
    AtEnd (some (ok k)) = transitions k.trajectory ≡ changes [] (signals k.trajectory)

    next-AtEnd :
        (n end : ℕ) (t : Stepped (Simulator P X W S))
        → ((k : Simulator P X W S) → IsConsistent k → AtEnd (run_to policy x cfg n k end rng))
        → AfterTick t
        → AtEnd (continued policy x cfg (λ k. run_to policy x cfg n k end rng) t)
    next-AtEnd n end (ok k) ih h = ih k h
    next-AtEnd n end (err e) ih h = tt

    run_to-AtEnd :
        (n end : ℕ) (m : Simulator P X W S)
        → IsConsistent m
        → AtEnd (run_to policy x cfg n m end rng)
    unfolding run_to
    run_to-AtEnd zero end m h = tt
    run_to-AtEnd (suc n) end m h = elim (Bool-cases (ltb m.clock.now end)) [
      | inl more ↦
          rw more (
            next-AtEnd n end (tick policy x cfg m rng) (run_to-AtEnd n end) (tick-IsConsistent m h))
      | inr over ↦ rw over h.recorded
    ]

    loaded-AtEnd :
        (from_secs_f64 : W → Option ℕ) (m : Simulator P X W S) (o : Option (VirtualClock EventKind))
        (fuel end : ℕ)
        → IsConsistent m
        → AtEnd (
            run_preloaded policy x cfg from_secs_f64
              (with_clock policy x cfg from_secs_f64 m o)
              fuel
              end
              rng)
    loaded-AtEnd from_secs_f64 m none fuel end h = tt
    loaded-AtEnd from_secs_f64 m (some clock) fuel end h =
        run_to-AtEnd fuel end (record m { clock = clock })
          (keeps-IsConsistent (same m _ refl refl) h)

    -- In a run that starts with an empty trajectory and no last levels, as a new simulator does, the
    -- transitions that are recorded are exactly the recorded signals whose level is not that of the
    -- last signal of their kind, in order, each with that last level, or none for the first signal
    -- of a kind; whatever the policy does.
    pub run_for-transitions :
        (from_secs_f64 : W → Option ℕ) (m : Simulator P X W S) (duration : ℕ)
        → m.trajectory ≡ []
        → m.last_signal_levels ≡ []
        → AtEnd (run_for policy x cfg from_secs_f64 m duration rng)
    unfolding run_for preload_events filter_map
    run_for-transitions from_secs_f64 m duration e l =
        let end = m.clock.now + duration in
        loaded-AtEnd from_secs_f64 m (preloaded_clock policy x cfg from_secs_f64 m.clock end)
          (suc duration) end record { recorded = rw e refl; latest = λ kind. rw (e, l) refl }
