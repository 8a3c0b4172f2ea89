-- ===== src/Sim/Harness/Until.antt =====
-- `run_until` of src/sim/harness.rs.
use Prim.Native.String.{String}
use argus_manager.Prelude.{
  ℕ, zero, suc, ◌+◌, ◌-◌, ◌*◌, ◌^◌, ◌≤◌, ◌<◌, ◌≡◌, refl, Bool, true, Option, none, some, leb, arith,
  min, Bool-cases, inl, inr, if◌then◌else◌,
}
use argus_manager.Float.{Float, Casts}
use argus_manager.Sim.Clock.{ScheduledEvent, VirtualClock}
use argus_manager.Sim.Config.{ScenarioConfig}
use argus_manager.Sim.Event.{EventKind}
use argus_manager.Sim.Expr.{EvalExpr}
use argus_manager.Sim.Physics.{RealFunctions}
use argus_manager.Sim.Derived.{StepError, Stepped, ok, err}
use argus_manager.Sim.Signal.{IntCasts}
use argus_manager.Sim.Harness.{PolicyStrategy, Simulator, tick, continued}
use argus_manager.Sim.Harness.Load.{with_clock, preloaded_clock, preload_events}
use argus_manager.Sim.Harness.Preload.{preloaded-now}
use argus_manager.Sim.Harness.Runs.{Ticks, tick-Ticks}

module _ {P X E W S : Type 0} ⦃f : Float W⦄ ⦃g : Float S⦄ ⦃c : Casts W S⦄ ⦃i : IntCasts W⦄
    ⦃r : RealFunctions W⦄ (policy : PolicyStrategy P W S) (x : EvalExpr X E W)
    (cfg : ScenarioConfig E W) (rng : ScheduledEvent EventKind → Option (String → W))
    (holds : Simulator P X W S → Bool) where
  -- The loop of `run_until`.
  unfoldable pub run_while_not : ℕ → Simulator P X W S → ℕ → Option (Stepped (Simulator P X W S))
  run_while_not zero m end = none
  run_while_not (suc n) m end =
      if holds m
      then some (ok m)
      else if leb end m.clock.now
      then some (err StepError.max_duration_exceeded)
      else continued policy x cfg (λ k. run_while_not n k end) (tick policy x cfg m rng)

  abbrev pub run_preloaded_until :
      Option (Simulator P X W S) → ℕ → ℕ → Option (Stepped (Simulator P X W S))
  run_preloaded_until none fuel end = some (err StepError.duration_panic)
  run_preloaded_until (some m) fuel end = run_while_not fuel m end

  -- The events are loaded for at most 60 seconds.
  unfoldable pub run_until :
      (W → Option ℕ) → Simulator P X W S → ℕ → Option (Stepped (Simulator P X W S))
  run_until from_secs_f64 m longest =
      run_preloaded_until
        (preload_events policy x cfg from_secs_f64 m (m.clock.now + min longest (60 * 10 ^ 9)))
        (suc longest) (m.clock.now + longest)

  -- The end of such a run: an error, or a state in which the condition holds, at a time less than a
  -- tick after the longest time, or at once.
  abbrev pub IsStop : ℕ → ℕ → Option (Stepped (Simulator P X W S)) → Type 0
  IsStop end dt none = ⊥
  IsStop end dt (some (err e)) = Unit {0}
  IsStop end dt (some (ok k)) = (holds k ≡ true) × (k.clock.now ≤ end + dt)

  next-IsStop :
      (n : ℕ) (m : Simulator P X W S) (end dt : ℕ) (t : Stepped (Simulator P X W S))
      → ((k : Simulator P X W S)
          → end - k.clock.now < n
          → k.tick_dt ≡ dt
          → k.clock.now ≤ end + dt
          → IsStop end dt (run_while_not n k end))
      → m.clock.now < end
      → end - m.clock.now < suc n
      → m.tick_dt ≡ dt
      → 0 < dt
      → Ticks policy x cfg rng m t
      → IsStop end dt (continued policy x cfg (λ k. run_while_not n k end) t)
  next-IsStop n m end dt (err e) ih h b same d t = tt
  next-IsStop n m end dt (ok k) ih h b same d (now, sends) =
      ih k (omega arith) (omega (arith, sends.tick_dt, same)) (omega arith)

  run_while_not-IsStop :
      (n : ℕ) (m : Simulator P X W S) (end dt : ℕ)
      → end - m.clock.now < n
      → m.tick_dt ≡ dt
      → 0 < dt
      → m.clock.now ≤ end + dt
      → IsStop end dt (run_while_not n m end)
  unfolding run_while_not
  run_while_not-IsStop zero m end dt b same d q = absurd (omega arith)
  run_while_not-IsStop (suc n) m end dt b same d q = elim (Bool-cases (holds m)) [
    | inl met ↦ rw met (met, q)
    | inr unmet ↦ rw unmet (elim (Bool-cases (leb end m.clock.now)) [
      | inl late ↦ rw late tt
      | inr before ↦ rw before (
          next-IsStop n m end dt (tick policy x cfg m rng)
            (λ k kb ks kq. run_while_not-IsStop n k end dt kb ks d kq) (ground arith) b same d
            (tick-Ticks policy x cfg rng m))
    ])
  ]

  loaded-IsStop :
      (from_secs_f64 : W → Option ℕ) (m : Simulator P X W S) (o : Option (VirtualClock EventKind))
      (longest : ℕ)
      → ((clock : VirtualClock EventKind) → o ≡ some clock → clock.now ≡ m.clock.now)
      → 0 < m.tick_dt
      → IsStop (m.clock.now + longest) m.tick_dt (
          run_preloaded_until
            (with_clock policy x cfg from_secs_f64 m o)
            (suc longest)
            (m.clock.now + longest))
  loaded-IsStop from_secs_f64 m none longest same d = tt
  loaded-IsStop from_secs_f64 m (some clock) longest same d =
      let now = same clock refl in
      run_while_not-IsStop (suc longest) (record m { clock = clock }) (m.clock.now + longest)
        m.tick_dt (omega (arith, now)) refl d (omega (arith, now))

  -- Whatever the policy, the scenario, the noise and the condition: `run_until` ends, within a tick
  -- for each nanosecond, in an error (that the longest time has passed, or another) or in a state
  -- in which the condition holds, at most a tick after the longest time. The tick is not 0.
  pub run_until-IsStop :
      (from_secs_f64 : W → Option ℕ) (m : Simulator P X W S) (longest : ℕ)
      → 0 < m.tick_dt
      → IsStop (m.clock.now + longest) m.tick_dt (run_until from_secs_f64 m longest)
  unfolding run_until preload_events
  run_until-IsStop from_secs_f64 m longest d =
      loaded-IsStop from_secs_f64 m
        (preloaded_clock policy x cfg from_secs_f64 m.clock
          (m.clock.now + min longest (60 * 10 ^ 9)))
        longest
        (preloaded-now policy x cfg from_secs_f64 m.clock (m.clock.now + min longest (60 * 10 ^ 9)))
        d
