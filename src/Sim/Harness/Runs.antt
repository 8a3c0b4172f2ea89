-- ===== src/Sim/Harness/Runs.antt =====
-- What holds of whole runs of src/sim/harness.rs.
use Prim.Native.String.{String}
use argus_manager.Prelude.{
  ℕ, zero, suc, ◌+◌, ◌-◌, ◌≤◌, ◌<◌, ◌≡◌, refl, sym, ap, subst, ◌∙◌, ◌⊎◌, inl, inr, Option, none,
  some, [], ◌∷◌, ◌++◌, append-nil, ltb, arith, Bool-cases,
}
use argus_manager.Float.{Float, Casts}
use argus_manager.Pipeline.Dedup.{process_all, process_all-Spaced, Spaced}
use argus_manager.Sim.Clock.{ScheduledEvent, VirtualClock, advance}
use argus_manager.Sim.Config.{ScenarioConfig}
use argus_manager.Sim.Event.{EventKind}
use argus_manager.Sim.State.{PhysicalState}
use argus_manager.Sim.Expr.{EvalExpr}
use argus_manager.Sim.Physics.{RealFunctions}
use argus_manager.Sim.Derived.{Stepped, ok, err}
use argus_manager.Sim.Signal.{IntCasts}
use argus_manager.Sim.Trajectory.{snapshot}
use argus_manager.Sim.Harness.{PolicyStrategy, Simulator, stepped, tick, continued, run_to}
use argus_manager.Sim.Harness.Load.{
  with_clock, preloaded_clock, preload_events, run_preloaded, run_for,
}
use argus_manager.Sim.Harness.Preload.{preloaded-now}
use argus_manager.Sim.Harness.Sends.{
  directives, directives-append, Sends, Follows, quiet, then_sends,
}
use argus_manager.Sim.Harness.Steps.{events_of_tick-Follows}

module _ {P X E W S : Type 0} ⦃f : Float W⦄ ⦃g : Float S⦄ ⦃c : Casts W S⦄ ⦃i : IntCasts W⦄
    ⦃r : RealFunctions W⦄ (policy : PolicyStrategy P W S) (x : EvalExpr X E W)
    (cfg : ScenarioConfig E W) (rng : ScheduledEvent EventKind → Option (String → W)) where
  -- A tick that succeeds takes one tick's time.
  abbrev pub Ticks : Simulator P X W S → Stepped (Simulator P X W S) → Type 0
  Ticks m (err e) = Unit {0}
  Ticks m (ok k) = (k.clock.now ≡ m.clock.now + m.tick_dt) × Sends m k

  stepped-Ticks :
      (m n : Simulator P X W S) (tick_end : ℕ) (s : Stepped (PhysicalState W × X))
      → Follows m n
      → Ticks m (stepped policy x cfg n tick_end s)
  unfolding advance
  stepped-Ticks m n tick_end (err e) h = tt
  stepped-Ticks m n tick_end (ok (state, ctx)) h = (
    rw (h.now, h.sends.tick_dt) refl,
    record {
      tick_dt = h.sends.tick_dt;
      proposed = h.sends.proposed;
      sent =
          directives-append n.trajectory (snapshot tick_end state n.engine ∷ [])
          ∙ append-nil (directives n.trajectory)
          ∙ h.sends.sent;
      dedup = h.sends.dedup;
    },
  )

  pub tick-Ticks : (m : Simulator P X W S) → Ticks m (tick policy x cfg m rng)
  unfolding tick
  tick-Ticks m = stepped-Ticks m _ _ _ (events_of_tick-Follows policy x cfg m rng)

  -- The end of a run: an error, or a time at or after the end, by less than a tick, with what was
  -- sent on the way.
  abbrev pub IsEnd : Simulator P X W S → ℕ → Option (Stepped (Simulator P X W S)) → Type 0
  IsEnd m end none = ⊥
  IsEnd m end (some (err e)) = Unit {0}
  IsEnd m end (some (ok k)) =
      (end ≤ k.clock.now)
      × ((k.clock.now < end + m.tick_dt) ⊎ (k.clock.now ≡ m.clock.now))
      × Sends m k

  later_end :
      (n : ℕ) (m k : Simulator P X W S) (end : ℕ) (o : Option (Stepped (Simulator P X W S)))
      → m.clock.now < end
      → k.clock.now ≡ m.clock.now + m.tick_dt
      → Sends m k
      → IsEnd k end o
      → IsEnd m end o
  later_end n m k end none h now sends q = q
  later_end n m k end (some (err e)) h now sends q = tt
  later_end n m k end (some (ok l)) h now sends (reached, before, q) =
      (reached, inl (ground (arith, before, sends.tick_dt, now, h)), then_sends sends q)

  later :
      (n : ℕ) (m : Simulator P X W S) (end : ℕ) (t : Stepped (Simulator P X W S))
      → ((k : Simulator P X W S)
          → end - k.clock.now < n
          → 0 < k.tick_dt
          → IsEnd k end (run_to policy x cfg n k end rng))
      → m.clock.now < end
      → end - m.clock.now < suc n
      → 0 < m.tick_dt
      → Ticks m t
      → IsEnd m end (continued policy x cfg (λ k. run_to policy x cfg n k end rng) t)
  later n m end (err e) ih h b d t = tt
  later n m end (ok k) ih h b d (now, sends) =
      later_end n m k end (run_to policy x cfg n k end rng) h now sends
        (ih k (omega arith) (omega (arith, sends.tick_dt, d)))

  run_to-IsEnd :
      (n : ℕ) (m : Simulator P X W S) (end : ℕ)
      → end - m.clock.now < n
      → 0 < m.tick_dt
      → IsEnd m end (run_to policy x cfg n m end rng)
  unfolding run_to
  run_to-IsEnd zero m end b d = absurd (omega arith)
  run_to-IsEnd (suc n) m end b d = elim (Bool-cases (ltb m.clock.now end)) [
    | inl before ↦ rw before (
        later n m end (tick policy x cfg m rng) (λ k. run_to-IsEnd n k end) (ground arith) b d
          (tick-Ticks m))
    | inr after ↦ rw after (ground arith, inr refl, (quiet m m refl refl refl refl).sends)
  ]

  -- What a run comes to: an error, or a time at or after the end, by less than a tick, with
  -- directives that are apart from one another.
  abbrev pub IsRun : Simulator P X W S → ℕ → Option (Stepped (Simulator P X W S)) → Type 0
  IsRun m end none = ⊥
  IsRun m end (some (err e)) = Unit {0}
  IsRun m end (some (ok k)) =
      (end ≤ k.clock.now)
      × ((k.clock.now < end + m.tick_dt) ⊎ (k.clock.now ≡ m.clock.now))
      × Spaced m.dedup.cooldown_secs m.dedup.last_commands m.dedup.last_sent_at
          (directives k.trajectory)

  end-IsRun :
      (m : Simulator P X W S) (clock : VirtualClock EventKind) (end : ℕ)
      (o : Option (Stepped (Simulator P X W S)))
      → directives m.trajectory ≡ []
      → clock.now ≡ m.clock.now
      → IsEnd (record m { clock = clock }) end o
      → IsRun m end o
  end-IsRun m clock end none fresh same h = h
  end-IsRun m clock end (some (err e)) fresh same h = tt
  end-IsRun m clock end (some (ok k)) fresh same (reached, before, sends) = (
    reached,
    ground (arith, before, same),
    subst (Spaced m.dedup.cooldown_secs m.dedup.last_commands m.dedup.last_sent_at)
        (sym (sends.sent ∙ ap (λ t. t ++ process_all m.dedup sends.proposed) fresh))
        (process_all-Spaced m.dedup sends.proposed),
  )

  module _ (from_secs_f64 : W → Option ℕ) where
    loaded :
        (m : Simulator P X W S) (o : Option (VirtualClock EventKind)) (end duration : ℕ)
        → ((clock : VirtualClock EventKind) → o ≡ some clock → clock.now ≡ m.clock.now)
        → end ≡ m.clock.now + duration
        → 0 < m.tick_dt
        → directives m.trajectory ≡ []
        → IsRun m end (
            run_preloaded policy x cfg from_secs_f64
              (with_clock policy x cfg from_secs_f64 m o)
              (suc duration)
              end
              rng)
    loaded m none end duration same e d fresh = tt
    loaded m (some clock) end duration same e d fresh =
        let now = same clock refl in
        end-IsRun m clock end _ fresh now
          (run_to-IsEnd (suc duration) (record m { clock = clock }) end (omega (arith, now, e)) d)

    -- Whatever the policy, the scenario, the noise and the expressions do: a run ends, within a tick
    -- for each nanosecond, in an error or at a time from the end asked for to less than a tick
    -- after it; and then two directives that were applied one after the other differ in their
    -- commands or came at least the cooldown apart. The tick is not 0, and no directive was
    -- applied before.
    pub run_for-IsRun :
        (m : Simulator P X W S) (duration : ℕ)
        → 0 < m.tick_dt
        → directives m.trajectory ≡ []
        → IsRun m (m.clock.now + duration) (run_for policy x cfg from_secs_f64 m duration rng)
    unfolding run_for preload_events
    run_for-IsRun m duration d fresh =
        loaded m (preloaded_clock policy x cfg from_secs_f64 m.clock (m.clock.now + duration))
          (m.clock.now + duration) duration
          (preloaded-now policy x cfg from_secs_f64 m.clock (m.clock.now + duration)) refl d fresh
