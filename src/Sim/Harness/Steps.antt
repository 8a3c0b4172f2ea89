-- ===== src/Sim/Harness/Steps.antt =====
-- What the events of one tick of src/sim/harness.rs keep.
use Prim.Native.String.{String}
use argus_manager.Prelude.{
  ℕ, ◌+◌, ◌≡◌, refl, sym, ap, ◌∙◌, inl, inr, Option, none, some, List, [], ◌∷◌, ◌++◌, append-nil,
  ltb, Bool-cases,
}
use argus_manager.Float.{Float, Casts}
use argus_manager.Signal.{SystemSignal}
use argus_manager.Contract.{
  EngineCommand, kv_compress, restore_defaults, suspend, resume, gpu_yield, gpu_offload,
  EngineDirective,
}
use argus_manager.Pipeline.{DirectiveDeduplicator, process}
use argus_manager.Pipeline.Dedup.{process_all, consed}
use argus_manager.Sim.Clock.{VirtualClock, ScheduledEvent, schedule, drain_until}
use argus_manager.Sim.Config.{ScenarioConfig}
use argus_manager.Sim.Event.{EventKind}
use argus_manager.Sim.Expr.{EvalExpr}
use argus_manager.Sim.Physics.{RealFunctions}
use argus_manager.Sim.Signal.{IntCasts}
use argus_manager.Sim.Trajectory.{
  Recorded, directive, signal, overrun, transition, SignalDump, from_signal,
}
use argus_manager.Sim.Harness.{
  PolicyStrategy, Simulator, is_level, noticed, noticed_from, observe_all, observed,
  observable_action_name, as_secs_f64, applied, sent, decided, signalled, handle_kind, handle,
  handle_all, drain_overruns, events_of_tick, recorded,
}
use argus_manager.Sim.Harness.Sends.{directives, directives-append, after_all, Follows, quiet, then}

observe_all-now :
    {S : Type 0} (c : VirtualClock EventKind) (cs : List (EngineCommand S))
    → (observe_all c cs).now ≡ c.now
unfolding observable_action_name schedule
observe_all-now c [] = refl
observe_all-now {S = S} c (kv_compress b ∷ xs) =
    observe_all-now (observed c (observable_action_name {S = S} (kv_compress b))) xs
observe_all-now c (restore_defaults ∷ xs) = observe_all-now c xs
observe_all-now c (suspend ∷ xs) = observe_all-now c xs
observe_all-now c (resume ∷ xs) = observe_all-now c xs
observe_all-now c (gpu_yield every ∷ xs) = observe_all-now c xs
observe_all-now c (gpu_offload on ∷ xs) = observe_all-now c xs

module _ {P X E W S : Type 0} ⦃f : Float W⦄ ⦃g : Float S⦄ ⦃c : Casts W S⦄ ⦃i : IntCasts W⦄
    ⦃r : RealFunctions W⦄ (policy : PolicyStrategy P W S) (x : EvalExpr X E W)
    (cfg : ScenarioConfig E W) where
  -- An entry that is no directive.
  quietly :
      (m : Simulator P X W S) (p : P) (e : Recorded W S)
      → directives (e ∷ []) ≡ []
      → Follows m (recorded policy x cfg (record m { policy = p }) e)
  quietly m p e h =
      quiet m _ refl refl
        (directives-append m.trajectory (e ∷ [])
          ∙ ap (λ t. directives m.trajectory ++ t) h
          ∙ append-nil (directives m.trajectory))
        refl

  sent-Follows :
      (m : Simulator P X W S) (at : ℕ) (s : SystemSignal W) (d : DirectiveDeduplicator W S)
      (out : Option (EngineDirective S)) (proposed : List (EngineDirective S × W))
      → process_all m.dedup proposed ≡ consed out (as_secs_f64 policy x cfg at) []
      → d ≡ after_all m.dedup proposed
      → Follows m (sent policy x cfg (record m { dedup = d }) at s out)
  unfolding applied
  sent-Follows m at s d none proposed e k = record {
    now = refl;
    sends = record {
      tick_dt = refl;
      proposed = proposed;
      sent =
          sym (append-nil (directives m.trajectory))
          ∙ ap (λ t. directives m.trajectory ++ t) (sym e);
      dedup = k;
    };
  }
  sent-Follows m at s d (some y) proposed e k = record {
    now = observe_all-now m.clock y.commands;
    sends = record {
      tick_dt = refl;
      proposed = proposed;
      sent =
          directives-append m.trajectory (directive at s y ∷ [])
          ∙ ap (λ t. directives m.trajectory ++ t) (sym e);
      dedup = k;
    };
  }

  decided-Follows :
      (m : Simulator P X W S) (at : ℕ) (s : SystemSignal W) (out : Option (EngineDirective S))
      → Follows m (decided policy x cfg m at s out)
  decided-Follows m at s none = quiet m m refl refl refl refl
  decided-Follows m at s (some d) =
      let t = as_secs_f64 policy x cfg at in
      sent-Follows m at s (process m.dedup d t).0 (process m.dedup d t).1 ((d, t) ∷ []) refl refl

  noticed-Follows :
      (m : Simulator P X W S) (at : ℕ) (d : SignalDump W) (prev : Option String)
      → Follows m (noticed_from policy x cfg m at d prev)
  noticed-Follows m at d prev = elim (Bool-cases (is_level prev d.level)) [
    | inl same ↦ rw same (quiet m m refl refl refl refl)
    | inr new ↦
        let n = recorded policy x cfg m (transition at d.kind prev d.level m.state) in
        rw new (
          then (quietly m m.policy (transition at d.kind prev d.level m.state) refl)
            (quiet n _ refl refl refl refl))
  ]

  signalled-Follows :
      (m : Simulator P X W S) (at : ℕ) (o : Option (SystemSignal W))
      → Follows m (signalled policy x cfg m at o)
  signalled-Follows m at none = quiet m m refl refl refl refl
  signalled-Follows m at (some s) =
      let l = noticed policy x cfg m at (from_signal s) in
      let (p, out) = policy.process_signal l.policy s in
      let n = record l { policy = p } in
      let k = decided policy x cfg n at s out in
      then
        (then (then (noticed-Follows m at (from_signal s) _) (quiet l n refl refl refl refl))
          (decided-Follows n at s out))
        (quietly k k.policy (signal at s) refl)

  kind-Follows :
      (m : Simulator P X W S) (at : ℕ) (rng : Option (String → W)) (kind : EventKind)
      → Follows m (handle_kind policy x cfg m at rng kind)
  kind-Follows m at rng EventKind.heartbeat = quietly m _ _ refl
  kind-Follows m at rng EventKind.signal_memory = signalled-Follows m at _
  kind-Follows m at rng EventKind.signal_compute = signalled-Follows m at _
  kind-Follows m at rng EventKind.signal_thermal = signalled-Follows m at _
  kind-Follows m at rng EventKind.signal_energy = signalled-Follows m at _
  kind-Follows m at rng (EventKind.observation_due action recorded_at) = quietly m m.policy _ refl
  kind-Follows m at rng (EventKind.external_injection_start index) = quietly m m.policy _ refl
  kind-Follows m at rng (EventKind.external_injection_end index) = quietly m m.policy _ refl
  kind-Follows m at rng (EventKind.custom name) = quietly m m.policy _ refl

  handle-Follows :
      (m : Simulator P X W S) (e : ScheduledEvent EventKind) (rng : Option (String → W))
      → Follows m (handle policy x cfg m e rng)
  unfolding handle
  handle-Follows m e rng = kind-Follows m e.at rng e.kind

  handle_all-Follows :
      (m : Simulator P X W S) (es : List (ScheduledEvent EventKind))
      (rng : ScheduledEvent EventKind → Option (String → W))
      → Follows m (handle_all policy x cfg m es rng)
  handle_all-Follows m [] rng = quiet m m refl refl refl refl
  handle_all-Follows m (e ∷ es) rng =
      then (handle-Follows m e (rng e))
        (handle_all-Follows (handle policy x cfg m e (rng e)) es rng)

  overruns-Follows :
      (m : Simulator P X W S) (tick_end : ℕ) → Follows m (drain_overruns policy x cfg m tick_end)
  overruns-Follows m tick_end =
      elim (Bool-cases (ltb m.last_overrun_count (policy.observation_overrun_count m.policy).1)) [
        | inl more ↦
            let (p, total) = policy.observation_overrun_count m.policy in
            let n = record m { policy = p; last_overrun_count = total } in
            rw more
              (then (quiet m n refl refl refl refl) (quietly n p (overrun tick_end total) refl))
        | inr same ↦ rw same (quiet m _ refl refl refl refl)
      ]

  pub events_of_tick-Follows :
      (m : Simulator P X W S) (rng : ScheduledEvent EventKind → Option (String → W))
      → Follows m (events_of_tick policy x cfg m rng)
  unfolding events_of_tick drain_until
  events_of_tick-Follows m rng =
      let tick_end = m.clock.now + m.tick_dt in
      let (clock, events) = drain_until m.clock tick_end in
      let n = record m { clock = clock } in
      then (then (quiet m n refl refl refl refl) (handle_all-Follows n events rng))
        (overruns-Follows (handle_all policy x cfg n events rng) tick_end)
