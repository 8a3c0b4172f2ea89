-- ===== src/Sim/Harness/Noticed.antt =====
-- A signal in src/sim/harness.rs: the transition, the policy's answer, and the signal itself.
use Prim.Native.String.{String}
use text.Mathlib.Text.{◌==◌ as str_eq}
use text.Mathlib.TextEquality.{eq_iff}
use mathlib.Core.List.{filter_map, filter_map-append}
use argus_manager.Prelude.{
  ℕ, ◌≡◌, refl, sym, ap, ◌∙◌, inl, inr, true, Option, none, some, List, [], ◌∷◌, ◌++◌, append-nil,
  Bool-cases,
}
use argus_manager.Float.{Float, Casts}
use argus_manager.Signal.{SystemSignal}
use argus_manager.Contract.{EngineDirective}
use argus_manager.Pipeline.{process}
use argus_manager.Sim.Config.{ScenarioConfig, get}
use argus_manager.Sim.Expr.{EvalExpr}
use argus_manager.Sim.Physics.{RealFunctions}
use argus_manager.Sim.Signal.{IntCasts}
use argus_manager.Sim.Trajectory.{Recorded, directive, signal, transition, SignalDump, from_signal}
use argus_manager.Sim.Harness.{
  PolicyStrategy, Simulator, as_secs_f64, is_level, noticed, applied, sent, decided, signalled,
}
use argus_manager.Sim.Harness.Changes.{
  get-insert, last_level, change, changes, onto, changes-append, onto-append, signal_of, change_of,
  signals, transitions, IsConsistent, Keeps, then_keeps, same, pushed,
}

-- A state after the signal has been compared with the last of its kind, but not yet recorded.
record IsNoticed {P X W S : Type 0} (m : Simulator P X W S) (d : SignalDump W)
    (n : Simulator P X W S) : Type 0 where
  noticed_change :
      transitions n.trajectory
      ≡ changes [] (signals m.trajectory) ++ change (onto [] (signals m.trajectory)) d
  noticed_signals : signals n.trajectory ≡ signals m.trajectory
  noticed_latest :
      (kind : String)
      → get n.last_signal_levels kind ≡ last_level (d ∷ onto [] (signals m.trajectory)) kind

-- A level that is the last one already.
unchanged :
    {W : Type 0} (past : List (SignalDump W)) (d : SignalDump W) (kind : String)
    → is_level (last_level past d.kind) d.level ≡ true
    → last_level past kind ≡ last_level (d ∷ past) kind
unchanged past d kind h = elim (Bool-cases (str_eq d.kind kind)) [
  | inl e ↦ rw (e, ← (eq_iff d.kind kind).0 e) (found (last_level past d.kind) d.level h)
  | inr e ↦ rw e refl
]
  where
    found : (o : Option String) (l : String) → is_level o l ≡ true → o ≡ some l
    found none l h = cc
    found (some b) l h = ap some ((eq_iff b l).0 h)

module _ {P X E W S : Type 0} ⦃f : Float W⦄ ⦃g : Float S⦄ ⦃c : Casts W S⦄ ⦃i : IntCasts W⦄
    ⦃r : RealFunctions W⦄ (policy : PolicyStrategy P W S) (x : EvalExpr X E W)
    (cfg : ScenarioConfig E W) where
  noticed-IsNoticed :
      (m : Simulator P X W S) (at : ℕ) (d : SignalDump W)
      → IsConsistent m
      → IsNoticed m d (noticed policy x cfg m at d)
  unfolding filter_map
  noticed-IsNoticed m at d h =
      let past = onto [] (signals m.trajectory) in
      let prev = get m.last_signal_levels d.kind in
      elim (Bool-cases (is_level prev d.level)) [
        | inl known ↦
            let e = ap (λ o. is_level o d.level) (sym (h.latest d.kind)) ∙ known in
            rw known record {
              noticed_change =
                  h.recorded ∙ rw e (sym (append-nil (changes [] (signals m.trajectory))));
              noticed_signals = refl;
              noticed_latest = λ kind. h.latest kind ∙ unchanged past d kind e;
            }
        | inr new ↦
            let e = ap (λ o. is_level o d.level) (sym (h.latest d.kind)) ∙ new in
            let entry : Recorded W S = transition at d.kind prev d.level m.state in
            rw new record {
              noticed_change =
                  filter_map-append change_of m.trajectory (entry ∷ [])
                  ∙ rw (e, h.recorded, h.latest d.kind) refl;
              noticed_signals =
                  filter_map-append signal_of m.trajectory (entry ∷ [])
                  ∙ append-nil (signals m.trajectory);
              noticed_latest = λ kind.
                  get-insert m.last_signal_levels d.kind kind d.level ∙ rw (h.latest kind) refl;
            }
      ]

  sent-Keeps :
      (m : Simulator P X W S) (at : ℕ) (s : SystemSignal W) (out : Option (EngineDirective S))
      → Keeps m (sent policy x cfg m at s out)
  unfolding applied
  sent-Keeps m at s none = same m _ refl refl
  sent-Keeps m at s (some d) = pushed m _ (directive at s d) refl refl refl refl

  decided-Keeps :
      (m : Simulator P X W S) (at : ℕ) (s : SystemSignal W) (out : Option (EngineDirective S))
      → Keeps m (decided policy x cfg m at s out)
  decided-Keeps m at s none = same m m refl refl
  decided-Keeps m at s (some d) =
      let (dedup, out) = process m.dedup d (as_secs_f64 policy x cfg at) in
      let n = record m { dedup = dedup } in then_keeps (same m n refl refl) (sent-Keeps n at s out)

  pub signalled-IsConsistent :
      (m : Simulator P X W S) (at : ℕ) (o : Option (SystemSignal W))
      → IsConsistent m
      → IsConsistent (signalled policy x cfg m at o)
  unfolding filter_map
  signalled-IsConsistent m at none h = h
  signalled-IsConsistent m at (some s) h =
      let d = from_signal s in
      let l = noticed policy x cfg m at d in
      let (p, out) = policy.process_signal l.policy s in
      let n = record l { policy = p } in
      let k = decided policy x cfg n at s out in
      let q = noticed-IsNoticed m at d h in
      let t = decided-Keeps n at s out in
      let past = onto [] (signals m.trajectory) in
      let seen : signals (k.trajectory ++ (signal at s ∷ [])) ≡ signals m.trajectory ++ (d ∷ []) =
        filter_map-append signal_of k.trajectory (signal at s ∷ [])
        ∙ ap (λ u. u ++ (d ∷ [])) (t.signals_same ∙ q.noticed_signals) in
      record {
        recorded =
            filter_map-append change_of k.trajectory (signal at s ∷ [])
            ∙ append-nil (transitions k.trajectory)
            ∙ t.transitions_same
            ∙ q.noticed_change
            ∙ sym (
                ap (changes []) seen
                ∙ changes-append [] (signals m.trajectory) (d ∷ [])
                ∙ ap (λ u. changes [] (signals m.trajectory) ++ u) (append-nil (change past d)));
        latest = λ kind.
            ap (λ l. get l kind) t.levels_same
            ∙ q.noticed_latest kind
            ∙ sym (
                ap (λ l. last_level (onto [] l) kind) seen
                ∙ ap (λ l. last_level l kind) (onto-append [] (signals m.trajectory) (d ∷ [])));
      }
