-- ===== src/Sim/Derived.antt =====
-- src/sim/derived.rs, with the map's entries in the order in which it gives them; and `step` of
-- src/sim/physics.rs, which ends with it. `W` is `f64`.
use Prim.Native.String.{String}
use argus_manager.Prelude.{Option, none, some, List, [], ◌∷◌}
use argus_manager.Float.{Float, nat}
use argus_manager.Sim.Config.{DerivedExpr, ScenarioConfig}
use argus_manager.Sim.State.{PhysicalState, EngineStateModel, get_f64, set_f64}
use argus_manager.Sim.Expr.{EvalExpr, or_else, bind_state, bind_engine}
use argus_manager.Sim.Physics.{
  RealFunctions, lag_step, dvfs_update, passive_dynamics, external_injection_apply,
}
use argus_manager.Sim.Compose.{apply_actions}

-- What has gone wrong: an expression of `derived`, a clamp whose bounds are not in order; and in
-- src/sim/harness.rs a number of seconds that is no `Duration`, or a run that took too long.
pub data StepError : Type 0 where
  derived_expr : (name : String) → StepError
  clamp_panic duration_panic max_duration_exceeded : StepError

pub data Stepped (A : Type 0) : Type 0 where
  ok : A → Stepped A
  err : StepError → Stepped A

module _ {X E W : Type 0} ⦃f : Float W⦄ ⦃r : RealFunctions W⦄ (x : EvalExpr X E W) where
  abbrev one_derived :
      PhysicalState W → X → String → W → Option W → Option String → Stepped (PhysicalState W × X)
  one_derived s ctx name tau_s (some v) text =
      let applied = lag_step (or_else (nat 0) (get_f64 s name)) v tau_s (f.lit 5 100) in
      ok ((set_f64 s name applied).0, x.set_f64 ctx name applied)
  one_derived s ctx name tau_s none (some text) = ok (s, ctx)
  one_derived s ctx name tau_s none none = err (derived_expr name)

  abbrev after :
      (PhysicalState W → X → Stepped (PhysicalState W × X))
      → Stepped (PhysicalState W × X)
      → Stepped (PhysicalState W × X)
  after next (ok (s, ctx)) = next s ctx
  after next (err e) = err e

  abbrev all_derived :
      PhysicalState W → X → List (String × DerivedExpr E W) → Stepped (PhysicalState W × X)
  all_derived s ctx [] = ok (s, ctx)
  all_derived s ctx ((name, d) ∷ rest) =
      after (λ s1 ctx1. all_derived s1 ctx1 rest)
        (one_derived s ctx name d.tau_s (x.eval_float ctx d.expr) (x.eval_string ctx d.expr))

  unfoldable pub evaluate :
      PhysicalState W → EngineStateModel W → ScenarioConfig E W → X → Stepped (PhysicalState W × X)
  evaluate s e cfg ctx = all_derived s (bind_engine x (bind_state x ctx s) e) cfg.derived

  abbrev after_dvfs :
      EngineStateModel W
      → ScenarioConfig E W
      → W
      → W
      → X
      → Option (PhysicalState W)
      → Stepped (PhysicalState W × X)
  after_dvfs e cfg now_s dt_s ctx none = err clamp_panic
  after_dvfs e cfg now_s dt_s ctx (some s1) =
      let s2 = passive_dynamics s1 e cfg dt_s in
      let s3 = external_injection_apply s2 cfg.external_injections now_s dt_s in
      let (s4, ctx4) = apply_actions x s3 e cfg dt_s ctx in evaluate s4 e cfg ctx4

  -- `physics::step`, with the clock's time and the tick in seconds.
  unfoldable pub step :
      PhysicalState W
      → EngineStateModel W
      → ScenarioConfig E W
      → W
      → W
      → X
      → Stepped (PhysicalState W × X)
  step s e cfg now_s dt_s ctx = after_dvfs e cfg now_s dt_s ctx (dvfs_update s cfg dt_s)
