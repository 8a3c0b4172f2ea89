-- ===== src/Sim/Compose.antt =====
-- src/sim/compose.rs: the effects of the active actions. A `HashMap` is the list of its entries; the
-- maps that are built here keep the order of insertion, which is one of the orders possible.
pub mod Keys
pub mod Order
use Prim.Native.String.{String}
use text.Mathlib.Text.{◌==◌ as str_eq}
use argus_manager.Prelude.{
  ℕ, Bool, true, false, ◌&&◌, ◌||◌, Option, none, some, List, [], ◌∷◌, ◌++◌, if◌then◌else◌,
}
use argus_manager.Float.{Float, flt, fmax, nat}
use argus_manager.Sim.Config.{
  get, ExprOrValue, literal, expr, string_literal, Effect, set, scale, add, set_tau, ActionSpec,
  CompositionOp, Composition, InteractionTerm, ScenarioConfig,
}
use argus_manager.Sim.State.{PhysicalState, EngineStateModel, get_f64, set_f64}
use argus_manager.Sim.Expr.{EvalExpr, or_else, fmin, bind_state, bind_engine}
use argus_manager.Sim.Physics.{RealFunctions, lag_step}

module _ {A : Type 0} where
  -- `HashMap::insert`
  abbrev pub insert : List (String × A) → String → A → List (String × A)
  insert [] key a = (key, a) ∷ []
  insert ((k, b) ∷ rest) key a =
      let inserted = insert rest key a in if str_eq k key then (k, a) ∷ rest else (k, b) ∷ inserted

  -- `entry(key).or_insert(a)`
  abbrev pub or_insert : List (String × A) → String → A → List (String × A)
  or_insert m key a = elim (get m key) [ none ↦ m ++ ((key, a) ∷ []) | some b ↦ m ]

abbrev pub DimEffects : Type 0 → Type 0
DimEffects W = List (String × (CompositionOp × List W))

unfoldable pub collect_effect :
    {W : Type 0} → DimEffects W → String → CompositionOp → W → DimEffects W
collect_effect [] dim op v = (dim, (op, v ∷ [])) ∷ []
collect_effect ((k, (o, vs)) ∷ rest) dim op v =
    let collected = collect_effect rest dim op v in
    if str_eq k dim then (k, (o, vs ++ (v ∷ []))) ∷ rest else (k, (o, vs)) ∷ collected

-- `dim_effects`, `dim_tau` and `string_sets`.
pub record Collected (W : Type 0) : Type 0 where
  pub dim_effects : DimEffects W
  pub dim_tau : List (String × W)
  pub string_sets : List (String × String)

abbrev pub add_op : CompositionOp → CompositionOp
add_op CompositionOp.add = CompositionOp.add
add_op CompositionOp.add_delta = CompositionOp.add_delta
add_op _ = CompositionOp.add

abbrev pub set_op : CompositionOp → CompositionOp
set_op CompositionOp.max = CompositionOp.max
set_op CompositionOp.min = CompositionOp.min
set_op _ = CompositionOp.max

abbrev pub contains : List String → String → Bool
contains [] name = false
contains (x ∷ xs) name = str_eq x name || contains xs name

module _ {X E W : Type 0} ⦃f : Float W⦄ (x : EvalExpr X E W) (ctx : X) where
  unfoldable pub eval_expr_or_value : ExprOrValue E W → Option W
  eval_expr_or_value (literal v) = some v
  eval_expr_or_value (expr e) = x.eval_float ctx e
  eval_expr_or_value (string_literal s) = none

  abbrev collected : Collected W → String → CompositionOp → W → Collected W
  collected c dim op v = record c { dim_effects = collect_effect c.dim_effects dim op v }

  abbrev tau_inserted : Collected W → String → W → Collected W
  tau_inserted c dim tau_s =
      if flt (nat 0) tau_s then record c { dim_tau = insert c.dim_tau dim tau_s } else c

  abbrev pub tau_or_inserted : Collected W → String → W → Collected W
  tau_or_inserted c dim tau_s =
      if flt (nat 0) tau_s then record c { dim_tau = or_insert c.dim_tau dim tau_s } else c

  abbrev string_set : Collected W → String → String → Collected W
  string_set c dim s = record c { string_sets = insert c.string_sets dim s }

  abbrev pub set_evaluated : Collected W → String → W → Option String → Option W → Collected W
  set_evaluated c dim tau_s (some s) v = string_set c dim s
  set_evaluated c dim tau_s none (some v) =
      tau_inserted (collected c dim CompositionOp.max v) dim tau_s
  set_evaluated c dim tau_s none none = c

  -- The effects that actions and interactions share.
  abbrev scale_effect : Collected W → String → ExprOrValue E W → W → Collected W
  scale_effect c dim factor tau_s =
      let v = or_else (nat 1) (eval_expr_or_value factor) in
      tau_or_inserted (collected c dim CompositionOp.multiply v) dim tau_s

  abbrev add_effect : Collected W → String → CompositionOp → ExprOrValue E W → W → Collected W
  add_effect c dim op value tau_s =
      let v = or_else (nat 0) (eval_expr_or_value value) in
      tau_or_inserted (collected c dim (add_op op) v) dim tau_s

  abbrev tau_effect : Collected W → String → W → Collected W
  tau_effect c dim value = record c { dim_tau = insert c.dim_tau dim value }

  -- One effect of an action.
  unfoldable pub action_effect : Collected W → CompositionOp → String → Effect E W → Collected W
  action_effect c op dim (set (string_literal s) tau_s) = string_set c dim s
  action_effect c op dim (set (expr e) tau_s) =
      set_evaluated c dim tau_s (x.eval_string ctx e) (x.eval_float ctx e)
  action_effect c op dim (set (literal v) tau_s) =
      tau_inserted (collected c dim CompositionOp.max v) dim tau_s
  action_effect c op dim (scale factor tau_s) = scale_effect c dim factor tau_s
  action_effect c op dim (add value tau_s) = add_effect c dim op value tau_s
  action_effect c op dim (set_tau value) = tau_effect c dim value

  -- One effect of an interaction.
  unfoldable pub interaction_effect :
      Collected W → CompositionOp → String → Effect E W → Collected W
  interaction_effect c op dim (scale factor tau_s) = scale_effect c dim factor tau_s
  interaction_effect c op dim (add value tau_s) = add_effect c dim op value tau_s
  interaction_effect c op dim (set (literal v) tau_s) =
      tau_inserted (collected c dim (set_op op) v) dim tau_s
  interaction_effect c op dim (set value tau_s) = c
  interaction_effect c op dim (set_tau value) = tau_effect c dim value

  abbrev op_of : Composition → String → CompositionOp
  op_of composition dim = or_else composition.default_op (get composition.per_dimension dim)

  abbrev pub effects :
      (Collected W → CompositionOp → String → Effect E W → Collected W)
      → Composition
      → Collected W
      → List (String × Effect E W)
      → Collected W
  effects one composition c [] = c
  effects one composition c ((dim, effect) ∷ rest) =
      effects one composition (one c (op_of composition dim) dim effect) rest

  abbrev pub holds : Option E → Bool
  holds none = true
  holds (some e) = or_else false (x.eval_boolean ctx e)

  abbrev pub action_spec : Composition → Collected W → Option (ActionSpec E W) → Collected W
  action_spec composition c none = c
  action_spec composition c (some spec) =
      if holds spec.condition then effects action_effect composition c spec.effects else c

  abbrev pub actions : ScenarioConfig E W → Collected W → List String → Collected W
  actions cfg c [] = c
  actions cfg c (name ∷ names) =
      actions cfg (action_spec cfg.composition c (get cfg.actions name)) names

  abbrev pub all_active : List String → List String → Bool
  all_active active [] = true
  all_active active (a ∷ rest) = contains active a && all_active active rest

  abbrev pub interactions :
      Composition → List String → Collected W → List (InteractionTerm E W) → Collected W
  interactions composition active c [] = c
  interactions composition active c (t ∷ ts) =
      let c1 =
        if all_active active t.actions
        then effects interaction_effect composition c t.effects
        else c in
      interactions composition active c1 ts

  -- The two loops that collect.
  unfoldable pub collect_all : ScenarioConfig E W → List String → Collected W
  collect_all cfg active =
      let nothing : Collected W = record { dim_effects = []; dim_tau = []; string_sets = [] } in
      interactions cfg.composition active (actions cfg nothing active) cfg.interactions

module _ {W : Type 0} ⦃f : Float W⦄ ⦃r : RealFunctions W⦄ where
  abbrev fold : (W → W → W) → W → List W → W
  fold g a [] = a
  fold g a (v ∷ vs) = fold g (g a v) vs

  abbrev pub target : CompositionOp → W → List W → W
  target CompositionOp.multiply current vs = f.mul current (fold f.mul (nat 1) vs)
  target CompositionOp.add current vs = f.add current (fold f.add (nat 0) vs)
  target CompositionOp.add_delta current vs = f.add current (fold f.add (nat 0) vs)
  target CompositionOp.max current vs = fold fmax (r.neg r.infinity) vs
  target CompositionOp.min current vs = fold fmin r.infinity vs

  abbrev moved :
      PhysicalState W → String → CompositionOp → List W → W → W → Option W → PhysicalState W
  moved s dim op vs tau_s dt_s none = s
  moved s dim op vs tau_s dt_s (some current) =
      (set_f64 s dim (lag_step current (target op current vs) tau_s dt_s)).0

  -- One turn of the loop that applies the effects.
  abbrev pub apply_effect :
      List (String × W) → W → String × (CompositionOp × List W) → PhysicalState W → PhysicalState W
  apply_effect dim_tau dt_s (dim, (op, [])) s = s
  apply_effect dim_tau dt_s (dim, (op, v ∷ vs)) s =
      moved s dim op (v ∷ vs) (or_else (nat 0) (get dim_tau dim)) dt_s (get_f64 s dim)

  unfoldable pub apply_effects :
      List (String × W) → W → DimEffects W → PhysicalState W → PhysicalState W
  apply_effects dim_tau dt_s [] s = s
  apply_effects dim_tau dt_s (e ∷ es) s =
      apply_effects dim_tau dt_s es (apply_effect dim_tau dt_s e s)

  abbrev apply_strings : List (String × String) → PhysicalState W → PhysicalState W
  apply_strings [] s = s
  apply_strings ((dim, value) ∷ rest) s =
      apply_strings rest (if str_eq dim "kv_dtype" then record s { kv_dtype = value } else s)

  -- The state, and the context.
  unfoldable pub apply_actions :
      {X E : Type 0}
      → EvalExpr X E W
      → PhysicalState W
      → EngineStateModel W
      → ScenarioConfig E W
      → W
      → X
      → PhysicalState W × X
  apply_actions x s e cfg dt_s ctx = elim e.active_actions [
    | [] ↦ (s, ctx)
    | name ∷ names ↦
        let bound = bind_engine x (bind_state x ctx s) e in
        let c = collect_all x bound cfg (name ∷ names) in
        (apply_strings c.string_sets (apply_effects c.dim_tau dt_s c.dim_effects s), bound)
  ]
