-- ===== src/Sim/Config/Accepted.antt =====
-- What a scenario that `load_scenario` of src/sim/config.rs accepts satisfies.
use Prim.Native.String.{String}
use argus_manager.Prelude.{
  ℕ, suc, ◌≡◌, refl, Bool, true, false, Option, none, some, List, [], ◌∷◌, ◌++◌, All, All-append,
  arith, leb, map, leb→le, ap, subst, length,
}
use argus_manager.Float.{Float, IsIeee, fle}
use argus_manager.Sim.Config.{
  ExprOrValue, literal, expr, string_literal, Effect, set, scale, add, set_tau, ActionSpec,
  InteractionTerm, DerivedExpr, InitialState, ScenarioConfig,
}
use argus_manager.Sim.Config.Merge as Merge
use argus_manager.Sim.Config.Validate.{
  Location, LoadResult, accepted, validate, evaluates, unless, check_expr, check_value,
  check_effect_exprs, check_when, check_effects, check_derived, check_actions, check_interactions,
  validate_expressions, checked, deserialised, shaped, load_scenario, derived_field, action_when,
  action_dimension, interaction_dimension,
}
use argus_manager.Sim.Expr.{EvalExpr}
use argus_manager.Sim.State
use argus_manager.Sim.State.{PhysicalState, state_from_config}
use argus_manager.Sim.Physics.Bounds.{Fits}

module _ {A : Type 0} where
  nil_parts : (xs ys : List A) → xs ++ ys ≡ [] → (xs ≡ []) × (ys ≡ [])
  nil_parts [] ys h = (refl, h)
  nil_parts (x ∷ xs) ys h = cc

abbrev pub of_option : {E : Type 0} → Option E → List E
of_option none = []
of_option (some e) = e ∷ []

module _ {E W : Type 0} where
  abbrev pub of_value : ExprOrValue E W → List E
  of_value (expr e) = e ∷ []
  of_value v = []

  abbrev pub of_effect : Effect E W → List E
  of_effect (set value tau_s) = of_value value
  of_effect (add value tau_s) = of_value value
  of_effect (scale factor tau_s) = of_value factor
  of_effect (set_tau value) = []

  abbrev pub of_effects : List (String × Effect E W) → List E
  of_effects [] = []
  of_effects ((dim, effect) ∷ rest) = of_effect effect ++ of_effects rest

  abbrev pub of_actions : List (String × ActionSpec E W) → List E
  of_actions [] = []
  of_actions ((name, spec) ∷ rest) =
      of_option spec.condition ++ (of_effects spec.effects ++ of_actions rest)

  abbrev pub of_interactions : List (InteractionTerm E W) → List E
  of_interactions [] = []
  of_interactions (t ∷ rest) = of_effects t.effects ++ of_interactions rest

  -- Every expression of a scenario.
  abbrev pub expressions : ScenarioConfig E W → List E
  expressions cfg =
      let p = cfg.passive_dynamics in
      p.thermal_c.expr
      ∷ p.memory_bw_utilization_pct.expr
      ∷ p.kv_cache_bytes.applies_when
      ∷ (map (λ d. d.1.expr) cfg.derived
          ++ (of_actions cfg.actions ++ of_interactions cfg.interactions))

  abbrev scenario_or : ScenarioConfig E W → LoadResult E W → ScenarioConfig E W
  scenario_or cfg (accepted out) = out
  scenario_or cfg r = cfg

module _ {X E W : Type 0} ⦃f : Float W⦄ (x : EvalExpr X E W) (empty : X) where
  -- The dry run gives the expression a value.
  abbrev pub Evaluates : E → Type 0
  Evaluates e = evaluates x empty e ≡ true

  unless-nil : (b : Bool) (l : Location) → unless x empty b l ≡ [] → b ≡ true
  unless-nil true l h = refl
  unless-nil false l h = cc

  expr-All : (e : E) (l : Location) → check_expr x empty e l ≡ [] → Evaluates e
  unfolding check_expr
  expr-All e l h = unless-nil (evaluates x empty e) l h

  value-All :
      (v : ExprOrValue E W) (l : Location)
      → check_value x empty v l ≡ []
      → All Evaluates (of_value v)
  value-All (literal v) l h = tt
  value-All (string_literal v) l h = tt
  value-All (expr e) l h = (expr-All e l h, tt)

  effect-All :
      (e : Effect E W) (l : Location)
      → check_effect_exprs x empty e l ≡ []
      → All Evaluates (of_effect e)
  unfolding check_effect_exprs
  effect-All (set v t) l h = value-All v l h
  effect-All (add v t) l h = value-All v l h
  effect-All (scale v t) l h = value-All v l h
  effect-All (set_tau v) l h = tt

  effects-All :
      (at : String → Location) (es : List (String × Effect E W))
      → check_effects x empty at es ≡ []
      → All Evaluates (of_effects es)
  effects-All at [] h = tt
  effects-All at ((dim, e) ∷ rest) h =
      let (here, later) = nil_parts (check_effect_exprs x empty e (at dim)) _ h in
      All-append Evaluates (of_effect e) _ (effect-All e (at dim) here) (effects-All at rest later)

  derived-All :
      (ds : List (String × DerivedExpr E W))
      → check_derived x empty ds ≡ []
      → All Evaluates (map (λ d. d.1.expr) ds)
  derived-All [] h = tt
  derived-All ((name, d) ∷ rest) h =
      let (here, later) = nil_parts (check_expr x empty d.expr (derived_field name)) _ h in
      (expr-All d.expr (derived_field name) here, derived-All rest later)

  when-All :
      (o : Option E) (l : Location) → check_when x empty o l ≡ [] → All Evaluates (of_option o)
  when-All none l h = tt
  when-All (some e) l h = (expr-All e l h, tt)

  actions-All :
      (specs : List (String × ActionSpec E W))
      → check_actions x empty specs ≡ []
      → All Evaluates (of_actions specs)
  actions-All [] h = tt
  actions-All ((name, spec) ∷ rest) h =
      let (here, more) = nil_parts (check_when x empty spec.condition (action_when name)) _ h in
      let (mid, later) =
        nil_parts (check_effects x empty (action_dimension name) spec.effects) _ more in
      All-append Evaluates (of_option spec.condition) _
        (when-All spec.condition (action_when name) here)
        (All-append Evaluates (of_effects spec.effects) _
          (effects-All (action_dimension name) spec.effects mid) (actions-All rest later))

  interactions-All :
      (index : ℕ) (ts : List (InteractionTerm E W))
      → check_interactions x empty index ts ≡ []
      → All Evaluates (of_interactions ts)
  interactions-All index [] h = tt
  interactions-All index (t ∷ rest) h =
      let (here, later) =
        nil_parts (check_effects x empty (interaction_dimension index) t.effects) _ h in
      All-append Evaluates (of_effects t.effects) _
        (effects-All (interaction_dimension index) t.effects here)
        (interactions-All (suc index) rest later)

  expressions-All :
      (cfg : ScenarioConfig E W)
      → validate_expressions x empty cfg ≡ []
      → All Evaluates (expressions cfg)
  unfolding validate_expressions
  expressions-All cfg h =
      let p = cfg.passive_dynamics in
      let (a, more) = nil_parts (check_expr x empty p.thermal_c.expr _) _ h in
      let (b, more2) = nil_parts (check_expr x empty p.memory_bw_utilization_pct.expr _) _ more in
      let (c, more3) = nil_parts (check_expr x empty p.kv_cache_bytes.applies_when _) _ more2 in
      let (d, more4) = nil_parts (check_derived x empty cfg.derived) _ more3 in
      let (e, last) = nil_parts (check_actions x empty cfg.actions) _ more4 in
      (
        expr-All _ _ a,
        (
          expr-All _ _ b,
          (
            expr-All _ _ c,
            All-append Evaluates (map (λ d. d.1.expr) cfg.derived) _ (derived-All cfg.derived d) (
                All-append Evaluates (of_actions cfg.actions) _ (actions-All cfg.actions e)
                  (interactions-All 0 cfg.interactions last)),
          ),
        ),
      )

  -- The state that a scenario begins with: no store holds more than its capacity.
  abbrev pub IsWithin : PhysicalState W → Type 0
  IsWithin s =
      Fits s
      × (fle (s.numbers State.device_memory_used_mb) (s.numbers State.device_memory_total_mb)
          ≡ true)
      × (fle (s.numbers State.kv_cache_tokens) (s.numbers State.kv_cache_token_capacity) ≡ true)

  of_nat_le : IsIeee W → (n m : ℕ) → leb n m ≡ true → fle (f.of_nat n) (f.of_nat m) ≡ true
  of_nat_le L n m h = rw (L.of_nat_lit n, L.of_nat_lit m) (L.lit_mono n m 1 (leb→le n m h))

  validate-IsWithin :
      IsIeee W → (s : InitialState W) → validate s ≡ true → IsWithin (state_from_config s)
  unfolding validate state_from_config
  validate-IsWithin L s h =
      let a : leb s.kv_cache_bytes s.kv_cache_capacity_bytes ≡ true = ground (arith, h) in
      let b : leb s.device_memory_used_mb s.device_memory_total_mb ≡ true = ground (arith, h) in
      let c : leb s.kv_cache_tokens s.kv_cache_token_capacity ≡ true = ground (arith, h) in
      (of_nat_le L _ _ a, of_nat_le L _ _ b, of_nat_le L _ _ c)

  -- What is known of an accepted scenario.
  abbrev pub IsSound : ScenarioConfig E W → Type 0
  IsSound cfg = IsWithin (state_from_config cfg.initial_state) × All Evaluates (expressions cfg)

  checked-IsSound :
      IsIeee W
      → (cfg out : ScenarioConfig E W) (valid : Bool) (errors : List Location)
      → validate cfg.initial_state ≡ valid
      → validate_expressions x empty cfg ≡ errors
      → checked x empty cfg valid errors ≡ accepted out
      → IsSound out
  checked-IsSound L cfg out false errors v e h = cc
  checked-IsSound L cfg out true (l ∷ ls) v e h = cc
  checked-IsSound L cfg out true [] v e h =
      subst IsSound (ap (scenario_or cfg) h)
        (validate-IsWithin L cfg.initial_state v, expressions-All cfg e)

  module _ {A : Type 0} (from_value : Merge.Value A → Option (ScenarioConfig E W)) where
    deserialised-IsSound :
        IsIeee W
        → (read : Option (ScenarioConfig E W)) (out : ScenarioConfig E W)
        → deserialised x empty from_value read ≡ accepted out
        → IsSound out
    deserialised-IsSound L none out h = cc
    deserialised-IsSound L (some cfg) out h =
        checked-IsSound L cfg out (validate cfg.initial_state) (validate_expressions x empty cfg)
          refl refl h

    shaped-IsSound :
        IsIeee W
        → (loaded : Merge.Loaded A) (out : ScenarioConfig E W)
        → shaped x empty from_value loaded ≡ accepted out
        → IsSound out
    shaped-IsSound L (Merge.ok value) out h = deserialised-IsSound L (from_value value) out h
    shaped-IsSound L Merge.io_error out h = cc
    shaped-IsSound L Merge.parse_error out h = cc
    shaped-IsSound L Merge.circular_extends out h = cc
    shaped-IsSound L Merge.out_of_fuel out h = cc

    -- Whatever the files hold: if `load_scenario` returns a scenario, then in the state that a
    -- simulation of it begins with the KV cache, the device's memory and the cached tokens are
    -- within their capacities, and each of its expressions (of the passive dynamics, the derived
    -- fields, and the conditions and effects of actions and interactions) has a value in the dry run.
    pub load_scenario-IsSound :
        IsIeee W
        → (resolve : String → String → String) (files : List (String × Merge.File A))
          (path : String) (out : ScenarioConfig E W)
        → load_scenario x empty from_value resolve files path ≡ accepted out
        → IsSound out
    unfolding load_scenario
    load_scenario-IsSound L resolve files path out h =
        shaped-IsSound L (Merge.load_yaml_with_extends resolve files (suc (length files)) [] path)
          out h
