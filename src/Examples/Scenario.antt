-- ===== src/Examples/Scenario.antt =====
-- A scenario file that is loaded.
use Prim.Native.String.{String}
use argus_manager.Prelude.{ℕ, Option, some, none, List, [], ◌∷◌, refl}
use argus_manager.Float.Fixed.{Fixed, fixed_float, Fixed-IsIeee}
use argus_manager.Sim.Config.{ScenarioConfig}
use argus_manager.Sim.Config.Merge.{Value, leaf, File, parsed, load_yaml_with_extends}
use argus_manager.Sim.Config.Validate.{
  validate, validate_expressions, check_expr, check_effect_exprs, load_scenario,
}
use argus_manager.Sim.Config.Accepted.{IsSound, load_scenario-IsSound}
use argus_manager.Examples.Simulator.{cfg, constants}

abbrev one_file : List (String × File ℕ)
one_file = ("a.yaml", parsed (leaf 1) none) ∷ []

abbrev shape : Value ℕ → Option (ScenarioConfig Fixed Fixed)
shape v = some cfg

abbrev there : String → String → String
there from to = to

load_scenario-IsSound_example : IsSound constants 0 cfg
unfolding load_scenario load_yaml_with_extends validate validate_expressions check_expr
    check_effect_exprs
load_scenario-IsSound_example =
    load_scenario-IsSound constants 0 shape Fixed-IsIeee there one_file "a.yaml" cfg refl
