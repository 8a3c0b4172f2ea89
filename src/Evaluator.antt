-- ===== src/Evaluator.antt =====
-- src/evaluator.rs: the threshold evaluator with hysteresis that every monitor owns.
pub mod Schmitt
pub mod Ceiling
use argus_manager.Prelude.{Bool, ◌&&◌, Option, none, some, List, [], ◌∷◌, ltb, ◌==◌, if◌then◌else◌}
use argus_manager.Float.{Float, fle, flt}
use argus_manager.Signal.{Level, severity}

pub data Direction : Type 0 where
  ascending descending : Direction

-- `W` is `f64`.
pub record Thresholds (W : Type 0) : Type 0 where
  pub warning : W
  pub critical : W
  pub emergency : W
  pub hysteresis : W

pub record ThresholdEvaluator (W : Type 0) : Type 0 where
  pub direction : Direction
  pub thresholds : Thresholds W
  pub current : Level

-- `current < bound`
abbrev pub below : Level → Level → Bool
below current bound = ltb (severity current) (severity bound)

abbrev pub same : Level → Level → Bool
same a b = severity a == severity b

module _ {W : Type 0} ⦃f : Float W⦄ where
  unfoldable pub new : Direction → Thresholds W → ThresholdEvaluator W
  new direction thresholds = record {
    direction = direction;
    thresholds = thresholds;
    current = Level.normal;
  }

  -- The `match current` at the end of `level_ascending`; each guard is tested in its arm.
  abbrev recover_ascending : W → Level → W → W → W → Level
  recover_ascending value Level.emergency warning_down critical_down emergency_down =
      if flt value emergency_down
      then if flt value warning_down
        then Level.normal
        else if flt value critical_down
        then Level.warning
        else Level.critical
      else Level.emergency
  recover_ascending value Level.critical warning_down critical_down emergency_down =
      if flt value critical_down
      then if flt value warning_down then Level.normal else Level.warning
      else Level.critical
  recover_ascending value Level.warning warning_down critical_down emergency_down =
      if flt value warning_down then Level.normal else Level.warning
  recover_ascending value Level.normal warning_down critical_down emergency_down = Level.normal

  level_ascending : W → Level → W → W → W → W → Level
  level_ascending value current warning_up critical_up emergency_up hysteresis =
      let warning_down = f.sub warning_up hysteresis in
      let critical_down = f.sub critical_up hysteresis in
      let emergency_down = f.sub emergency_up hysteresis in
      if fle emergency_up value && below current Level.emergency
      then Level.emergency
      else if fle critical_up value && below current Level.critical
      then Level.critical
      else if fle warning_up value && below current Level.warning
      then Level.warning
      else recover_ascending value current warning_down critical_down emergency_down

  abbrev recover_descending : W → Level → W → W → W → Level
  recover_descending value Level.emergency warning_up critical_up emergency_up =
      if flt emergency_up value
      then if flt warning_up value
        then Level.normal
        else if flt critical_up value
        then Level.warning
        else Level.critical
      else Level.emergency
  recover_descending value Level.critical warning_up critical_up emergency_up =
      if flt critical_up value
      then if flt warning_up value then Level.normal else Level.warning
      else Level.critical
  recover_descending value Level.warning warning_up critical_up emergency_up =
      if flt warning_up value then Level.normal else Level.warning
  recover_descending value Level.normal warning_up critical_up emergency_up = Level.normal

  level_descending : W → Level → W → W → W → W → Level
  level_descending value current warning_below critical_below emergency_below hysteresis =
      let warning_up = f.add warning_below hysteresis in
      let critical_up = f.add critical_below hysteresis in
      let emergency_up = f.add emergency_below hysteresis in
      if fle value emergency_below && below current Level.emergency
      then Level.emergency
      else if fle value critical_below && below current Level.critical
      then Level.critical
      else if fle value warning_below && below current Level.warning
      then Level.warning
      else recover_descending value current warning_up critical_up emergency_up

  -- The `match self.direction` of `evaluate`.
  unfoldable pub level_by : Direction → Thresholds W → Level → W → Level
  unfolding level_ascending level_descending
  level_by Direction.ascending t current value =
      level_ascending value current t.warning t.critical t.emergency t.hysteresis
  level_by Direction.descending t current value =
      level_descending value current t.warning t.critical t.emergency t.hysteresis

  -- The new evaluator, and the level if it changed.
  unfoldable pub evaluate : ThresholdEvaluator W → W → ThresholdEvaluator W × Option Level
  evaluate e value =
      let new_level = level_by e.direction e.thresholds e.current value in
      if same new_level e.current
      then (e, none)
      else (record e { current = new_level }, some new_level)

  abbrev pub level : ThresholdEvaluator W → Level
  level e = e.current

  -- The evaluator after a history of readings, oldest first.
  abbrev pub evaluate_all : ThresholdEvaluator W → List W → ThresholdEvaluator W
  evaluate_all e [] = e
  evaluate_all e (v ∷ vs) = evaluate_all (evaluate e v).0 vs
