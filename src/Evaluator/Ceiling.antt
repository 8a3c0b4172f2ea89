-- ===== src/Evaluator/Ceiling.antt =====
-- How far the evaluator of src/evaluator.rs can climb over a history of readings.
use argus_manager.Prelude.{◌≡◌, ◌≢◌, sym, subst, false, List, [], ◌∷◌, All, arith}
use argus_manager.Float.{Float, fle}
use argus_manager.Signal.{Level}
use argus_manager.Evaluator.{ascending, ThresholdEvaluator, level_by, evaluate, evaluate_all}

module _ {W : Type 0} ⦃f : Float W⦄ where
  pub evaluate_calm :
      (e : ThresholdEvaluator W) (v : W)
      → e.direction ≡ ascending
      → e.current ≢ Level.emergency
      → fle e.thresholds.emergency v ≡ false
      → ((evaluate e v).0.current ≢ Level.emergency)
        × ((evaluate e v).0.direction ≡ ascending)
        × ((evaluate e v).0.thresholds ≡ e.thresholds)
  unfolding evaluate level_by
  evaluate_calm e v d c h = ground arith

  -- Where higher is worse, an evaluator that is not at Emergency never gets there while no reading
  -- comes up to the emergency threshold, whatever the readings.
  evaluate_all-ne-emergency :
      (e : ThresholdEvaluator W) (vs : List W)
      → e.direction ≡ ascending
      → e.current ≢ Level.emergency
      → All (λ v. fle e.thresholds.emergency v ≡ false) vs
      → (evaluate_all e vs).current ≢ Level.emergency
  evaluate_all-ne-emergency e [] d c h = c
  evaluate_all-ne-emergency e (v ∷ vs) d c h =
      let calm = evaluate_calm e v d c h.0 in
      evaluate_all-ne-emergency (evaluate e v).0 vs calm.1 calm.0
        (subst (λ t. All (λ x. fle t.emergency x ≡ false) vs) (sym calm.2) h.1)
