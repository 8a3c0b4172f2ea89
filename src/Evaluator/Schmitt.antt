-- ===== src/Evaluator/Schmitt.antt =====
-- What the evaluator of src/evaluator.rs computes, independently of its ladder of branches: the
-- current level, raised to what the reading demands and lowered to what it still allows.
use argus_manager.Prelude.{◌≡◌, ◌∙◌, ◌≢◌, ◌⊎◌, true, false, none, some, arith, if◌then◌else◌, leb}
use argus_manager.Float.{Float, IsIeee, IsNumber, fle, nat}
use argus_manager.Signal.{Level, severity}
use argus_manager.Evaluator.{
  Direction, ascending, descending, Thresholds, ThresholdEvaluator, level_ascending,
  level_descending, level_by, same, evaluate,
}

abbrev pub worse : Level → Level → Level
worse a b = if leb (severity a) (severity b) then b else a

abbrev pub milder : Level → Level → Level
milder a b = if leb (severity a) (severity b) then a else b

pub same-eq : (a b : Level) → same a b ≡ true → a ≡ b
same-eq a b h = ground arith

worse_again : (u c d : Level) → worse u (milder (worse u (milder c d)) d) ≡ worse u (milder c d)
worse_again u c d = ground arith

module _ {W : Type 0} ⦃f : Float W⦄ where
  -- The level of a reading by itself: the highest threshold at or under it.
  abbrev pub reached : W → W → W → W → Level
  reached w c e v =
      if fle e v
      then Level.emergency
      else if fle c v
      then Level.critical
      else if fle w v
      then Level.warning
      else Level.normal

  -- The same where lower is worse.
  abbrev pub sunk : W → W → W → W → Level
  sunk w c e v =
      if fle v e
      then Level.emergency
      else if fle v c
      then Level.critical
      else if fle v w
      then Level.warning
      else Level.normal

  -- What a reading demands.
  abbrev pub demanded : Direction → Thresholds W → W → Level
  demanded Direction.ascending t = reached t.warning t.critical t.emergency
  demanded Direction.descending t = sunk t.warning t.critical t.emergency

  -- What a reading still allows: the same, with the thresholds eased by the hysteresis.
  abbrev pub allowed : Direction → Thresholds W → W → Level
  allowed Direction.ascending t =
      reached (f.sub t.warning t.hysteresis) (f.sub t.critical t.hysteresis)
        (f.sub t.emergency t.hysteresis)
  allowed Direction.descending t =
      sunk (f.add t.warning t.hysteresis) (f.add t.critical t.hysteresis)
        (f.add t.emergency t.hysteresis)

  -- Thresholds in order, a hysteresis that is not negative, and no NaN where it is subtracted.
  pub record IsRising (t : Thresholds W) : Type 0 where
    pub warning_critical : fle t.warning t.critical ≡ true
    pub critical_emergency : fle t.critical t.emergency ≡ true
    pub hysteresis_nonneg : fle (nat 0) t.hysteresis ≡ true
    pub warning_number : IsNumber (f.sub t.warning t.hysteresis)
    pub critical_number : IsNumber (f.sub t.critical t.hysteresis)
    pub emergency_number : IsNumber (f.sub t.emergency t.hysteresis)

  pub record IsFalling (t : Thresholds W) : Type 0 where
    pub critical_warning : fle t.critical t.warning ≡ true
    pub emergency_critical : fle t.emergency t.critical ≡ true
    pub hysteresis_nonneg : fle (nat 0) t.hysteresis ≡ true
    pub warning_number : IsNumber (f.add t.warning t.hysteresis)
    pub critical_number : IsNumber (f.add t.critical t.hysteresis)
    pub emergency_number : IsNumber (f.add t.emergency t.hysteresis)

  abbrev pub IsOrdered : Direction → Thresholds W → Type 0
  IsOrdered Direction.ascending t = IsRising t
  IsOrdered Direction.descending t = IsFalling t

  module _ (L : IsIeee W) (t : Thresholds W) (v : W) (num : IsNumber v) where
    level_ascending-eq :
        IsRising t
        → (cur : Level)
        → level_ascending v cur t.warning t.critical t.emergency t.hysteresis
          ≡ worse (demanded ascending t v) (milder cur (allowed ascending t v))
    unfolding level_ascending
    level_ascending-eq o cur =
        let wd = f.sub t.warning t.hysteresis in
        let cd = f.sub t.critical t.hysteresis in
        let ed = f.sub t.emergency t.hysteresis in
        let ew = L.sub_le t.warning t.hysteresis o.hysteresis_nonneg o.warning_number in
        let ec = L.sub_le t.critical t.hysteresis o.hysteresis_nonneg o.critical_number in
        let ee = L.sub_le t.emergency t.hysteresis o.hysteresis_nonneg o.emergency_number in
        ground (
          arith,
          L.le_trans t.warning t.critical v o.warning_critical,
          L.le_trans t.critical t.emergency v o.critical_emergency,
          L.le_trans wd t.warning v ew,
          L.le_trans cd t.critical v ec,
          L.le_trans ed t.emergency v ee,
          L.le_trans wd cd v (
              L.sub_mono t.warning t.critical t.hysteresis o.warning_critical o.warning_number
                o.critical_number),
          L.le_trans cd ed v (
              L.sub_mono t.critical t.emergency t.hysteresis o.critical_emergency o.critical_number
                o.emergency_number),
          L.le_total v wd num o.warning_number,
          L.le_total v cd num o.critical_number,
          L.le_total v ed num o.emergency_number,
        )

    level_descending-eq :
        IsFalling t
        → (cur : Level)
        → level_descending v cur t.warning t.critical t.emergency t.hysteresis
          ≡ worse (demanded descending t v) (milder cur (allowed descending t v))
    unfolding level_descending
    level_descending-eq o cur =
        let wu = f.add t.warning t.hysteresis in
        let cu = f.add t.critical t.hysteresis in
        let eu = f.add t.emergency t.hysteresis in
        let ew = L.le_add t.warning t.hysteresis o.hysteresis_nonneg o.warning_number in
        let ec = L.le_add t.critical t.hysteresis o.hysteresis_nonneg o.critical_number in
        let ee = L.le_add t.emergency t.hysteresis o.hysteresis_nonneg o.emergency_number in
        ground (
          arith,
          λ (h : fle v t.critical ≡ true). L.le_trans v t.critical t.warning h o.critical_warning,
          λ (h : fle v t.emergency ≡ true).
              L.le_trans v t.emergency t.critical h o.emergency_critical,
          λ (h : fle v t.warning ≡ true). L.le_trans v t.warning wu h ew,
          λ (h : fle v t.critical ≡ true). L.le_trans v t.critical cu h ec,
          λ (h : fle v t.emergency ≡ true). L.le_trans v t.emergency eu h ee,
          λ (h : fle v cu ≡ true). L.le_trans v cu wu h (
              L.add_mono t.critical t.warning t.hysteresis o.critical_warning o.critical_number
                o.warning_number),
          λ (h : fle v eu ≡ true). L.le_trans v eu cu h (
              L.add_mono t.emergency t.critical t.hysteresis o.emergency_critical o.emergency_number
                o.critical_number),
          L.le_total v wu num o.warning_number,
          L.le_total v cu num o.critical_number,
          L.le_total v eu num o.emergency_number,
        )

  level_by-eq :
      IsIeee W
      → (d : Direction) (t : Thresholds W) (cur : Level) (v : W) → IsOrdered d t
      → IsNumber v
      → level_by d t cur v ≡ worse (demanded d t v) (milder cur (allowed d t v))
  unfolding level_by
  level_by-eq L Direction.ascending t cur v o num = level_ascending-eq L t v num o cur
  level_by-eq L Direction.descending t cur v o num = level_descending-eq L t v num o cur

  evaluate-current :
      (e : ThresholdEvaluator W) (v : W)
      → (evaluate e v).0.current ≡ level_by e.direction e.thresholds e.current v
  unfolding evaluate
  evaluate-current e v =
      ground (arith, same-eq (level_by e.direction e.thresholds e.current v) e.current)

  -- A reading that is not NaN moves an evaluator to its current level, lowered to what the reading
  -- still allows (its level by the thresholds eased by the hysteresis), then raised to what it
  -- demands (its level by the thresholds themselves); in both directions, for thresholds in order, a
  -- hysteresis that is not negative, and eased thresholds that are not NaN.
  pub evaluate-eq-worse :
      IsIeee W
      → (e : ThresholdEvaluator W) (v : W) → IsOrdered e.direction e.thresholds
      → IsNumber v
      → (evaluate e v).0.current
        ≡ worse
            (demanded e.direction e.thresholds v)
            (milder e.current (allowed e.direction e.thresholds v))
  evaluate-eq-worse L e v o num =
      evaluate-current e v ∙ level_by-eq L e.direction e.thresholds e.current v o num

  -- An evaluation reports a level exactly when the level changed, the level that it reports is the
  -- new one, and nothing but the level changes.
  evaluate_reports :
      (e : ThresholdEvaluator W) (v : W)
      → ((evaluate e v).1 ≡ none) × (evaluate e v).0 ≡ e
        ⊎ ((evaluate e v).1 ≡ some (evaluate e v).0.current)
          × ((evaluate e v).0.current ≢ e.current)
          × ((evaluate e v).0.direction ≡ e.direction)
          × ((evaluate e v).0.thresholds ≡ e.thresholds)
  unfolding evaluate
  evaluate_reports e v =
      ground (arith, same-eq (level_by e.direction e.thresholds e.current v) e.current)

  level_by_nan :
      IsIeee W
      → (d : Direction) (t : Thresholds W) (cur : Level) (v : W) → fle v v ≡ false
      → level_by d t cur v ≡ cur
  unfolding level_by
  level_by_nan L Direction.ascending t cur v h =
      let wd = f.sub t.warning t.hysteresis in
      let cd = f.sub t.critical t.hysteresis in
      let ed = f.sub t.emergency t.hysteresis in
      ground (
        arith,
        L.number_of_le t.warning v,
        L.number_of_le t.critical v,
        L.number_of_le t.emergency v,
        L.number_of_le v wd,
        L.number_of_le v cd,
        L.number_of_le v ed,
      )
  level_by_nan L Direction.descending t cur v h =
      let wu = f.add t.warning t.hysteresis in
      let cu = f.add t.critical t.hysteresis in
      let eu = f.add t.emergency t.hysteresis in
      ground (
        arith,
        L.number_of_le v t.warning,
        L.number_of_le v t.critical,
        L.number_of_le v t.emergency,
        L.number_of_le wu v,
        L.number_of_le cu v,
        L.number_of_le eu v,
      )

  -- A NaN reading leaves the evaluator as it was and reports nothing, whatever the thresholds.
  evaluate_nan :
      IsIeee W → (e : ThresholdEvaluator W) (v : W) → fle v v ≡ false → evaluate e v ≡ (e, none)
  unfolding evaluate
  evaluate_nan L e v h = ground (arith, level_by_nan L e.direction e.thresholds e.current v h)

  level_by_again :
      IsIeee W
      → (d : Direction) (t : Thresholds W) (cur : Level) (v : W) → IsOrdered d t
      → IsNumber v
      → level_by d t (level_by d t cur v) v ≡ level_by d t cur v
  level_by_again L d t cur v o num = rw (level_by-eq L d t cur v o num) (
      level_by-eq L d t (worse (demanded d t v) (milder cur (allowed d t v))) v o num
      ∙ worse_again (demanded d t v) cur (allowed d t v))

  -- Once a reading that is not NaN has been evaluated, the same reading again changes nothing and
  -- reports nothing, for thresholds in order, a hysteresis that is not negative, and eased
  -- thresholds that are not NaN.
  evaluate_again :
      IsIeee W
      → (e : ThresholdEvaluator W) (v : W) → IsOrdered e.direction e.thresholds
      → IsNumber v
      → evaluate (evaluate e v).0 v ≡ ((evaluate e v).0, none)
  unfolding evaluate
  evaluate_again L e v o num =
      let cur = level_by e.direction e.thresholds e.current v in
      ground
        (arith, same-eq cur e.current, level_by_again L e.direction e.thresholds e.current v o num)
