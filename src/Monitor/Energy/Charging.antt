-- ===== src/Monitor/Energy/Charging.antt =====
-- The battery's level of src/monitor/energy.rs while it charges.
use Prim.Native.String.{String}
use argus_manager.Prelude.{ℕ, ◌≡◌, ◌<◌, ◌↔◌, refl, inl, inr, true, Option, arith, Bool-cases}
use argus_manager.Float.{Float, IsIeee, fle, flt, nat}
use argus_manager.Signal.{Level, charging, SystemSignal, level, energy_constraint}
use argus_manager.Evaluator.{ThresholdEvaluator, descending, evaluate, level_by, same}
use argus_manager.Evaluator.Schmitt.{IsFalling, same-eq}
use argus_manager.Monitor.Energy.{EnergyMonitor, evaluate_energy, build_signal, poll}

abbrev pub budget_of : {W : Type 0} → SystemSignal W → ℕ
budget_of (energy_constraint l reason mw) = mw
budget_of _ = 0

module _ {W : Type 0} ⦃f : Float W⦄ where
  full-normal :
      IsIeee W
      → (e : ThresholdEvaluator W) → e.direction ≡ descending
      → IsFalling e.thresholds
      → flt (f.add e.thresholds.warning e.thresholds.hysteresis) (nat 100) ≡ true
      → (evaluate e (nat 100)).0.current ≡ Level.normal
  unfolding evaluate level_by
  full-normal L e d o h =
      let t = e.thresholds in
      let v : W = nat 100 in
      let wu = f.add t.warning t.hysteresis in
      let cu = f.add t.critical t.hysteresis in
      let eu = f.add t.emergency t.hysteresis in
      let hw = L.le_add t.warning t.hysteresis o.hysteresis_nonneg o.warning_number in
      let cw =
        L.add_mono t.critical t.warning t.hysteresis o.critical_warning o.critical_number
          o.warning_number in
      let ec =
        L.add_mono t.emergency t.critical t.hysteresis o.emergency_critical o.emergency_number
          o.critical_number in
      ground (
        arith,
        λ (x : fle v t.warning ≡ true). L.le_trans v t.warning wu x hw,
        λ (x : fle v t.critical ≡ true). L.le_trans v t.critical t.warning x o.critical_warning,
        λ (x : fle v t.emergency ≡ true).
            L.le_trans v t.emergency t.critical x o.emergency_critical,
        λ (x : fle v cu ≡ true). L.le_trans v cu wu x cw,
        λ (x : fle v eu ≡ true). L.le_trans v eu cu x ec,
        L.le_trans eu cu v ec,
        L.le_trans cu wu v cw,
      )

  -- While the battery charges and charging is to be ignored, one evaluation leaves the level at
  -- Normal, the signal says charging and asks for no power budget, whatever the level was and
  -- whatever the capacity; for an evaluator that descends, with ordered thresholds of which warning,
  -- eased by the hysteresis, is below 100 %.
  pub evaluate_energy_charging :
      IsIeee W
      → (m : EnergyMonitor W) (capacity : Option W) → m.ignore_when_charging ≡ true
      → m.evaluator.direction ≡ descending
      → IsFalling m.evaluator.thresholds
      → flt (f.add m.evaluator.thresholds.warning m.evaluator.thresholds.hysteresis) (nat 100)
        ≡ true
      → build_signal (evaluate_energy m capacity true).0 ≡ energy_constraint Level.normal charging 0
  unfolding evaluate_energy build_signal
  evaluate_energy_charging L m capacity i d o h =
      let n = full-normal L m.evaluator d o h in
      elim (Bool-cases (same m.evaluator.current Level.normal)) [
        | inl e ↦ rw (i, e, same-eq m.evaluator.current Level.normal e) refl
        | inr e ↦ rw (i, e, n) refl
      ]

  -- Whatever the battery's files say, the signal that one turn sends asks for no power budget exactly
  -- when its level is Normal, where the configured budgets are above 0.
  poll-budget :
      (m : EnergyMonitor W) (capacity : Option W) (status : Option String)
      → 0 < m.power_budgets.warning_mw
      → 0 < m.power_budgets.critical_mw
      → 0 < m.power_budgets.emergency_mw
      → (budget_of (poll m capacity status).1 ≡ 0)
        ↔ (level (poll m capacity status).1 ≡ Level.normal)
  unfolding poll build_signal evaluate_energy
  poll-budget m capacity status w c e = ground arith
