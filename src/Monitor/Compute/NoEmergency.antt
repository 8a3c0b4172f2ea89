-- ===== src/Monitor/Compute/NoEmergency.antt =====
-- The compute monitor of src/monitor/compute.rs over a run.
use argus_manager.Prelude.{
  arith, ℕ, ◌≡◌, ◌≢◌, refl, ap, ◌∙◌, false, Option, some, List, [], ◌∷◌, inl, inr, Option-cases,
}
use argus_manager.Float.{Float, fle, fmax}
use argus_manager.Signal.{Level, level}
use argus_manager.Evaluator.{ascending, level_by, evaluate}
use argus_manager.Evaluator.Ceiling.{evaluate_calm}
use argus_manager.Monitor.Compute.{
  compute_level_from_pcts, ComputeMonitor, new, read_cpu_snapshot, read_once, cpu_usage, or_zero,
  assessed, build_signal, poll,
}
use argus_manager.Config.{ComputeMonitorConfig, default_compute}

module _ {W : Type 0} ⦃f : Float W⦄ where
  -- No Emergency yet, and the ceiling out of reach of readings below `f64::MAX`.
  pub record IsCalm (m : ComputeMonitor W) : Type 0 where
    pub rising : m.evaluator.direction ≡ ascending
    pub ceiling : m.evaluator.thresholds.emergency ≡ f.max_value
    pub calm : m.evaluator.current ≢ Level.emergency

  -- The monitor after readings of the counters and the GPU, oldest first.
  abbrev pub run : ComputeMonitor W → List (List ℕ × Option W) → ComputeMonitor W
  run m [] = m
  run m ((fields, gpu) ∷ rs) = run (poll m fields gpu).0 rs

  -- The usages that the monitor computes along the way stay below `f64::MAX`.
  abbrev pub Finite : ComputeMonitor W → List (List ℕ × Option W) → Type 0
  Finite m [] = Unit {0}
  Finite m ((fields, gpu) ∷ rs) =
      let n = (poll m fields gpu).0 in
      (fle f.max_value (fmax n.last_cpu n.last_gpu) ≡ false) × Finite n rs

  assessed-IsCalm :
      (m : ComputeMonitor W)
      → IsCalm m
      → fle f.max_value (fmax m.last_cpu m.last_gpu) ≡ false
      → IsCalm (assessed m)
  assessed-IsCalm m c h =
      let (calm, rising, same_) =
        evaluate_calm m.evaluator (fmax m.last_cpu m.last_gpu) c.rising c.calm (rw c.ceiling h) in
      record { rising = rising; ceiling = ap (λ t. t.emergency) same_ ∙ c.ceiling; calm = calm }

  poll-IsCalm :
      (m : ComputeMonitor W) (fields : List ℕ) (gpu : Option W)
      → IsCalm m
      → let n = (poll m fields gpu).0 in
        fle f.max_value (fmax n.last_cpu n.last_gpu) ≡ false → IsCalm n
  unfolding poll read_once
  poll-IsCalm m fields gpu c h = elim (Option-cases (read_cpu_snapshot fields)) [
    | inl e ↦ rw e c
    | inr (snap, e) ↦ elim (Option-cases m.prev_snapshot) [
      | inl first ↦ rw (e, first) record { rising = c.rising; ceiling = c.ceiling; calm = c.calm }
      | inr (prev, later) ↦
          rw (e, later)
            (assessed-IsCalm
              record m {
                last_cpu = cpu_usage prev snap;
                last_gpu = or_zero gpu;
                prev_snapshot = some snap;
              }
              record { rising = c.rising; ceiling = c.ceiling; calm = c.calm } (rw (e, later) at h))
    ]
  ]

  run-IsCalm :
      (m : ComputeMonitor W) (rs : List (List ℕ × Option W))
      → IsCalm m
      → Finite m rs
      → IsCalm (run m rs)
  run-IsCalm m [] c h = c
  run-IsCalm m ((fields, gpu) ∷ rs) c h =
      run-IsCalm (poll m fields gpu).0 rs (poll-IsCalm m fields gpu c h.0) h.1

  -- Whatever the configuration, a compute monitor never signals Emergency, while every usage that
  -- it computes is below the largest float.
  pub run-ne-emergency :
      (config : ComputeMonitorConfig W) (ms : ℕ) (rs : List (List ℕ × Option W))
      → Finite (new config ms) rs
      → level (build_signal (run (new config ms) rs)) ≢ Level.emergency
  unfolding new build_signal
  run-ne-emergency config ms rs h =
      let c =
        run-IsCalm (new config ms) rs record { rising = refl; ceiling = refl; calm = λ e. cc } h in
      c.calm

  -- While the usages are below `f64::MAX`, the stateless classification of two usages that the
  -- simulator uses is what a monitor with the default configuration makes of them at first.
  compute_level-evaluate :
      (ms : ℕ) (cpu gpu : W)
      → fle f.max_value (fmax cpu gpu) ≡ false
      → compute_level_from_pcts cpu gpu
        ≡ (evaluate (new default_compute ms).evaluator (fmax cpu gpu)).0.current
  unfolding compute_level_from_pcts evaluate level_by new
  compute_level-evaluate ms cpu gpu h = ground arith
