-- ===== src/Monitor/Compute/Advice.antt =====
-- The recommendation of src/monitor/compute.rs.
use argus_manager.Prelude.{◌⊎◌, ◌≡◌, ◌↔◌, true, arith, ◌&&◌, ◌||◌, not}
use argus_manager.Float.{Float, fle, flt, nat}
use argus_manager.Signal.{RecommendedBackend, ComputeReason}
use argus_manager.Monitor.Compute.{compute_recommendation}

module _ {W : Type 0} ⦃f : Float W⦄ where
  -- What a recommendation owes to the usages.
  abbrev pub Cool : W → W → W → RecommendedBackend × ComputeReason → Type 0
  Cool cpu gpu warning_pct (backend, reason) =
      let cpu_hot = fle warning_pct cpu in
      let gpu_hot = fle warning_pct gpu in
      let near = flt (f.abs (f.sub cpu gpu)) (nat 10) in
      ((not (cpu_hot && not gpu_hot) ≡ true) ⊎ (backend ≡ RecommendedBackend.gpu))
      × ((not (gpu_hot && not cpu_hot) ≡ true) ⊎ (backend ≡ RecommendedBackend.cpu))
      × ((backend ≡ RecommendedBackend.any)
          ↔ ((cpu_hot && gpu_hot || not cpu_hot && not gpu_hot && near) ≡ true))
      × ((reason ≡ ComputeReason.both_loaded) ↔ ((cpu_hot && gpu_hot) ≡ true))

  -- The GPU is advised when only the CPU is at or above the warning usage, and the CPU when only
  -- the GPU is. No backend is preferred exactly when both are there, or neither is and they differ
  -- by less than 10. Both are called loaded exactly when both are at the warning usage.
  compute_recommendation-Cool :
      (cpu gpu warning_pct : W)
      → Cool cpu gpu warning_pct (compute_recommendation cpu gpu warning_pct)
  unfolding compute_recommendation
  compute_recommendation-Cool cpu gpu w =
      (ground arith, ground arith, (ground arith, ground arith), (ground arith, ground arith))
