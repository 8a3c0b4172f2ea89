-- ===== src/Monitor/Memory/Signals.antt =====
-- What the memory monitor of src/monitor/memory.rs sends.
use argus_manager.Prelude.{ℕ, ◌≡◌, refl, some, arith}
use argus_manager.Float.{Float, IsIeee, IsNumber}
use argus_manager.Signal.{memory_pressure}
use argus_manager.Config.{default_memory}
use argus_manager.Evaluator.{evaluate, level_by}
use argus_manager.Evaluator.Schmitt.{IsOrdered, demanded, allowed, worse, milder, evaluate-eq-worse}
use argus_manager.Monitor.Memory.{
  MemoryMonitor, memory_level_from_available_pct, new, reclaim, build_signal, available_pct, poll,
}

module _ {W : Type 0} ⦃f : Float W⦄ where
  -- The stateless classification that the simulator uses is what a monitor with the default
  -- configuration makes of its first reading.
  memory_level-evaluate :
      (ms : ℕ) (pct : W)
      → memory_level_from_available_pct pct
        ≡ (evaluate (new default_memory ms).evaluator pct).0.current
  unfolding memory_level_from_available_pct evaluate level_by new
  memory_level-evaluate ms pct = ground arith

  -- A reading that parses always sends a signal. It carries the bytes read and the amount to
  -- reclaim for its level, and the level is the previous one lowered to what the percentage still
  -- allows and raised to what it demands, for ordered thresholds and a percentage that is a number.
  poll_sends :
      IsIeee W
      → (m : MemoryMonitor W) (total available : ℕ)
      → IsOrdered m.evaluator.direction m.evaluator.thresholds
      → IsNumber (available_pct {W = W} total available)
      → let (n, out) = poll m (some (total, available)) in
        let pct : W = available_pct total available in
        (out
          ≡ some (
              memory_pressure n.evaluator.current available total
                (reclaim W n.evaluator.current total)))
        × (n.evaluator.current
            ≡ worse (demanded m.evaluator.direction m.evaluator.thresholds pct) (
                milder m.evaluator.current
                  (allowed m.evaluator.direction m.evaluator.thresholds pct)))
  unfolding poll build_signal
  poll_sends L m total available o num =
      (refl, evaluate-eq-worse L m.evaluator (available_pct total available) o num)
