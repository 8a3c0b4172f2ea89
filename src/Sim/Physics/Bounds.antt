-- ===== src/Sim/Physics/Bounds.antt =====
-- What one step of src/sim/physics.rs keeps within bounds.
use text.Mathlib.Text.{◌==◌ as str_eq}
use argus_manager.Prelude.{ℕ, ◌≡◌, inl, inr, true, ◌||◌, Option, none, some, arith, Bool-cases}
use argus_manager.Float.{Float, IsIeee, IsNumber, fle}
use argus_manager.Sim.Config.{get, ScenarioConfig, KvCacheGrowth}
use argus_manager.Sim.State
use argus_manager.Sim.State.{PhysicalState, EngineStateModel}
use argus_manager.Sim.Expr.{fmin}
use argus_manager.Sim.Physics.{RealFunctions, heat, grow, grown, passive_dynamics}

module _ {W : Type 0} ⦃f : Float W⦄ where
  -- The KV cache is not above its capacity.
  abbrev pub Fits : PhysicalState W → Type 0
  Fits s = fle (s.numbers State.kv_cache_bytes) (s.numbers State.kv_cache_capacity_bytes) ≡ true

  fmin_le : (a b : W) → IsNumber b → fle (fmin a b) b ≡ true
  fmin_le a b h = ground (arith, h)

  grown-Fits :
      IsIeee W
      → (s : PhysicalState W) (dt_s : W) (size : Option ℕ) → Fits s
      → Fits (grown s dt_s size)
  grown-Fits L s dt_s none h = h
  grown-Fits L s dt_s (some n) h =
      fmin_le _ (s.numbers State.kv_cache_capacity_bytes) (L.number_of_le _ _ h).1

  grow-Fits :
      {E : Type 0}
      → IsIeee W
      → (s : PhysicalState W) (e : EngineStateModel W) (g : KvCacheGrowth E) (dt_s : W) → Fits s
      → Fits (grow s e g dt_s)
  unfolding grow
  grow-Fits L s e g dt_s h =
      elim (Bool-cases (str_eq e.phase "decode" || str_eq e.phase "prefill")) [
        | inl growing ↦ rw growing (grown-Fits L s dt_s (get g.growth_per_token s.kv_dtype) h)
        | inr still ↦ rw still h
      ]

  -- However the KV cache grows, and whatever the heat: a cache that is within its capacity stays
  -- within it.
  pub passive_dynamics-Fits :
      ⦃r : RealFunctions W⦄
      → {E : Type 0} → IsIeee W
      → (s : PhysicalState W) (e : EngineStateModel W) (cfg : ScenarioConfig E W) (dt_s : W)
      → Fits s
      → Fits (passive_dynamics s e cfg dt_s)
  unfolding passive_dynamics heat
  passive_dynamics-Fits L s e cfg dt_s h =
      grow-Fits L (heat s cfg dt_s) e cfg.passive_dynamics.kv_cache_bytes dt_s h
