-- ===== src/Fallback.antt =====
-- src/lua/fallback.rs: what the policy answers when the script cannot.
use argus_manager.Prelude.{List, [], ◌∷◌}
use argus_manager.Float.{Float}
use argus_manager.Signal.{
  Level, SystemSignal, memory_pressure, compute_guidance, thermal_alert, energy_constraint,
}
use argus_manager.Contract.{EngineCommand, kv_compress, restore_defaults}

module _ {S : Type 0} ⦃g : Float S⦄ where
  abbrev pub by_level : Level → List (EngineCommand S)
  by_level Level.normal = restore_defaults ∷ []
  by_level Level.warning = kv_compress (g.lit 85 100) ∷ []
  by_level Level.critical = kv_compress (g.lit 50 100) ∷ []
  by_level Level.emergency = kv_compress (g.lit 25 100) ∷ []

  unfoldable pub fallback_decide : {W : Type 0} → SystemSignal W → List (EngineCommand S)
  fallback_decide (memory_pressure level a t r) = by_level level
  fallback_decide (thermal_alert l t a r) = []
  fallback_decide (compute_guidance l b r c p) = []
  fallback_decide (energy_constraint l r p) = []
