-- ===== src/Policy/State/Pressure.antt =====
-- The range of the pressures that src/policy/common/state.rs hands to the script.
use argus_manager.Prelude.{◌≡◌, refl, ◌⊎◌, inl, inr, true, false, Option, arith, Bool-cases}
use argus_manager.Float.{Float, IsIeee, Casts, fle, flt, clamp, nat}
use argus_manager.Policy.State.{SignalState, pressure_with_thermal}

module _ {S : Type 0} ⦃g : Float S⦄ where
  -- A NaN, or a value from 0 to 1.
  abbrev pub IsUnitOrNan : S → Type 0
  IsUnitOrNan x = (fle x x ≡ false) ⊎ ((fle (nat 0) x ≡ true) × (fle x (nat 1) ≡ true))

  pub clamp-IsUnitOrNan : IsIeee S → (x : S) → IsUnitOrNan (clamp x (nat 0) (nat 1))
  clamp-IsUnitOrNan L x = ground (
    arith,
    L.lit_mono 0 1 1,
    L.lit_mono 0 0 1,
    L.lit_mono 1 1 1,
    λ (n : fle x x ≡ true). L.le_total x (nat 0) n (L.lit_mono 0 0 1 (omega arith)),
    λ (n : fle x x ≡ true). L.le_total x (nat 1) n (L.lit_mono 1 1 1 (omega arith)),
  )

  zero-IsUnitOrNan : IsIeee S → IsUnitOrNan (nat 0)
  zero-IsUnitOrNan L = ground (arith, L.lit_mono 0 0 1, L.lit_mono 0 1 1)

module _ {W S : Type 0} ⦃f : Float W⦄ ⦃g : Float S⦄ ⦃c : Casts W S⦄ where
  -- Whatever the readings and the configured temperatures, each of the GPU, CPU, memory and thermal
  -- pressures is a NaN or lies from 0 to 1, and the main app's pressure is 0.
  pressure_bounds :
      IsIeee S
      → (s : SignalState W) (safe critical : S) (latency : Option W)
      → let p = pressure_with_thermal s safe critical latency in
        IsUnitOrNan p.gpu
        × IsUnitOrNan p.cpu
        × IsUnitOrNan p.memory
        × IsUnitOrNan p.thermal
        × (p.main_app ≡ nat 0)
  unfolding pressure_with_thermal
  pressure_bounds L s safe critical latency = (
    clamp-IsUnitOrNan L _,
    clamp-IsUnitOrNan L _,
    clamp-IsUnitOrNan L _,
    elim (Bool-cases (flt (nat 0) (g.sub critical safe))) [
      | inl wide ↦ rw wide (clamp-IsUnitOrNan L _)
      | inr narrow ↦ rw narrow (zero-IsUnitOrNan L)
    ],
    refl,
  )
