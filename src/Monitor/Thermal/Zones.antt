-- ===== src/Monitor/Thermal/Zones.antt =====
-- Which zones the thermal monitor of src/monitor/thermal.rs watches.
use Prim.Native.String.{String}
use argus_manager.Prelude.{
  ℕ, zero, suc, ◌+◌, ◌≤◌, ◌<◌, ◌≡◌, ◌≢◌, refl, inl, inr, true, List, [], ◌∷◌, All, arith,
  Bool-cases,
}
use argus_manager.Float.{Float}
use argus_manager.Monitor.Thermal.{
  ThermalDir, ThermalMonitor, all_zones, any_eq, matching, indices, chosen, or_all, discover_zones,
}

or_all-All :
    (P : ℕ → Type 0) (is : List ℕ) (zs : List (ℕ × String))
    → All P is
    → All P (indices zs)
    → All P (or_all is zs)
or_all-All P [] zs h k = k
or_all-All P (i ∷ is) zs h k = h

or_all-ne-nil : (is : List ℕ) (zs : List (ℕ × String)) → zs ≢ [] → or_all is zs ≢ []
or_all-ne-nil [] [] h e = h refl
or_all-ne-nil [] (z ∷ zs) h e = cc
or_all-ne-nil (i ∷ is) zs h e = cc

module _ (dir : ThermalDir) where
  -- The zone has a temperature, and lies below the end of the scan.
  abbrev pub Exists : ℕ → ℕ → Type 0
  Exists bound i = (dir.temp_exists i ≡ true) × (i < bound)

  all_zones-All : (bound n i : ℕ) → i + n ≤ bound → All (Exists bound) (indices (all_zones dir n i))
  unfolding all_zones
  all_zones-All bound zero i k = tt
  all_zones-All bound (suc n) i k = elim (Bool-cases (dir.temp_exists i)) [
    | inl h ↦ rw h ((h, omega arith), all_zones-All bound n (i + 1) (omega arith))
    | inr h ↦ rw h (all_zones-All bound n (i + 1) (omega arith))
  ]

  all_zones-ne-nil :
      (n i k : ℕ) → i ≤ k → k < i + n → dir.temp_exists k ≡ true → all_zones dir n i ≢ []
  unfolding all_zones
  all_zones-ne-nil zero i k h l t e = omega arith
  all_zones-ne-nil (suc n) i k h l t e = elim (Bool-cases (dir.temp_exists i)) [
    | inl x ↦ ground arith
    | inr x ↦ ground (arith, all_zones-ne-nil n (i + 1) k)
  ]

  matching-All :
      (P : ℕ → Type 0) (types : List String) (zs : List (ℕ × String))
      → All P (indices zs)
      → All P (matching types zs)
  unfolding matching
  matching-All P types [] h = tt
  matching-All P types ((i, t) ∷ zs) h = elim (Bool-cases (any_eq t types)) [
    | inl e ↦ rw e (h.0, matching-All P types zs h.1)
    | inr e ↦ rw e (matching-All P types zs h.1)
  ]

  chosen-All :
      (P : ℕ → Type 0) (types : List String) (zs : List (ℕ × String))
      → All P (indices zs)
      → All P (chosen types zs)
  chosen-All P [] zs h = h
  chosen-All P (t ∷ ts) zs h =
      or_all-All P (matching (t ∷ ts) zs) zs (matching-All P (t ∷ ts) zs h) h

  chosen-ne-nil : (types : List String) (zs : List (ℕ × String)) → zs ≢ [] → chosen types zs ≢ []
  chosen-ne-nil [] [] h e = h refl
  chosen-ne-nil [] (z ∷ zs) h e = cc
  chosen-ne-nil (t ∷ ts) zs h e = or_all-ne-nil (matching (t ∷ ts) zs) zs h e

  -- If some zone below 256 has a temperature, then, whatever the filter, the monitor watches some
  -- zone, also when the filter matches none; and it watches only zones below 256 that have a
  -- temperature.
  pub discover_zones_lem :
      {W : Type 0} ⦃f : Float W⦄ (m : ThermalMonitor W) (k : ℕ)
      → Exists 256 k
      → ((discover_zones m dir).zone_indices ≢ [])
        × All (Exists 256) (discover_zones m dir).zone_indices
  unfolding discover_zones
  discover_zones_lem m k x = (
    chosen-ne-nil m.zone_type_filter (all_zones dir 256 0)
        (all_zones-ne-nil 256 0 k (omega arith) (omega (arith, x.1)) x.0),
    chosen-All (Exists 256) m.zone_type_filter (all_zones dir 256 0)
        (all_zones-All 256 256 0 (omega arith)),
  )
