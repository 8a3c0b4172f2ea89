-- ===== src/Mock/Engine/Occupancy.antt =====
-- How the KV cache of the mock engine of src/bin/mock_engine.rs shrinks.
use argus_manager.Prelude.{◌≡◌, subst, ◌⊎◌, inl, inr, true, false, List, [], ◌∷◌, arith, Bool-cases}
use argus_manager.Float.{Float, IsIeee, IsNumber, fle, flt, clamp}
use argus_manager.Contract.{
  EngineCommand, kv_compress, restore_defaults, suspend, resume, gpu_yield, gpu_offload,
}
use argus_manager.Mock.Engine.{MockState, compression_target, min_compression, apply, apply_all}

module _ {S : Type 0} ⦃f : Float S⦄ where
  -- A NaN, or a value from 0.01 to `top`.
  abbrev pub IsOccupancy : S → S → Type 0
  IsOccupancy top x = (fle x x ≡ false) ⊎ ((fle (f.lit 1 100) x ≡ true) × (fle x top ≡ true))

  one_percent : IsIeee S → fle (f.lit 1 100) (f.lit 1 1) ≡ true
  one_percent L =
      subst (λ t. fle (f.lit 1 100) t ≡ true) (L.lit_scale 1 1 100 (omega arith))
        (L.lit_mono 1 100 100 (omega arith))

  clamped :
      IsIeee S
      → (x : S)
      → (fle x x ≡ false)
        ⊎ ((fle x x ≡ true)
            × (fle (f.lit 1 100) (clamp x (f.lit 1 100) (f.lit 1 1)) ≡ true)
            × (fle (clamp x (f.lit 1 100) (f.lit 1 1)) (f.lit 1 1) ≡ true))
  clamped L x = ground (
    arith,
    one_percent L,
    L.lit_mono 1 1 100,
    L.lit_mono 1 1 1,
    λ (n : fle x x ≡ true). L.le_total x (f.lit 1 100) n (L.lit_mono 1 1 100 (omega arith)),
    λ (n : fle x x ≡ true). L.le_total x (f.lit 1 1) n (L.lit_mono 1 1 1 (omega arith)),
  )

  clamp_nan : IsIeee S → (x : S) → fle x x ≡ false → clamp x (f.lit 1 100) (f.lit 1 1) ≡ x
  clamp_nan L x h = ground (
    arith,
    λ (n : fle x (f.lit 1 100) ≡ true). L.number_of_le x (f.lit 1 100) n,
    λ (n : fle (f.lit 1 1) x ≡ true). L.number_of_le (f.lit 1 1) x n,
  )

  zero_below : IsIeee S → flt (f.lit 0 1) min_compression ≡ true
  zero_below L =
      subst (λ t. flt t (f.lit 3 100) ≡ true) (L.lit_scale 0 1 100 (omega arith))
        (L.lit_lt 0 3 100 (omega arith) (omega arith) (omega arith))

  -- What is not below the minimum is positive.
  not_below :
      IsIeee S
      → (x t : S) → IsNumber x
      → fle (f.lit 1 100) t ≡ true
      → fle t (f.lit 1 1) ≡ true
      → flt (f.sub x t) min_compression ≡ false
      → fle t x ≡ true
  not_below L x t n lo hi h =
      let finite =
        L.finite_between (f.lit 1 100) t (f.lit 1 1)
          (L.lit_finite 1 100 (omega arith) (omega arith))
          (L.lit_finite 1 1 (omega arith) (omega arith)) lo hi in
      let number = L.sub_number x t n finite in
      elim (L.le_total t x (L.number_of_le (f.lit 1 100) t lo).1 n) [
        | inl below ↦ below
        | inr above ↦ ground (
          arith,
          h,
          zero_below L,
          L.sub_nonpos x t above number,
          L.le_trans (f.sub x t) (f.lit 0 1) min_compression,
          L.le_trans min_compression (f.sub x t) (f.lit 0 1),
        )
      ]

  kept :
      IsIeee S
      → (top : S) (e : MockState S) (budget : S) → IsOccupancy top e.kv_occupancy
      → flt (f.sub e.kv_occupancy (compression_target e.kv_occupancy budget)) min_compression
        ≡ false
      → IsOccupancy top (compression_target e.kv_occupancy budget)
  kept L top e budget h small =
      let x = e.kv_occupancy in
      elim (clamped L (f.mul x budget)) [
        | inl nan ↦ inl (rw (clamp_nan L (f.mul x budget) nan) nan)
        | inr (number, lo, hi) ↦ elim h [
          | inl nan ↦ absurd (ground (arith, nan, number, L.number_of_mul x budget))
          | inr (from, to) ↦ inr (
            lo,
            L.le_trans (compression_target x budget) x top
                (not_below L x (compression_target x budget) (L.number_of_le (f.lit 1 100) x from).1
                  lo hi small)
                to,
          )
        ]
      ]

  apply-IsOccupancy :
      IsIeee S
      → (top : S) (e : MockState S) (c : EngineCommand S) → IsOccupancy top e.kv_occupancy
      → IsOccupancy top (apply e c).0.kv_occupancy
  unfolding apply
  apply-IsOccupancy L top e (kv_compress budget) h =
      elim (Bool-cases
        (flt (f.sub e.kv_occupancy (compression_target e.kv_occupancy budget)) min_compression)) [
          | inl small ↦ rw small h
          | inr large ↦ rw large (kept L top e budget h large)
        ]
  apply-IsOccupancy L top e restore_defaults h = h
  apply-IsOccupancy L top e suspend h = h
  apply-IsOccupancy L top e resume h = h
  apply-IsOccupancy L top e (gpu_yield every) h = h
  apply-IsOccupancy L top e (gpu_offload on) h = h

  -- Whatever commands come, with whatever budgets: an occupancy that starts at 0.01 or above never
  -- rises above where it started and never falls below 0.01, unless a budget makes it a NaN.
  pub apply_all-IsOccupancy :
      IsIeee S
      → (top : S) (e : MockState S) (cs : List (EngineCommand S)) → IsOccupancy top e.kv_occupancy
      → IsOccupancy top (apply_all e cs).0.kv_occupancy
  unfolding apply_all
  apply_all-IsOccupancy L top e [] h = h
  apply_all-IsOccupancy L top e (c ∷ cs) h =
      apply_all-IsOccupancy L top (apply e c).0 cs (apply-IsOccupancy L top e c h)
