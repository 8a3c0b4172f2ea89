-- ===== src/Policy/State/Triggers.antt =====
-- The enter/exit hysteresis of the triggers in src/policy/common/state.rs.
use argus_manager.Prelude.{
  ◌≡◌, refl, ◌⊎◌, Bool, true, false, ◌&&◌, ◌||◌, not, none, some, List, [], ◌∷◌, All, arith,
  Bool-cases, Option-cases, inl, inr,
}
use argus_manager.Float.{Float, IsIeee, fle, flt, nat}
use argus_manager.Policy.State.{
  TriggerEngine, observe, degradation_ratio, update_tbt_ms, update_mem, update_temp,
}

module _ {W : Type 0} ⦃f : Float W⦄ where
  -- The flag of a trigger after a reading: set above `enter`, kept until below `exit`.
  abbrev latched : W → W → W → Bool → Bool
  latched enter exit v flag = flt enter v || flag && not (flt v exit)

  -- The memory and the temperature trigger are set by a reading above the entry threshold, stay set
  -- until one below the exit threshold, where the exit threshold is not above the entry threshold;
  -- and each leaves the rest of the engine as it was.
  update_mem-latched :
      IsIeee W
      → (e : TriggerEngine W) (p t : W) → fle e.config.mem_exit e.config.mem_enter ≡ true
      → fle e.config.temp_exit e.config.temp_enter ≡ true
      → (update_mem e p ≡ record e {
        trigger = record (e.trigger) {
          mem_low = latched e.config.mem_enter e.config.mem_exit p e.trigger.mem_low;
        };
      })
        × (update_temp e t ≡ record e {
          trigger = record (e.trigger) {
            temp_high = latched e.config.temp_enter e.config.temp_exit t e.trigger.temp_high;
          };
        })
  unfolding update_mem update_temp
  update_mem-latched L e p t m h = ground (
    arith,
    L.le_trans p e.config.mem_exit e.config.mem_enter,
    L.le_trans t e.config.temp_exit e.config.temp_enter,
  )

  abbrev pub update_mem_all : TriggerEngine W → List W → TriggerEngine W
  update_mem_all e [] = e
  update_mem_all e (p ∷ ps) = update_mem_all (update_mem e p) ps

  update_mem_steady :
      (e : TriggerEngine W) (p : W)
      → fle p e.config.mem_enter ≡ true
      → fle e.config.mem_exit p ≡ true
      → update_mem e p ≡ e
  unfolding update_mem
  update_mem_steady e p h k = ground arith

  -- Readings that stay within the band from the exit to the entry threshold never change the memory
  -- trigger, however many there are and whatever state it is in.
  update_mem_all_steady :
      (e : TriggerEngine W) (ps : List W)
      → All (λ p. (fle p e.config.mem_enter ≡ true) × (fle e.config.mem_exit p ≡ true)) ps
      → update_mem_all e ps ≡ e
  update_mem_all_steady e [] h = refl
  update_mem_all_steady e (p ∷ ps) h =
      rw (update_mem_steady e p h.0.0 h.0.1) (update_mem_all_steady e ps h.1)

  -- Ignored; or recorded, and the flag moved by the degradation ratio once there is a baseline.
  abbrev TbtLatched : TriggerEngine W → W → TriggerEngine W → Type 0
  TbtLatched e tbt_ms e' =
      let tbt = observe e.tbt tbt_ms in
      ((f.is_finite tbt_ms && not (fle tbt_ms (nat 0)) ≡ false) × (e' ≡ e))
      ⊎ ((e'.tbt ≡ tbt)
          × (e'.config ≡ e.config)
          × (e'.trigger.mem_low ≡ e.trigger.mem_low)
          × (e'.trigger.temp_high ≡ e.trigger.temp_high)
          × (((degradation_ratio tbt ≡ none) × (e'.trigger.tbt_degraded ≡ e.trigger.tbt_degraded))
              ⊎ ((r : W) × (degradation_ratio tbt ≡ some r)
                  × (e'.trigger.tbt_degraded
                      ≡ latched e.config.tbt_enter e.config.tbt_exit r e.trigger.tbt_degraded))))

  -- The latency trigger ignores a time between tokens that is not finite or not positive. Any other
  -- is recorded, and moves the flag by the degradation ratio as the other triggers move, once there
  -- is a baseline to compare with; the exit threshold is not above the entry threshold.
  update_tbt_ms-latched :
      IsIeee W
      → (e : TriggerEngine W) (tbt_ms : W) → fle e.config.tbt_exit e.config.tbt_enter ≡ true
      → TbtLatched e tbt_ms (update_tbt_ms e tbt_ms)
  unfolding update_tbt_ms
  update_tbt_ms-latched L e tbt_ms h =
      elim (Bool-cases (not (f.is_finite tbt_ms) || fle tbt_ms (nat 0))) [
        | inl bad ↦ inl (ground arith, rw bad)
        | inr good ↦ elim (Option-cases (degradation_ratio (observe e.tbt tbt_ms))) [
          | inl unset ↦
              inr
                (ground arith, ground arith, ground arith, ground arith, inl (unset, ground arith))
          | inr (r, has) ↦ inr (
            ground arith,
            ground arith,
            ground arith,
            ground arith,
            inr (r, has, ground (arith, L.le_trans r e.config.tbt_exit e.config.tbt_enter)),
          )
        ]
      ]
