-- ===== src/Policy/State/Warmup.antt =====
-- The warm-up of the latency baseline in src/policy/common/state.rs.
use argus_manager.Prelude.{
  ℕ, suc, ◌+◌, ◌^◌, ◌≤◌, ◌<◌, max, ◌≡◌, ◌∙◌, refl, subst, none, some, List, [], ◌∷◌, ◌++◌, length,
  arith,
}
use argus_manager.Float.{Float}
use argus_manager.Policy.State.{TbtTracker, new_tracker, observe}

module _ {W : Type 0} ⦃f : Float W⦄ where
  abbrev pub observe_all : TbtTracker W → List W → TbtTracker W
  observe_all t [] = t
  observe_all t (x ∷ xs) = observe_all (observe t x) xs

  observe_keeps :
      (t : TbtTracker W) (x b : W) → t.baseline ≡ some b → (observe t x).baseline ≡ some b
  unfolding observe
  observe_keeps t x b h = ground arith

  observe_all_keeps :
      (t : TbtTracker W) (xs : List W) (b : W)
      → t.baseline ≡ some b
      → (observe_all t xs).baseline ≡ some b
  observe_all_keeps t [] b h = h
  observe_all_keeps t (x ∷ xs) b h = observe_all_keeps (observe t x) xs b (observe_keeps t x b h)

  -- The state of a tracker that is warming up after n observations.
  record IsWarming (n : ℕ) (t : TbtTracker W) : Type 0 where
    counted : t.warmup_count ≡ n
    open_baseline : t.baseline ≡ none

  observe-IsWarming :
      (n : ℕ) (t : TbtTracker W) (x : W)
      → IsWarming n t
      → suc n < t.warmup_target
      → t.warmup_target < 2 ^ 32
      → IsWarming (suc n) (observe t x) × ((observe t x).warmup_target ≡ t.warmup_target)
  unfolding observe
  observe-IsWarming n t x w h k = ground arith

  observe_fixes :
      (n : ℕ) (t : TbtTracker W) (x : W)
      → IsWarming n t
      → t.warmup_target ≤ suc n
      → suc n < 2 ^ 32
      → (observe t x).baseline ≡ some (observe t x).ewma
  unfolding observe
  observe_fixes n t x w h k = ground arith

  warm_up :
      (n : ℕ) (t : TbtTracker W) (xs : List W)
      → IsWarming n t
      → n + length xs < max 1 t.warmup_target
      → t.warmup_target < 2 ^ 32
      → IsWarming (n + length xs) (observe_all t xs)
        × ((observe_all t xs).warmup_target ≡ t.warmup_target)
  warm_up n t [] w h k = ground arith
  warm_up n t (x ∷ xs) w h k =
      let (v, e) = observe-IsWarming n t x w (omega arith) k in
      let r = warm_up (suc n) (observe t x) xs v (omega arith) (omega arith) in
      (subst (λ m. IsWarming m (observe_all (observe t x) xs)) (omega arith) r.0, r.1 ∙ e)

  new_tracker-IsWarming : (target : ℕ) → IsWarming 0 (new_tracker target)
  unfolding new_tracker
  new_tracker-IsWarming target = record { counted = refl; open_baseline = refl }

  warmed :
      (target : ℕ) (xs : List W)
      → length xs < max 1 target
      → target < 2 ^ 32
      → IsWarming (length xs) (observe_all (new_tracker target) xs)
        × ((observe_all (new_tracker target) xs).warmup_target ≡ target)
  unfolding new_tracker
  warmed target xs h k =
      let (w, e) =
        warm_up 0 (new_tracker target) xs (new_tracker-IsWarming target) (omega arith) k in
      (subst (λ m. IsWarming m (observe_all (new_tracker target) xs)) (omega arith) w, e)

  observe_all-append :
      (t : TbtTracker W) (xs ys : List W)
      → observe_all t (xs ++ ys) ≡ observe_all (observe_all t xs) ys
  observe_all-append t [] ys = refl
  observe_all-append t (x ∷ xs) ys = observe_all-append (observe t x) xs ys

  -- A tracker has no baseline as long as it has seen fewer than `target` observations. The
  -- observation that brings their number to `target` (the first one, for a target of 0) fixes the
  -- baseline at the average of that moment, and no later observation moves it. The target is below
  -- 2^32 - 1.
  pub baseline_fixed :
      (target : ℕ) (fewer xs : List W) (x : W) (ys : List W)
      → suc target < 2 ^ 32
      → length fewer < max 1 target
      → suc (length xs) ≡ max 1 target
      → ((observe_all (new_tracker target) fewer).baseline ≡ none)
        × ((observe_all (new_tracker target) (xs ++ x ∷ ys)).baseline
            ≡ some (observe_all (new_tracker target) (xs ++ x ∷ [])).ewma)
  baseline_fixed target fewer xs x ys k few h =
      let (w, e) = warmed target xs (omega arith) (omega arith) in
      let fixed =
        observe_fixes (length xs) (observe_all (new_tracker target) xs) x w (omega (arith, e))
          (omega arith) in
      (
        (warmed target fewer few (omega arith)).0.open_baseline,
        rw
            (
              observe_all-append (new_tracker target) xs (x ∷ ys),
              observe_all-append (new_tracker target) xs (x ∷ []),
            )
            (observe_all_keeps _ ys _ fixed),
      )
