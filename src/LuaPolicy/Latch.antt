-- ===== src/LuaPolicy/Latch.antt =====
-- The fallback latch of src/lua_policy.rs: three VM failures in a row.
use argus_manager.Prelude.{
  ℕ, zero, suc, ◌≤◌, ◌<◌, ◌≡◌, refl, ap, sym, ◌∙◌, inl, inr, Bool, true, false, Option, none, some,
  List, [], ◌∷◌, arith, Bool-cases, leb, leb→le, if◌then◌else◌,
}
use argus_manager.Float.{Float, Casts}
use argus_manager.Signal.{SystemSignal, memory_pressure}
use argus_manager.Lua.Context.{build_ctx}
use argus_manager.LuaPolicy.{LuaVm, LuaPolicy, pressure, call_decide, take_signal, process_signal}

abbrev pub is_ok {ℓ} : {A : Type ℓ} → Option A → Bool
is_ok none = false
is_ok (some a) = true

-- Some three outcomes in a row are failures.
abbrev pub three_failures : List Bool → Bool
three_failures (false ∷ false ∷ false ∷ os) = true
three_failures (_ ∷ os) = three_failures os
three_failures [] = false

abbrev failures : ℕ → List Bool → List Bool
failures zero os = os
failures (suc n) os = false ∷ failures n os

three_failures-none : (n : ℕ) → n < 3 → three_failures (failures n []) ≡ false
three_failures-none zero h = refl
three_failures-none (suc zero) h = refl
three_failures-none (suc (suc zero)) h = refl
three_failures-none (suc (suc (suc n))) h = absurd (omega arith)

three_failures-all : (n : ℕ) (os : List Bool) → 3 ≤ n → three_failures (failures n os) ≡ true
three_failures-all zero os h = absurd (omega arith)
three_failures-all (suc zero) os h = absurd (omega arith)
three_failures-all (suc (suc zero)) os h = absurd (omega arith)
three_failures-all (suc (suc (suc n))) os h = refl

failures-snoc : (n : ℕ) (os : List Bool) → failures n (false ∷ os) ≡ failures (suc n) os
failures-snoc zero os = refl
failures-snoc (suc n) os = ap (◌∷◌ false) (failures-snoc n os)

three_failures-ok :
    (n : ℕ) (os : List Bool) → n < 3 → three_failures (failures n (true ∷ os)) ≡ three_failures os
three_failures-ok zero os h = refl
three_failures-ok (suc zero) os h = refl
three_failures-ok (suc (suc zero)) os h = refl
three_failures-ok (suc (suc (suc n))) os h = absurd (omega arith)

module _ {V T W S : Type 0} ⦃f : Float W⦄ ⦃g : Float S⦄ ⦃c : Casts W S⦄ (vm : LuaVm V T W S)
    (yield_max : ℕ) where
  -- Whether the VM would answer `decide` at this signal.
  abbrev pub outcome : LuaPolicy V W S → SystemSignal W → Bool
  outcome p signal =
      let q = take_signal vm yield_max p signal in
      is_ok
        (vm.call q.lua (
          build_ctx (pressure vm yield_max q) q.trigger_engine.trigger q.signal_state
            q.engine_state)).1

  abbrev pub after : LuaPolicy V W S → ℕ → SystemSignal W → LuaPolicy V W S
  after p counter signal = (process_signal vm yield_max p counter signal).0

  -- The policy after a list of signals.
  abbrev pub run : LuaPolicy V W S → ℕ → List (SystemSignal W) → LuaPolicy V W S
  run p counter [] = p
  run p counter (s ∷ ss) =
      let (p', counter', _) = process_signal vm yield_max p counter s in run p' counter' ss

  abbrev pub outcomes : LuaPolicy V W S → ℕ → List (SystemSignal W) → List Bool
  outcomes p counter [] = []
  outcomes p counter (s ∷ ss) =
      let (p', counter', _) = process_signal vm yield_max p counter s in
      outcome p s ∷ outcomes p' counter' ss

  pub take_signal_keeps :
      (p : LuaPolicy V W S) (s : SystemSignal W)
      → let q = take_signal vm yield_max p s in
        (q.permanent_fallback ≡ p.permanent_fallback)
        × (q.consecutive_errors ≡ p.consecutive_errors)
        × (q.lua ≡ p.lua)
        × (q.script_path ≡ p.script_path)
  unfolding take_signal
  take_signal_keeps p (memory_pressure l a t r) = (refl, refl, refl, refl)
  take_signal_keeps p _ = (refl, refl, refl, refl)

  pub process_signal_latched :
      (p : LuaPolicy V W S) (counter : ℕ) (s : SystemSignal W)
      → p.permanent_fallback ≡ true
      → (after p counter s).permanent_fallback ≡ true
  unfolding process_signal call_decide
  process_signal_latched p counter s h = ground (arith, take_signal_keeps p s)

  pub process_signal_ok :
      (p : LuaPolicy V W S) (counter : ℕ) (s : SystemSignal W)
      → p.permanent_fallback ≡ false
      → outcome p s ≡ true
      → ((after p counter s).permanent_fallback ≡ false)
        × ((after p counter s).consecutive_errors ≡ 0)
  unfolding process_signal call_decide
  process_signal_ok p counter s h k = ground (arith, take_signal_keeps p s)

  pub process_signal_fails :
      (p : LuaPolicy V W S) (counter : ℕ) (s : SystemSignal W)
      → p.permanent_fallback ≡ false
      → p.consecutive_errors < 3
      → outcome p s ≡ false
      → ((after p counter s).consecutive_errors ≡ suc (p.consecutive_errors))
        × ((after p counter s).permanent_fallback
            ≡ (if leb 3 (suc (p.consecutive_errors)) then true else false))
  unfolding process_signal call_decide
  process_signal_fails p counter s h k l = ground (arith, take_signal_keeps p s)

  run_latched :
      (p : LuaPolicy V W S) (counter : ℕ) (ss : List (SystemSignal W))
      → p.permanent_fallback ≡ true
      → (run p counter ss).permanent_fallback ≡ true
  run_latched p counter [] h = h
  run_latched p counter (s ∷ ss) h =
      run_latched (after p counter s) (process_signal vm yield_max p counter s).1 ss
        (process_signal_latched p counter s h)

  run_counts :
      (p : LuaPolicy V W S) (counter : ℕ) (ss : List (SystemSignal W))
      → p.permanent_fallback ≡ false
      → p.consecutive_errors < 3
      → (run p counter ss).permanent_fallback
        ≡ three_failures (failures p.consecutive_errors (outcomes p counter ss))
  run_counts p counter [] h k = h ∙ sym (three_failures-none p.consecutive_errors k)
  run_counts p counter (s ∷ ss) h k = elim (Bool-cases (outcome p s)) [
    | inl good ↦
        let (calm, none_left) = process_signal_ok p counter s h good in
        rw (good, three_failures-ok p.consecutive_errors (rest s) k)
          (run_counts (after p counter s) (next s) ss calm (omega arith)
            ∙ ap (λ n. three_failures (failures n (rest s))) none_left)
    | inr bad ↦
        let (more, latch) = process_signal_fails p counter s h k bad in
        rw (bad, failures-snoc p.consecutive_errors (rest s))
          (elim (Bool-cases (leb 3 (suc (p.consecutive_errors)))) [
            | inl full ↦
                run_latched (after p counter s) (next s) ss (latch ∙ rw full)
                ∙ sym (three_failures-all (suc (p.consecutive_errors)) (rest s) (leb→le _ _ full))
            | inr room ↦
                run_counts (after p counter s) (next s) ss (latch ∙ rw room) (ground arith)
                ∙ ap (λ n. three_failures (failures n (rest s))) more
          ])
  ]
    where
      next : SystemSignal W → ℕ
      next s = (process_signal vm yield_max p counter s).1

      rest : SystemSignal W → List Bool
      rest s = outcomes (after p counter s) (next s) ss

  -- A policy that starts with no failure has given the script up after a list of signals exactly
  -- when the VM failed at some three of them in a row.
  pub run-three_failures :
      (p : LuaPolicy V W S) (counter : ℕ) (ss : List (SystemSignal W))
      → p.permanent_fallback ≡ false
      → p.consecutive_errors ≡ 0
      → (run p counter ss).permanent_fallback ≡ three_failures (outcomes p counter ss)
  run-three_failures p counter ss h k =
      run_counts p counter ss h (omega arith)
      ∙ ap (λ n. three_failures (failures n (outcomes p counter ss))) k
