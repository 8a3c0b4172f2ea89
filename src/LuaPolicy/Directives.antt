-- ===== src/LuaPolicy/Directives.antt =====
-- What leaves the policy of src/lua_policy.rs: valid commands, in numbered directives.
use mathlib.Core.Option.{some-injective}
use argus_manager.Pipeline.{next_seq_id}
use argus_manager.Prelude.{
  ℕ, ◌+◌, ◌%◌, ◌^◌, ◌≤◌, ◌<◌, ◌≡◌, refl, subst, sym, ap, ◌∙◌, ◌⊎◌, inl, inr, ◌≢◌, Bool, true, false,
  Option, none, some, List, [], ◌∷◌, All, arith, if◌then◌else◌,
}
use argus_manager.Float.{Float, Casts, IsIeee, fle, flt, nat}
use argus_manager.Signal.{
  Level, SystemSignal, memory_pressure, compute_guidance, thermal_alert, energy_constraint,
}
use argus_manager.Contract.{EngineCommand, EngineDirective, kv_compress}
use argus_manager.Fallback.{fallback_decide}
use argus_manager.Lua.Actions.{Value}
use argus_manager.Lua.Actions.Valid.{IsValid, parse_actions-All}
use argus_manager.LuaPolicy.{
  LuaVm, LuaPolicy, after_call, call_decide, take_signal, directive_of, process_signal,
}

module _ {S : Type 0} ⦃g : Float S⦄ (L : IsIeee S) where
  -- A literal of two decimals between 0 and 1 is above 0 and at most 1, after rounding too.
  lit_in_range :
      (n : ℕ)
      → 0 < n
      → n ≤ 100
      → (g.is_finite (g.lit n 100) ≡ true)
        × (flt (nat 0) (g.lit n 100) ≡ true)
        × (fle (g.lit n 100) (nat 1) ≡ true)
  lit_in_range n h k =
      let zero_ : g.lit 0 100 ≡ nat 0 = L.lit_scale 0 1 100 (omega arith) in
      let one_ : g.lit 100 100 ≡ nat 1 = L.lit_scale 1 1 100 (omega arith) in
      (
        L.lit_finite n 100 (omega arith) (omega arith),
        subst (λ z. flt z (g.lit n 100) ≡ true) zero_ (L.lit_lt 0 n 100 h k (omega arith)),
        subst (λ z. fle (g.lit n 100) z ≡ true) one_ (L.lit_mono n 100 100 k),
      )

  fallback_decide-All :
      {W : Type 0} (yield_max : ℕ) (s : SystemSignal W)
      → All (IsValid yield_max) (fallback_decide {S = S} s)
  unfolding fallback_decide
  fallback_decide-All m (memory_pressure Level.normal a t r) = (tt, tt)
  fallback_decide-All m (memory_pressure Level.warning a t r) =
      (lit_in_range 85 (omega arith) (omega arith), tt)
  fallback_decide-All m (memory_pressure Level.critical a t r) =
      (lit_in_range 50 (omega arith) (omega arith), tt)
  fallback_decide-All m (memory_pressure Level.emergency a t r) =
      (lit_in_range 25 (omega arith) (omega arith), tt)
  fallback_decide-All m (thermal_alert l t a r) = tt
  fallback_decide-All m (compute_guidance l b r c p) = tt
  fallback_decide-All m (energy_constraint l r p) = tt

  -- The budgets of the fallback shrink strictly with the severity of the memory pressure, and stay
  -- above 0; normal memory releases what was applied, and no other signal makes it act.
  fallback_decide_tightens :
      (W : Type 0) (a t r : ℕ)
      → let budget = λ (n : ℕ). g.lit n 100 in
        let memory : Level → SystemSignal W = λ l. memory_pressure l a t r in
        (fallback_decide {S = S} (memory Level.normal) ≡ EngineCommand.restore_defaults ∷ [])
        × (fallback_decide {S = S} (memory Level.warning) ≡ kv_compress (budget 85) ∷ [])
        × (fallback_decide {S = S} (memory Level.critical) ≡ kv_compress (budget 50) ∷ [])
        × (fallback_decide {S = S} (memory Level.emergency) ≡ kv_compress (budget 25) ∷ [])
        × (flt (budget 50) (budget 85) ≡ true)
        × (flt (budget 25) (budget 50) ≡ true)
        × (flt (nat 0) (budget 25) ≡ true)
  unfolding fallback_decide
  fallback_decide_tightens W a t r = (
    refl,
    refl,
    refl,
    refl,
    L.lit_lt 50 85 100 (omega arith) (omega arith) (omega arith),
    L.lit_lt 25 50 100 (omega arith) (omega arith) (omega arith),
    (lit_in_range 25 (omega arith) (omega arith)).1,
  )

pick-All :
    {A S : Type 0} (P : EngineCommand S → Type 0) (b : Bool) (x y : A × List (EngineCommand S))
    → All P x.1
    → All P y.1
    → All P (if b then x else y).1
pick-All P true x y p q = p
pick-All P false x y p q = q

module _ {V T W S : Type 0} ⦃f : Float W⦄ ⦃g : Float S⦄ ⦃c : Casts W S⦄ (vm : LuaVm V T W S)
    (yield_max : ℕ) where
  after_call-All :
      IsIeee S
      → (p : LuaPolicy V W S) (s : SystemSignal W) (o : Option (Value T W))
      → All (IsValid yield_max) (after_call vm yield_max p s o).1
  after_call-All L p s none = fallback_decide-All L yield_max s
  after_call-All L p s (some v) = parse_actions-All vm.tables yield_max v p.dropped_actions

  call_decide-All :
      IsIeee S
      → (p : LuaPolicy V W S) (s : SystemSignal W)
      → All (IsValid yield_max) (call_decide vm yield_max p s).1
  unfolding call_decide
  call_decide-All L p s =
      pick-All (IsValid yield_max) p.permanent_fallback _ _ (fallback_decide-All L yield_max s)
        (after_call-All L _ s _)

  directive_of_cases :
      (counter : ℕ) (cs : List (EngineCommand S))
      → let (counter', out) = directive_of vm yield_max counter cs in
        ((cs ≡ []) × (out ≡ none) × (counter' ≡ counter))
        ⊎ ((d : EngineDirective S) × (out ≡ some d)
            × (d.seq_id ≡ counter)
            × (d.commands ≡ cs)
            × (cs ≢ [])
            × (counter' ≡ (counter + 1) % 2 ^ 64))
  unfolding next_seq_id
  directive_of_cases counter [] = inl (refl, refl, refl)
  directive_of_cases counter (x ∷ xs) =
      inr (record { seq_id = counter; commands = x ∷ xs }, refl, refl, refl, (λ e. cc), refl)

  -- A signal yields no directive and uses no sequence number, or it yields one that carries the
  -- counter's number and at least one command, and the counter moves on (modulo 2^64).
  pub process_signal_numbers :
      (p : LuaPolicy V W S) (counter : ℕ) (s : SystemSignal W)
      → let (p', counter', out) = process_signal vm yield_max p counter s in
        ((out ≡ none) × (counter' ≡ counter))
        ⊎ ((d : EngineDirective S) × (out ≡ some d)
            × (d.seq_id ≡ counter)
            × (d.commands ≢ [])
            × (counter' ≡ (counter + 1) % 2 ^ 64))
  unfolding process_signal
  process_signal_numbers p counter s =
      elim (directive_of_cases counter
        (call_decide vm yield_max (take_signal vm yield_max p s) s).1) [
          | inl (_, out, same) ↦ inl (out, same)
          | inr (d, out, seq, cs, some_, next) ↦ inr (d, out, seq, (λ e. some_ (sym cs ∙ e)), next)
        ]

  -- Whatever the script, the VM and the signal, each command of a directive that the policy sends,
  -- from the script or from the fallback, has a finite budget above 0 and at most 1, or a yield
  -- interval within the contract's limit, or no payload that could be wrong.
  pub process_signal-All :
      IsIeee S
      → (p : LuaPolicy V W S) (counter : ℕ) (s : SystemSignal W) (d : EngineDirective S)
      → (process_signal vm yield_max p counter s).2 ≡ some d
      → All (IsValid yield_max) d.commands
  unfolding process_signal
  process_signal-All L p counter s d h =
      let cs = (call_decide vm yield_max (take_signal vm yield_max p s) s).1 in
      elim (directive_of_cases counter cs) [
        | inl (_, out, _) ↦ cc
        | inr (e, out, _, same, _, _) ↦
            subst (All (IsValid yield_max))
              (sym (
                ap (λ (x : EngineDirective S). x.commands) (some-injective _ _ (sym h ∙ out))
                ∙ same))
              (call_decide-All L (take_signal vm yield_max p s) s)
      ]
