-- ===== src/LuaPolicy/Reload.antt =====
-- Signals and hot reloads of src/lua_policy.rs in any order.
use Prim.Native.String.{String}
use argus_manager.Prelude.{
  ℕ, suc, ◌<◌, ◌≡◌, refl, ap, ◌∙◌, sym, inl, inr, Bool, true, false, List, [], ◌∷◌, arith, leb,
  if◌then◌else◌, Bool-cases, Option-cases,
}
use argus_manager.Float.{Float, Casts}
use argus_manager.Signal.{SystemSignal}
use argus_manager.LuaPolicy.{
  LuaVm, LuaPolicy, call_decide, load_fresh, process_signal, reload_script,
}
use argus_manager.LuaPolicy.Latch.{
  is_ok, three_failures, outcome, after, take_signal_keeps, process_signal_latched,
  process_signal_ok, process_signal_fails,
}

pub data Request (W : Type 0) : Type 0 where
  signal : SystemSignal W → Request W
  reload : String → Request W

-- How many failures a list starts with.
abbrev leading : List Bool → ℕ
leading (false ∷ os) = suc (leading os)
leading _ = 0

three_failures-fail :
    (os : List Bool)
    → three_failures os ≡ false
    → three_failures (false ∷ os) ≡ leb 3 (suc (leading os))
three_failures-fail [] h = refl
three_failures-fail (true ∷ os) h = h
three_failures-fail (false ∷ []) h = refl
three_failures-fail (false ∷ true ∷ os) h = h
three_failures-fail (false ∷ false ∷ os) h = ground arith

leading_below : (os : List Bool) → three_failures os ≡ false → leading os < 3
leading_below [] h = omega arith
leading_below (true ∷ os) h = omega arith
leading_below (false ∷ []) h = omega arith
leading_below (false ∷ true ∷ os) h = omega arith
leading_below (false ∷ false ∷ []) h = omega arith
leading_below (false ∷ false ∷ true ∷ os) h = omega arith
leading_below (false ∷ false ∷ false ∷ os) h = cc

as_bool : (b : Bool) → (if b then true else false) ≡ b
as_bool true = refl
as_bool false = refl

three_failures-latched :
    (o : Bool) (os : List Bool) → three_failures os ≡ true → three_failures (o ∷ os) ≡ true
three_failures-latched true os h = h
three_failures-latched false [] h = cc
three_failures-latched false (true ∷ os) h = h
three_failures-latched false (false ∷ []) h = cc
three_failures-latched false (false ∷ true ∷ os) h = h
three_failures-latched false (false ∷ false ∷ os) h = refl

module _ {V T W S : Type 0} ⦃f : Float W⦄ ⦃g : Float S⦄ ⦃c : Casts W S⦄ (vm : LuaVm V T W S)
    (yield_max : ℕ) where
  -- The policy after signals and reloads.
  abbrev pub play : LuaPolicy V W S → ℕ → List (Request W) → LuaPolicy V W S
  play p counter [] = p
  play p counter (signal s ∷ rs) =
      let (p', counter', _) = process_signal vm yield_max p counter s in play p' counter' rs
  play p counter (reload path ∷ rs) = play (reload_script vm yield_max p path).0 counter rs

  abbrev loads : String → Bool
  loads path = is_ok (load_fresh vm yield_max path)

  -- What the VM answered since the last reload whose script loads, the last answer first.
  abbrev pub recent : List Bool → LuaPolicy V W S → ℕ → List (Request W) → List Bool
  recent os p counter [] = os
  recent os p counter (signal s ∷ rs) =
      let (p', counter', _) = process_signal vm yield_max p counter s in
      recent (outcome vm yield_max p s ∷ os) p' counter' rs
  recent os p counter (reload path ∷ rs) =
      recent (if loads path then [] else os) (reload_script vm yield_max p path).0 counter rs

  -- The last script that loads.
  abbrev pub in_use : String → List (Request W) → String
  in_use path [] = path
  in_use path (signal s ∷ rs) = in_use path rs
  in_use path (reload other ∷ rs) = in_use (if loads other then other else path) rs

  -- The policy has counted the answers.
  abbrev Counts : LuaPolicy V W S → List Bool → Type 0
  Counts p os =
      (p.permanent_fallback ≡ three_failures os)
      × (three_failures os ≡ false → p.consecutive_errors ≡ leading os)

  after_script :
      (p : LuaPolicy V W S) (counter : ℕ) (s : SystemSignal W)
      → (after vm yield_max p counter s).script_path ≡ p.script_path
  unfolding process_signal call_decide
  after_script p counter s = ground (arith, take_signal_keeps vm yield_max p s)

  after-Counts :
      (p : LuaPolicy V W S) (counter : ℕ) (s : SystemSignal W) (os : List Bool)
      → Counts p os
      → Counts (after vm yield_max p counter s) (outcome vm yield_max p s ∷ os)
  after-Counts p counter s os (latch, errors) = elim (Bool-cases (three_failures os)) [
    | inl given_up ↦
        let stays = three_failures-latched (outcome vm yield_max p s) os given_up in
        (
          process_signal_latched vm yield_max p counter s (latch ∙ given_up) ∙ sym stays,
          λ e. absurd cc,
        )
    | inr calm ↦ elim (Bool-cases (outcome vm yield_max p s)) [
      | inl good ↦
          let (off, none_left) = process_signal_ok vm yield_max p counter s (latch ∙ calm) good in
          rw good (off ∙ sym calm, λ e. none_left)
      | inr bad ↦
          let small = leading_below os calm in
          let (more, flag) =
            process_signal_fails vm yield_max p counter s (latch ∙ calm)
              (omega (arith, errors calm, small)) bad in
          rw bad (
            flag
                ∙ as_bool _
                ∙ ap (λ n. leb 3 (suc n)) (errors calm)
                ∙ sym (three_failures-fail os calm),
            λ e. more ∙ ap (λ n. suc n) (errors calm),
          )
    ]
  ]

  reload-Counts :
      (p : LuaPolicy V W S) (path : String) (os : List Bool)
      → Counts p os
      → Counts (reload_script vm yield_max p path).0 (if loads path then [] else os)
  unfolding reload_script
  reload-Counts p path os h = elim (Option-cases (load_fresh vm yield_max path)) [
    | inl missing ↦ rw missing h
    | inr (lua, found) ↦ rw found (refl, λ e. refl)
  ]

  reload_path :
      (p : LuaPolicy V W S) (path : String)
      → (reload_script vm yield_max p path).0.script_path
        ≡ (if loads path then path else p.script_path)
  unfolding reload_script
  reload_path p path = elim (Option-cases (load_fresh vm yield_max path)) [
    | inl missing ↦ rw missing refl
    | inr (lua, found) ↦ rw found refl
  ]

  counted :
      (p : LuaPolicy V W S) (counter : ℕ) (rs : List (Request W)) (os : List Bool)
      → Counts p os
      → (play p counter rs).permanent_fallback ≡ three_failures (recent os p counter rs)
  counted p counter [] os h = h.0
  counted p counter (signal s ∷ rs) os h =
      counted (after vm yield_max p counter s) (process_signal vm yield_max p counter s).1 rs _
        (after-Counts p counter s os h)
  counted p counter (reload path ∷ rs) os h =
      counted (reload_script vm yield_max p path).0 counter rs _ (reload-Counts p path os h)

  named :
      (p : LuaPolicy V W S) (counter : ℕ) (rs : List (Request W))
      → (play p counter rs).script_path ≡ in_use p.script_path rs
  named p counter [] = refl
  named p counter (signal s ∷ rs) =
      named (after vm yield_max p counter s) (process_signal vm yield_max p counter s).1 rs
      ∙ ap (λ path. in_use path rs) (after_script p counter s)
  named p counter (reload path ∷ rs) =
      named (reload_script vm yield_max p path).0 counter rs
      ∙ ap (λ other. in_use other rs) (reload_path p path)

  -- Signals and reloads in any order, from a policy with no failure: the policy has given the script
  -- up exactly when the VM failed at some three signals in a row since the last reload whose script
  -- loads in a fresh VM, or since the beginning; the script's path is the one of that reload. A
  -- reload whose script does not load changes neither.
  pub play-three_failures :
      (p : LuaPolicy V W S) (counter : ℕ) (rs : List (Request W))
      → p.permanent_fallback ≡ false
      → p.consecutive_errors ≡ 0
      → ((play p counter rs).permanent_fallback ≡ three_failures (recent [] p counter rs))
        × ((play p counter rs).script_path ≡ in_use p.script_path rs)
  play-three_failures p counter rs h k = (counted p counter rs [] (h, λ e. k), named p counter rs)
