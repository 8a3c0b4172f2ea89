-- ===== src/Sim/Compose/Order.antt =====
-- In which order the effects of src/sim/compose.rs are applied does not matter.
use Prim.Native.String.{String}
use mathlib.Core.List.{Permᴰ}
use argus_manager.Prelude.{
  ◌≡◌, ◌≢◌, refl, sym, ap, subst, ◌∙◌, inl, inr, Option, none, some, List, [], ◌∷◌, All,
  Option-cases,
}
use argus_manager.Float.{Float, nat}
use argus_manager.Sim.Config.{get, CompositionOp, ScenarioConfig}
use argus_manager.Sim.State.{Field, names, index, PhysicalState, assign}
use argus_manager.Sim.State.Fields.{
  assign-commute, untouched, get_f64-none, get_f64-some, set_f64-some,
}
use argus_manager.Sim.Expr.{EvalExpr, or_else}
use argus_manager.Sim.Physics.{RealFunctions, lag_step}
use argus_manager.Sim.Compose.{DimEffects, collect_all, apply_effect, apply_effects, target}
use argus_manager.Sim.Compose.Keys.{IsApart, Distinct, field_injective, collect_all-Distinct}

module _ {A : Type 0} where
  IsApart-Permᴰ :
      (key : String) {l m : List (String × A)}
      → Permᴰ l m
      → All (IsApart key) l
      → All (IsApart key) m
  IsApart-Permᴰ key Permᴰ.nil h = tt
  IsApart-Permᴰ key (Permᴰ.cons e p) (h, hs) = (rw (← e) h, IsApart-Permᴰ key p hs)
  IsApart-Permᴰ key (Permᴰ.swap e e') (h, (k, hs)) = (rw (← e') k, (rw (← e) h, hs))
  IsApart-Permᴰ key (Permᴰ.trans p q) h = IsApart-Permᴰ key q (IsApart-Permᴰ key p h)

  Distinct-Permᴰ : {l m : List (String × A)} → Permᴰ l m → Distinct l → Distinct m
  Distinct-Permᴰ Permᴰ.nil h = tt
  Distinct-Permᴰ (Permᴰ.cons {l₂ = l₂} e p) (h, d) =
      (subst (λ t. All (IsApart t.0) l₂) e (IsApart-Permᴰ _ p h), Distinct-Permᴰ p d)
  Distinct-Permᴰ (Permᴰ.swap {l = l} e e') ((h, hs), (k, d)) = (
    (rw (← e, ← e') (λ q. h (sym q)), subst (λ t. All (IsApart t.0) l) e' k),
    (subst (λ t. All (IsApart t.0) l) e hs, d),
  )
  Distinct-Permᴰ (Permᴰ.trans p q) h = Distinct-Permᴰ q (Distinct-Permᴰ p h)

module _ {W : Type 0} where
  -- One field, if the name has one, changed by what it holds.
  update : Option Field → (W → W) → PhysicalState W → PhysicalState W
  update none g s = s
  update (some a) g s = assign s a (g (s.numbers a))

  update-commute :
      (x y : Option Field) (g h : W → W) (s : PhysicalState W)
      → ((a b : Field) → x ≡ some a → y ≡ some b → index a ≢ index b)
      → update y h (update x g s) ≡ update x g (update y h s)
  unfolding update
  update-commute none y g h s d = refl
  update-commute (some a) none g h s d = refl
  update-commute (some a) (some b) g h s d =
      let ne = d a b refl refl in
      rw
        (
          untouched (index b) (index a) (g (s.numbers a)) (s.numbers b) ne,
          untouched (index a) (index b) (h (s.numbers b)) (s.numbers a) (λ e. ne (sym e)),
        )
        (assign-commute s a b (g (s.numbers a)) (h (s.numbers b)) ne)

module _ {W : Type 0} ⦃f : Float W⦄ ⦃r : RealFunctions W⦄ (dim_tau : List (String × W))
    (dt_s : W) where
  abbrev goal_of : String × (CompositionOp × List W) → W → W
  goal_of (x, (op, [])) current = current
  goal_of (x, (op, v ∷ vs)) current =
      lag_step current (target op current (v ∷ vs)) (or_else (nat 0) (get dim_tau x)) dt_s

  -- The field that an effect changes, if it has values.
  abbrev field_for : String × (CompositionOp × List W) → Option Field
  field_for (x, (op, [])) = none
  field_for (x, (op, v ∷ vs)) = get names x

  apply_effect-update :
      (e : String × (CompositionOp × List W)) (s : PhysicalState W)
      → apply_effect dim_tau dt_s e s ≡ update (field_for e) (goal_of e) s
  unfolding update
  apply_effect-update (x, (op, [])) s = refl
  apply_effect-update (x, (op, v ∷ vs)) s = elim (Option-cases (get names x)) [
    | inl e ↦ rw (get_f64-none s x e, e) refl
    | inr (a, e) ↦ rw (get_f64-some s x a e, e) (ap (λ t. t.0) (set_f64-some s x a _ e))
  ]

  apart_fields :
      (a b : String × (CompositionOp × List W))
      → a.0 ≢ b.0
      → (m n : Field) → field_for a ≡ some m
      → field_for b ≡ some n
      → index m ≢ index n
  apart_fields (x, (op, [])) b h m n p q e = cc
  apart_fields (x, (op, v ∷ vs)) (y, (op', [])) h m n p q e = cc
  apart_fields (x, (op, v ∷ vs)) (y, (op', w ∷ ws)) h m n p q e = h (field_injective x y m n p q e)

  commute :
      (a b : String × (CompositionOp × List W)) (s : PhysicalState W)
      → a.0 ≢ b.0
      → apply_effect dim_tau dt_s b (apply_effect dim_tau dt_s a s)
        ≡ apply_effect dim_tau dt_s a (apply_effect dim_tau dt_s b s)
  commute a b s h =
      ap (apply_effect dim_tau dt_s b) (apply_effect-update a s)
      ∙ apply_effect-update b (update (field_for a) (goal_of a) s)
      ∙ update-commute (field_for a) (field_for b) (goal_of a) (goal_of b) s (apart_fields a b h)
      ∙ sym (apply_effect-update a (update (field_for b) (goal_of b) s))
      ∙ ap (apply_effect dim_tau dt_s a) (sym (apply_effect-update b s))

  apply_effects-Permᴰ :
      {l m : DimEffects W}
      → Permᴰ l m
      → Distinct l
      → (s : PhysicalState W) → apply_effects dim_tau dt_s l s ≡ apply_effects dim_tau dt_s m s
  unfolding apply_effects
  apply_effects-Permᴰ Permᴰ.nil d s = refl
  apply_effects-Permᴰ (Permᴰ.cons {a = a} {l₂ = l₂} e p) (h, d) s =
      apply_effects-Permᴰ p d (apply_effect dim_tau dt_s a s)
      ∙ ap (λ t. apply_effects dim_tau dt_s l₂ (apply_effect dim_tau dt_s t s)) e
  apply_effects-Permᴰ (Permᴰ.swap {a = a} {b = b} {l = l} e e') ((h, hs), (k, d)) s =
      rw (← e, ← e') (ap (apply_effects dim_tau dt_s l) (commute a b s h))
  apply_effects-Permᴰ (Permᴰ.trans p q) d s =
      apply_effects-Permᴰ p d s ∙ apply_effects-Permᴰ q (Distinct-Permᴰ p d) s

module _ {X E W : Type 0} ⦃f : Float W⦄ ⦃r : RealFunctions W⦄ (x : EvalExpr X E W) (ctx : X) where
  -- The effects that are collected have one entry for each key, and in whatever order they are then
  -- applied, as a hash map gives them in any, the state that comes out is the same.
  pub apply_effects-order :
      (cfg : ScenarioConfig E W) (active : List String) (dt_s : W) (s : PhysicalState W)
      (m : DimEffects W)
      → Permᴰ (collect_all x ctx cfg active).dim_effects m
      → Distinct m
        × (apply_effects (collect_all x ctx cfg active).dim_tau dt_s m s
            ≡ apply_effects
                (collect_all x ctx cfg active).dim_tau
                dt_s
                (collect_all x ctx cfg active).dim_effects
                s)
  apply_effects-order cfg active dt_s s m p =
      let d = collect_all-Distinct x ctx cfg active in
      (
        Distinct-Permᴰ p d,
        sym (apply_effects-Permᴰ (collect_all x ctx cfg active).dim_tau dt_s p d s),
      )
