-- ===== src/Sim/Compose/Keys.antt =====
-- The keys of the map of effects in src/sim/compose.rs, and the fields that they stand for.
use Prim.Native.String.{String}
use text.Mathlib.Text.{◌==◌ as str_eq}
use text.Mathlib.TextEquality.{eq_iff}
use argus_manager.Prelude.{
  ℕ, suc, ◌≤◌, ◌≡◌, ◌≢◌, refl, inl, inr, Bool, true, false, Option, none, some, List, [], ◌∷◌, All,
  ◌==◌, ◌&&◌, arith, Bool-cases, if◌then◌else◌,
}
use argus_manager.Sim.Config.{
  get, literal, expr, string_literal, Effect, set, scale, add, set_tau, ActionSpec, CompositionOp,
  Composition, InteractionTerm, ScenarioConfig,
}
use argus_manager.Sim.State.{Field, names, index}
use argus_manager.Float.{Float, flt, nat}
use argus_manager.Sim.Expr.{EvalExpr}
use argus_manager.Sim.Compose.{
  DimEffects, Collected, collect_effect, action_effect, interaction_effect, effects, actions,
  interactions, collect_all, add_op, set_op, action_spec, holds, all_active, set_evaluated,
  tau_or_inserted,
}

module _ {A : Type 0} where
  abbrev pub IsApart : String → String × A → Type 0
  IsApart key b = key ≢ b.0

  -- A map has each key once.
  abbrev pub Distinct : List (String × A) → Type 0
  Distinct [] = Unit {0}
  Distinct (e ∷ es) = All (IsApart e.0) es × Distinct es

-- The fields in the list have the places from n on, in order.
abbrev from : ℕ → List (String × Field) → Bool
from n [] = true
from n ((name, a) ∷ rest) = index a == n && from (suc n) rest

from-le :
    (n : ℕ) (l : List (String × Field)) (name : String) (a : Field)
    → from n l ≡ true
    → get l name ≡ some a
    → n ≤ index a
from-le n [] name a h e = cc
from-le n ((key, b) ∷ rest) name a h e = ground (arith, from-le (suc n) rest name a)

injective :
    (n : ℕ) (l : List (String × Field)) (x y : String) (a b : Field)
    → from n l ≡ true
    → get l x ≡ some a
    → get l y ≡ some b
    → index a ≡ index b
    → x ≡ y
injective n [] x y a b h p q e = cc
injective n ((key, c) ∷ rest) x y a b h p q e = ground (
  arith,
  eq_iff key x,
  eq_iff key y,
  from-le (suc n) rest x a,
  from-le (suc n) rest y b,
  injective (suc n) rest x y a b,
)

-- Two names that stand for one field are the same.
pub field_injective :
    (x y : String) (a b : Field)
    → get names x ≡ some a
    → get names y ≡ some b
    → index a ≡ index b
    → x ≡ y
field_injective x y a b p q e = injective 0 names x y a b refl p q e

pub apart : (x y : String) → str_eq x y ≡ false → x ≢ y
apart x y h e = ground (arith, h, e, eq_iff x y)

module _ {W : Type 0} where
  -- A key stays away from those of the map that a value is added to.
  collect_effect-All :
      (e : String) (m : DimEffects W) (dim : String) (op : CompositionOp) (v : W)
      → e ≢ dim
      → All (IsApart e) m
      → All (IsApart e) (collect_effect m dim op v)
  unfolding collect_effect
  collect_effect-All e [] dim op v h k = (h, tt)
  collect_effect-All e ((key, (o, vs)) ∷ rest) dim op v h (k, ks) =
      elim (Bool-cases (str_eq key dim)) [
        | inl same ↦ rw same (k, ks)
        | inr other ↦ rw other (k, collect_effect-All e rest dim op v h ks)
      ]

  pub collect_effect-Distinct :
      (m : DimEffects W) (dim : String) (op : CompositionOp) (v : W)
      → Distinct m
      → Distinct (collect_effect m dim op v)
  unfolding collect_effect
  collect_effect-Distinct [] dim op v h = (tt, tt)
  collect_effect-Distinct ((key, (o, vs)) ∷ rest) dim op v (h, d) =
      elim (Bool-cases (str_eq key dim)) [
        | inl same ↦ rw same (h, d)
        | inr other ↦ rw other (
          collect_effect-All key rest dim op v (apart key dim other) h,
          collect_effect-Distinct rest dim op v d,
        )
      ]

module _ {X E W : Type 0} ⦃f : Float W⦄ (x : EvalExpr X E W) (ctx : X) where
  -- Whatever the configuration and the expressions, each key is collected once.
  abbrev IsKeyed : Collected W → Type 0
  IsKeyed c = Distinct c.dim_effects

  collected-IsKeyed :
      (c : Collected W) (dim : String) (op : CompositionOp) (v : W)
      → IsKeyed c
      → IsKeyed (record c { dim_effects = collect_effect c.dim_effects dim op v })
  collected-IsKeyed c dim op v h = collect_effect-Distinct c.dim_effects dim op v h

  tau-IsKeyed :
      (b : Bool) (c d : Collected W) → IsKeyed c → IsKeyed d → IsKeyed (if b then c else d)
  tau-IsKeyed true c d h k = h
  tau-IsKeyed false c d h k = k

  tau_or-IsKeyed :
      (c : Collected W) (dim : String) (tau_s : W)
      → IsKeyed c
      → IsKeyed (tau_or_inserted x ctx c dim tau_s)
  tau_or-IsKeyed c dim tau_s h = tau-IsKeyed (flt (nat 0) tau_s) _ c h h

  set_evaluated-IsKeyed :
      (c : Collected W) (dim : String) (tau_s : W) (text : Option String) (v : Option W)
      → IsKeyed c
      → IsKeyed (set_evaluated x ctx c dim tau_s text v)
  set_evaluated-IsKeyed c dim tau_s (some s) v h = h
  set_evaluated-IsKeyed c dim tau_s none (some v) h =
      let k = collected-IsKeyed c dim CompositionOp.max v h in
      tau-IsKeyed (flt (nat 0) tau_s) _ _ k k
  set_evaluated-IsKeyed c dim tau_s none none h = h

  action_effect-IsKeyed :
      (c : Collected W) (op : CompositionOp) (dim : String) (e : Effect E W)
      → IsKeyed c
      → IsKeyed (action_effect x ctx c op dim e)
  unfolding action_effect
  action_effect-IsKeyed c op dim (set (string_literal s) tau_s) h = h
  action_effect-IsKeyed c op dim (set (expr e) tau_s) h =
      set_evaluated-IsKeyed c dim tau_s (x.eval_string ctx e) (x.eval_float ctx e) h
  action_effect-IsKeyed c op dim (set (literal v) tau_s) h =
      let k = collected-IsKeyed c dim CompositionOp.max v h in
      tau-IsKeyed (flt (nat 0) tau_s) _ _ k k
  action_effect-IsKeyed c op dim (scale factor tau_s) h =
      tau_or-IsKeyed _ dim tau_s (collected-IsKeyed c dim CompositionOp.multiply _ h)
  action_effect-IsKeyed c op dim (add value tau_s) h =
      tau_or-IsKeyed _ dim tau_s (collected-IsKeyed c dim (add_op op) _ h)
  action_effect-IsKeyed c op dim (set_tau value) h = h

  interaction_effect-IsKeyed :
      (c : Collected W) (op : CompositionOp) (dim : String) (e : Effect E W)
      → IsKeyed c
      → IsKeyed (interaction_effect x ctx c op dim e)
  unfolding interaction_effect
  interaction_effect-IsKeyed c op dim (set (string_literal s) tau_s) h = h
  interaction_effect-IsKeyed c op dim (set (expr e) tau_s) h = h
  interaction_effect-IsKeyed c op dim (set (literal v) tau_s) h =
      let k = collected-IsKeyed c dim (set_op op) v h in tau-IsKeyed (flt (nat 0) tau_s) _ _ k k
  interaction_effect-IsKeyed c op dim (scale factor tau_s) h =
      tau_or-IsKeyed _ dim tau_s (collected-IsKeyed c dim CompositionOp.multiply _ h)
  interaction_effect-IsKeyed c op dim (add value tau_s) h =
      tau_or-IsKeyed _ dim tau_s (collected-IsKeyed c dim (add_op op) _ h)
  interaction_effect-IsKeyed c op dim (set_tau value) h = h

  effects-IsKeyed :
      (one : Collected W → CompositionOp → String → Effect E W → Collected W)
      → ((c : Collected W) (op : CompositionOp) (dim : String) (e : Effect E W)
          → IsKeyed c
          → IsKeyed (one c op dim e))
      → (composition : Composition) (l : List (String × Effect E W)) (c : Collected W) → IsKeyed c
      → IsKeyed (effects x ctx one composition c l)
  effects-IsKeyed one k composition [] c h = h
  effects-IsKeyed one k composition ((dim, e) ∷ rest) c h =
      effects-IsKeyed one k composition rest _ (k c _ dim e h)

  action-IsKeyed :
      (composition : Composition) (c : Collected W) (o : Option (ActionSpec E W))
      → IsKeyed c
      → IsKeyed (action_spec x ctx composition c o)
  action-IsKeyed composition c none h = h
  action-IsKeyed composition c (some spec) h =
      tau-IsKeyed (holds x ctx spec.condition) _ c
        (effects-IsKeyed (action_effect x ctx) action_effect-IsKeyed composition spec.effects c h) h

  actions-IsKeyed :
      (cfg : ScenarioConfig E W) (active : List String) (c : Collected W)
      → IsKeyed c
      → IsKeyed (actions x ctx cfg c active)
  actions-IsKeyed cfg [] c h = h
  actions-IsKeyed cfg (name ∷ rest) c h =
      actions-IsKeyed cfg rest _ (action-IsKeyed cfg.composition c (get cfg.actions name) h)

  interactions-IsKeyed :
      (composition : Composition) (active : List String) (ts : List (InteractionTerm E W))
      (c : Collected W)
      → IsKeyed c
      → IsKeyed (interactions x ctx composition active c ts)
  interactions-IsKeyed composition active [] c h = h
  interactions-IsKeyed composition active (t ∷ ts) c h =
      interactions-IsKeyed composition active ts _ (
        tau-IsKeyed (all_active x ctx active t.actions) _ c
          (effects-IsKeyed (interaction_effect x ctx) interaction_effect-IsKeyed composition
            t.effects c h)
          h)

  pub collect_all-Distinct :
      (cfg : ScenarioConfig E W) (active : List String)
      → Distinct (collect_all x ctx cfg active).dim_effects
  unfolding collect_all
  collect_all-Distinct cfg active =
      interactions-IsKeyed cfg.composition active cfg.interactions _
        (actions-IsKeyed cfg active record { dim_effects = []; dim_tau = []; string_sets = [] } tt)
