-- ===== src/Monitor/Thermal/Hottest.antt =====
-- What the thermal monitor of src/monitor/thermal.rs reads: the hottest zone.
use mathlib.Core.Option.{some-injective}
use argus_manager.Prelude.{
  ℕ, ◌≡◌, ◌≢◌, ap, sym, ◌∙◌, subst, ◌⊎◌, inl, inr, Bool, true, Option, none, some, List, [], Any,
  ◌∷◌, All, arith,
}
use argus_manager.Prelude.Int.{ℤ, leb_ℤ, max_ℤ}
use argus_manager.Monitor.Thermal.{
  File, missing, garbled, content, ThermalDir, hotter, seen, max_temp, with_throttling,
  read_thermal_state,
}

-- A file's temperature, if it has one, is at most t.
abbrev pub AtMost : ℤ → File ℤ → Type 0
AtMost t missing = Unit {0}
AtMost t garbled = Unit {0}
AtMost t (content x) = leb_ℤ x t ≡ true

abbrev BestAtMost : ℤ → Option ℤ → Type 0
BestAtMost t none = Unit {0}
BestAtMost t (some b) = leb_ℤ b t ≡ true

le_max_left : (t a b : ℤ) → leb_ℤ (max_ℤ a b) t ≡ true → leb_ℤ a t ≡ true
le_max_left t a b h = ground arith

le_max_right : (t a b : ℤ) → leb_ℤ (max_ℤ a b) t ≡ true → leb_ℤ b t ≡ true
le_max_right t a b h = ground arith

max-cases : (a b : ℤ) → (max_ℤ a b ≡ a) ⊎ (max_ℤ a b ≡ b)
max-cases a b = ground arith

le_self : (t : ℤ) → leb_ℤ t t ≡ true
le_self t = ground arith

with_throttling-some :
    (dir : ThermalDir) (o : Option ℤ) (t : ℤ) (b : Bool)
    → with_throttling dir o ≡ some (t, b)
    → o ≡ some t
with_throttling-some dir none t b h = cc
with_throttling-some dir (some x) t b h =
    ap some (ap (λ (p : ℤ × Bool). p.0) (some-injective _ _ h))

none≢some : {t : ℤ} → none ≢ some t
none≢some h = cc

hotter-bounds :
    (best : Option ℤ) (a t : ℤ)
    → BestAtMost t (hotter best a)
    → BestAtMost t best × (leb_ℤ a t ≡ true)
hotter-bounds none a t h = (tt, h)
hotter-bounds (some b) a t h = (le_max_left t b a h, le_max_right t b a h)

seen-bounds :
    (best : Option ℤ) (x : File ℤ) (t : ℤ)
    → BestAtMost t (seen best x)
    → BestAtMost t best × AtMost t x
seen-bounds best missing t h = (h, tt)
seen-bounds best garbled t h = (h, tt)
seen-bounds best (content a) t h = hotter-bounds best a t h

hotter-cases :
    (best : Option ℤ) (a t : ℤ) → hotter best a ≡ some t → (best ≡ some t) ⊎ (content a ≡ content t)
hotter-cases none a t h = inr (ap content (some-injective _ _ h))
hotter-cases (some b) a t h = elim (max-cases b a) [
  | inl e ↦ inl (ap some (sym e) ∙ h)
  | inr e ↦ inr (ap content (sym e ∙ some-injective _ _ h))
]

seen-cases :
    (best : Option ℤ) (x : File ℤ) (t : ℤ)
    → seen best x ≡ some t
    → (best ≡ some t) ⊎ (x ≡ content t)
seen-cases best missing t h = inl h
seen-cases best garbled t h = inl h
seen-cases best (content a) t h = hotter-cases best a t h

module _ (dir : ThermalDir) where
  max_temp-bound :
      (is : List ℕ) (best : Option ℤ) (t : ℤ)
      → max_temp dir is best ≡ some t
      → BestAtMost t best
        × All (λ i. AtMost t (dir.temp i)) is
        × ((best ≡ some t) ⊎ Any (λ i. dir.temp i ≡ content t) is)
  max_temp-bound [] best t h = (subst (BestAtMost t) (sym h) (le_self t), tt, inl h)
  max_temp-bound (i ∷ is) best t h =
      let (b, a, r) = max_temp-bound is (seen best (dir.temp i)) t h in
      let (p, q) = seen-bounds best (dir.temp i) t b in
      (
        p,
        (q, a),
        elim r [
          | inr later ↦ inr (inr later)
          | inl s ↦ elim (seen-cases best (dir.temp i) t s) [
            | inl old ↦ inl old
            | inr e ↦ inr (inl e)
          ]
        ],
      )

  -- A temperature that is read is that of one of the zones watched, and no zone watched that can
  -- be read is hotter.
  pub read_thermal_state-hottest :
      (is : List ℕ) (t : ℤ) (throttling : Bool)
      → read_thermal_state dir is ≡ some (t, throttling)
      → All (λ i. AtMost t (dir.temp i)) is × Any (λ i. dir.temp i ≡ content t) is
  unfolding read_thermal_state
  read_thermal_state-hottest is t b h =
      let e = with_throttling-some dir (max_temp dir is none) t b h in
      let (_, a, r) = max_temp-bound is none t e in
      (a, elim r [ inl s ↦ absurd (none≢some s) | inr x ↦ x ])
