-- ===== src/Sim/State/Fields.antt =====
-- Reading and writing the fields of src/sim/state.rs by name.
use Prim.Native.String.{String}
use argus_manager.Prelude.{
  ℕ, ◌≡◌, ◌≢◌, refl, ap, ◌⊎◌, inl, inr, true, false, Option, none, some, ◌==◌, arith, if◌then◌else◌,
  Option-cases,
}
use mathlib.Core.Path.{fun_ext}
use argus_manager.Sim.Config.{get}
use argus_manager.Sim.State.{Field, names, index, PhysicalState, assign, get_f64, set_f64}

-- The field that a name stands for.
abbrev pub field_of : String → Option Field
field_of name = get names name

module _ {W : Type 0} where
  pub get_f64-none :
      (s : PhysicalState W) (name : String) → get names name ≡ none → get_f64 s name ≡ none
  unfolding get_f64
  get_f64-none s name e = rw e refl

  pub get_f64-some :
      (s : PhysicalState W) (name : String) (a : Field)
      → get names name ≡ some a
      → get_f64 s name ≡ some (s.numbers a)
  unfolding get_f64
  get_f64-some s name a e = rw e refl

  pub set_f64-some :
      (s : PhysicalState W) (name : String) (a : Field) (v : W)
      → get names name ≡ some a
      → set_f64 s name v ≡ (assign s a v, true)
  unfolding set_f64
  set_f64-some s name a v e = rw e refl

  same : (n : ℕ) (a b : W) → (if n == n then a else b) ≡ a
  same n a b = ground arith

  swapped :
      (g m n : ℕ) (v w old : W)
      → m ≢ n
      → (if g == n then w else (if g == m then v else old))
        ≡ (if g == m then v else (if g == n then w else old))
  swapped g m n v w old h = ground (arith, h)

  pub assign-commute :
      (s : PhysicalState W) (a b : Field) (v w : W)
      → index a ≢ index b
      → assign (assign s a v) b w ≡ assign (assign s b w) a v
  assign-commute s a b v w h =
      ap (λ (n : Field → W). record s { numbers = n })
        (fun_ext (λ g. swapped (index g) (index a) (index b) v w (s.numbers g) h))

  overwritten :
      (g n : ℕ) (v w old : W)
      → (if g == n then w else (if g == n then v else old)) ≡ (if g == n then w else old)
  overwritten g n v w old = ground arith

  twice : (s : PhysicalState W) (a : Field) (v w : W) → assign (assign s a v) a w ≡ assign s a w
  twice s a v w =
      ap (λ (n : Field → W). record s { numbers = n })
        (fun_ext (λ g. overwritten (index g) (index a) v w (s.numbers g)))

  pub untouched : (m n : ℕ) (v old : W) → n ≢ m → (if m == n then v else old) ≡ old
  untouched m n v old h = ground (arith, h)

  -- A name that the state does not know is neither read nor written. Any other reads back what was
  -- last written under it, the second of two writes replaces the first, and a write changes no
  -- field but its own.
  pub set_f64_laws :
      (s : PhysicalState W) (name : String) (v w : W)
      → ((field_of name ≡ none) × (get_f64 s name ≡ none) × (set_f64 s name v ≡ (s, false)))
        ⊎ ((a : Field) × (field_of name ≡ some a)
            × (get_f64 (set_f64 s name v).0 name ≡ some v)
            × ((set_f64 s name v).1 ≡ true)
            × ((set_f64 (set_f64 s name v).0 name w).0 ≡ (set_f64 s name w).0)
            × ((b : Field) → index a ≢ index b → (set_f64 s name v).0.numbers b ≡ s.numbers b))
  unfolding get_f64 set_f64
  set_f64_laws s name v w = elim (Option-cases (get names name)) [
    | inl e ↦ inl (e, rw e refl, rw e refl)
    | inr (a, e) ↦ inr (
      a,
      e,
      rw e (ap some (same (index a) v (s.numbers a))),
      rw e refl,
      rw e (twice s a v w),
      λ b h. rw e (untouched (index b) (index a) v (s.numbers b) h),
    )
  ]
