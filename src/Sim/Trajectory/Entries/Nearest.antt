-- ===== src/Sim/Trajectory/Entries/Nearest.antt =====
-- `Trajectory::state_at` of src/sim/trajectory.rs.
use argus_manager.Prelude.{
  ◌≡◌, refl, sym, ◌⊎◌, inl, inr, true, false, Option, none, some, List, [], ◌∷◌, All, Any, arith,
  Bool-cases,
}
use argus_manager.Float.{Float, IsIeee, flt}
use argus_manager.Sim.Trajectory.Entries.{
  TrajectoryEntry, state_snapshot, nearest, value_of, state_at,
}
use argus_manager.Sim.Trajectory.Dumps.{PhysicalStateSnapshot, EngineStateSnapshot}

module _ {W : Type 0} ⦃f : Float W⦄ where
  flt_irreflexive : (d : W) → flt d d ≡ false
  flt_irreflexive d = ground arith

  flt_asym : (d e : W) → flt d e ≡ true → flt e d ≡ false
  flt_asym d e h = ground arith

  flt_trans : IsIeee W → (a b c : W) → flt a b ≡ true → flt b c ≡ true → flt a c ≡ true
  flt_trans L a b c h k = ground (arith, L.le_trans a b c, L.le_trans c a b, L.le_trans b c a)

  -- What is not below c is not below anything below c.
  not_below : IsIeee W → (a b c : W) → flt b c ≡ true → flt a c ≡ false → flt a b ≡ false
  not_below L a b c h k = elim (Bool-cases (flt a b)) [
    | inl below ↦ let e = flt_trans L a b c below h in absurd cc
    | inr above ↦ above
  ]

module _ {W S : Type 0} ⦃f : Float W⦄ (proj : PhysicalStateSnapshot W → W) (t_s : W) where
  -- The snapshot is not nearer than the distance.
  abbrev pub NotNearer : W → TrajectoryEntry W S → Type 0
  NotNearer dist (state_snapshot at s e) = flt (f.abs (f.sub at t_s)) dist ≡ false
  NotNearer dist _ = Unit {0}

  -- The entry is a snapshot at that distance, with that value.
  abbrev pub Gives : W → W → TrajectoryEntry W S → Type 0
  Gives dist value (state_snapshot at s e) = (f.abs (f.sub at t_s) ≡ dist) × (proj s ≡ value)
  Gives dist value _ = ⊥

  abbrev pub IsNoSnapshot : TrajectoryEntry W S → Type 0
  IsNoSnapshot (state_snapshot at s e) = ⊥
  IsNoSnapshot _ = Unit {0}

  abbrev Found : W → W → List (TrajectoryEntry W S) → Option (W × W) → Type 0
  Found d v es none = ⊥
  Found d v es (some (least, best)) =
      ((least ≡ d) ⊎ (flt least d ≡ true))
      × All (NotNearer least) es
      × (((least ≡ d) × (best ≡ v)) ⊎ Any (Gives least best) es)

  here :
      (at : W) (s : PhysicalStateSnapshot W) (g : EngineStateSnapshot W) (least best : W)
      (es : List (TrajectoryEntry W S))
      → ((least ≡ f.abs (f.sub at t_s)) × (best ≡ proj s)) ⊎ Any (Gives least best) es
      → Any (Gives least best) (state_snapshot at s g ∷ es)
  here at s g least best es (inl (d, v)) = inl (sym d, sym v)
  here at s g least best es (inr later) = inr later

  -- A snapshot that is nearer takes the place of the one before.
  closer :
      IsIeee W
      → (at : W) (s : PhysicalStateSnapshot W) (g : EngineStateSnapshot W) (d v : W)
        (es : List (TrajectoryEntry W S)) (o : Option (W × W))
      → flt (f.abs (f.sub at t_s)) d ≡ true
      → Found (f.abs (f.sub at t_s)) (proj s) es o
      → Found d v (state_snapshot at s g ∷ es) o
  closer L at s g d v es none h q = q
  closer L at s g d v es (some (least, best)) h (inl same, all, which) = (
    inr (rw same h),
    (rw same (flt_irreflexive (f.abs (f.sub at t_s))), all),
    inr (here at s g least best es which),
  )
  closer L at s g d v es (some (least, best)) h (inr less, all, which) = (
    inr (flt_trans L least (f.abs (f.sub at t_s)) d less h),
    (flt_asym least (f.abs (f.sub at t_s)) less, all),
    inr (here at s g least best es which),
  )

  passed :
      (e : TrajectoryEntry W S) (d v least best : W) (es : List (TrajectoryEntry W S))
      → ((least ≡ d) × (best ≡ v)) ⊎ Any (Gives least best) es
      → ((least ≡ d) × (best ≡ v)) ⊎ Any (Gives least best) (e ∷ es)
  passed e d v least best es (inl same) = inl same
  passed e d v least best es (inr later) = inr (inr later)

  -- Another is passed over.
  farther :
      IsIeee W
      → (at : W) (s : PhysicalStateSnapshot W) (g : EngineStateSnapshot W) (d v : W)
        (es : List (TrajectoryEntry W S)) (o : Option (W × W))
      → flt (f.abs (f.sub at t_s)) d ≡ false
      → Found d v es o
      → Found d v (state_snapshot at s g ∷ es) o
  farther L at s g d v es none h q = q
  farther L at s g d v es (some (least, best)) h (inl same, all, which) =
      (inl same, (rw same h, all), passed (state_snapshot at s g) d v least best es which)
  farther L at s g d v es (some (least, best)) h (inr less, all, which) = (
    inr less,
    (not_below L (f.abs (f.sub at t_s)) least d less h, all),
    passed (state_snapshot at s g) d v least best es which,
  )

  -- An entry that is no snapshot.
  other :
      (e : TrajectoryEntry W S) (d v : W) (es : List (TrajectoryEntry W S)) (o : Option (W × W))
      → ((least : W) → NotNearer least e)
      → Found d v es o
      → Found d v (e ∷ es) o
  other e d v es none h q = q
  other e d v es (some (least, best)) h (which, all, given) =
      (which, (h least, all), passed e d v least best es given)

  nearest-Found :
      IsIeee W
      → (d v : W) (es : List (TrajectoryEntry W S))
      → Found d v es (nearest proj t_s (some (d, v)) es)
  nearest-Found L d v [] = (inl refl, tt, inl (refl, refl))
  nearest-Found L d v (state_snapshot at s g ∷ es) =
      elim (Bool-cases (flt (f.abs (f.sub at t_s)) d)) [
        | inl near ↦
            rw near
              (closer L at s g d v es _ near (nearest-Found L (f.abs (f.sub at t_s)) (proj s) es))
        | inr far ↦ rw far (farther L at s g d v es _ far (nearest-Found L d v es))
      ]
  nearest-Found L d v (e ∷ es) = other e d v es _ (λ least. tt) (nearest-Found L d v es)

  -- What the value at a time is.
  abbrev pub IsNearest : List (TrajectoryEntry W S) → Option W → Type 0
  IsNearest es none = All IsNoSnapshot es
  IsNearest es (some value) = (dist : W) × Any (Gives dist value) es × All (NotNearer dist) es

  chosen :
      (at : W) (s : PhysicalStateSnapshot W) (g : EngineStateSnapshot W)
      (es : List (TrajectoryEntry W S)) (o : Option (W × W))
      → Found (f.abs (f.sub at t_s)) (proj s) es o
      → IsNearest (state_snapshot at s g ∷ es) (value_of o)
  chosen at s g es none q = absurd q
  chosen at s g es (some (least, best)) (inl same, all, which) = (
    least,
    here at s g least best es which,
    (rw same (flt_irreflexive (f.abs (f.sub at t_s))), all),
  )
  chosen at s g es (some (least, best)) (inr less, all, which) =
      (least, here at s g least best es which, (flt_asym least (f.abs (f.sub at t_s)) less, all))

  skipped :
      (e : TrajectoryEntry W S) (es : List (TrajectoryEntry W S)) (o : Option W)
      → IsNoSnapshot e
      → ((least : W) → NotNearer least e)
      → IsNearest es o
      → IsNearest (e ∷ es) o
  skipped e es none n h q = (n, q)
  skipped e es (some value) n h (dist, given, all) = (dist, inr given, (h dist, all))

  -- The value at a time is that of a recorded snapshot to which no other is strictly nearer in
  -- time, and there is none only if no snapshot was recorded.
  pub state_at-IsNearest :
      IsIeee W → (es : List (TrajectoryEntry W S)) → IsNearest es (state_at proj t_s es)
  unfolding state_at
  state_at-IsNearest L [] = tt
  state_at-IsNearest L (state_snapshot at s g ∷ es) =
      chosen at s g es _ (nearest-Found L (f.abs (f.sub at t_s)) (proj s) es)
  state_at-IsNearest L (e ∷ es) = skipped e es _ tt (λ least. tt) (state_at-IsNearest L es)
