-- ===== src/Sim/Clock/Periodic.antt =====
-- The preloading of periodic events of src/sim/clock.rs.
use native.Mathlib.Nat.{div-eq_of_lt, div-eq-sub-div}
use mathlib.Core.List.Permᴰ
use mathlib.Core.List.{Permᴰ}
use argus_manager.Prelude.{
  leb→le, ℕ, zero, suc, ◌+◌, ◌-◌, ◌/◌, ◌≤◌, ◌<◌, ◌≡◌, refl, ap, inl, inr, List, [], ◌∷◌, ◌++◌, map,
  leb, arith, Bool-cases, if◌then◌else◌,
}
use argus_manager.Sim.Clock.{
  ScheduledEvent, VirtualClock, before, push, schedule, schedule_from, schedule_periodic,
}

-- How many of the times t, t + period, ... are at most `until`.
abbrev pub times : ℕ → ℕ → ℕ → ℕ
times t period until = if leb t until then (until - t) / period + 1 else 0

times_after : (t period until : ℕ) → until < t → times t period until ≡ 0
times_after t period until h = ground arith

times_step :
    (t period until : ℕ)
    → 0 < period
    → t ≤ until
    → times t period until ≡ suc (times (t + period) period until)
times_step t period until p h =
    let e : until - (t + period) ≡ until - t - period = omega arith in
    ground (
      arith,
      div-eq_of_lt {n = until - t} {m = period},
      div-eq-sub-div {m = period} {n = until - t} p,
      ap (λ n. n / period) e,
    )

-- The given number of times from the first on, each with the kind.
abbrev pub entries : {K : Type 0} → K → ℕ → ℕ → ℕ → List (ℕ × K)
entries kind t period zero = []
entries kind t period (suc n) = (t, kind) ∷ entries kind (t + period) period n

module _ {K : Type 0} where
  -- The events by their times and kinds.
  abbrev pub stamps : List (ScheduledEvent K) → List (ℕ × K)
  stamps es = map (λ (e : ScheduledEvent K). (e.at, e.kind)) es

  push-Permᴰ :
      (e : ScheduledEvent K) (es : List (ScheduledEvent K))
      → Permᴰ (stamps (push e es)) ((e.at, e.kind) ∷ stamps es)
  unfolding push
  push-Permᴰ e [] = Permᴰ.refl _
  push-Permᴰ e (x ∷ xs) = elim (Bool-cases (before e x)) [
    | inl b ↦ rw b (Permᴰ.refl _)
    | inr b ↦ rw b (Permᴰ.trans (Permᴰ.cons refl (push-Permᴰ e xs)) (Permᴰ.swap refl refl))
  ]

  -- One event more, and those scheduled after it.
  schedule-Permᴰ :
      (c : VirtualClock K) (kind : K) (t : ℕ) (later : List (ℕ × K))
      → Permᴰ
          (later ++ stamps (schedule c kind t).0.events)
          ((t, kind) ∷ (later ++ stamps c.events))
  unfolding schedule
  schedule-Permᴰ c kind t later =
      Permᴰ.trans (Permᴰ.append_left later (push-Permᴰ _ c.events))
        (Permᴰ.middle (t, kind) later (stamps c.events))

  schedule_from-Permᴰ :
      (fuel : ℕ) (c : VirtualClock K) (kind : K) (t period until : ℕ)
      → 0 < period
      → until < t + fuel
      → Permᴰ
          (stamps (schedule_from fuel c kind t period until).events)
          (entries kind t period (times t period until) ++ stamps c.events)
  unfolding schedule_from
  schedule_from-Permᴰ zero c kind t period until p h =
      rw (times_after t period until (omega arith)) (Permᴰ.refl _)
  schedule_from-Permᴰ (suc n) c kind t period until p h = elim (Bool-cases (leb t until)) [
    | inl b ↦
        let next =
          schedule_from-Permᴰ n (schedule c kind t).0 kind (t + period) period until p
            (omega arith) in
        rw (times_step t period until p (leb→le t until b), b)
          (Permᴰ.trans next (schedule-Permᴰ c kind t _))
    | inr b ↦ rw b (Permᴰ.refl _)
  ]

  fuel_enough :
      (m n : ℕ) (c : VirtualClock K) (kind : K) (t period until : ℕ)
      → 0 < period
      → until < t + m
      → until < t + n
      → schedule_from m c kind t period until ≡ schedule_from n c kind t period until
  unfolding schedule_from
  fuel_enough zero zero c kind t period until p h k = refl
  fuel_enough zero (suc n) c kind t period until p h k = ground arith
  fuel_enough (suc m) zero c kind t period until p h k = ground arith
  fuel_enough (suc m) (suc n) c kind t period until p h k = elim (Bool-cases (leb t until)) [
    | inl b ↦ rw b (
        fuel_enough m n (schedule c kind t).0 kind (t + period) period until p (omega arith)
          (omega arith))
    | inr b ↦ rw b refl
  ]

  -- For a period above 0 the loop ends: any fuel above the end gives the same clock. Whatever was
  -- scheduled before, the clock then has in addition exactly one event of the kind for each of the
  -- times first, first + period, ... up to the end, and none if the first lies after the end.
  pub schedule_periodic-entries :
      (c : VirtualClock K) (kind : K) (first period until fuel : ℕ)
      → 0 < period
      → until < fuel
      → Permᴰ
          (stamps (schedule_from fuel c kind first period until).events)
          (entries kind first period (times first period until) ++ stamps c.events)
        × (schedule_from fuel c kind first period until
            ≡ schedule_periodic c kind first period until)
  unfolding schedule_periodic
  schedule_periodic-entries c kind first period until fuel p h = (
    schedule_from-Permᴰ fuel c kind first period until p (omega arith),
    fuel_enough fuel (suc until) c kind first period until p (omega arith) (omega arith),
  )
