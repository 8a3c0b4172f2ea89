-- ===== src/LuaPolicy/Sys/Fps.antt =====
-- `sys.foreground_fps` of src/lua_policy.rs over a series of calls.
use argus_manager.Prelude.{
  ℕ, ◌+◌, ◌-◌, ◌≤◌, ◌≡◌, refl, ap, false, Option, none, some, List, [], ◌∷◌, map, All, arith,
  Bool-cases, inl, inr,
}
use argus_manager.Float.{Float, flt}
use argus_manager.Text.{Text}
use argus_manager.LuaPolicy.Sys.{
  FpsState, uninitialized, since, Interval, frame_count, rate, counted, foreground_fps,
}

pub record Call : Type 0 where
  pub pkg : Text
  pub output : Option Text
  pub now : ℕ

abbrev pub frames : List Interval → ℕ
frames [] = 0
frames ((n, dt) ∷ is) = n + frames is

abbrev pub nanoseconds : List Interval → ℕ
nanoseconds [] = 0
nanoseconds ((n, dt) ∷ is) = dt + nanoseconds is

-- From a counter and a time on, neither goes back from one call that finds a counter to the next.
abbrev RisesAt : (ℕ → ℕ → Type 0) → ℕ → ℕ → ℕ → Option ℕ → Type 0
RisesAt later f t now none = later f t
RisesAt later f t now (some n) = (f ≤ n) × (t ≤ now) × later n now

abbrev pub Rises : ℕ → ℕ → List Call → Type 0
Rises f t [] = Unit {0}
Rises f t (c ∷ cs) = RisesAt (λ n now. Rises n now cs) f t c.now (frame_count c.pkg c.output)

module _ {S : Type 0} ⦃g : Float S⦄ (as_secs_f32 : ℕ → S) where
  abbrev pub reported : Option S → List S → List S
  reported none rest = rest
  reported (some v) rest = v ∷ rest

  -- The state after the calls, and the rates that they gave.
  abbrev pub rates : FpsState → List Call → FpsState × List S
  rates s [] = (s, [])
  rates s (c ∷ cs) =
      let (next, r) = foreground_fps as_secs_f32 s c.pkg c.output c.now in
      let (last, rest) = rates next cs in (last, reported r rest)

  abbrev pub rate_of : Interval → S
  rate_of (n, dt) = g.div (g.of_nat n) (as_secs_f32 dt)

  -- Intervals of at least 0.1 seconds each that add up to all the frames and all the time from the
  -- first counter to the last.
  abbrev pub Covers : ℕ → ℕ → FpsState → List Interval → Type 0
  Covers f t uninitialized is = ⊥
  Covers f t (since last_frame last_time) is =
      (frames is + f ≡ last_frame)
      × (nanoseconds is + t ≡ last_time)
      × All (λ i. flt (as_secs_f32 i.1) (g.lit 1 10) ≡ false) is

  abbrev pub IsCovered : ℕ → ℕ → FpsState × List S → Type 0
  IsCovered f t (s, rs) = (is : List Interval) × (rs ≡ map rate_of is) × Covers f t s is

  longer :
      (f t n now : ℕ) (r : FpsState × List S)
      → f ≤ n
      → t ≤ now
      → flt (as_secs_f32 (now - t)) (g.lit 1 10) ≡ false
      → IsCovered n now r
      → IsCovered f t (r.0, rate_of (n - f, now - t) ∷ r.1)
  longer f t n now (uninitialized, rs) a b l (is, e, c) = absurd c
  longer f t n now (since lf lt, rs) a b l (is, e, (cf, ct, all)) = (
    (n - f, now - t) ∷ is,
    ap (λ u. rate_of (n - f, now - t) ∷ u) e,
    (omega (arith, cf, a), omega (arith, ct, b), (l, all)),
  )

  abbrev after_count : FpsState → Option ℕ → ℕ → List Call → FpsState × List S
  after_count s o now cs =
      let (next, i) = counted as_secs_f32 s o now in
      let (last, rest) = rates next cs in (last, reported (rate as_secs_f32 i) rest)

  counted-IsCovered :
      (f t f1 t1 now : ℕ) (cs : List Call) (o : Option ℕ)
      → ((n m n1 m1 : ℕ) → n ≤ n1 → m ≤ m1 → Rises n1 m1 cs → IsCovered n m (rates (since n m) cs))
      → f ≤ f1
      → t ≤ t1
      → RisesAt (λ n now. Rises n now cs) f1 t1 now o
      → IsCovered f t (after_count (since f t) o now cs)
  counted-IsCovered f t f1 t1 now cs none ih a b h = ih f t f1 t1 a b h
  counted-IsCovered f t f1 t1 now cs (some n) ih a b (p, q, h) =
      elim (Bool-cases (flt (as_secs_f32 (now - t)) (g.lit 1 10))) [
        | inl soon ↦ rw soon (ih f t n now (omega arith) (omega arith) h)
        | inr later ↦ rw later (
            longer f t n now (rates (since n now) cs) (omega arith) (omega arith) later
              (ih n now n now (omega arith) (omega arith) h))
      ]

  since-IsCovered :
      (f t f1 t1 : ℕ) (cs : List Call)
      → f ≤ f1
      → t ≤ t1
      → Rises f1 t1 cs
      → IsCovered f t (rates (since f t) cs)
  unfolding foreground_fps
  since-IsCovered f t f1 t1 [] a b h = ([], refl, (omega arith, omega arith, tt))
  since-IsCovered f t f1 t1 (c ∷ cs) a b h =
      counted-IsCovered f t f1 t1 c.now cs (frame_count c.pkg c.output)
        (λ n m n1 m1. since-IsCovered n m n1 m1 cs) a b h

  -- The first call that finds a counter gives no rate. The rates of the calls after it are those of
  -- intervals of at least 0.1 seconds each, and these intervals add up to exactly the frames and the
  -- time from that first call to the last one that gave a rate: none is counted twice or left out.
  -- The counter and the time do not go back.
  pub foreground_fps-IsCovered :
      (f : ℕ) (c : Call) (cs : List Call)
      → frame_count c.pkg c.output ≡ some f
      → Rises f c.now cs
      → IsCovered f c.now (rates uninitialized (c ∷ cs))
  unfolding foreground_fps
  foreground_fps-IsCovered f c cs e h =
      rw e (since-IsCovered f c.now f c.now cs (omega arith) (omega arith) h)
