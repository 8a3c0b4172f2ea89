-- ===== src/Sim/Clock/Drain.antt =====
-- The order of the events of src/sim/clock.rs.
use argus_manager.Prelude.{
  ℕ, ◌≡◌, refl, ap, inl, inr, true, false, List, [], ◌∷◌, ◌++◌, All, arith, Bool-cases, leb,
}
use argus_manager.Sim.Clock.{
  ScheduledEvent, VirtualClock, before, push, new, schedule, pop_until, drain_until, advance,
}

-- What a user of the clock does.
pub data Operation (K : Type 0) : Type 0 where
  add : (kind : K) (at : ℕ) → Operation K
  take : (target : ℕ) → Operation K
  wait : (dt : ℕ) → Operation K

module _ {K : Type 0} where
  -- Each event comes before the later ones: by time, and by id at the same time.
  abbrev pub Sorted : List (ScheduledEvent K) → Type 0
  Sorted [] = Unit {0}
  Sorted (e ∷ es) = All (λ x. before e x ≡ true) es × Sorted es

  before_total : (a b : ScheduledEvent K) → before a b ≡ false → before b a ≡ true
  before_total a b h = ground arith

  before_trans :
      (a b c : ScheduledEvent K) → before a b ≡ true → before b c ≡ true → before a c ≡ true
  before_trans a b c h k = ground arith

  All-before :
      (a b : ScheduledEvent K) (es : List (ScheduledEvent K))
      → before a b ≡ true
      → All (λ x. before b x ≡ true) es
      → All (λ x. before a x ≡ true) es
  All-before a b [] h k = tt
  All-before a b (e ∷ es) h k = (before_trans a b e h k.0, All-before a b es h k.1)

  push-All :
      (P : ScheduledEvent K → Type 0) (e : ScheduledEvent K) (es : List (ScheduledEvent K))
      → P e
      → All P es
      → All P (push e es)
  unfolding push
  push-All P e [] h k = (h, tt)
  push-All P e (x ∷ xs) h k = elim (Bool-cases (before e x)) [
    | inl b ↦ rw b (h, k)
    | inr b ↦ rw b (k.0, push-All P e xs h k.1)
  ]

  push-Sorted :
      (e : ScheduledEvent K) (es : List (ScheduledEvent K)) → Sorted es → Sorted (push e es)
  unfolding push
  push-Sorted e [] s = (tt, tt)
  push-Sorted e (x ∷ xs) s = elim (Bool-cases (before e x)) [
    | inl b ↦ rw b ((b, All-before e x xs b s.0), s)
    | inr b ↦
        rw b (push-All (λ y. before x y ≡ true) e xs (before_total e x b) s.0, push-Sorted e xs s.1)
  ]

  -- The events due, those that stay, and nothing lost.
  pub record IsSplit (target : ℕ) (es out rest : List (ScheduledEvent K)) : Type 0 where
    pub whole : out ++ rest ≡ es
    pub due : All (λ e. leb e.at target ≡ true) out
    pub later : All (λ e. leb e.at target ≡ false) rest
    pub ordered : Sorted out
    pub kept : Sorted rest

  later-All :
      (target : ℕ) (e : ScheduledEvent K) (es : List (ScheduledEvent K))
      → leb e.at target ≡ false
      → All (λ x. before e x ≡ true) es
      → All (λ x. leb x.at target ≡ false) es
  later-All t e [] h s = tt
  later-All t e (x ∷ xs) h s = let b = s.0 in (ground arith, later-All t e xs h s.1)

  out-All :
      (P : ScheduledEvent K → Type 0) (target : ℕ) (es : List (ScheduledEvent K))
      → All P es
      → All P (pop_until target es).0
  unfolding pop_until
  out-All P t [] h = tt
  out-All P t (e ∷ es) h = elim (Bool-cases (leb e.at t)) [
    | inl b ↦ rw b (h.0, out-All P t es h.1)
    | inr b ↦ rw b tt
  ]

  pop_until-IsSplit :
      (target : ℕ) (es : List (ScheduledEvent K))
      → Sorted es
      → IsSplit target es (pop_until target es).0 (pop_until target es).1
  unfolding pop_until
  pop_until-IsSplit t [] s = record { whole = refl; due = tt; later = tt; ordered = tt; kept = tt }
  pop_until-IsSplit t (e ∷ es) s = elim (Bool-cases (leb e.at t)) [
    | inl b ↦
        let r = pop_until-IsSplit t es s.1 in
        rw b record {
          whole = ap (◌∷◌ e) r.whole;
          due = (b, r.due);
          later = r.later;
          ordered = (out-All (λ x. before e x ≡ true) t es s.0, r.ordered);
          kept = r.kept;
        }
    | inr b ↦ rw b record {
      whole = refl;
      due = tt;
      later = (b, later-All t e es b s.0);
      ordered = tt;
      kept = s;
    }
  ]

  unfoldable pub step : VirtualClock K → Operation K → VirtualClock K
  step c (add kind at) = (schedule c kind at).0
  step c (take target) = (drain_until c target).0
  step c (wait dt) = advance c dt

  abbrev pub run : VirtualClock K → List (Operation K) → VirtualClock K
  run c [] = c
  run c (o ∷ os) = run (step c o) os

  step-Sorted : (c : VirtualClock K) (o : Operation K) → Sorted c.events → Sorted (step c o).events
  unfolding step schedule drain_until advance
  step-Sorted c (add kind at) s = push-Sorted _ c.events s
  step-Sorted c (take target) s = let r = pop_until-IsSplit target c.events s in r.kept
  step-Sorted c (wait dt) s = s

  run-Sorted :
      (c : VirtualClock K) (os : List (Operation K)) → Sorted c.events → Sorted (run c os).events
  run-Sorted c [] s = s
  run-Sorted c (o ∷ os) s = run-Sorted (step c o) os (step-Sorted c o s)

  -- However a clock has been used since it was made, taking the events up to a time gives all those
  -- due by then and no other, ordered by time and by id at the same time; the events that stay are
  -- later, and none is lost or repeated.
  pub drain_until-IsSplit :
      (os : List (Operation K)) (target : ℕ)
      → let c = run new os in
        IsSplit target c.events (drain_until c target).1 (drain_until c target).0.events
  unfolding drain_until
  drain_until-IsSplit os target =
      pop_until-IsSplit target (run new os).events (run-Sorted new os tt)
