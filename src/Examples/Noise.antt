-- ===== src/Examples/Noise.antt =====
-- Two streams of noise, with a generator that counts down.
use argus_manager.Prelude.{ℕ, zero, suc, refl, [], ◌∷◌}
use argus_manager.Float.{nat}
use argus_manager.Float.Fixed.{Fixed, fixed_float}
use argus_manager.Sim.Noise.{Generator, new, nonzero}
use argus_manager.Sim.Noise.Streams.{IsLive, Separates, samples-only}

abbrev next : ℕ → ℕ × ℕ
next zero = (0, 1)
next (suc n) = (7, n)

-- Rough stand-ins: what the proof needs of the functions on numbers is nothing.
abbrev countdown : Generator ℕ Fixed
countdown = record {
  seed_from_u64 = λ seed. seed;
  next_u32 = next;
  ln = λ x. x;
  sqrt = λ x. x;
  cos = λ x. x;
  tau = nat 6;
  bytes = λ key. 107 ∷ [];
}

countdown-IsLive : IsLive countdown 2
unfolding nonzero
countdown-IsLive zero = (_, refl)
countdown-IsLive (suc n) = (_, refl)

samples-only_example :
    Separates countdown 2
      (new 42)
      "heat"
      (("heat", nat 1) ∷ ("load", nat 2) ∷ ("heat", nat 0) ∷ ("heat", nat 3) ∷ [])
samples-only_example =
    samples-only countdown 2 countdown-IsLive (new 42) "heat"
      (("heat", nat 1) ∷ ("load", nat 2) ∷ ("heat", nat 0) ∷ ("heat", nat 3) ∷ [])
