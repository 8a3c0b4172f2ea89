-- ===== src/Sim/Noise/Streams.antt =====
-- The streams of src/sim/noise.rs do not depend on each other.
use Prim.Native.String.{String}
use text.Mathlib.Text.{◌==◌ as str_eq}
use text.Mathlib.TextEquality.{eq_iff}
use argus_manager.Prelude.{
  ℕ, true, false, Option, some, List, [], ◌∷◌, ◌≡◌, refl, sym, ap, ◌∙◌, inl, inr, Bool-cases, arith,
  if◌then◌else◌, ◌>>=◌,
}
use argus_manager.Float.{Float, feq, nat}
use argus_manager.Sim.Compose.{insert}
use argus_manager.Sim.Harness.Changes.{get-insert}
use argus_manager.Sim.Noise.{
  Generator, NoiseRng, nonzero, second, box_muller, stream_of, scaled, gaussian,
}

-- The entries of one key, in their order.
unfoldable pub only : {A : Type 0} → String → List (String × A) → List (String × A)
only key [] = []
only key ((k, a) ∷ rest) =
    let others = only key rest in if str_eq k key then (k, a) ∷ others else others

module _ {R W : Type 0} ⦃f : Float W⦄ (rand : Generator R W) (fuel : ℕ) where
  -- Samples for a list of keys and deviations, one after the other.
  unfoldable pub samples : NoiseRng R → List (String × W) → Option (List (String × W))
  samples m [] = some []
  samples m ((key, sigma) ∷ calls) =
      gaussian rand fuel m key sigma
      >>= (λ p. samples (p.1) calls >>= (λ rest. some ((key, p.0) ∷ rest)))

  -- The loop that skips zeros ends within the fuel.
  abbrev pub IsLive : Type 0
  IsLive = (r : R) → (p : ℕ × R) × (nonzero rand fuel r ≡ some p)

  -- A sample from either of two states whose streams of the key agree.
  abbrev Agrees : NoiseRng R → NoiseRng R → String → String → W → Type 0
  Agrees m n key name sigma =
      (z : W) × (a : NoiseRng R) × (b : NoiseRng R) × (gaussian rand fuel m key sigma ≡ some (z, a))
      × (gaussian rand fuel n key sigma ≡ some (z, b))
      × (stream_of rand a name ≡ stream_of rand b name)

  -- A sample that leaves the stream of another name.
  abbrev Leaves : NoiseRng R → String → String → W → Type 0
  Leaves m key name sigma =
      (z : W) × (a : NoiseRng R) × (gaussian rand fuel m key sigma ≡ some (z, a))
      × (stream_of rand a name ≡ stream_of rand m name)

  drawn :
      (m : NoiseRng R) (key : String) (sigma : W) (p : ℕ × R)
      → feq sigma (nat 0) ≡ false
      → nonzero rand fuel (stream_of rand m key) ≡ some p
      → gaussian rand fuel m key sigma ≡ some (scaled rand m key sigma (second rand p))
  unfolding gaussian box_muller
  drawn m key sigma p e q = rw (e, q) refl

  undrawn :
      (m : NoiseRng R) (key : String) (sigma : W)
      → feq sigma (nat 0) ≡ true
      → gaussian rand fuel m key sigma ≡ some (nat 0, m)
  unfolding gaussian
  undrawn m key sigma e = rw e refl

  -- The stream of a name after that of a key was replaced.
  stream_of-insert :
      (m : NoiseRng R) (key name : String) (r : R)
      → stream_of rand (record m { streams = insert m.streams key r }) name
        ≡ (if str_eq key name then r else stream_of rand m name)
  stream_of-insert m key name r = rw (get-insert m.streams key name r) (ground arith)

  put :
      (m : NoiseRng R) (key name : String) (r : R)
      → str_eq key name ≡ true
      → stream_of rand (record m { streams = insert m.streams key r }) name ≡ r
  put m key name r t = stream_of-insert m key name r ∙ rw t refl

  sample-Agrees :
      (h : IsLive) (m n : NoiseRng R) (key name : String) (sigma : W)
      → str_eq key name ≡ true
      → stream_of rand m name ≡ stream_of rand n name
      → Agrees m n key name sigma
  sample-Agrees h m n key name sigma t e = elim (Bool-cases (feq sigma (nat 0))) [
    | inl off ↦ (nat 0, m, n, undrawn m key sigma off, undrawn n key sigma off, e)
    | inr on ↦
        let same = (eq_iff key name).0 t in
        let (p, q) = h (stream_of rand m key) in
        let streams = ap (stream_of rand n) same ∙ sym e ∙ sym (ap (stream_of rand m) same) in
        (
          _,
          _,
          _,
          drawn m key sigma p on q,
          drawn n key sigma p on (ap (nonzero rand fuel) streams ∙ q),
          put m key name _ t ∙ sym (put n key name _ t),
        )
  ]

  sample-Leaves :
      (h : IsLive) (m : NoiseRng R) (key name : String) (sigma : W)
      → str_eq key name ≡ false
      → Leaves m key name sigma
  sample-Leaves h m key name sigma ne = elim (Bool-cases (feq sigma (nat 0))) [
    | inl t ↦ (nat 0, m, undrawn m key sigma t, refl)
    | inr t ↦
        let (p, q) = h (stream_of rand m key) in
        (_, _, drawn m key sigma p t q, stream_of-insert m key name _ ∙ rw ne refl)
  ]

  -- The samples of a key, when other keys are sampled in between.
  agree :
      (h : IsLive) (name : String) (m n : NoiseRng R) (calls : List (String × W))
      → stream_of rand m name ≡ stream_of rand n name
      → (zs : List (String × W)) × (samples m calls ≡ some zs)
        × (samples n (only name calls) ≡ some (only name zs))
  unfolding samples only
  agree h name m n [] e = ([], refl, refl)
  agree h name m n ((key, sigma) ∷ calls) e = elim (Bool-cases (str_eq key name)) [
    | inl t ↦
        let (z, a, b, g, k, s) = sample-Agrees h m n key name sigma t e in
        let (zs, left, right) = agree h name a b calls s in
        ((key, z) ∷ zs, rw (g, left) refl, rw (t, k, right) refl)
    | inr t ↦
        let (z, a, g, s) = sample-Leaves h m key name sigma t in
        let (zs, left, right) = agree h name a n calls (s ∙ e) in
        ((key, z) ∷ zs, rw (g, left) refl, rw (t) right)
  ]

  -- The calls have samples, and those of the name are the samples of its calls alone.
  abbrev pub Separates : NoiseRng R → String → List (String × W) → Type 0
  Separates m name calls =
      (zs : List (String × W)) × (samples m calls ≡ some zs)
      × (samples m (only name calls) ≡ some (only name zs))

  -- When the loop that skips zeros ends within the fuel from every state of the generator, any list of
  -- calls returns its samples, and those of one key are what the calls with that key alone return: the
  -- samples of the other keys, their number, their order and their deviations do not matter.
  pub samples-only :
      (h : IsLive) (m : NoiseRng R) (name : String) (calls : List (String × W))
      → Separates m name calls
  samples-only h m name calls = agree h name m m calls refl
