-- ===== src/Sim/Noise.antt =====
-- src/sim/noise.rs: a stream of random numbers for each key. The generator (`R`), the logarithm, the
-- square root, the cosine and the constant `TAU` belong to libraries; `bytes` is `str::bytes`. The
-- loop that skips zeros takes fuel; `W` is `f64`.
pub mod Streams
use Prim.Native.Nat.{bit_xor}
use Prim.Native.String.{String}
use argus_manager.Prelude.{
  ℕ, zero, suc, ◌-◌, ◌*◌, ◌/◌, ◌%◌, ◌^◌, Option, none, some, List, [], ◌∷◌, ◌==◌, if◌then◌else◌,
  ◌>>=◌,
}
use argus_manager.Float.{Float, feq, nat}
use argus_manager.Sim.Config.{get}
use argus_manager.Sim.Compose.{insert}

pub record Generator (R W : Type 0) : Type 0 where
  pub seed_from_u64 : ℕ → R
  pub next_u32 : R → ℕ × R
  pub ln : W → W
  pub sqrt : W → W
  pub cos : W → W
  pub tau : W
  pub bytes : String → List ℕ

pub record NoiseRng (R : Type 0) : Type 0 where
  pub streams : List (String × R)
  pub master_seed : ℕ

abbrev pub new : {R : Type 0} → ℕ → NoiseRng R
new master_seed = record { streams = []; master_seed = master_seed }

abbrev fnv_prime : ℕ
fnv_prime = 1099511628211

abbrev fnv_offset : ℕ
fnv_offset = 14695981039346656037

-- The loops over the bytes.
unfoldable pub hashed : ℕ → List ℕ → ℕ
hashed hash [] = hash
hashed hash (byte ∷ bytes) = hashed ((bit_xor hash byte * fnv_prime) % 2 ^ 64) bytes

-- `to_le_bytes`
abbrev to_le_bytes : ℕ → List ℕ
to_le_bytes n =
    n % 256
    ∷ n / 2 ^ 8 % 256
    ∷ n / 2 ^ 16 % 256
    ∷ n / 2 ^ 24 % 256
    ∷ n / 2 ^ 32 % 256
    ∷ n / 2 ^ 40 % 256
    ∷ n / 2 ^ 48 % 256
    ∷ n / 2 ^ 56 % 256
    ∷ []

module _ {R W : Type 0} ⦃f : Float W⦄ (rand : Generator R W) where
  unfoldable pub derive_stream_seed : ℕ → String → ℕ
  derive_stream_seed master_seed key =
      hashed (hashed fnv_offset (to_le_bytes master_seed)) (rand.bytes key)

  -- The loop: a number that is not 0.
  unfoldable pub nonzero : ℕ → R → Option (ℕ × R)
  nonzero zero r = none
  nonzero (suc n) r =
      let (raw, next) = rand.next_u32 r in
      let again = nonzero n next in if raw == 0 then again else some (raw, next)

  abbrev pub uniform : ℕ → W
  uniform raw = f.div (f.of_nat raw) (f.of_nat (2 ^ 32 - 1))

  abbrev pub transformed : W → W → W
  transformed u1 u2 =
      f.mul (rand.sqrt (f.mul (f.sub (nat 0) (nat 2)) (rand.ln u1))) (rand.cos (f.mul rand.tau u2))

  abbrev pub second : ℕ × R → W × R
  second (raw, r) =
      let (raw2, next) = rand.next_u32 r in (transformed (uniform raw) (uniform raw2), next)

  unfoldable pub box_muller : ℕ → R → Option (W × R)
  box_muller fuel r = nonzero fuel r >>= (λ p. some (second p))

  abbrev pub or_fresh : ℕ → String → Option R → R
  or_fresh master_seed key none = rand.seed_from_u64 (derive_stream_seed master_seed key)
  or_fresh master_seed key (some r) = r

  -- The stream of a key: the one that is kept, or a fresh one.
  abbrev pub stream_of : NoiseRng R → String → R
  stream_of m key = or_fresh m.master_seed key (get m.streams key)

  abbrev pub scaled : NoiseRng R → String → W → W × R → W × NoiseRng R
  scaled m key sigma (z, r) = (f.mul z sigma, record m { streams = insert m.streams key r })

  unfoldable pub gaussian : ℕ → NoiseRng R → String → W → Option (W × NoiseRng R)
  gaussian fuel m seed_key sigma =
      if feq sigma (nat 0)
      then some (nat 0, m)
      else box_muller fuel (stream_of m seed_key) >>= (λ p. some (scaled m seed_key sigma p))
