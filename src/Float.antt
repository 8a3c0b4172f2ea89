-- ===== src/Float.antt =====
-- What the program does with an `f64` or an `f32`. `le` is `<=`; the other comparisons of IEEE 754
-- are determined by it, since NaN is the value that is not `<=` itself. The type and its operations
-- are those of the machine, so they are an interface here: `IsIeee` lists the laws that proofs use.
pub mod Fixed
use argus_manager.Prelude.{ℕ, ◌*◌, ◌^◌, ◌<◌, ◌≤◌, ◌≡◌, ◌⊎◌, Bool, true, ◌&&◌, not, if◌then◌else◌}
use argus_manager.Prelude.Int.{ℤ}

pub record Float (W : Type 0) : Type 0 where
  pub le : W → W → Bool
  pub add : W → W → W
  pub sub : W → W → W
  pub mul : W → W → W
  pub div : W → W → W
  pub abs : W → W
  pub fract : W → W
  pub is_finite : W → Bool
  pub of_nat : ℕ → W  -- `n as f64`
  pub of_int : ℤ → W  -- `i as f64`
  pub to_u64 : W → ℕ  -- `x as u64`
  pub lit : ℕ → ℕ → W  -- the literal for n / d: 0.85 is `lit 85 100`
  pub max_value : W  -- `f64::MAX`

-- `x as f32` and `x as f64`.
pub record Casts (D S : Type 0) : Type 0 where
  pub narrow : D → S
  pub widen : S → D

module _ {W : Type 0} ⦃f : Float W⦄ where
  -- `a <= b`
  abbrev pub fle : W → W → Bool
  fle a b = f.le a b

  -- `a < b`
  abbrev pub flt : W → W → Bool
  flt a b = f.le a b && not (f.le b a)

  -- `a == b`
  abbrev pub feq : W → W → Bool
  feq a b = f.le a b && f.le b a

  abbrev pub is_nan : W → Bool
  is_nan a = not (f.le a a)

  -- `f64::max` returns the other operand for a NaN.
  abbrev pub fmax : W → W → W
  fmax a b = if is_nan a then b else if is_nan b then a else if f.le a b then b else a

  -- `x.clamp(lo, hi)`; a NaN stays.
  abbrev pub clamp : W → W → W → W
  clamp x lo hi = if flt x lo then lo else if flt hi x then hi else x

  abbrev pub nat : ℕ → W
  nat n = f.lit n 1

  abbrev pub IsNumber : W → Type 0
  IsNumber a = f.le a a ≡ true

-- The laws of IEEE 754 with rounding to nearest that proofs use.
pub record IsIeee (W : Type 0) ⦃f : Float W⦄ : Type 0 where
  pub number_of_le : (a b : W) → f.le a b ≡ true → (f.le a a ≡ true) × (f.le b b ≡ true)
  pub le_trans : (a b c : W) → f.le a b ≡ true → f.le b c ≡ true → f.le a c ≡ true
  pub le_total :
      (a b : W) → f.le a a ≡ true → f.le b b ≡ true → (f.le a b ≡ true) ⊎ (f.le b a ≡ true)
  -- Rounding is monotone.
  pub sub_mono :
      (a b c : W)
      → f.le a b ≡ true
      → IsNumber (f.sub a c)
      → IsNumber (f.sub b c)
      → f.le (f.sub a c) (f.sub b c) ≡ true
  pub add_mono :
      (a b c : W)
      → f.le a b ≡ true
      → IsNumber (f.add a c)
      → IsNumber (f.add b c)
      → f.le (f.add a c) (f.add b c) ≡ true
  pub sub_le :
      (a h : W) → f.le (f.lit 0 1) h ≡ true → IsNumber (f.sub a h) → f.le (f.sub a h) a ≡ true
  pub le_add :
      (a h : W) → f.le (f.lit 0 1) h ≡ true → IsNumber (f.add a h) → f.le a (f.add a h) ≡ true
  -- A literal is the nearest value.
  pub lit_mono : (n m d : ℕ) → n ≤ m → f.le (f.lit n d) (f.lit m d) ≡ true
  pub lit_scale : (n d k : ℕ) → 0 < k → f.lit (n * k) (d * k) ≡ f.lit n d
  pub lit_lt :
      (n m d : ℕ)
      → n < m
      → m ≤ d
      → d ≤ 1000
      → (f.le (f.lit n d) (f.lit m d) && not (f.le (f.lit m d) (f.lit n d))) ≡ true
  pub lit_finite : (n d : ℕ) → n ≤ 2 ^ 64 → 0 < d → f.is_finite (f.lit n d) ≡ true
  pub of_nat_lit : (n : ℕ) → f.of_nat n ≡ f.lit n 1
  pub number_of_mul : (a b : W) → IsNumber (f.mul a b) → IsNumber a
  pub sub_number : (a b : W) → IsNumber a → f.is_finite b ≡ true → IsNumber (f.sub a b)
  pub sub_nonpos :
      (a b : W) → f.le a b ≡ true → IsNumber (f.sub a b) → f.le (f.sub a b) (f.lit 0 1) ≡ true
  pub finite_between :
      (a b c : W)
      → f.is_finite a ≡ true
      → f.is_finite c ≡ true
      → f.le a b ≡ true
      → f.le b c ≡ true
      → f.is_finite b ≡ true
