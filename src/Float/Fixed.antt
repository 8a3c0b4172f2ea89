-- ===== src/Float/Fixed.antt =====
-- A float type in which everything runs: thousandths as integers, with a NaN. It meets the laws, so
-- they can be met, and the examples compute with it.
use Prim.Native.Nat.{min}
use native.Mathlib.Nat.{le-div_iff_mul-le, div-mul-le_self, mul-div-mul_right}
use native.Mathlib.Nat
use argus_manager.Prelude.{
  ℕ, zero, suc, ◌+◌, ◌-◌, ◌*◌, ◌/◌, ◌%◌, ◌^◌, ◌≤◌, ◌<◌, ◌≡◌, refl, ◌⊎◌, Bool, true, false, arith,
  ◌==◌, if◌then◌else◌,
}
use argus_manager.Prelude.Int.{
  ℤ, pos, negsuc, pos_part, neg_part, sub_ℕ, leb_ℤ, ◌+ℤ◌, ◌-ℤ◌, ◌*ℤ◌, ◌/ℤ◌,
}
use argus_manager.Float.{Float, IsIeee, IsNumber, Casts, fle, flt, nat}

pub data Fixed : Type 0 where
  nan : Fixed
  num : ℤ → Fixed

abbrev le_fixed : Fixed → Fixed → Bool
le_fixed (num a) (num b) = leb_ℤ a b
le_fixed _ _ = false

abbrev on_numbers : (ℤ → ℤ → Fixed) → Fixed → Fixed → Fixed
on_numbers g (num a) (num b) = g a b
on_numbers g _ _ = nan

abbrev abs_ℤ : ℤ → ℤ
abs_ℤ a = pos (pos_part a + neg_part a)

-- The quotient a / b in thousandths, rounded towards zero; NaN for b = 0.
abbrev div_fixed : ℤ → ℤ → Fixed
div_fixed a (pos b) = if b == 0 then nan else num (a *ℤ pos 1000 /ℤ b)
div_fixed a (negsuc b) = num (pos 0 -ℤ a *ℤ pos 1000 /ℤ suc b)

abbrev is_num : Fixed → Bool
is_num nan = false
is_num (num a) = true

abbrev abs_fixed : Fixed → Fixed
abs_fixed nan = nan
abs_fixed (num a) = num (abs_ℤ a)

-- The fractional part, with the sign of the value.
abbrev fract_fixed : Fixed → Fixed
fract_fixed nan = nan
fract_fixed (num a) = num (sub_ℕ (pos_part a % 1000) (neg_part a % 1000))

abbrev to_nat : Fixed → ℕ
to_nat nan = 0
to_nat (num a) = min (pos_part a / 1000) (2 ^ 64 - 1)

instance abbrev pub fixed_float : Float Fixed
fixed_float = record {
  le = le_fixed;
  add = on_numbers (λ a b. num (a +ℤ b));
  sub = on_numbers (λ a b. num (a -ℤ b));
  mul = on_numbers (λ a b. num (a *ℤ b /ℤ 1000));
  div = on_numbers div_fixed;
  abs = abs_fixed;
  fract = fract_fixed;
  is_finite = is_num;
  of_nat = λ n. num (pos (1000 * n));
  of_int = λ i. num (i *ℤ pos 1000);
  to_u64 = to_nat;
  lit = λ n d. num (pos (1000 * n / d));
  max_value = num (pos (1000 * 2 ^ 64));
}

instance abbrev pub fixed_casts : Casts Fixed Fixed
fixed_casts = record { narrow = λ x. x; widen = λ x. x }

number_of_le : (a b : Fixed) → fle a b ≡ true → (fle a a ≡ true) × (fle b b ≡ true)
number_of_le (num a) (num b) h = ground arith
number_of_le (num a) nan h = cc
number_of_le nan b h = cc

le_trans : (a b c : Fixed) → fle a b ≡ true → fle b c ≡ true → fle a c ≡ true
le_trans (num a) (num b) (num c) h k = ground arith
le_trans nan b c h k = cc
le_trans (num a) nan c h k = cc
le_trans (num a) (num b) nan h k = cc

le_total : (a b : Fixed) → IsNumber a → IsNumber b → (fle a b ≡ true) ⊎ (fle b a ≡ true)
le_total (num a) (num b) h k = ground arith
le_total nan b h k = cc
le_total (num a) nan h k = cc

sub_mono :
    (a b c : Fixed)
    → fle a b ≡ true
    → IsNumber (fixed_float.sub a c)
    → IsNumber (fixed_float.sub b c)
    → fle (fixed_float.sub a c) (fixed_float.sub b c) ≡ true
unfolding ◌-ℤ◌
sub_mono (num a) (num b) (num c) h k l = ground arith
sub_mono nan b c h k l = cc
sub_mono (num a) nan c h k l = cc
sub_mono (num a) (num b) nan h k l = cc

add_mono :
    (a b c : Fixed)
    → fle a b ≡ true
    → IsNumber (fixed_float.add a c)
    → IsNumber (fixed_float.add b c)
    → fle (fixed_float.add a c) (fixed_float.add b c) ≡ true
unfolding ◌+ℤ◌
add_mono (num a) (num b) (num c) h k l = ground arith
add_mono nan b c h k l = cc
add_mono (num a) nan c h k l = cc
add_mono (num a) (num b) nan h k l = cc

sub_le :
    (a h : Fixed)
    → fle (nat 0) h ≡ true
    → IsNumber (fixed_float.sub a h)
    → fle (fixed_float.sub a h) a ≡ true
unfolding ◌-ℤ◌
sub_le (num a) (num h) p q = ground arith
sub_le nan h p q = cc
sub_le (num a) nan p q = cc

le_add :
    (a h : Fixed)
    → fle (nat 0) h ≡ true
    → IsNumber (fixed_float.add a h)
    → fle a (fixed_float.add a h) ≡ true
unfolding ◌+ℤ◌
le_add (num a) (num h) p q = ground arith
le_add nan h p q = cc
le_add (num a) nan p q = cc

div_mono : (a b d : ℕ) → a ≤ b → a / d ≤ b / d
div_mono a b zero h = omega arith
div_mono a b (suc d) h =
    (le-div_iff_mul-le (omega arith)).1 (Nat.le_trans (div-mul-le_self a (suc d)) h)

lit_mono : (n m d : ℕ) → n ≤ m → fle (fixed_float.lit n d) (fixed_float.lit m d) ≡ true
lit_mono n m d h = ground (arith, div_mono (1000 * n) (1000 * m) d (omega arith))

lit_scale : (n d k : ℕ) → 0 < k → fixed_float.lit (n * k) (d * k) ≡ fixed_float.lit n d
lit_scale n d k h =
    let e : 1000 * (n * k) ≡ 1000 * n * k = omega arith in
    rw (e, mul-div-mul_right (1000 * n) d h) refl

suc_mul : (a b : ℕ) → suc a * b ≡ a * b + b
suc_mul a b = omega arith

div_gap : (n m d : ℕ) → n < m → m ≤ d → d ≤ 1000 → 1000 * n / d < 1000 * m / d
div_gap n m d h k l =
    (le-div_iff_mul-le (omega arith)).1
      (omega (arith, div-mul-le_self (1000 * n) d, suc_mul (1000 * n / d) d))

lit_lt :
    (n m d : ℕ) → n < m → m ≤ d → d ≤ 1000 → flt (fixed_float.lit n d) (fixed_float.lit m d) ≡ true
lit_lt n m d h k l = ground (arith, div_gap n m d h k l)

of_nat_lit : (n : ℕ) → fixed_float.of_nat n ≡ fixed_float.lit n 1
of_nat_lit n = ground arith

IsNumber-of_mul : (a b : Fixed) → IsNumber (fixed_float.mul a b) → IsNumber a
IsNumber-of_mul (num a) b h = ground arith
IsNumber-of_mul nan b h = cc

sub-IsNumber :
    (a b : Fixed) → IsNumber a → fixed_float.is_finite b ≡ true → IsNumber (fixed_float.sub a b)
unfolding ◌-ℤ◌
sub-IsNumber (num a) (num b) h k = ground arith
sub-IsNumber nan b h k = cc
sub-IsNumber (num a) nan h k = cc

sub_nonpos :
    (a b : Fixed)
    → fle a b ≡ true
    → IsNumber (fixed_float.sub a b)
    → fle (fixed_float.sub a b) (nat 0) ≡ true
unfolding ◌-ℤ◌
sub_nonpos (num a) (num b) h k = ground arith
sub_nonpos nan b h k = cc
sub_nonpos (num a) nan h k = cc

finite_between :
    (a b c : Fixed)
    → fixed_float.is_finite a ≡ true
    → fixed_float.is_finite c ≡ true
    → fle a b ≡ true
    → fle b c ≡ true
    → fixed_float.is_finite b ≡ true
finite_between (num a) (num b) (num c) h k p q = refl
finite_between nan b c h k p q = cc
finite_between (num a) nan c h k p q = cc
finite_between (num a) (num b) nan h k p q = refl

pub Fixed-IsIeee : IsIeee Fixed
Fixed-IsIeee = record {
  number_of_le = number_of_le;
  le_trans = le_trans;
  le_total = le_total;
  sub_mono = sub_mono;
  add_mono = add_mono;
  sub_le = sub_le;
  le_add = le_add;
  lit_mono = lit_mono;
  lit_scale = lit_scale;
  lit_lt = lit_lt;
  lit_finite = λ n d _ _. refl;
  of_nat_lit = of_nat_lit;
  number_of_mul = IsNumber-of_mul;
  sub_number = sub-IsNumber;
  sub_nonpos = sub_nonpos;
  finite_between = finite_between;
}
