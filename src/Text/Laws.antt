-- ===== src/Text/Laws.antt =====
-- Laws of the functions on texts: lines and numerals that were written are read back.
use argus_manager.Prelude.{
  ℕ, ◌+◌, ◌*◌, ◌^◌, ◌<◌, ◌≤◌, ◌≡◌, ◌≢◌, refl, false, some, List, [], ◌∷◌, ◌++◌, map, ◌==◌, arith,
  All, append_assoc, append-nil,
}
use argus_manager.Text.{
  Text, strip_prefix, strip_return, lines_from, lines, add_digit, digits_from, parse_u64,
}

-- A character within a line.
abbrev pub IsInLine : ℕ → Type 0
IsInLine c = (c ≢ 10) × (c ≢ 13)

abbrev pub unlines : List Text → Text
unlines [] = []
unlines (l ∷ ls) = l ++ (10 ∷ unlines ls)

-- The number with the digits after those of n, and the numeral.
abbrev pub number : ℕ → List ℕ → ℕ
number n [] = n
number n (d ∷ ds) = number (n * 10 + d) ds

abbrev pub numeral : List ℕ → Text
numeral ds = map (λ d. 48 + d) ds

abbrev pub IsDigit : ℕ → Type 0
IsDigit d = d < 10

pub strip_prefix-append : (p s : Text) → strip_prefix p (p ++ s) ≡ some s
unfolding strip_prefix
strip_prefix-append [] s = refl
strip_prefix-append (c ∷ cs) s = ground (arith, strip_prefix-append cs s)

pub strip_prefix_of : (p t rest : Text) → strip_prefix p t ≡ some rest → t ≡ p ++ rest
unfolding strip_prefix
strip_prefix_of [] t rest h = cc
strip_prefix_of (c ∷ p) [] rest h = cc
strip_prefix_of (c ∷ p) (d ∷ t) rest h = ground (arith, strip_prefix_of p t rest)

strip_return-IsInLine : (l : Text) → All IsInLine l → strip_return l ≡ l
unfolding strip_return
strip_return-IsInLine [] h = refl
strip_return-IsInLine (c ∷ []) ((n, r), h) = ground arith
strip_return-IsInLine (c ∷ d ∷ ds) (h, hs) = rw (strip_return-IsInLine (d ∷ ds) hs) refl

pub lines_from-line :
    (line l rest : Text)
    → All IsInLine l
    → lines_from line (l ++ (10 ∷ rest)) ≡ strip_return (line ++ l) ∷ lines_from [] rest
unfolding lines_from
lines_from-line line [] rest h = rw (append-nil line) refl
lines_from-line line (c ∷ cs) rest ((n, r), h) =
    let e : (c == 10) ≡ false = ground arith in
    rw (lines_from, e)
      (rw (← append_assoc line (c ∷ []) cs) (lines_from-line (line ++ (c ∷ [])) cs rest h))

pub lines-unlines : (ls : List Text) → All (λ l. All IsInLine l) ls → lines (unlines ls) ≡ ls
unfolding lines_from
lines-unlines [] h = refl
lines-unlines (l ∷ ls) (h, hs) =
    rw (lines_from-line [] l (unlines ls) h, strip_return-IsInLine l h, lines-unlines ls hs) refl

pub number_mono : (n : ℕ) (ds : List ℕ) → n ≤ number n ds
number_mono n [] = omega arith
number_mono n (d ∷ ds) = omega (arith, number_mono (n * 10 + d) ds)

pub digits_from-numeral :
    (n : ℕ) (ds : List ℕ)
    → All IsDigit ds
    → number n ds < 2 ^ 64
    → digits_from n (numeral ds) ≡ some (number n ds)
unfolding digits_from
digits_from-numeral n [] h b = refl
digits_from-numeral n (d ∷ ds) (h, hs) b =
    let step : add_digit n (48 + d) ≡ some (n * 10 + d) =
      ground (arith, h, b, number_mono (n * 10 + d) ds) in
    rw step (digits_from-numeral (n * 10 + d) ds hs b)

pub parse_u64-numeral :
    (d : ℕ) (ds : List ℕ)
    → All IsDigit (d ∷ ds)
    → number 0 (d ∷ ds) < 2 ^ 64
    → parse_u64 (numeral (d ∷ ds)) ≡ some (number 0 (d ∷ ds))
unfolding parse_u64
parse_u64-numeral d ds h b =
    let e : (48 + d == 43) ≡ false = ground arith in rw e (digits_from-numeral 0 (d ∷ ds) h b)
