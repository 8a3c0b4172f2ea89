-- ===== src/Text/Trim.antt =====
-- What the trimming of a text leaves.
use argus_manager.Prelude.{ℕ, ◌≡◌, refl, false, true, List, [], ◌∷◌, ◌++◌, arith, All}
use argus_manager.Text.{Text, is_whitespace, trim_start, trim_end, drop_space}
use argus_manager.Text.Laws.{IsDigit, numeral}

abbrev pub IsSpace : ℕ → Type 0
IsSpace c = is_whitespace c ≡ true

abbrev pub IsVisible : ℕ → Type 0
IsVisible c = is_whitespace c ≡ false

pub numeral-IsVisible : (ds : List ℕ) → All IsDigit ds → All IsVisible (numeral ds)
unfolding is_whitespace
numeral-IsVisible [] h = tt
numeral-IsVisible (d ∷ ds) (h, hs) = (ground arith, numeral-IsVisible ds hs)

pub trim_start-spaces : (sp s : Text) → All IsSpace sp → trim_start (sp ++ s) ≡ trim_start s
unfolding trim_start
trim_start-spaces [] s h = refl
trim_start-spaces (c ∷ cs) s (h, hs) = rw (h, trim_start-spaces cs s hs) refl

pub trim_start-visible : (c : ℕ) (cs : Text) → IsVisible c → trim_start (c ∷ cs) ≡ c ∷ cs
unfolding trim_start
trim_start-visible c cs h = rw h refl

drop_space-append : (c d : ℕ) (xs ds : Text) → drop_space c (xs ++ (d ∷ ds)) ≡ c ∷ (xs ++ (d ∷ ds))
drop_space-append c d [] ds = refl
drop_space-append c d (x ∷ xs) ds = refl

pub trim_end-append :
    (xs : Text) (d : ℕ) (ds : Text)
    → trim_end (d ∷ ds) ≡ d ∷ ds
    → trim_end (xs ++ (d ∷ ds)) ≡ xs ++ (d ∷ ds)
unfolding trim_end
trim_end-append [] d ds h = h
trim_end-append (x ∷ xs) d ds h = rw (trim_end-append xs d ds h) (drop_space-append x d xs ds)

drop_space-visible : (c : ℕ) (cs : Text) → IsVisible c → drop_space c cs ≡ c ∷ cs
drop_space-visible c [] h = rw h refl
drop_space-visible c (d ∷ ds) h = refl

-- A space at the end is dropped.
pub trim_end-space : (s : Text) → All IsVisible s → trim_end (s ++ (32 ∷ [])) ≡ s
unfolding trim_end is_whitespace
trim_end-space [] h = refl
trim_end-space (c ∷ cs) (h, hs) = rw (trim_end-space cs hs) (drop_space-visible c cs h)
