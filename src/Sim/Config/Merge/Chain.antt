-- ===== src/Sim/Config/Merge/Chain.antt =====
-- The chain of `extends` of src/sim/config.rs ends.
use Prim.Native.String.{String}
use text.Mathlib.Text.{◌==◌ as str_eq}
use text.Mathlib.TextEquality.{eq_iff}
use argus_manager.Prelude.{
  ℕ, zero, suc, ◌≤◌, ◌<◌, ◌≡◌, ◌≢◌, refl, subst, inl, inr, Bool, true, false, Option, none, some,
  List, [], ◌∷◌, length, arith, if◌then◌else◌, Bool-cases,
}
use argus_manager.Sim.Config.{get}
use argus_manager.Sim.Config.Merge.{
  Value, File, unparsable, parsed, Loaded, ok, io_error, parse_error, circular_extends, out_of_fuel,
  visited, merged, opened, load_yaml_with_extends,
}

module _ {A : Type 0} (resolve : String → String → String) (files : List (String × File A)) where
  -- The files that are not being loaded.
  left : List (String × File A) → List String → ℕ
  left [] seen = 0
  left ((path, file) ∷ rest) seen =
      if visited seen path then left rest seen else suc (left rest seen)

  left-length : (l : List (String × File A)) (seen : List String) → left l seen ≤ length l
  unfolding left
  left-length [] seen = omega arith
  left-length ((path, file) ∷ rest) seen = ground (arith, left-length rest seen)

  left_more :
      (l : List (String × File A)) (seen : List String) (path : String)
      → left l (path ∷ seen) ≤ left l seen
  unfolding left
  left_more [] seen path = omega arith
  left_more ((p, file) ∷ rest) seen path = ground (arith, left_more rest seen path)

  fewer_or : {m n : ℕ} (b : Bool) → m < n → (if b then m else suc m) < (if b then n else suc n)
  fewer_or true h = h
  fewer_or false h = omega (arith, h)

  -- A file that is there and not yet being loaded makes fewer left.
  left_fewer :
      (l : List (String × File A)) (seen : List String) (path : String) (file : File A)
      → visited seen path ≡ false
      → get l path ≡ some file
      → left l (path ∷ seen) < left l seen
  unfolding left
  left_fewer [] seen path file h e = cc
  left_fewer ((p, f) ∷ rest) seen path file h e = elim (Bool-cases (str_eq p path)) [
    | inl same ↦
        let q : p ≡ path = ground (arith, same, eq_iff p path) in
        let back : str_eq path p ≡ true = ground (arith, q, eq_iff path p) in
        let unseen : visited seen p ≡ false = rw q h in
        rw (back, unseen) (omega (arith, left_more rest seen path))
    | inr other ↦
        let apart : str_eq path p ≡ false = ground (arith, other, eq_iff p path, eq_iff path p) in
        let later : get rest path ≡ some file =
          subst (λ t. (if t then some f else get rest path) ≡ some file) other e in
        rw apart (fewer_or (visited seen p) (left_fewer rest seen path file h later))
  ]

  Ends : Loaded A → Type 0
  Ends r = r ≢ out_of_fuel

  merged-Ends : (value : Value A) (r : Loaded A) → Ends r → Ends (merged resolve files value r)
  unfolding Ends
  merged-Ends value (ok v) h = λ e. cc
  merged-Ends value io_error h = h
  merged-Ends value parse_error h = h
  merged-Ends value circular_extends h = h
  merged-Ends value out_of_fuel h = h

  opened-Ends :
      (load : String → Loaded A) (o : Option (File A))
      → ((file : File A) → o ≡ some file → (parent : String) → Ends (load parent))
      → Ends (opened resolve files load o)
  unfolding Ends
  opened-Ends load none h = λ e. cc
  opened-Ends load (some unparsable) h = λ e. cc
  opened-Ends load (some (parsed value none)) h = λ e. cc
  opened-Ends load (some (parsed value (some none))) h = λ e. cc
  opened-Ends load (some (parsed value (some (some parent)))) h =
      merged-Ends value (load parent) (h (parsed value (some (some parent))) refl parent)

  load-Ends :
      (n : ℕ) (seen : List String) (path : String)
      → left files seen < n
      → Ends (load_yaml_with_extends resolve files n seen path)
  unfolding load_yaml_with_extends Ends
  load-Ends zero seen path h = absurd (omega arith)
  load-Ends (suc n) seen path h = elim (Bool-cases (visited seen path)) [
    | inl again ↦ rw again (λ e. cc)
    | inr fresh ↦ rw fresh (
        opened-Ends
          (λ parent. load_yaml_with_extends resolve files n (path ∷ seen) (resolve path parent))
          (get files path)
          (λ file found parent.
            load-Ends n (path ∷ seen) (resolve path parent)
              (omega (arith, left_fewer files seen path file fresh found, h))))
  ]

  -- Whatever the files say and however their paths resolve, a scenario's chain of `extends` ends,
  -- in a value or an error: it takes at most one step more than there are files, since a file that
  -- comes up again is an error.
  pub load_yaml_with_extends-ends :
      (path : String)
      → load_yaml_with_extends resolve files (suc (length files)) [] path ≢ out_of_fuel
  unfolding Ends
  load_yaml_with_extends-ends path =
      load-Ends (suc (length files)) [] path (omega (arith, left-length files []))
