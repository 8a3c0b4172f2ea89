-- ===== src/Sim/Config/Merge.antt =====
-- `deep_merge` and `load_yaml_with_extends` of src/sim/config.rs. A YAML value is a mapping or some
-- other value `A` (a scalar or a sequence), since the code looks into mappings only; the keys of a
-- mapping are unique, and the library keeps them in the order of insertion.
pub mod Lookup
pub mod Chain
use Prim.Native.String.{String}
use text.Mathlib.Text.{◌==◌ as str_eq}
use argus_manager.Prelude.{
  ℕ, zero, suc, Bool, true, false, ◌||◌, Option, none, some, List, [], ◌∷◌, length, if◌then◌else◌,
}
use argus_manager.Sim.Config.{get}

mutual
  pub data Value (A : Type 0) : Type 0 where
    mapping : Entries A → Value A
    leaf : A → Value A

  pub data Entries (A : Type 0) : Type 0 where
    empty : Entries A
    entry : String → Value A → Entries A → Entries A

module _ {A : Type 0} where
  -- The `entry` of a key: changed if it is occupied, filled if it is vacant.
  abbrev pub upsert : Entries A → String → (Value A → Value A) → Value A → Entries A
  upsert empty key change v = entry key v empty
  upsert (entry k old rest) key change v =
      let later = upsert rest key change v in
      if str_eq k key then entry k (change old) rest else entry k old later

-- The override is the first argument here, on which the recursion runs.
unfoldable mutual
  pub merge : {A : Type 0} → Value A → Value A → Value A
  merge (leaf a) base = leaf a
  merge (mapping o) (leaf b) = mapping o
  merge (mapping o) (mapping b) = mapping (merge_entries o b)

  pub merge_entries : {A : Type 0} → Entries A → Entries A → Entries A
  merge_entries empty b = b
  merge_entries (entry k v rest) b = merge_entries rest (upsert b k (merge v) v)

unfoldable pub deep_merge : {A : Type 0} → Value A → Value A → Value A
deep_merge base override = merge override base

-- What a file holds: nothing that parses, or its value without `extends`, and what `extends` names
-- (some none if that is no path).
pub data File (A : Type 0) : Type 0 where
  unparsable : File A
  parsed : Value A → Option (Option String) → File A

pub data Loaded (A : Type 0) : Type 0 where
  ok : Value A → Loaded A
  io_error parse_error circular_extends out_of_fuel : Loaded A

abbrev pub visited : List String → String → Bool
visited [] path = false
visited (p ∷ ps) path = str_eq p path || visited ps path

module _ {A : Type 0} (resolve : String → String → String) (files : List (String × File A)) where
  abbrev pub merged : Value A → Loaded A → Loaded A
  merged value (ok parent) = ok (deep_merge parent value)
  merged value e = e

  abbrev pub extended : (String → Loaded A) → Value A → Option (Option String) → Loaded A
  extended load value none = ok value
  extended load value (some none) = parse_error
  extended load value (some (some parent)) = merged value (load parent)

  abbrev pub opened : (String → Loaded A) → Option (File A) → Loaded A
  opened load none = io_error
  opened load (some unparsable) = parse_error
  opened load (some (parsed value parent)) = extended load value parent

  -- `load_yaml_with_extends` with the paths that are being loaded; `resolve` makes the path of a
  -- parent canonical. The source recurses without a bound.
  unfoldable pub load_yaml_with_extends : ℕ → List String → String → Loaded A
  load_yaml_with_extends zero seen path = out_of_fuel
  load_yaml_with_extends (suc n) seen path =
      if visited seen path
      then circular_extends
      else opened (λ parent. load_yaml_with_extends n (path ∷ seen) (resolve path parent))
          (get files path)
