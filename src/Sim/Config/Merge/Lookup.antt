-- ===== src/Sim/Config/Merge/Lookup.antt =====
-- What a merged scenario of src/sim/config.rs holds at a path of keys.
use Prim.Native.String.{String}
use text.Mathlib.Text.{◌==◌ as str_eq}
use text.Mathlib.TextEquality.{eq_iff}
use argus_manager.Prelude.{
  ◌≡◌, refl, ap, subst, ◌∙◌, inl, inr, true, false, Option, none, some, List, [], ◌∷◌, arith,
  if◌then◌else◌, Bool-cases,
}
use mathlib.Core.Option.{some-injective}
use argus_manager.Sim.Config.Merge.{
  Value, mapping, leaf, Entries, empty, entry, upsert, merge, merge_entries, deep_merge,
}

module _ {A : Type 0} where
  abbrev pub find : Entries A → String → Option (Value A)
  find empty key = none
  find (entry k v rest) key = if str_eq k key then some v else find rest key

-- What a value is: a mapping, or another value.
pub data Kind (A : Type 0) : Type 0 where
  a_mapping : Kind A
  a_leaf : A → Kind A

-- What a value says about a path of keys: nothing, since a key is missing; that there can be
-- nothing, since a value that is no mapping stands on the way; or what stands there.
pub data Said (A : Type 0) : Type 0 where
  silent covered : Said A
  says : Kind A → Said A

module _ {A : Type 0} where
  abbrev pub said : Option (Value A) → List String → Said A
  said none path = silent
  said (some (leaf a)) [] = says (a_leaf a)
  said (some (leaf a)) (k ∷ ks) = covered
  said (some (mapping m)) [] = says a_mapping
  said (some (mapping m)) (k ∷ ks) = said (find m k) ks

  -- What one layer says, over what stands there below it.
  abbrev pub over : Said A → Option (Kind A) → Option (Kind A)
  over silent base = base
  over covered base = none
  over (says kind) base = some kind

  -- What stands at a path of keys.
  abbrev pub stands : Option (Value A) → List String → Option (Kind A)
  stands v path = over (said v path) none

-- Every mapping has each key once, at every depth.
unfoldable mutual
  pub IsUnique : {A : Type 0} → Value A → Type 0
  IsUnique (leaf a) = Unit {0}
  IsUnique (mapping m) = AreUnique m

  pub AreUnique : {A : Type 0} → Entries A → Type 0
  AreUnique empty = Unit {0}
  AreUnique (entry k v rest) = (find rest k ≡ none) × IsUnique v × AreUnique rest

module _ {A : Type 0} where
  abbrev changed : (Value A → Value A) → Value A → Option (Value A) → Value A
  changed change v none = v
  changed change v (some old) = change old

  find-upsert :
      (m : Entries A) (key : String) (change : Value A → Value A) (v : Value A)
      → find (upsert m key change v) key ≡ some (changed change v (find m key))
  find-upsert empty key change v = ground (arith, eq_iff key key)
  find-upsert (entry k old rest) key change v = elim (Bool-cases (str_eq k key)) [
    | inl same ↦ rw same (rw same refl)
    | inr other ↦ rw other (rw other (find-upsert rest key change v))
  ]

  find-upsert-other :
      (m : Entries A) (key other : String) (change : Value A → Value A) (v : Value A)
      → str_eq key other ≡ false
      → find (upsert m key change v) other ≡ find m other
  find-upsert-other empty key other change v h = rw h refl
  find-upsert-other (entry k old rest) key other change v h = elim (Bool-cases (str_eq k key)) [
    | inl same ↦
        let e : str_eq k other ≡ false = ground (arith, same, h, eq_iff k key) in
        rw same (rw e refl)
    | inr differs ↦ rw differs (elim (Bool-cases (str_eq k other)) [
      | inl e ↦ rw e refl
      | inr e ↦ rw e (find-upsert-other rest key other change v h)
    ])
  ]

  -- The entry of a merged mapping.
  abbrev pub combined : Option (Value A) → Option (Value A) → Option (Value A)
  combined none base = base
  combined (some v) none = some v
  combined (some v) (some base) = some (merge v base)

  combined-changed :
      (v : Value A) (base : Option (Value A))
      → some (changed (merge v) v base) ≡ combined (some v) base
  combined-changed v none = refl
  combined-changed v (some b) = refl

  pub find-merge_entries :
      (o b : Entries A) (key : String)
      → AreUnique o
      → find (merge_entries o b) key ≡ combined (find o key) (find b key)
  unfolding merge_entries AreUnique
  find-merge_entries empty b key u = refl
  find-merge_entries (entry k v rest) b key (fresh, one, u) =
      find-merge_entries rest (upsert b k (merge v) v) key u ∙ elim (Bool-cases (str_eq k key)) [
        | inl same ↦
            let e : k ≡ key = ground (arith, same, eq_iff k key) in
            let found : str_eq k k ≡ true = ground (arith, eq_iff k k) in
            rw (← e)
              (rw (fresh, find-upsert b k (merge v) v, found) (combined-changed v (find b k)))
        | inr other ↦ rw (other, find-upsert-other b k key (merge v) v other) refl
      ]

  find-IsUnique :
      (m : Entries A) (key : String) (v : Value A) → AreUnique m → find m key ≡ some v → IsUnique v
  unfolding AreUnique
  find-IsUnique empty key v u h = cc
  find-IsUnique (entry k w rest) key v (fresh, one, u) h = elim (Bool-cases (str_eq k key)) [
    | inl same ↦
        let e : some w ≡ some v =
          subst (λ t. (if t then some w else find rest key) ≡ some v) same h in
        subst IsUnique (some-injective w v e) one
    | inr other ↦
        find-IsUnique rest key v u
          (subst (λ t. (if t then some w else find rest key) ≡ some v) other h)
  ]

  below :
      (o b : Option (Value A)) (path : List String)
      → ((v base : Value A)
          → o ≡ some v
          → stands (some (merge v base)) path ≡ over (said (some v) path) (stands (some base) path))
      → stands (combined o b) path ≡ over (said o path) (stands b path)
  below none b path merged = refl
  below (some v) none path merged = refl
  below (some v) (some base) path merged = merged v base refl

  -- What the merged scenario has at a path of keys, whatever the path and the parent: what stands
  -- there in the child, a mapping or another value; nothing, where the child has a value that is no
  -- mapping on the way; and what the parent has there, where a key of the path is missing in the
  -- child. The mappings of the child have each key once.
  pub stands-deep_merge :
      (path : List String) (o b : Value A)
      → IsUnique o
      → stands (some (deep_merge b o)) path ≡ over (said (some o) path) (stands (some b) path)
  unfolding merge deep_merge IsUnique
  stands-deep_merge [] (leaf x) b u = refl
  stands-deep_merge (k ∷ path) (leaf x) b u = refl
  stands-deep_merge [] (mapping o) (leaf x) u = refl
  stands-deep_merge (k ∷ path) (mapping o) (leaf x) u = refl
  stands-deep_merge [] (mapping o) (mapping b) u = refl
  stands-deep_merge (k ∷ path) (mapping o) (mapping b) u =
      ap (λ v. stands v path) (find-merge_entries o b k u)
      ∙ below (find o k) (find b k) path
          (λ v base e. stands-deep_merge path v base (find-IsUnique o k v u e))
