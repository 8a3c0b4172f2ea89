-- ===== src/Lua/Actions/Valid.antt =====
-- What every answer of a script becomes, whatever the script and the Lua library do.
use Prim.Native.String.{String}
use argus_manager.Prelude.{
  ℕ, ◌+◌, ◌%◌, ◌^◌, ◌≤◌, ◌<◌, ◌≡◌, refl, inl, inr, true, Option, none, some, List, [], ◌∷◌, All,
  length, arith, if◌then◌else◌, Bool-cases,
}
use argus_manager.Float.{Float, fle, flt, nat}
use argus_manager.Contract.{
  EngineCommand, kv_compress, restore_defaults, suspend, resume, gpu_yield, gpu_offload,
}
use argus_manager.Lua.Actions.{
  Value, nil, table, boolean, LuaTable, Parsed, ok, err, or_false, parse_budget, every_of,
  parse_every, parse_yield, parse_on, parse_typed, parse_single_action, collect, parse_sequence,
  parse_actions,
}

-- A budget is finite, above 0 and at most 1; a yield interval is within the contract's limit.
abbrev pub IsValid : {S : Type 0} ⦃g : Float S⦄ → ℕ → EngineCommand S → Type 0
IsValid ⦃g⦄ yield_max (kv_compress b) =
    (g.is_finite b ≡ true) × (flt (nat 0) b ≡ true) × (fle b (nat 1) ≡ true)
IsValid yield_max (gpu_yield every) = every ≤ yield_max
IsValid yield_max restore_defaults = Unit {0}
IsValid yield_max suspend = Unit {0}
IsValid yield_max resume = Unit {0}
IsValid yield_max (gpu_offload on) = Unit {0}

abbrev IsValidParse : {S : Type 0} ⦃g : Float S⦄ → ℕ → Parsed S → Type 0
IsValidParse yield_max (ok c) = IsValid yield_max c
IsValidParse yield_max (err e) = Unit {0}

module _ {S : Type 0} ⦃g : Float S⦄ (yield_max : ℕ) where
  collect-All :
      (p : Parsed S) (rest : List (EngineCommand S) × ℕ)
      → IsValidParse yield_max p
      → All (IsValid yield_max) rest.0
      → All (IsValid yield_max) (collect p rest).0
  collect-All (ok c) rest v vs = (v, vs)
  collect-All (err e) rest v vs = vs

module _ {T W S : Type 0} ⦃f : Float W⦄ ⦃g : Float S⦄ (api : LuaTable T W S) (yield_max : ℕ) where
  parse_budget-IsValid : (o : Option S) → IsValidParse yield_max (parse_budget api yield_max o)
  parse_budget-IsValid none = tt
  parse_budget-IsValid (some b) = ground arith

  parse_every-IsValid : (o : Option ℕ) → IsValidParse yield_max (parse_every api yield_max o)
  parse_every-IsValid none = tt
  parse_every-IsValid (some n) = ground arith

  parse_yield-IsValid :
      (o : Option (Value T W)) → IsValidParse yield_max (parse_yield api yield_max o)
  parse_yield-IsValid none = tt
  parse_yield-IsValid (some v) = parse_every-IsValid (every_of api yield_max v)

  parse_on-IsValid : (o : Option (Value T W)) → IsValidParse yield_max (parse_on api yield_max o)
  parse_on-IsValid none = tt
  parse_on-IsValid (some (boolean on)) = tt
  parse_on-IsValid (some _) = tt

  parse_typed-IsValid :
      (t : T) (o : Option String) → IsValidParse yield_max (parse_typed api yield_max t o)
  parse_typed-IsValid t none = tt
  parse_typed-IsValid t (some name) = ground (
    arith,
    parse_budget-IsValid (api.get_f32 t "budget"),
    parse_yield-IsValid (api.get_value t "every"),
    parse_on-IsValid (api.get_value t "on"),
  )

  parse_single_action-IsValid :
      (t : T) → IsValidParse yield_max (parse_single_action api yield_max t)
  unfolding parse_single_action
  parse_single_action-IsValid t = parse_typed-IsValid t (api.get_string t "type")

  parse_sequence-All :
      (es : List (Option T)) (d : ℕ) → All (IsValid yield_max) (parse_sequence api yield_max es d).0
  unfolding parse_sequence
  parse_sequence-All [] d = tt
  parse_sequence-All (none ∷ es) d = parse_sequence-All es _
  parse_sequence-All (some t ∷ es) d =
      collect-All yield_max (parse_single_action api yield_max t) _ (parse_single_action-IsValid t)
        (parse_sequence-All es _)

  -- Whatever a script returns, each command that comes of it has a finite budget above 0 and at
  -- most 1, or a yield interval within the contract's limit, or no payload that could be wrong.
  pub parse_actions-All :
      (v : Value T W) (d : ℕ) → All (IsValid yield_max) (parse_actions api yield_max v d).0
  unfolding parse_actions
  parse_actions-All nil d = tt
  parse_actions-All (table t) d = elim (Bool-cases (or_false (api.contains_key t "type"))) [
    | inl one ↦ rw one (
        collect-All yield_max (parse_single_action api yield_max t) _
          (parse_single_action-IsValid t) tt)
    | inr many ↦ rw many (parse_sequence-All (api.sequence_tables t) d)
  ]
  parse_actions-All _ d = tt

  -- How many actions a script's answer holds: a table with a `type` is one, any other table is a
  -- sequence of them, and an answer that is neither nil nor a table counts as one.
  abbrev pub entries : Value T W → ℕ
  entries nil = 0
  entries (table t) =
      if or_false (api.contains_key t "type") then 1 else length (api.sequence_tables t)
  entries _ = 1

  parse_sequence_counts :
      (es : List (Option T)) (d : ℕ)
      → d + length es < 2 ^ 64
      → let (cs, d') = parse_sequence api yield_max es d in length cs + d' ≡ length es + d
  unfolding parse_sequence
  parse_sequence_counts [] d h = refl
  parse_sequence_counts (e ∷ es) d h = ground (
    arith,
    parse_sequence_counts es d (omega arith),
    parse_sequence_counts es ((d + 1) % 2 ^ 64) (omega arith),
  )

  -- No action is lost without a count: the commands and the newly dropped actions together are the
  -- actions of the answer, while the counter stays below 2^64.
  pub parse_actions_counts :
      (v : Value T W) (d : ℕ)
      → d + entries v < 2 ^ 64
      → let (cs, d') = parse_actions api yield_max v d in length cs + d' ≡ entries v + d
  unfolding parse_actions
  parse_actions_counts nil d h = refl
  parse_actions_counts (table t) d h = elim (Bool-cases (or_false (api.contains_key t "type"))) [
    | inl one ↦ rw one (ground arith)
    | inr many ↦ rw many (parse_sequence_counts (api.sequence_tables t) d (rw many at h))
  ]
  parse_actions_counts _ d h = omega arith
