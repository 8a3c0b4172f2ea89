-- ===== src/Lua/Actions.antt =====
-- `parse_actions` and `parse_single_action` of src/lua_policy.rs. A Lua table belongs to the Lua
-- library, so it is a parameter, with the four ways in which the code reads it; a read that the
-- library refuses is `none`. `W` is `f64`, `S` is `f32`.
pub mod Valid
use Prim.Native.String.{String}
use text.Mathlib.Text.{◌==◌ as str_eq}
use argus_manager.Prelude.{
  ℕ, ◌+◌, ◌-◌, ◌%◌, ◌^◌, Bool, true, false, ◌&&◌, Option, none, some, List, [], ◌∷◌, ltb, leb,
  if◌then◌else◌,
}
use argus_manager.Prelude.Int.{ℤ, pos, negsuc}
use argus_manager.Float.{Float, fle, flt, feq, nat}
use argus_manager.Contract.{
  EngineCommand, kv_compress, restore_defaults, suspend, resume, gpu_yield, gpu_offload,
}

-- The cases that the code tells apart.
pub data Value (T W : Type 0) : Type 0 where
  nil : Value T W
  table : T → Value T W
  boolean : Bool → Value T W
  integer : ℤ → Value T W
  number : W → Value T W
  other : Value T W

pub record LuaTable (T W S : Type 0) : Type 0 where
  pub contains_key : T → String → Option Bool
  pub sequence_tables : T → List (Option T)
  pub get_string : T → String → Option String
  pub get_f32 : T → String → Option S
  pub get_value : T → String → Option (Value T W)

pub data ActionError : Type 0 where
  lua_error bad_budget bad_every bad_on unknown_type : ActionError

pub data Parsed (S : Type 0) : Type 0 where
  ok : EngineCommand S → Parsed S
  err : ActionError → Parsed S

abbrev u32_of_integer : ℤ → Option ℕ
u32_of_integer (pos i) = if ltb i (2 ^ 32) then some i else none
u32_of_integer (negsuc i) = none

module _ {S : Type 0} where
  -- The loop over the sequence: a command is collected, an error is counted in a `u64`.
  abbrev pub collect : Parsed S → List (EngineCommand S) × ℕ → List (EngineCommand S) × ℕ
  collect (ok c) (cs, dropped) = (c ∷ cs, dropped)
  collect (err e) (cs, dropped) = (cs, dropped)

  abbrev pub count_drop : Parsed S → ℕ → ℕ
  count_drop (ok c) dropped = dropped
  count_drop (err e) dropped = (dropped + 1) % 2 ^ 64

-- `unwrap_or(false)`
abbrev pub or_false : Option Bool → Bool
or_false none = false
or_false (some b) = b

module _ {T W S : Type 0} ⦃f : Float W⦄ ⦃g : Float S⦄ (api : LuaTable T W S) (yield_max : ℕ) where
  abbrev parse_budget : Option S → Parsed S
  parse_budget none = err lua_error
  parse_budget (some budget) =
      if g.is_finite budget && flt (nat 0) budget && fle budget (nat 1)
      then ok (kv_compress budget)
      else err bad_budget

  -- The `match` on `every`, before the filter.
  abbrev every_of : Value T W → Option ℕ
  every_of (integer i) = u32_of_integer i
  every_of (number n) =
      if feq (f.fract n) (nat 0) && fle (nat 0) n && fle n (f.of_nat (2 ^ 32 - 1))
      then some (f.to_u64 n % 2 ^ 32)
      else none
  every_of _ = none

  abbrev parse_every : Option ℕ → Parsed S
  parse_every none = err bad_every
  parse_every (some every) = if leb every yield_max then ok (gpu_yield every) else err bad_every

  abbrev parse_yield : Option (Value T W) → Parsed S
  parse_yield none = err lua_error
  parse_yield (some v) = parse_every (every_of v)

  abbrev parse_on : Option (Value T W) → Parsed S
  parse_on none = err lua_error
  parse_on (some (boolean on)) = ok (gpu_offload on)
  parse_on (some _) = err bad_on

  abbrev parse_typed : T → Option String → Parsed S
  parse_typed entry none = err lua_error
  parse_typed entry (some action_type) =
      if str_eq action_type "kv.compress"
      then parse_budget (api.get_f32 entry "budget")
      else if str_eq action_type "restore_defaults"
      then ok restore_defaults
      else if str_eq action_type "suspend"
      then ok suspend
      else if str_eq action_type "resume"
      then ok resume
      else if str_eq action_type "gpu.yield"
      then parse_yield (api.get_value entry "every")
      else if str_eq action_type "gpu.offload"
      then parse_on (api.get_value entry "on")
      else err unknown_type

  unfoldable pub parse_single_action : T → Parsed S
  parse_single_action entry = parse_typed entry (api.get_string entry "type")

  abbrev parse_entry : Option T → Parsed S
  parse_entry none = err lua_error
  parse_entry (some t) = parse_single_action t

  unfoldable pub parse_sequence : List (Option T) → ℕ → List (EngineCommand S) × ℕ
  parse_sequence [] dropped = ([], dropped)
  parse_sequence (entry ∷ entries) dropped =
      let p = parse_entry entry in collect p (parse_sequence entries (count_drop p dropped))

  -- The commands, and the count of dropped actions after them.
  unfoldable pub parse_actions : Value T W → ℕ → List (EngineCommand S) × ℕ
  unfolding parse_sequence
  parse_actions nil dropped = ([], dropped)
  parse_actions (table t) dropped =
      if or_false (api.contains_key t "type")
      then collect (parse_single_action t) ([], count_drop (parse_single_action t) dropped)
      else parse_sequence (api.sequence_tables t) dropped
  parse_actions _ dropped = ([], (dropped + 1) % 2 ^ 64)
