-- ===== src/Examples/Vm.antt =====
-- A small Lua VM: its script asks for half of the cache budget, and fails while memory is short.
use Prim.Native.String.{String}
use text.Mathlib.Text.{◌==◌}
use argus_manager.Prelude.{
  ℕ, ◌+◌, Bool, true, false, Option, none, some, List, [], map, ◌⊎◌, inl, inr, if◌then◌else◌,
}
use argus_manager.Prelude.Int.{pos}
use argus_manager.Float.Fixed.{Fixed, fixed_float}
use argus_manager.Float.{nat}
use argus_manager.Lua.Actions.{Value, table, boolean, integer, LuaTable}
use argus_manager.LuaPolicy.{LuaVm}

pub data Entry : Type 0 where
  compress : Fixed → Entry
  every : ℕ → Entry
  on : Bool → Entry
  blank : Entry

-- One action, or a sequence.
abbrev pub Table : Type 0
Table = Entry ⊎ List Entry

abbrev type_of : Table → Option String
type_of (inl (compress b)) = some "kv.compress"
type_of (inl (every n)) = some "gpu.yield"
type_of (inl (on b)) = some "gpu.offload"
type_of _ = none

abbrev members : Table → List (Option Table)
members (inl e) = []
members (inr es) = map (λ e. some (inl e)) es

abbrev budget_of : Table → Option Fixed
budget_of (inl (compress b)) = some b
budget_of _ = none

abbrev value_of : Table → Option (Value Table Fixed)
value_of (inl (every n)) = some (integer (pos n))
value_of (inl (on b)) = some (boolean b)
value_of _ = none

abbrev has_type : Table → Bool
has_type (inl e) = true
has_type (inr es) = false

abbrev pub tables : LuaTable Table Fixed Fixed
tables = record {
  contains_key = λ t k. some (has_type t);
  sequence_tables = members;
  get_string = λ t k. type_of t;
  get_f32 = λ t k. budget_of t;
  get_value = λ t k. value_of t;
}

-- The VM is the number of calls so far.
abbrev pub toy : LuaVm ℕ Table Fixed Fixed
toy = record {
  fresh = some 0;
  read_file = λ path. if path == "missing" then none else some path;
  exec = λ lua text. some lua;
  has_decide = λ lua. true;
  meta = λ lua. none;
  call = λ lua ctx.
      (lua + 1, if ctx.trigger.mem_low then none else some (table (inl (compress (nat 1)))));
  tables = tables;
}
