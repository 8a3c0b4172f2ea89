-- ===== src/Examples/Lua.antt =====
-- The script's view and its actions at concrete values.
use argus_manager.Prelude.{◌≡◌, ◌+◌, inr, true, [], ◌∷◌, length, arith}
use argus_manager.Float.{nat}
use argus_manager.Float.Fixed.{Fixed, nan, fixed_float}
use argus_manager.Contract.{Phase, EngineState, EngineStatus}
use argus_manager.Lua.Actions.{Value, table, parse_actions}
use argus_manager.Lua.Actions.Valid.{entries, parse_actions_counts}
use argus_manager.Examples.Vm.{Table, compress, every, on, blank, tables}

abbrev status : EngineStatus Fixed
status = record {
  kv_cache_bytes = 600;
  kv_cache_budget_bytes = 0;
  kv_cache_tokens = 20;
  tbt_ms = nat 30;
  phase = Phase.decode;
  state = EngineState.running;
}

-- Two of the five actions are good.
abbrev answer : Value Table Fixed
answer = table (inr (compress (nat 2) ∷ every 4 ∷ compress nan ∷ on true ∷ blank ∷ []))

parse_actions_counts_example :
    length (parse_actions tables 64 answer 7).0 + (parse_actions tables 64 answer 7).1
    ≡ entries tables 64 answer + 7
parse_actions_counts_example = parse_actions_counts tables 64 answer 7 (omega arith)
