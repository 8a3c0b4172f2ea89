-- ===== src/Contract.antt =====
-- The messages that the manager and the engine exchange. The crate that declares them lies outside
-- the repository: constructors and fields are those that the exhaustive matches and the struct
-- literals of src/bin/mock_engine.rs, src/lua_policy.rs, src/lua/context.rs and src/sim/signal.rs
-- show. `S` is `f32`.
use Prim.Native.String.{String}
use argus_manager.Prelude.{ℕ, Bool, true, false, ◌&&◌, List, [], ◌∷◌, ◌==◌}
use argus_manager.Float.{Float, feq}

pub data EngineCommand (S : Type 0) : Type 0 where
  kv_compress : (budget : S) → EngineCommand S
  restore_defaults suspend resume : EngineCommand S
  gpu_yield : (every : ℕ) → EngineCommand S
  gpu_offload : (on : Bool) → EngineCommand S

pub record EngineDirective (S : Type 0) : Type 0 where
  pub seq_id : ℕ
  pub commands : List (EngineCommand S)

pub data Phase : Type 0 where
  idle prefill decode : Phase

pub data EngineState : Type 0 where
  idle running suspended : EngineState

pub record EngineStatus (S : Type 0) : Type 0 where
  pub kv_cache_bytes : ℕ
  pub kv_cache_budget_bytes : ℕ
  pub kv_cache_tokens : ℕ
  pub tbt_ms : S
  pub phase : Phase
  pub state : EngineState

pub data CommandResult (S : Type 0) : Type 0 where
  ok : CommandResult S
  partial : (achieved : S) (reason : String) → CommandResult S
  rejected : (reason : String) → CommandResult S

pub record CommandResponse (S : Type 0) : Type 0 where
  pub seq_id : ℕ
  pub results : List (CommandResult S)

pub data EngineMessage (S : Type 0) : Type 0 where
  heartbeat : EngineStatus S → EngineMessage S
  response : CommandResponse S → EngineMessage S

pub data ManagerMessage (S : Type 0) : Type 0 where
  directive : EngineDirective S → ManagerMessage S

abbrev pub bool_eq : Bool → Bool → Bool
bool_eq true true = true
bool_eq false false = true
bool_eq _ _ = false

-- The derived `==`: a budget is compared as a float, so a NaN budget is not equal to itself.
module _ {S : Type 0} ⦃f : Float S⦄ where
  abbrev pub command_eq : EngineCommand S → EngineCommand S → Bool
  command_eq (kv_compress a) (kv_compress b) = feq a b
  command_eq restore_defaults restore_defaults = true
  command_eq suspend suspend = true
  command_eq resume resume = true
  command_eq (gpu_yield a) (gpu_yield b) = a == b
  command_eq (gpu_offload a) (gpu_offload b) = bool_eq a b
  command_eq _ _ = false

  unfoldable pub commands_eq : List (EngineCommand S) → List (EngineCommand S) → Bool
  commands_eq [] [] = true
  commands_eq (x ∷ xs) (y ∷ ys) = command_eq x y && commands_eq xs ys
  commands_eq _ _ = false
