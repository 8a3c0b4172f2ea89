-- ===== src/Mock/Engine.antt =====
-- src/bin/mock_engine.rs: an engine without a model, which takes directives and answers each.
-- `S` is `f32`; `encode` and `decode` are the JSON of the messages.
pub mod Occupancy
use Prim.Native.String.{String}
use argus_manager.Prelude.{
  ℕ, ◌+◌, ◌%◌, ◌^◌, Bool, true, false, Option, none, some, List, [], ◌∷◌, ◌++◌, if◌then◌else◌,
}
use argus_manager.Float.{Float, flt, clamp}
use argus_manager.Contract.{
  EngineCommand, kv_compress, restore_defaults, suspend, resume, gpu_yield, gpu_offload,
  EngineDirective, EngineState, CommandResult, ok, partial, CommandResponse, EngineStatus, Phase,
  EngineMessage, heartbeat, response, ManagerMessage, directive,
}
use argus_manager.Channel.Frame.{frame}
use argus_manager.Mock.Wire.{Received, idle, message, broken, Arrival, recv_message}

-- The source's `EngineState_`.
pub record MockState (S : Type 0) : Type 0 where
  pub kv_occupancy : S
  pub active_device : String
  pub throttle_delay_ms : ℕ
  pub eviction_policy : String
  pub skip_ratio : S
  pub state : EngineState
  pub tokens_generated : ℕ
  pub active_actions : List String

module _ {S : Type 0} ⦃f : Float S⦄ where
  abbrev pub min_compression : S
  min_compression = f.lit 3 100

  unfoldable pub new : S → String → MockState S
  new kv_occupancy device = record {
    kv_occupancy = kv_occupancy;
    active_device = device;
    throttle_delay_ms = 0;
    eviction_policy = "none";
    skip_ratio = f.lit 0 1;
    state = EngineState.running;
    tokens_generated = 0;
    active_actions = [];
  }

  abbrev pub compression_target : S → S → S
  compression_target before budget = clamp (f.mul before budget) (f.lit 1 100) (f.lit 1 1)

  abbrev pub compress : MockState S → S → MockState S × CommandResult S
  compress e target =
      if flt (f.sub e.kv_occupancy target) min_compression
      then (e, partial (f.lit 1 1) "compression declined: too little would be reclaimed")
      else (record e { kv_occupancy = target }, ok)

  unfoldable pub apply : MockState S → EngineCommand S → MockState S × CommandResult S
  apply e (kv_compress budget) = compress e (compression_target e.kv_occupancy budget)
  apply e restore_defaults =
      (record e { active_actions = []; skip_ratio = f.lit 0 1; state = EngineState.running }, ok)
  apply e suspend = (record e { state = EngineState.suspended }, ok)
  apply e resume = (record e { state = EngineState.running }, ok)
  apply e (gpu_yield every) = (e, ok)
  apply e (gpu_offload on) = (e, ok)

  unfoldable pub status : MockState S → EngineStatus S
  status e = record {
    kv_cache_bytes = 1024;
    kv_cache_budget_bytes = 4096;
    kv_cache_tokens = 32;
    tbt_ms = f.lit 25 2;
    phase = Phase.decode;
    state = EngineState.running;
  }

  -- The loop that collects the results.
  unfoldable pub apply_all :
      MockState S → List (EngineCommand S) → MockState S × List (CommandResult S)
  apply_all e [] = (e, [])
  apply_all e (c ∷ cs) = let (e1, r) = apply e c in let (e2, rs) = apply_all e1 cs in (e2, r ∷ rs)

-- `run_protocol` between two turns: the engine, the `u32` count of directives, what has arrived,
-- and what has been written.
pub record Protocol (S : Type 0) : Type 0 where
  pub engine : MockState S
  pub directives_received : ℕ
  pub buffer : List ℕ
  pub written : List ℕ

-- What one turn of the loop meets: whether the heartbeat is due, whether writing it succeeds, the
-- bytes that arrive, and whether writing a response succeeds.
pub record EngineTurn : Type 0 where
  pub due : Bool
  pub heartbeat_ok : Bool
  pub arrival : Arrival
  pub response_ok : Bool

module _ {S : Type 0} ⦃f : Float S⦄ (encode : EngineMessage S → List ℕ)
    (decode : List ℕ → Option (ManagerMessage S)) where
  abbrev pub answer : EngineDirective S → List (CommandResult S) → EngineMessage S
  answer d results = response record { seq_id = d.seq_id; results = results }

  -- A response that cannot be written is logged.
  unfoldable pub handle_directive : Protocol S → EngineDirective S → Bool → Protocol S
  handle_directive p d response_ok =
      let (engine, results) = apply_all p.engine d.commands in
      record p {
        engine = engine;
        directives_received = (p.directives_received + 1) % 2 ^ 32;
        written = if response_ok then p.written ++ frame (encode (answer d results)) else p.written;
      }

  abbrev beat : Protocol S → Protocol S
  beat p =
      let engine = record p.engine {
        tokens_generated = (p.engine.tokens_generated + 1) % 2 ^ 64;
      } in
      record p {
        engine = engine;
        written = p.written ++ frame (encode (heartbeat (status engine)));
      }

  abbrev handled : Protocol S → Bool → Received (ManagerMessage S) → Option (Protocol S)
  handled p response_ok (message (directive d) rest) =
      some (handle_directive (record p { buffer = rest }) d response_ok)
  handled p response_ok idle = some record p { buffer = [] }
  handled p response_ok (broken rest) = none

  abbrev received : Protocol S → EngineTurn → Option (Protocol S)
  received p t =
      handled p t.response_ok (recv_message decode t.arrival.closed (p.buffer ++ t.arrival.bytes))

  -- One turn of the loop; none if it breaks the loop.
  unfoldable pub turn : Protocol S → EngineTurn → Option (Protocol S)
  turn p t = if t.due then if t.heartbeat_ok then received (beat p) t else none else received p t
