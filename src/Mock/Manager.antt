-- ===== src/Mock/Manager.antt =====
-- src/bin/mock_manager.rs over a socket: it sends directives and checks the answers. `S` is `f32`;
-- `encode` and `decode` are the JSON of the messages. A wait until a deadline is the list of what
-- arrives from one read to the next before it.
pub mod Scenario
use Prim.Native.String.{String}
use text.Mathlib.Text.{◌==◌ as str_eq}
use argus_manager.Prelude.{
  ℕ, ◌+◌, Bool, true, false, ◌&&◌, Option, none, some, List, [], ◌∷◌, ◌++◌, ◌==◌, length,
  if◌then◌else◌,
}
use argus_manager.Contract.{
  EngineCommand, kv_compress, restore_defaults, suspend, resume, gpu_yield, gpu_offload,
  CommandResponse, EngineMessage, heartbeat, response, ManagerMessage, directive, EngineDirective,
}
use argus_manager.Channel.Frame.{frame}
use argus_manager.Mock.Wire.{Received, idle, message, broken, Arrival, recv_message}

pub record CommandParams (S : Type 0) : Type 0 where
  pub name : String
  pub keep_ratio : Option S
  pub every : Option ℕ
  pub on : Option Bool

pub data Selected (T M : Type 0) : Type 0 where
  chosen : T → Selected T M  -- `Match`
  skip : M → Selected T M

-- The source's `Result<Option<T>>`, with what is left of the stream.
pub data Outcome (T : Type 0) : Type 0 where
  found : T → (rest : List ℕ) → Outcome T
  timed_out : (rest : List ℕ) → Outcome T
  failed : Outcome T

module _ {S : Type 0} where
  unfoldable pub build_command : CommandParams S → Option (EngineCommand S)
  build_command p =
      if str_eq p.name "KvCompress"
      then elim p.keep_ratio [ none ↦ none | some budget ↦ some (kv_compress budget) ]
      else if str_eq p.name "RestoreDefaults"
      then some restore_defaults
      else if str_eq p.name "Suspend"
      then some suspend
      else if str_eq p.name "Resume"
      then some resume
      else if str_eq p.name "GpuYield"
      then elim p.every [ none ↦ none | some every ↦ some (gpu_yield every) ]
      else if str_eq p.name "GpuOffload"
      then elim p.on [ none ↦ none | some on ↦ some (gpu_offload on) ]
      else none

  unfoldable pub validate_response : ℕ → CommandResponse S → ℕ → Bool
  validate_response seq_id r num_commands =
      (r.seq_id == seq_id) && (length r.results == num_commands)

module _ {T M : Type 0} (decode : List ℕ → Option M) (select : M → Selected T M) where
  abbrev pub selected : (List ℕ → Outcome T) → List ℕ → Selected T M → Outcome T
  selected next rest (chosen value) = found value rest
  selected next rest (skip skipped) = next rest

  abbrev pub after_read : (List ℕ → Outcome T) → Received M → Outcome T
  after_read next idle = next []
  after_read next (broken rest) = failed
  after_read next (message m rest) = selected next rest (select m)

  -- The source's closure may keep a state; those it is given here keep none.
  unfoldable pub recv_until : List ℕ → List Arrival → Outcome T
  recv_until stream [] = timed_out stream
  recv_until stream (a ∷ later) =
      after_read (λ rest. recv_until rest later) (recv_message decode a.closed (stream ++ a.bytes))

module _ {S : Type 0} where
  abbrev pub select_response : EngineMessage S → Selected (CommandResponse S) (EngineMessage S)
  select_response (response r) = chosen r
  select_response (heartbeat s) = skip (heartbeat s)

  abbrev pub recv_response_skip_heartbeats :
      (List ℕ → Option (EngineMessage S)) → List ℕ → List Arrival → Outcome (CommandResponse S)
  recv_response_skip_heartbeats decode = recv_until decode select_response
