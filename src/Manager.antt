-- ===== src/Manager.antt =====
-- The main loop of src/main.rs over a socket transport: the policy, the counter of sequence
-- numbers, the deduplicator and the channel, and one turn of the loop. What the turn meets is an
-- argument: a SIGHUP, what the reader thread does before each call of `try_recv_engine_message`, a
-- monitor's signal or a timeout, the time, and what the operating system answers to the emission.
-- What the reader does after the last such call of a turn, it does before the first of the next
-- turn. `W` is `f64`, `S` is `f32`.
pub mod Directives
pub mod Monitors
pub mod Receipt
pub mod Startup
use Prim.Native.String.{String}
use argus_manager.Prelude.{
  ℕ, zero, suc, Bool, true, false, Option, none, some, List, [], ◌∷◌, length, if◌then◌else◌,
}
use argus_manager.Float.{Float, Casts}
use argus_manager.Signal.{SystemSignal}
use argus_manager.Contract.{
  EngineCommand, EngineDirective, EngineMessage, ManagerMessage, directive,
}
use argus_manager.Pipeline.{DirectiveDeduplicator, process}
use argus_manager.Channel.{
  ConnectionState, listening, connected, disconnected, Accept, emit_directive, try_recv, deliver,
  end_reader,
}
use argus_manager.Channel.Inbox.{drain, continued}
use argus_manager.LuaPolicy.{LuaVm, LuaPolicy, process_signal, update_engine_state, reload_script}

pub record Manager (V W S : Type 0) : Type 0 where
  pub policy : LuaPolicy V W S
  pub counter : ℕ
  pub dedup : DirectiveDeduplicator W S
  pub transport : ConnectionState (EngineMessage S)

-- The reader thread delivers a message of the engine, or ends.
pub data ReaderStep (M : Type 0) : Type 0 where
  message : M → ReaderStep M
  reader_end : ReaderStep M

-- `arrivals` has what the reader does before the first call of `try_recv_engine_message`, before the
-- second, and so on; before the calls beyond these it does nothing.
pub record Turn (W S : Type 0) : Type 0 where
  pub sighup : Bool
  pub arrivals : List (List (ReaderStep (EngineMessage S)))
  pub signal : Option (SystemSignal W)
  pub now : W
  pub accept : Accept
  pub write_ok : Bool

abbrev pub pending : {M : Type 0} → ConnectionState M → ℕ
pending (connected l) = length l.inbox
pending _ = 0

module _ {M : Type 0} where
  unfoldable pub arrive : ConnectionState M → List (ReaderStep M) → ConnectionState M
  arrive s [] = s
  arrive s (message m ∷ later) = arrive (deliver s m) later
  arrive s (reader_end ∷ later) = arrive (end_reader s) later

  -- `while let Some(msg) = transport.try_recv_engine_message()`, with what arrives meanwhile: the
  -- channel, and the messages received.
  unfoldable pub receive_all :
      List (List (ReaderStep M)) → ConnectionState M → ConnectionState M × List M
  receive_all [] s = drain (suc (pending s)) s
  receive_all (now ∷ rest) s = continued (receive_all rest) (try_recv (arrive s now))

module _ {V T W S : Type 0} ⦃f : Float W⦄ ⦃g : Float S⦄ ⦃c : Casts W S⦄ (vm : LuaVm V T W S)
    (yield_max : ℕ) (encode : ManagerMessage S → List ℕ) where
  abbrev update_all : LuaPolicy V W S → List (EngineMessage S) → LuaPolicy V W S
  update_all p [] = p
  update_all p (m ∷ ms) = update_all (update_engine_state vm yield_max p m) ms

  -- The part of a turn before `recv_timeout`: the reload and the engine's messages.
  unfoldable pub prepare : Manager V W S → Turn W S → Manager V W S
  prepare m t =
      let p = m.policy in
      let q = if t.sighup then (reload_script vm yield_max p p.script_path).0 else p in
      let (transport, messages) = receive_all t.arrivals m.transport in
      record m { policy = update_all q messages; transport = transport }

  abbrev pub emitted :
      Manager V W S
      → Turn W S
      → Option (EngineDirective S)
      → Manager V W S × Option (EngineDirective S)
  emitted m t none = (m, none)
  emitted m t (some d) = (
    record m { transport = emit_directive m.transport (encode (directive d)) t.accept t.write_ok },
    some d,
  )

  -- The directive that the policy makes, past the deduplicator.
  abbrev pub deduplicated :
      Manager V W S
      → Turn W S
      → Option (EngineDirective S)
      → Manager V W S × Option (EngineDirective S)
  deduplicated m t none = (m, none)
  deduplicated m t (some d) =
      let (dedup, out) = process m.dedup d t.now in emitted (record m { dedup = dedup }) t out

  abbrev pub received :
      Manager V W S
      → Turn W S
      → Option (SystemSignal W)
      → Manager V W S × Option (EngineDirective S)
  received m t none = (m, none)
  received m t (some s) =
      let (policy, counter, out) = process_signal vm yield_max m.policy m.counter s in
      deduplicated (record m { policy = policy; counter = counter }) t out

  -- One turn of the loop, and the directive that it hands to the transport.
  unfoldable pub turn : Manager V W S → Turn W S → Manager V W S × Option (EngineDirective S)
  turn m t = received (prepare m t) t t.signal
