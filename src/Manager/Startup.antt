-- ===== src/Manager/Startup.antt =====
-- The start of src/main.rs, up to the main loop: the transport, the policy, and the directives for
-- the monitors' first signals. What the operating system answers is an argument. While the start
-- waits for a client nothing stores into the flag `shutdown` that it is handed: the signal handler
-- stores into `SHUTDOWN`, which only the main loop reads.
pub mod Life
pub mod Outcomes
use Prim.Native.String.{String}
use argus_manager.Prelude.{
  ℕ, suc, Bool, true, false, ◌&&◌, Option, none, some, List, [], ◌∷◌, map, ◌==◌, if◌then◌else◌,
}
use argus_manager.Float.{Float, Casts}
use argus_manager.Signal.{SystemSignal}
use argus_manager.Contract.{EngineDirective, EngineMessage, ManagerMessage, directive}
use argus_manager.Config.{Config}
use argus_manager.Pipeline.{first_seq, with_cooldown}
use argus_manager.Channel.{
  ConnectionState, listening, connected, disconnected, Accept, Turn, wait_for_client,
  emit_directive, try_recv,
}
use argus_manager.Emitter.{Answer}
use argus_manager.LuaPolicy.{LuaVm, LuaPolicy, new_with_gpu, process_signal}
use argus_manager.Manager.{Manager}
use argus_manager.Manager.Monitors.{build_monitors, initial_signals}
use argus_manager.Text.{Text, unix_prefix, tcp_prefix, is_same, strip_prefix}

pub data TransportHandle (M : Type 0) : Type 0 where
  unix tcp : ConnectionState M → TransportHandle M
  emitter_only : TransportHandle M

pub data Refusal : Type 0 where
  unknown_transport not_bound no_bus interrupted no_client : Refusal
  not_bidirectional no_script bad_script : Refusal

-- `waiting` is the state of a start that still waits for its client.
pub data Started (A : Type 0) : Type 0 where
  ready : A → Started A
  refused : Refusal → Started A
  waiting : Started A

-- "dbus"
abbrev pub dbus : Text
dbus = 100 ∷ 98 ∷ 117 ∷ 115 ∷ []

-- Whether the socket can be bound and the bus reached; the turns of the wait for a client so far,
-- and what `shutdown` holds after it.
pub record Outside : Type 0 where
  pub binds : Bool
  pub bus : Bool
  pub turns : List Turn
  pub shutdown : Bool

module _ {M : Type 0} where
  -- Without a client the Unix socket goes on.
  abbrev pub waited_unix : Bool → ConnectionState M × Option Bool → Started (TransportHandle M)
  waited_unix shutdown (s, some true) = ready (unix s)
  waited_unix shutdown (s, some false) = if shutdown then refused interrupted else ready (unix s)
  waited_unix shutdown (s, none) = waiting

  abbrev pub waited_tcp : Bool → ConnectionState M × Option Bool → Started (TransportHandle M)
  waited_tcp shutdown (s, some true) = ready (tcp s)
  waited_tcp shutdown (s, some false) = if shutdown then refused interrupted else refused no_client
  waited_tcp shutdown (s, none) = waiting

  abbrev pub named_transport : Text → Outside → Started (TransportHandle M)
  named_transport name o =
      if is_same name dbus
      then if o.bus then ready emitter_only else refused no_bus
      else refused unknown_transport

  abbrev pub bound : Outside → Started (TransportHandle M) → Started (TransportHandle M)
  bound o waited = if o.binds then waited else refused not_bound

  abbrev pub unless_tcp : Text → Outside → Option Text → Started (TransportHandle M)
  unless_tcp name o (some addr) =
      bound o (waited_tcp o.shutdown (wait_for_client listening o.turns))
  unless_tcp name o none = named_transport name o

  abbrev pub unless_unix : Text → Outside → Option Text → Started (TransportHandle M)
  unless_unix name o (some path) =
      bound o (waited_unix o.shutdown (wait_for_client listening o.turns))
  unless_unix name o none = unless_tcp name o (strip_prefix tcp_prefix name)

  unfoldable pub create_transport : Text → Outside → Started (TransportHandle M)
  create_transport name o = unless_unix name o (strip_prefix unix_prefix name)

abbrev pub is_given : Option String → Bool
is_given none = false
is_given (some path) = true

-- Nothing has stored into `shutdown`.
abbrev pub unset : Outside → Outside
unset o = record o {
  turns = map {A = Turn} {B = Turn} (λ t. record t { shutdown = false }) o.turns;
  shutdown = false;
}

abbrev pub listed : {A : Type 0} → Option A → List A → List A
listed none rest = rest
listed (some a) rest = a ∷ rest

module _ {V T W S : Type 0} ⦃f : Float W⦄ ⦃g : Float S⦄ ⦃c : Casts W S⦄ (vm : LuaVm V T W S)
    (yield_max : ℕ) (encode : ManagerMessage S → List ℕ) where
  abbrev pub create_policy : Option String → Config W S → Option (LuaPolicy V W S)
  create_policy none config = none
  create_policy (some path) config = new_with_gpu vm yield_max path config.adaptation

  abbrev pub emit_first : Manager V W S → Answer → Option (EngineDirective S) → Manager V W S
  emit_first m a none = m
  emit_first m a (some d) = record m {
    transport = emit_directive m.transport (encode (directive d)) a.accept a.write_ok;
  }

  -- The loop over the first signals, with the answers to the emission for each; the deduplicator
  -- sees nothing of it.
  unfoldable pub emit_initial :
      Manager V W S
      → (ℕ → Answer)
      → ℕ
      → List (SystemSignal W)
      → Manager V W S × List (EngineDirective S)
  emit_initial m answers k [] = (m, [])
  emit_initial m answers k (s ∷ ss) =
      let (policy, counter, out) = process_signal vm yield_max m.policy m.counter s in
      let n = emit_first (record m { policy = policy; counter = counter }) (answers k) out in
      let (last, ds) = emit_initial n answers (suc k) ss in (last, listed out ds)

  abbrev pub fresh_manager :
      Config W S → ConnectionState (EngineMessage S) → LuaPolicy V W S → Manager V W S
  fresh_manager config s policy = record {
    policy = policy;
    counter = first_seq;
    dedup = with_cooldown config.adaptation.dedup_cooldown_secs;
    transport = s;
  }

  abbrev pub with_policy :
      Config W S
      → Bool
      → (ℕ → Answer)
      → ConnectionState (EngineMessage S)
      → Option (LuaPolicy V W S)
      → Bool
      → Started (Manager V W S × List (EngineDirective S))
  with_policy config has_battery answers s none given =
      if given then refused bad_script else refused no_script
  with_policy config has_battery answers s (some policy) given = ready (
      emit_initial (fresh_manager config s policy) answers 0
        (initial_signals (build_monitors config has_battery)))

  abbrev pub with_transport :
      Config W S
      → Bool
      → (ℕ → Answer)
      → Option String
      → Started (TransportHandle (EngineMessage S))
      → Started (Manager V W S × List (EngineDirective S))
  with_transport config b answers script (ready (unix s)) =
      with_policy config b answers s (create_policy script config) (is_given script)
  with_transport config b answers script (ready (tcp s)) =
      with_policy config b answers s (create_policy script config) (is_given script)
  with_transport config b answers script (ready emitter_only) = refused not_bidirectional
  with_transport config b answers script (refused r) = refused r
  with_transport config b answers script waiting = waiting

  -- `main` up to its loop: the manager, and the directives emitted so far.
  unfoldable pub start :
      Text
      → Option String
      → Config W S
      → Bool
      → Outside
      → (ℕ → Answer)
      → Started (Manager V W S × List (EngineDirective S))
  start transport script config has_battery o answers =
      with_transport config has_battery answers script (create_transport transport (unset o))
