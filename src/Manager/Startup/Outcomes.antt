-- ===== src/Manager/Startup/Outcomes.antt =====
-- What has to hold for the manager of src/main.rs to start.
use Prim.Native.String.{String}
use argus_manager.Prelude.{
  ℕ, suc, ◌≡◌, ◌≢◌, refl, sym, ◌∙◌, ◌⊎◌, inl, inr, Bool, true, false, Option, none, some, List, [],
  ◌∷◌, ◌++◌, arith, if◌then◌else◌,
}
use argus_manager.Float.{Float, Casts}
use argus_manager.Signal.{SystemSignal}
use argus_manager.Contract.{EngineDirective, EngineMessage, ManagerMessage, directive}
use argus_manager.Config.{Config}
use argus_manager.Channel.{
  ConnectionState, listening, connected, disconnected, Accept, client, would_block, failed, Turn,
  transition_to_connected, wait_for_client, ensure_connected, emit_directive,
}
use argus_manager.Emitter.{Answer}
use argus_manager.LuaPolicy.{LuaVm, LuaPolicy, process_signal}
use argus_manager.Manager.{Manager}
use argus_manager.Manager.Monitors.{build_monitors, initial_signals}
use argus_manager.Manager.Startup.{
  Outside, Started, ready, refused, waiting, interrupted, emit_first, emit_initial, fresh_manager,
  with_policy, create_policy, with_transport, TransportHandle, unix, tcp, emitter_only, is_given,
  create_transport, unset, start, waited_unix, waited_tcp, unless_tcp, unless_unix, dbus, not_bound,
  no_bus, unknown_transport,
}
use argus_manager.Text.Laws.{strip_prefix_of}
use argus_manager.Text.{Text, unix_prefix, tcp_prefix, is_same, strip_prefix}

module _ {M : Type 0} where
  -- Whether the wait for a client has taken one, also when it is lost since.
  abbrev pub has_taken : ConnectionState M → Bool
  has_taken listening = false
  has_taken (connected l) = true
  has_taken disconnected = true

  emit_directive-has_taken :
      (s : ConnectionState M) (json : List ℕ) (a : Accept) (ok : Bool)
      → has_taken (emit_directive s json a ok) ≡ has_taken s
  unfolding emit_directive ensure_connected transition_to_connected
  emit_directive-has_taken listening json a ok = ground arith
  emit_directive-has_taken (connected l) json a ok = ground arith
  emit_directive-has_taken disconnected json (client cloned) ok = ground arith
  emit_directive-has_taken disconnected json would_block ok = ground arith
  emit_directive-has_taken disconnected json failed ok = ground arith

  wait_for_client-has_taken :
      (ts : List Turn) (s : ConnectionState M)
      → (wait_for_client s ts).1 ≡ some true
      → has_taken (wait_for_client s ts).0 ≡ true
  unfolding wait_for_client transition_to_connected
  wait_for_client-has_taken [] s h = cc
  wait_for_client-has_taken (t ∷ ts) s h = ground (arith, wait_for_client-has_taken ts s)

module _ {M : Type 0} where
  -- What a transport is that a name leads to.
  abbrev pub IsNamed : Text → Outside → TransportHandle M → Type 0
  IsNamed name o (unix s) = (path : Text) × (name ≡ unix_prefix ++ path) × (o.binds ≡ true)
  IsNamed name o (tcp s) =
      (addr : Text) × (name ≡ tcp_prefix ++ addr) × (o.binds ≡ true) × (has_taken s ≡ true)
  IsNamed name o emitter_only = o.bus ≡ true

  abbrev pub Fits : Text → Outside → Started (TransportHandle M) → Type 0
  Fits name o (ready t) = IsNamed name o t
  Fits name o (refused r) = r ≢ interrupted
  Fits name o waiting = Unit {0}

  bound-Fits :
      (name : Text) (o : Outside) (b : Bool) (w : Started (TransportHandle M))
      → (b ≡ true → Fits name o w)
      → Fits name o (if b then w else refused not_bound)
  bound-Fits name o true w h = h refl
  bound-Fits name o false w h = λ e. cc

  waited_unix-Fits :
      (name path : Text) (o : Outside) (r : ConnectionState M × Option Bool)
      → name ≡ unix_prefix ++ path
      → o.binds ≡ true
      → Fits name o (waited_unix false r)
  waited_unix-Fits name path o (s, some true) h b = (path, h, b)
  waited_unix-Fits name path o (s, some false) h b = (path, h, b)
  waited_unix-Fits name path o (s, none) h b = tt

  waited_tcp-Fits :
      (name addr : Text) (o : Outside) (r : ConnectionState M × Option Bool)
      → (r.1 ≡ some true → has_taken r.0 ≡ true)
      → name ≡ tcp_prefix ++ addr
      → o.binds ≡ true
      → Fits name o (waited_tcp false r)
  waited_tcp-Fits name addr o (s, some true) t h b = (addr, h, b, t refl)
  waited_tcp-Fits name addr o (s, some false) t h b = λ e. cc
  waited_tcp-Fits name addr o (s, none) t h b = tt

module _ (M : Type 0) where
  named_transport-Fits :
      (name : Text) (o : Outside) (is_dbus has_bus : Bool)
      → has_bus ≡ o.bus
      → Fits {M = M} name o (
          if is_dbus
          then if has_bus then ready emitter_only else refused no_bus
          else refused unknown_transport)
  named_transport-Fits name o true true h = sym h
  named_transport-Fits name o true false h = λ e. cc
  named_transport-Fits name o false b h = λ e. cc

  unless_tcp-Fits :
      (name : Text) (o : Outside) (r : Option Text)
      → o.shutdown ≡ false
      → strip_prefix tcp_prefix name ≡ r
      → Fits {M = M} name o (unless_tcp name o r)
  unless_tcp-Fits name o (some addr) h e =
      let r = wait_for_client {M = M} listening o.turns in
      rw h (
        bound-Fits name o o.binds (waited_tcp false r) (
          waited_tcp-Fits name addr o r (wait_for_client-has_taken o.turns listening)
            (strip_prefix_of tcp_prefix name addr e)))
  unless_tcp-Fits name o none h e = named_transport-Fits name o (is_same name dbus) o.bus refl

  unless_unix-Fits :
      (name : Text) (o : Outside) (r : Option Text)
      → o.shutdown ≡ false
      → strip_prefix unix_prefix name ≡ r
      → Fits {M = M} name o (unless_unix name o r)
  unless_unix-Fits name o (some path) h e =
      let r = wait_for_client {M = M} listening o.turns in
      rw h (
        bound-Fits name o o.binds (waited_unix false r)
          (waited_unix-Fits name path o r (strip_prefix_of unix_prefix name path e)))
  unless_unix-Fits name o none h e = unless_tcp-Fits name o (strip_prefix tcp_prefix name) h refl

module _ {V T W S : Type 0} ⦃f : Float W⦄ ⦃g : Float S⦄ ⦃c : Casts W S⦄ (vm : LuaVm V T W S)
    (yield_max : ℕ) (encode : ManagerMessage S → List ℕ) where
  emit_first-has_taken :
      (m : Manager V W S) (a : Answer) (out : Option (EngineDirective S))
      → has_taken (emit_first vm yield_max encode m a out).transport ≡ has_taken m.transport
  emit_first-has_taken m a none = refl
  emit_first-has_taken m a (some d) =
      emit_directive-has_taken m.transport (encode (directive d)) a.accept a.write_ok

  emit_initial-has_taken :
      (m : Manager V W S) (answers : ℕ → Answer) (k : ℕ) (ss : List (SystemSignal W))
      → has_taken (emit_initial vm yield_max encode m answers k ss).0.transport
        ≡ has_taken m.transport
  unfolding emit_initial
  emit_initial-has_taken m answers k [] = refl
  emit_initial-has_taken m answers k (s ∷ ss) =
      let (policy, counter, out) = process_signal vm yield_max m.policy m.counter s in
      let l : Manager V W S = record m { policy = policy; counter = counter } in
      emit_initial-has_taken (emit_first vm yield_max encode l (answers k) out) answers (suc k) ss
      ∙ emit_first-has_taken l (answers k) out

  -- What has to hold for the manager to start.
  abbrev pub IsStart :
      Text → Option String → Outside → Started (Manager V W S × List (EngineDirective S)) → Type 0
  IsStart name script o (ready (m, ds)) =
      (is_given script ≡ true)
      × (o.binds ≡ true)
      × (((path : Text) × (name ≡ unix_prefix ++ path))
          ⊎ ((addr : Text) × (name ≡ tcp_prefix ++ addr) × (has_taken m.transport ≡ true)))
  IsStart name script o (refused r) = r ≢ interrupted
  IsStart name script o waiting = Unit {0}

  module _ (config : Config W S) (has_battery : Bool) (answers : ℕ → Answer) (name : Text)
      (o : Outside) where
    with_policy-IsStart :
        (s : ConnectionState (EngineMessage S)) (script : Option String)
        → o.binds ≡ true
        → ((path : Text) × (name ≡ unix_prefix ++ path))
          ⊎ ((addr : Text) × (name ≡ tcp_prefix ++ addr) × (has_taken s ≡ true))
        → (p : Option (LuaPolicy V W S)) → create_policy vm yield_max encode script config ≡ p
        → IsStart name script o
            (with_policy vm yield_max encode config has_battery answers s p (is_given script))
    with_policy-IsStart s none b h (some p) e = cc
    with_policy-IsStart s (some script) b (inl h) (some p) e = (refl, b, inl h)
    with_policy-IsStart s (some script) b (inr (addr, h, t)) (some p) e = (
      refl,
      b,
      inr (
        addr,
        h,
        emit_initial-has_taken (fresh_manager vm yield_max encode config s p) answers 0
              (initial_signals (build_monitors config has_battery))
            ∙ t,
      ),
    )
    with_policy-IsStart s none b h none e = λ e. cc
    with_policy-IsStart s (some path) b h none e = λ e. cc

    with_transport-IsStart :
        (script : Option String) (h : Started (TransportHandle (EngineMessage S)))
        → Fits name o h
        → IsStart name script o
            (with_transport vm yield_max encode config has_battery answers script h)
    with_transport-IsStart script (ready (unix s)) (path, e, b) =
        with_policy-IsStart s script b (inl (path, e))
          (create_policy vm yield_max encode script config) refl
    with_transport-IsStart script (ready (tcp s)) (addr, e, b, t) =
        with_policy-IsStart s script b (inr (addr, e, t))
          (create_policy vm yield_max encode script config) refl
    with_transport-IsStart script (ready emitter_only) h = λ e. cc
    with_transport-IsStart script (refused r) h = h
    with_transport-IsStart script waiting h = tt

    -- The manager starts only if it is given a script, can bind its socket, and the transport's
    -- name starts with "unix:", or with "tcp:" and a client has been taken. It is never refused
    -- because of a shutdown during the wait for the client.
    pub start-IsStart :
        (script : Option String)
        → IsStart name script o (start vm yield_max encode name script config has_battery o answers)
    unfolding start create_transport
    start-IsStart script = with_transport-IsStart script (create_transport name (unset o)) (
        unless_unix-Fits (EngineMessage S) name (unset o) (strip_prefix unix_prefix name) refl refl)
