-- ===== src/Manager/Startup/Life.antt =====
-- What the manager of src/main.rs emits over its life: at the start, and in the main loop.
use Prim.Native.String.{String}
use argus_manager.Prelude.{
  ℕ, suc, ◌+◌, ◌^◌, ◌≤◌, ◌<◌, ◌≡◌, refl, inl, inr, Bool, Option, none, some, List, [], ◌∷◌, ◌++◌,
  All, length, map, arith, subst, true, false,
}
use argus_manager.Float.{Float, Casts, IsIeee}
use argus_manager.Signal.{SystemSignal}
use argus_manager.Contract.{EngineDirective, EngineMessage, ManagerMessage}
use argus_manager.Config.{Config}
use argus_manager.Channel.{ConnectionState}
use argus_manager.Emitter.{Answer}
use argus_manager.Lua.Actions.Valid.{IsValid}
use argus_manager.LuaPolicy.{LuaVm, LuaPolicy, process_signal}
use argus_manager.LuaPolicy.Directives.{process_signal_numbers, process_signal-All}
use argus_manager.Manager.{Manager, Turn}
use argus_manager.Manager.Directives.{
  outputs, heard, Rising, outputs-Rising, outputs-IsValid-Spaced,
}
use argus_manager.Manager.Monitors.{build_monitors, initial_signals}
use argus_manager.Manager.Startup.{
  Outside, Started, ready, refused, waiting, emit_first, listed, emit_initial, fresh_manager,
  with_policy, create_policy, with_transport, TransportHandle, unix, tcp, emitter_only, is_given,
  create_transport, unset, start,
}
use argus_manager.Text.{Text}

module _ {V T W S : Type 0} ⦃f : Float W⦄ ⦃g : Float S⦄ ⦃c : Casts W S⦄ (vm : LuaVm V T W S)
    (yield_max : ℕ) (encode : ManagerMessage S → List ℕ) where
  -- Numbers from a bound on, each above the one before it.
  abbrev pub Ascends : ℕ → List (EngineDirective S) → Type 0
  Ascends k [] = Unit {0}
  Ascends k (d ∷ ds) = (k ≤ d.seq_id) × Ascends (d.seq_id + 1) ds

  -- Valid commands, and numbers that ascend from a bound on.
  abbrev pub IsOrdered : ℕ → List (EngineDirective S) → Type 0
  IsOrdered k ds =
      All (λ (d : EngineDirective S). All (IsValid yield_max) d.commands) ds × Ascends k ds

  abbrev emitted : Manager V W S → List (Turn W S) → List (EngineDirective S)
  emitted m ts = map (λ x. x.0) (outputs vm yield_max encode m ts)

  outputs-Ascends :
      (k : ℕ) (xs : List (EngineDirective S × W))
      → Rising vm yield_max encode k xs
      → All (λ (x : EngineDirective S × W). All (IsValid yield_max) x.0.commands) xs
      → IsOrdered k (map (λ x. x.0) xs)
  outputs-Ascends k [] h v = (tt, tt)
  outputs-Ascends k ((d, now) ∷ xs) (h, hs) (v, vs) =
      let (w, a) = outputs-Ascends (d.seq_id + 1) xs hs vs in ((v, w), (h, a))

  lower : (j k : ℕ) (ds : List (EngineDirective S)) → j ≤ k → IsOrdered k ds → IsOrdered j ds
  lower j k [] h (v, a) = (tt, tt)
  lower j k (d ∷ ds) h (v, (b, a)) = (v, (omega arith, a))

  first-bound :
      (p : LuaPolicy V W S) (counter : ℕ) (s : SystemSignal W)
      → counter + 1 < 2 ^ 64
      → (process_signal vm yield_max p counter s).1 ≤ counter + 1
  first-bound p counter s b = elim (process_signal_numbers vm yield_max p counter s) [
    | inl (out, same) ↦ omega (arith, same)
    | inr (d, out, seq, cs, next) ↦ omega (arith, next, b)
  ]

  -- One signal at the start, when what follows is in order.
  first-IsOrdered :
      IsIeee S
      → (p : LuaPolicy V W S) (counter : ℕ) (s : SystemSignal W) (rest : List (EngineDirective S))
      → counter + 1 < 2 ^ 64
      → IsOrdered (process_signal vm yield_max p counter s).1 rest
      → IsOrdered counter (listed (process_signal vm yield_max p counter s).2 rest)
  first-IsOrdered L p counter s rest b (v, a) =
      elim (process_signal_numbers vm yield_max p counter s) [
        | inl (out, same) ↦ rw out (lower counter _ rest (omega (arith, same)) (v, a))
        | inr (d, out, seq, cs, next) ↦ rw out (
          (process_signal-All vm yield_max L p counter s d out, v),
          (
            omega (arith, seq),
            (lower (d.seq_id + 1) _ rest (omega (arith, seq, next, b)) (v, a)).1,
          ),
        )
      ]

  emit_first-counter :
      (m : Manager V W S) (a : Answer) (out : Option (EngineDirective S))
      → (emit_first vm yield_max encode m a out).counter ≡ m.counter
  emit_first-counter m a none = refl
  emit_first-counter m a (some d) = refl

  listed-append :
      (out : Option (EngineDirective S)) (ds rest : List (EngineDirective S))
      → listed out ds ++ rest ≡ listed out (ds ++ rest)
  listed-append none ds rest = refl
  listed-append (some d) ds rest = refl

  -- The first signals, with what is emitted after them.
  initial-IsOrdered :
      IsIeee S
      → (answers : ℕ → Answer) (k : ℕ) (ss : List (SystemSignal W)) (m : Manager V W S)
      → m.counter + length ss < 2 ^ 64
      → let (n, ds) = emit_initial vm yield_max encode m answers k ss in
        (n.counter ≤ m.counter + length ss)
        × ((rest : List (EngineDirective S))
            → IsOrdered n.counter rest
            → IsOrdered m.counter (ds ++ rest))
  unfolding emit_initial
  initial-IsOrdered L answers k [] m b = (omega arith, λ rest h. h)
  initial-IsOrdered L answers k (s ∷ ss) m b =
      let r = process_signal vm yield_max m.policy m.counter s in
      let n : Manager V W S =
        emit_first vm yield_max encode (record m { policy = r.0; counter = r.1 }) (answers k) r.2 in
      let same : n.counter ≡ r.1 =
        emit_first-counter (record m { policy = r.0; counter = r.1 }) (answers k) r.2 in
      let bound = first-bound m.policy m.counter s (omega (arith, b)) in
      let later = (emit_initial vm yield_max encode n answers (suc k) ss).1 in
      let (below, after) =
        initial-IsOrdered L answers (suc k) ss n (omega (arith, same, bound, b)) in
      (
        omega (arith, below, same, bound),
        λ rest h. rw (listed-append r.2 later rest) (
            first-IsOrdered L m.policy m.counter s (later ++ rest) (omega (arith, b))
              (subst (λ j. IsOrdered j (later ++ rest)) same (after rest h))),
      )

  -- What the manager emits if it starts.
  abbrev pub IsLife : List (Turn W S) → Started (Manager V W S × List (EngineDirective S)) → Type 0
  IsLife ts (ready (m, ds)) = IsOrdered 1 (ds ++ emitted m ts)
  IsLife ts r = Unit {0}

  module _ (config : Config W S) (has_battery : Bool) (answers : ℕ → Answer)
      (ts : List (Turn W S)) where
    with_policy-IsLife :
        IsIeee S
        → 1 + length (initial_signals (build_monitors config has_battery)) + heard ts < 2 ^ 64
        → (s : ConnectionState (EngineMessage S)) (p : Option (LuaPolicy V W S)) (given : Bool)
        → IsLife ts (with_policy vm yield_max encode config has_battery answers s p given)
    with_policy-IsLife L b s none true = tt
    with_policy-IsLife L b s none false = tt
    with_policy-IsLife L b s (some p) given =
        let first = fresh_manager vm yield_max encode config s p in
        let ss = initial_signals (build_monitors config has_battery) in
        let n = (emit_initial vm yield_max encode first answers 0 ss).0 in
        let (below, after) = initial-IsOrdered L answers 0 ss first (omega (arith, b)) in
        after (emitted n ts) (
          outputs-Ascends n.counter (outputs vm yield_max encode n ts)
            (outputs-Rising vm yield_max encode L n ts (omega (arith, below, b)))
            (outputs-IsValid-Spaced vm yield_max encode L n ts).0)

    with_transport-IsLife :
        IsIeee S
        → 1 + length (initial_signals (build_monitors config has_battery)) + heard ts < 2 ^ 64
        → (script : Option String) (h : Started (TransportHandle (EngineMessage S)))
        → IsLife ts (with_transport vm yield_max encode config has_battery answers script h)
    with_transport-IsLife L b script (ready (unix s)) =
        with_policy-IsLife L b s (create_policy vm yield_max encode script config) (is_given script)
    with_transport-IsLife L b script (ready (tcp s)) =
        with_policy-IsLife L b s (create_policy vm yield_max encode script config) (is_given script)
    with_transport-IsLife L b script (ready emitter_only) = tt
    with_transport-IsLife L b script (refused r) = tt
    with_transport-IsLife L b script waiting = tt

    -- Whatever the configuration, the script, the engine and the operating system do: if the manager
    -- starts, then all the directives that it emits, first for the monitors' first signals and then
    -- in the main loop, consist of valid commands, and their numbers rise strictly from 1 on,
    -- while the signals of both together are fewer than 2^64 - 1. A turn of the loop may have what
    -- the engine sends in the meantime, or the end of its stream.
    pub start-IsLife :
        IsIeee S
        → (transport : Text) (script : Option String) (o : Outside)
        → 1 + length (initial_signals (build_monitors config has_battery)) + heard ts < 2 ^ 64
        → IsLife ts (start vm yield_max encode transport script config has_battery o answers)
    unfolding start
    start-IsLife L transport script o b =
        with_transport-IsLife L b script (create_transport transport (unset o))
