-- ===== src/Sim/Trajectory/Entries.antt =====
-- The entries of src/sim/trajectory.rs, and what is counted of them.
pub mod Nearest
use Prim.Native.String.{String}
use text.Mathlib.Text.{◌==◌ as str_eq}
use argus_manager.Prelude.{
  ℕ, suc, ◌^◌, Bool, true, false, Option, none, some, List, [], ◌∷◌, map, if◌then◌else◌,
}
use argus_manager.Float.{Float, fle, flt}
use argus_manager.Contract.{EngineCommand, EngineDirective, EngineMessage, Phase}
use argus_manager.Sim.State.{PhysicalState, EngineStateModel, Field}
use argus_manager.Sim.Trajectory.{Recorded, SignalDump, from_signal}
use argus_manager.Text.{Text}
use argus_manager.Sim.Trajectory.Dumps.{
  PhysicalStateSnapshot, from_state, EngineStateSnapshot, from_engine, EngineMessageDump,
  DirectiveDump, Debug, from_msg, from_directive,
}

-- No method makes a `relief_update`.
pub data TrajectoryEntry (W S : Type 0) : Type 0 where
  state_snapshot :
      (at_s : W) → PhysicalStateSnapshot W → EngineStateSnapshot W → TrajectoryEntry W S
  heartbeat : (at_s : W) → EngineMessageDump S → TrajectoryEntry W S
  signal : (at_s : W) → SignalDump W → TrajectoryEntry W S
  directive : (at_s : W) → (trigger : SignalDump W) → DirectiveDump → TrajectoryEntry W S
  observation_due : (at_s : W) → (action : String) → (recorded_at_s : W) → TrajectoryEntry W S
  injection_event : (at_s : W) → (idx : ℕ) → (started : Bool) → TrajectoryEntry W S
  custom : (at_s : W) → (name : String) → TrajectoryEntry W S
  relief_update :
      (at_s : W) (action : String) (before after observed : List S) (observation_count : ℕ)
      (age_s : W)
      → TrajectoryEntry W S
  observation_overrun : (at_s : W) → (total_count : ℕ) → TrajectoryEntry W S
  level_transition :
      (at_s : W) (signal_kind : String) (from_level : Option String) (to_level : String)
      → PhysicalStateSnapshot W
      → TrajectoryEntry W S

-- `Duration::as_secs_f64`
abbrev pub seconds : {W : Type 0} ⦃f : Float W⦄ → ℕ → W
seconds ⦃f = f⦄ nanos = f.div (f.of_nat nanos) (f.of_nat (10 ^ 9))

module _ {W S : Type 0} ⦃f : Float W⦄ (debug : Debug S) where
  -- The `record_` methods: the entry that each pushes.
  unfoldable pub entry : Recorded W S → TrajectoryEntry W S
  entry (Recorded.snapshot at s e) = state_snapshot (seconds at) (from_state s) (from_engine e)
  entry (Recorded.heartbeat at msg) = TrajectoryEntry.heartbeat (seconds at) (from_msg debug msg)
  entry (Recorded.signal at sig) = TrajectoryEntry.signal (seconds at) (from_signal sig)
  entry (Recorded.directive at trigger dir) =
      TrajectoryEntry.directive (seconds at) (from_signal trigger) (from_directive debug dir)
  entry (Recorded.observation at action recorded_at) =
      observation_due (seconds at) action (seconds recorded_at)
  entry (Recorded.injection at idx started) = injection_event (seconds at) idx started
  entry (Recorded.custom at name) = TrajectoryEntry.custom (seconds at) name
  entry (Recorded.overrun at total) = observation_overrun (seconds at) total
  entry (Recorded.transition at kind before level s) =
      level_transition (seconds at) kind before level (from_state s)

  -- The trajectory that the calls make.
  abbrev pub entries : List (Recorded W S) → List (TrajectoryEntry W S)
  entries rs = map entry rs

module _ {W : Type 0} ⦃f : Float W⦄ where
  -- The loop of `state_at`: the least distance so far, with the value there.
  abbrev pub nearer : Option (W × W) → W → W → Option (W × W)
  nearer none dist value = some (dist, value)
  nearer (some (least, best)) dist value =
      if flt dist least then some (dist, value) else some (least, best)

  abbrev pub value_of : Option (W × W) → Option W
  value_of none = none
  value_of (some (dist, value)) = some value

module _ {W S : Type 0} where
  -- `iter().filter(test).count()`
  abbrev pub count : (TrajectoryEntry W S → Bool) → List (TrajectoryEntry W S) → ℕ
  count test [] = 0
  count test (e ∷ es) = let rest = count test es in if test e then suc rest else rest

  abbrev pub is_directive : TrajectoryEntry W S → Bool
  is_directive (TrajectoryEntry.directive at trigger d) = true
  is_directive _ = false

  abbrev pub is_heartbeat : TrajectoryEntry W S → Bool
  is_heartbeat (TrajectoryEntry.heartbeat at m) = true
  is_heartbeat _ = false

  abbrev pub is_signal : TrajectoryEntry W S → Bool
  is_signal (TrajectoryEntry.signal at s) = true
  is_signal _ = false

  abbrev pub is_signal_of : String → TrajectoryEntry W S → Bool
  is_signal_of kind (TrajectoryEntry.signal at s) = str_eq s.kind kind
  is_signal_of kind _ = false

  abbrev pub is_observation_due : TrajectoryEntry W S → Bool
  is_observation_due (observation_due at a r) = true
  is_observation_due _ = false

  abbrev pub is_observation_due_for : String → TrajectoryEntry W S → Bool
  is_observation_due_for action (observation_due at a r) = str_eq a action
  is_observation_due_for action _ = false

  abbrev pub directive_count : List (TrajectoryEntry W S) → ℕ
  directive_count es = count is_directive es

  abbrev pub heartbeat_count : List (TrajectoryEntry W S) → ℕ
  heartbeat_count es = count is_heartbeat es

  abbrev pub signal_count : List (TrajectoryEntry W S) → ℕ
  signal_count es = count is_signal es

  abbrev pub signal_count_by_kind : String → List (TrajectoryEntry W S) → ℕ
  signal_count_by_kind kind es = count (is_signal_of kind) es

  abbrev pub observation_due_count : List (TrajectoryEntry W S) → ℕ
  observation_due_count es = count is_observation_due es

  abbrev pub observation_due_count_for : String → List (TrajectoryEntry W S) → ℕ
  observation_due_count_for action es = count (is_observation_due_for action) es

module _ {W S : Type 0} ⦃f : Float W⦄ where
  -- The time of a directive that is not before `t_s`.
  abbrev pub late_directive : W → TrajectoryEntry W S → Option W
  late_directive t_s (TrajectoryEntry.directive at trigger d) = if fle t_s at then some at else none
  late_directive t_s _ = none

  unfoldable pub first_directive_at_or_after : W → List (TrajectoryEntry W S) → Option W
  first_directive_at_or_after t_s [] = none
  first_directive_at_or_after t_s (e ∷ es) = elim (late_directive t_s e) [
    | none ↦ first_directive_at_or_after t_s es
    | some at ↦ some at
  ]

  abbrev pub after_entry :
      (PhysicalStateSnapshot W → W) → W → Option (W × W) → TrajectoryEntry W S → Option (W × W)
  after_entry proj t_s best (state_snapshot at s e) = nearer best (f.abs (f.sub at t_s)) (proj s)
  after_entry proj t_s best _ = best

  abbrev pub nearest :
      (PhysicalStateSnapshot W → W)
      → W
      → Option (W × W)
      → List (TrajectoryEntry W S)
      → Option (W × W)
  nearest proj t_s best [] = best
  nearest proj t_s best (e ∷ es) = nearest proj t_s (after_entry proj t_s best e) es

  unfoldable pub state_at :
      (PhysicalStateSnapshot W → W) → W → List (TrajectoryEntry W S) → Option W
  state_at proj t_s es = value_of (nearest proj t_s none es)

module _ {W S : Type 0} where
  abbrev pub entry_at_s : TrajectoryEntry W S → W
  entry_at_s (state_snapshot at s e) = at
  entry_at_s (TrajectoryEntry.heartbeat at m) = at
  entry_at_s (TrajectoryEntry.signal at s) = at
  entry_at_s (TrajectoryEntry.directive at t d) = at
  entry_at_s (observation_due at a r) = at
  entry_at_s (injection_event at n b) = at
  entry_at_s (TrajectoryEntry.custom at n) = at
  entry_at_s (relief_update at a b c o n g) = at
  entry_at_s (observation_overrun at n) = at
  entry_at_s (level_transition at k b l s) = at

  unfoldable pub last_at_s : List (TrajectoryEntry W S) → Option W
  last_at_s [] = none
  last_at_s (e ∷ []) = some (entry_at_s e)
  last_at_s (e ∷ d ∷ es) = last_at_s (d ∷ es)
