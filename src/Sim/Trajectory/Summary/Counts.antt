-- ===== src/Sim/Trajectory/Summary/Counts.antt =====
-- The counts in a `TrajectorySummary` of src/sim/trajectory.rs.
use Prim.Native.String.{String}
use text.Mathlib.Text.{◌==◌ as str_eq}
use text.Mathlib.TextEquality.{eq_iff}
use argus_manager.Prelude.{
  ℕ, ◌+◌, ◌≡◌, refl, Bool, none, List, [], ◌∷◌, arith, Bool-cases, inl, inr, if◌then◌else◌, length,
  other_text,
}
use argus_manager.Float.{Float}
use argus_manager.Sim.Trajectory.Entries.{
  TrajectoryEntry, signal_count_by_kind, signal_count, directive_count, is_signal, is_signal_of,
  is_directive,
}
use argus_manager.Sim.Trajectory.Summary.{
  add_one, add_kinds, command_kind, Gathered, add_signal, add_signals, gather, gather_all,
  from_trajectory,
}
use argus_manager.Text.{Text, is_same}

-- The number of a key; 0 if it is missing.
abbrev pub number_of : List (String × ℕ) → String → ℕ
number_of [] key = 0
number_of ((k, n) ∷ rest) key = if str_eq k key then n else number_of rest key

abbrev pub total : {K : Type 0} → List (K × ℕ) → ℕ
total [] = 0
total ((k, n) ∷ rest) = n + total rest

total-add_one :
    {K : Type 0} (eq : K → K → Bool) (m : List (K × ℕ)) (key : K)
    → total (add_one eq m key) ≡ total m + 1
unfolding add_one
total-add_one eq [] key = refl
total-add_one eq ((k, n) ∷ rest) key = ground (arith, total-add_one eq rest key)

one_if : Bool → ℕ
one_if b = if b then 1 else 0

number_of-add_one :
    (m : List (String × ℕ)) (key name : String)
    → number_of (add_one str_eq m key) name ≡ one_if (str_eq key name) + number_of m name
unfolding add_one one_if
number_of-add_one [] key name = ground arith
number_of-add_one ((k, n) ∷ rest) key name = elim (Bool-cases (str_eq k key)) [
  | inl e ↦ rw (e, (eq_iff k key).0 e) (ground arith)
  | inr e ↦ rw e (elim (Bool-cases (str_eq k name)) [
    | inl n ↦ rw (n, other_text k key name e n) (omega arith)
    | inr n ↦ rw n (number_of-add_one rest key name)
  ])
]

module _ {W S : Type 0} where
  add_signal-number_of :
      (m : List (String × ℕ)) (e : TrajectoryEntry W S) (kind : String)
      → number_of (add_signal m e) kind ≡ one_if (is_signal_of kind e) + number_of m kind
  unfolding one_if
  add_signal-number_of m (TrajectoryEntry.signal at s) kind = number_of-add_one m s.kind kind
  add_signal-number_of m _ kind = omega arith

  add_signals-number_of :
      (m : List (String × ℕ)) (es : List (TrajectoryEntry W S)) (kind : String)
      → number_of (add_signals m es) kind ≡ number_of m kind + signal_count_by_kind kind es
  unfolding add_signals one_if
  add_signals-number_of m [] kind = omega arith
  add_signals-number_of m (e ∷ es) kind =
      ground (arith, add_signals-number_of (add_signal m e) es kind, add_signal-number_of m e kind)

  add_signal-total :
      (m : List (String × ℕ)) (e : TrajectoryEntry W S)
      → total (add_signal m e) ≡ total m + one_if (is_signal e)
  unfolding one_if
  add_signal-total m (TrajectoryEntry.signal at s) = total-add_one str_eq m s.kind
  add_signal-total m _ = omega arith

  add_signals-total :
      (m : List (String × ℕ)) (es : List (TrajectoryEntry W S))
      → total (add_signals m es) ≡ total m + signal_count es
  unfolding add_signals one_if
  add_signals-total m [] = omega arith
  add_signals-total m (e ∷ es) =
      ground (arith, add_signals-total (add_signal m e) es, add_signal-total m e)

  -- The commands of all directives.
  abbrev pub commands_of : TrajectoryEntry W S → ℕ
  commands_of (TrajectoryEntry.directive at trigger d) = length d.commands
  commands_of _ = 0

  abbrev pub command_count : List (TrajectoryEntry W S) → ℕ
  command_count [] = 0
  command_count (e ∷ es) = commands_of e + command_count es

add_kinds-total :
    (m : List (Text × ℕ)) (cmds : List Text) → total (add_kinds m cmds) ≡ total m + length cmds
add_kinds-total m [] = omega arith
add_kinds-total m (cmd ∷ cmds) = omega (
  arith,
  add_kinds-total (add_one is_same m (command_kind cmd)) cmds,
  total-add_one is_same m (command_kind cmd),
)

module _ {W S : Type 0} ⦃f : Float W⦄ (round : W → W) where
  gather-total :
      (g : Gathered W) (e : TrajectoryEntry W S)
      → (total (gather round g e).kinds ≡ total g.kinds + commands_of e)
        × ((gather round g e).number ≡ g.number + one_if (is_directive e))
  unfolding one_if
  gather-total g (TrajectoryEntry.directive at trigger d) =
      (add_kinds-total g.kinds d.commands, refl)
  gather-total g _ = (omega arith, omega arith)

  gather_all-total :
      (g : Gathered W) (es : List (TrajectoryEntry W S))
      → (total (gather_all round g es).kinds ≡ total g.kinds + command_count es)
        × ((gather_all round g es).number ≡ g.number + directive_count es)
  unfolding gather_all one_if
  gather_all-total g [] = (omega arith, omega arith)
  gather_all-total g (e ∷ es) =
      let (kinds, number) = gather_all-total (gather round g e) es in
      let (k, n) = gather-total g e in (omega (arith, kinds, k), ground (arith, number, n))

  -- The summary of a trajectory counts what is there: for each kind the signals of that kind, in
  -- all the signals, the directives, and for the names of the commands, in all, the commands of the
  -- directives.
  pub from_trajectory-counts :
      (es : List (TrajectoryEntry W S)) (cpu_max_mhz gpu_max_mhz : W) (kind : String)
      → let s = from_trajectory round es cpu_max_mhz gpu_max_mhz in
        (number_of s.signal_count_by_kind kind ≡ signal_count_by_kind kind es)
        × (total s.signal_count_by_kind ≡ signal_count es)
        × (s.directive_count ≡ directive_count es)
        × (total s.directive_kinds ≡ command_count es)
  unfolding from_trajectory
  from_trajectory-counts es cpu_max_mhz gpu_max_mhz kind =
      let start : Gathered W = record { kinds = []; first = none; number = 0 } in
      let (kinds, number) = gather_all-total start es in
      (
        omega (arith, add_signals-number_of [] es kind),
        omega (arith, add_signals-total [] es),
        omega (arith, number),
        omega (arith, kinds),
      )
