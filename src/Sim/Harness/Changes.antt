-- ===== src/Sim/Harness/Changes.antt =====
-- The changes of level among the signals that src/sim/harness.rs records.
use Prim.Native.String.{String}
use text.Mathlib.Text.{◌==◌ as str_eq}
use text.Mathlib.TextEquality.{eq_iff}
use mathlib.Core.List.{filter_map, filter_map-append}
use argus_manager.Prelude.{
  ◌≡◌, refl, sym, ap, ◌∙◌, inl, inr, Option, none, some, List, [], ◌∷◌, ◌++◌, append_assoc,
  append-nil, other_text, Bool-cases, arith, if◌then◌else◌,
}
use argus_manager.Sim.Config.{get}
use argus_manager.Sim.Compose.{insert}
use argus_manager.Sim.Trajectory.{Recorded, signal, transition, SignalDump, from_signal}
use argus_manager.Sim.Harness.{Simulator, is_level}

pub get-insert :
    {A : Type 0} (m : List (String × A)) (key name : String) (a : A)
    → get (insert m key a) name ≡ (if str_eq key name then some a else get m name)
get-insert [] key name a = refl
get-insert ((k, b) ∷ rest) key name a = elim (Bool-cases (str_eq k key)) [
  | inl e ↦ rw (e, (eq_iff k key).0 e) (ground arith)
  | inr e ↦ rw e (elim (Bool-cases (str_eq k name)) [
    | inl n ↦ rw (n, other_text k key name e n) refl
    | inr n ↦ rw n (get-insert rest key name a)
  ])
]

-- The kind, the level before it, if any, and the level.
abbrev pub Change : Type 0
Change = String × (Option String × String)

module _ {W : Type 0} where
  -- The level of the last signal of a kind, the list having the last signal first.
  abbrev pub last_level : List (SignalDump W) → String → Option String
  last_level [] kind = none
  last_level (d ∷ past) kind = if str_eq d.kind kind then some (d.level) else last_level past kind

  abbrev pub change : List (SignalDump W) → SignalDump W → List Change
  change past d =
      if is_level (last_level past d.kind) d.level
      then []
      else (d.kind, (last_level past d.kind, d.level)) ∷ []

  -- The signals whose level is not that of the last signal of their kind.
  abbrev pub changes : List (SignalDump W) → List (SignalDump W) → List Change
  changes past [] = []
  changes past (d ∷ ds) = change past d ++ changes (d ∷ past) ds

  -- Signals put in front of those before them, the last first.
  abbrev pub onto : List (SignalDump W) → List (SignalDump W) → List (SignalDump W)
  onto past [] = past
  onto past (d ∷ ds) = onto (d ∷ past) ds

  pub changes-append :
      (past ds es : List (SignalDump W))
      → changes past (ds ++ es) ≡ changes past ds ++ changes (onto past ds) es
  changes-append past [] es = refl
  changes-append past (d ∷ ds) es =
      ap (λ t. change past d ++ t) (changes-append (d ∷ past) ds es)
      ∙ sym (append_assoc (change past d) (changes (d ∷ past) ds) _)

  pub onto-append :
      (past ds es : List (SignalDump W)) → onto past (ds ++ es) ≡ onto (onto past ds) es
  onto-append past [] es = refl
  onto-append past (d ∷ ds) es = onto-append (d ∷ past) ds es

module _ {W S : Type 0} where
  abbrev pub signal_of : Recorded W S → Option (SignalDump W)
  signal_of (signal at s) = some (from_signal s)
  signal_of _ = none

  abbrev pub change_of : Recorded W S → Option Change
  change_of (transition at kind before level s) = some (kind, (before, level))
  change_of _ = none

  abbrev pub signals : List (Recorded W S) → List (SignalDump W)
  signals rs = filter_map signal_of rs

  abbrev pub transitions : List (Recorded W S) → List Change
  transitions rs = filter_map change_of rs

-- The transitions recorded so far are the changes of the signals recorded so far, and the levels
-- that are kept are the last ones.
pub record IsConsistent {P X W S : Type 0} (m : Simulator P X W S) : Type 0 where
  pub recorded : transitions m.trajectory ≡ changes [] (signals m.trajectory)
  pub latest :
      (kind : String)
      → get m.last_signal_levels kind ≡ last_level (onto [] (signals m.trajectory)) kind

-- A later state with the same transitions, signals and levels.
pub record Keeps {P X W S : Type 0} (m n : Simulator P X W S) : Type 0 where
  pub transitions_same : transitions n.trajectory ≡ transitions m.trajectory
  pub signals_same : signals n.trajectory ≡ signals m.trajectory
  pub levels_same : n.last_signal_levels ≡ m.last_signal_levels

module _ {P X W S : Type 0} where
  pub keeps-IsConsistent : {m n : Simulator P X W S} → Keeps m n → IsConsistent m → IsConsistent n
  keeps-IsConsistent k c = record {
    recorded = rw (k.transitions_same, k.signals_same) c.recorded;
    latest = λ kind. rw (k.levels_same, k.signals_same) (c.latest kind);
  }

  pub then_keeps : {l m n : Simulator P X W S} → Keeps l m → Keeps m n → Keeps l n
  then_keeps a b = record {
    transitions_same = b.transitions_same ∙ a.transitions_same;
    signals_same = b.signals_same ∙ a.signals_same;
    levels_same = b.levels_same ∙ a.levels_same;
  }

  -- Nothing is recorded.
  pub same :
      (m n : Simulator P X W S)
      → n.trajectory ≡ m.trajectory
      → n.last_signal_levels ≡ m.last_signal_levels
      → Keeps m n
  same m n t l = record {
    transitions_same = ap transitions t;
    signals_same = ap signals t;
    levels_same = l;
  }

  -- An entry that is neither a signal nor a transition.
  pub pushed :
      (m n : Simulator P X W S) (e : Recorded W S)
      → change_of e ≡ none
      → signal_of e ≡ none
      → n.trajectory ≡ m.trajectory ++ (e ∷ [])
      → n.last_signal_levels ≡ m.last_signal_levels
      → Keeps m n
  unfolding filter_map
  pushed m n e c s t l = record {
    transitions_same =
        ap transitions t
        ∙ filter_map-append change_of m.trajectory (e ∷ [])
        ∙ rw c (append-nil (transitions m.trajectory));
    signals_same =
        ap signals t
        ∙ filter_map-append signal_of m.trajectory (e ∷ [])
        ∙ rw s (append-nil (signals m.trajectory));
    levels_same = l;
  }
