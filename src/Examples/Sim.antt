-- ===== src/Examples/Sim.antt =====
-- The virtual clock with numbers for the kinds of events.
use mathlib.Core.List.{Permᴰ}
use argus_manager.Prelude.{ℕ, ◌≡◌, List, [], ◌∷◌, arith}
use argus_manager.Sim.Clock.{VirtualClock, new, drain_until, schedule_periodic, schedule_from}
use argus_manager.Sim.Clock.Drain.{Operation, add, take, wait, run, IsSplit, drain_until-IsSplit}
use argus_manager.Sim.Clock.Periodic.{stamps, schedule_periodic-entries}

abbrev uses : List (Operation ℕ)
uses = add 7 500 ∷ add 8 1000 ∷ add 9 300 ∷ take 400 ∷ wait 400 ∷ add 5 500 ∷ []

drain_until-IsSplit_example :
    let c : VirtualClock ℕ = run new uses in
    IsSplit 600 c.events (drain_until c 600).1 (drain_until c 600).0.events
drain_until-IsSplit_example = drain_until-IsSplit uses 600

abbrev used : VirtualClock ℕ
used = run new uses

-- Four events of the kind 1 up to a second, and those that were scheduled before.
schedule_periodic-entries_example :
    Permᴰ
      (stamps (schedule_from 1001 used 1 250 250 1000).events)
      ((250, 1) ∷ (500, 1) ∷ (750, 1) ∷ (1000, 1) ∷ stamps used.events)
    × (schedule_from 1001 used 1 250 250 1000 ≡ schedule_periodic used 1 250 250 1000)
schedule_periodic-entries_example =
    schedule_periodic-entries {K = ℕ} used 1 250 250 1000 1001 (omega arith) (omega arith)
