-- ===== src/Sim/Clock.antt =====
-- src/sim/clock.rs. A `Duration` is its number of nanoseconds, and the kind of an event is a
-- parameter. The binary heap of the standard library is the list of its entries in the order in
-- which it gives them out: `push` puts an entry in its place, `peek` and `pop` take the first.
pub mod Drain
pub mod Periodic
use argus_manager.Prelude.{
  ℕ, zero, suc, ◌+◌, ◌%◌, ◌^◌, Bool, ◌&&◌, ◌||◌, List, [], ◌∷◌, length, ltb, leb, ◌==◌,
  if◌then◌else◌,
}

pub record ScheduledEvent (K : Type 0) : Type 0 where
  pub at : ℕ
  pub id : ℕ
  pub kind : K

pub record VirtualClock (K : Type 0) : Type 0 where
  pub now : ℕ
  pub events : List (ScheduledEvent K)
  pub next_id : ℕ

module _ {K : Type 0} where
  -- `cmp`: by time, then by id.
  abbrev pub before : ScheduledEvent K → ScheduledEvent K → Bool
  before a b = ltb a.at b.at || a.at == b.at && leb a.id b.id

  unfoldable pub push : ScheduledEvent K → List (ScheduledEvent K) → List (ScheduledEvent K)
  push e [] = e ∷ []
  push e (x ∷ xs) = let rest = push e xs in if before e x then e ∷ (x ∷ xs) else x ∷ rest

  abbrev pub new : VirtualClock K
  new = record { now = 0; events = []; next_id = 0 }

  -- The clock, and the id of the event.
  unfoldable pub schedule : VirtualClock K → K → ℕ → VirtualClock K × ℕ
  schedule c kind at = (
    record c {
      events = push record { at = at; id = c.next_id; kind = kind } c.events;
      next_id = (c.next_id + 1) % 2 ^ 64;
    },
    c.next_id,
  )

  -- The loop from the time t on. It does not end for a period of 0, so it runs on fuel.
  unfoldable pub schedule_from : ℕ → VirtualClock K → K → ℕ → ℕ → ℕ → VirtualClock K
  schedule_from zero c kind t period until = c
  schedule_from (suc n) c kind t period until =
      let rest = schedule_from n (schedule c kind t).0 kind (t + period) period until in
      if leb t until then rest else c

  unfoldable pub schedule_periodic : VirtualClock K → K → ℕ → ℕ → ℕ → VirtualClock K
  schedule_periodic c kind first period until = schedule_from (suc until) c kind first period until

  -- The events due, and those that stay.
  unfoldable pub pop_until :
      ℕ → List (ScheduledEvent K) → List (ScheduledEvent K) × List (ScheduledEvent K)
  pop_until target [] = ([], [])
  pop_until target (e ∷ es) =
      let (out, rest) = pop_until target es in
      if leb e.at target then (e ∷ out, rest) else ([], e ∷ es)

  -- The clock, and the events due.
  unfoldable pub drain_until : VirtualClock K → ℕ → VirtualClock K × List (ScheduledEvent K)
  drain_until c target =
      let (out, rest) = pop_until target c.events in (record c { events = rest }, out)

  unfoldable pub advance : VirtualClock K → ℕ → VirtualClock K
  advance c dt = record c { now = c.now + dt }

  abbrev pending : VirtualClock K → ℕ
  pending c = length c.events
