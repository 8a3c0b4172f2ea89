-- ===== src/Sim/Harness/Sends.antt =====
-- The directives among what src/sim/harness.rs records, as the deduplicator lets them through.
use argus_manager.Prelude.{
  ◌^◌, ◌≡◌, refl, sym, ap, ◌∙◌, Option, none, some, List, [], ◌∷◌, ◌++◌, append_assoc, append-nil,
}
use argus_manager.Float.{Float}
use argus_manager.Contract.{EngineDirective}
use argus_manager.Pipeline.{DirectiveDeduplicator, process}
use argus_manager.Pipeline.Dedup.{process_all, consed}
use argus_manager.Sim.Trajectory.{
  Recorded, heartbeat, directive, signal, observation, injection, custom, overrun, transition,
  snapshot,
}
use argus_manager.Sim.Harness.{Simulator}

module _ {W S : Type 0} ⦃f : Float W⦄ ⦃g : Float S⦄ where
  -- The directives of a trajectory, with their times.
  abbrev pub directives : List (Recorded W S) → List (EngineDirective S × W)
  directives [] = []
  directives (directive at s d ∷ l) = (d, f.div (f.of_nat at) (f.of_nat (10 ^ 9))) ∷ directives l
  directives (heartbeat at m ∷ l) = directives l
  directives (signal at s ∷ l) = directives l
  directives (observation at a r ∷ l) = directives l
  directives (injection at n b ∷ l) = directives l
  directives (custom at n ∷ l) = directives l
  directives (overrun at n ∷ l) = directives l
  directives (transition at k b n s ∷ l) = directives l
  directives (snapshot at s e ∷ l) = directives l

  pub directives-append :
      (l k : List (Recorded W S)) → directives (l ++ k) ≡ directives l ++ directives k
  directives-append [] k = refl
  directives-append (directive at s d ∷ l) k =
      ap (λ t. (d, f.div (f.of_nat at) (f.of_nat (10 ^ 9))) ∷ t) (directives-append l k)
  directives-append (heartbeat at m ∷ l) k = directives-append l k
  directives-append (signal at s ∷ l) k = directives-append l k
  directives-append (observation at a r ∷ l) k = directives-append l k
  directives-append (injection at n b ∷ l) k = directives-append l k
  directives-append (custom at n ∷ l) k = directives-append l k
  directives-append (overrun at n ∷ l) k = directives-append l k
  directives-append (transition at j b n s ∷ l) k = directives-append l k
  directives-append (snapshot at s e ∷ l) k = directives-append l k

  -- The deduplicator after a list of directives.
  abbrev pub after_all :
      DirectiveDeduplicator W S → List (EngineDirective S × W) → DirectiveDeduplicator W S
  after_all d [] = d
  after_all d ((x, now) ∷ r) = after_all (process d x now).0 r

  consed-append :
      (out : Option (EngineDirective S)) (now : W) (xs ys : List (EngineDirective S × W))
      → consed out now (xs ++ ys) ≡ consed out now xs ++ ys
  consed-append none now xs ys = refl
  consed-append (some y) now xs ys = refl

  process_all-append :
      (d : DirectiveDeduplicator W S) (xs ys : List (EngineDirective S × W))
      → process_all d (xs ++ ys) ≡ process_all d xs ++ process_all (after_all d xs) ys
  process_all-append d [] ys = refl
  process_all-append d ((x, now) ∷ r) ys =
      ap (consed (process d x now).1 now) (process_all-append (process d x now).0 r ys)
      ∙ consed-append (process d x now).1 now (process_all (process d x now).0 r) _

  after_all-append :
      (d : DirectiveDeduplicator W S) (xs ys : List (EngineDirective S × W))
      → after_all d (xs ++ ys) ≡ after_all (after_all d xs) ys
  after_all-append d [] ys = refl
  after_all-append d ((x, now) ∷ r) ys = after_all-append (process d x now).0 r ys

-- From one state of the simulator to a later one: the tick is the same, and what has been sent since
-- is what the deduplicator makes of some directives of the policy.
pub record Sends {P X W S : Type 0} ⦃f : Float W⦄ ⦃g : Float S⦄ (m n : Simulator P X W S)
    : Type 0 where
  pub tick_dt : n.tick_dt ≡ m.tick_dt
  pub proposed : List (EngineDirective S × W)
  pub sent : directives n.trajectory ≡ directives m.trajectory ++ process_all m.dedup proposed
  pub dedup : n.dedup ≡ after_all m.dedup proposed

-- The time is the same as well.
pub record Follows {P X W S : Type 0} ⦃f : Float W⦄ ⦃g : Float S⦄ (m n : Simulator P X W S)
    : Type 0 where
  pub now : n.clock.now ≡ m.clock.now
  pub sends : Sends m n

module _ {P X W S : Type 0} ⦃f : Float W⦄ ⦃g : Float S⦄ where
  -- Nothing was proposed.
  pub quiet :
      (m n : Simulator P X W S)
      → n.clock.now ≡ m.clock.now
      → n.tick_dt ≡ m.tick_dt
      → directives n.trajectory ≡ directives m.trajectory
      → n.dedup ≡ m.dedup
      → Follows m n
  quiet m n now dt e d = record {
    now = now;
    sends = record {
      tick_dt = dt;
      proposed = [];
      sent = e ∙ sym (append-nil (directives m.trajectory));
      dedup = d;
    };
  }

  pub then_sends : {m n k : Simulator P X W S} → Sends m n → Sends n k → Sends m k
  then_sends {m = m} {n = n} {k = k} a b = record {
    tick_dt = b.tick_dt ∙ a.tick_dt;
    proposed = a.proposed ++ b.proposed;
    sent =
        b.sent
        ∙ ap (λ t. t ++ process_all n.dedup b.proposed) a.sent
        ∙ append_assoc (directives m.trajectory) (process_all m.dedup a.proposed)
            (process_all n.dedup b.proposed)
        ∙ ap
            (λ d.
              directives m.trajectory
              ++ (process_all m.dedup a.proposed ++ process_all d b.proposed))
            a.dedup
        ∙ ap (λ t. directives m.trajectory ++ t)
            (sym (process_all-append m.dedup a.proposed b.proposed));
    dedup =
        b.dedup
        ∙ ap (λ d. after_all d b.proposed) a.dedup
        ∙ sym (after_all-append m.dedup a.proposed b.proposed);
  }

  pub then : {m n k : Simulator P X W S} → Follows m n → Follows n k → Follows m k
  then a b = record { now = b.now ∙ a.now; sends = then_sends a.sends b.sends }
