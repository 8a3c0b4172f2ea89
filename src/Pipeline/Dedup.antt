-- ===== src/Pipeline/Dedup.antt =====
-- What the suppression of src/pipeline.rs promises over a history of directives.
use mathlib.Core.Path.{subst₃}
use argus_manager.Prelude.{
  ◌≡◌, ap, ◌⊎◌, inl, inr, true, false, Option, none, some, List, [], ◌∷◌, arith,
}
use argus_manager.Float.{Float}
use argus_manager.Contract.{EngineCommand, EngineDirective}
use argus_manager.Pipeline.{DirectiveDeduplicator, process, is_dup, cooldown_elapsed}

module _ {W S : Type 0} ⦃f : Float W⦄ ⦃g : Float S⦄ where
  -- A directive is suppressed exactly when its commands equal those sent last and the cooldown
  -- since then has not run out. A suppressed directive leaves the state as it was; any other is
  -- passed on unchanged and recorded with its time.
  pub process_cases :
      (d : DirectiveDeduplicator W S) (x : EngineDirective S) (now : W)
      → ((is_dup d.last_commands x.commands ≡ true)
          × (cooldown_elapsed d.cooldown_secs d.last_sent_at now ≡ false)
          × (process d x now ≡ (d, none)))
        ⊎ (((is_dup d.last_commands x.commands ≡ false)
              ⊎ (cooldown_elapsed d.cooldown_secs d.last_sent_at now ≡ true))
            × ((process d x now).1 ≡ some x)
            × ((process d x now).0.last_commands ≡ some (x.commands))
            × ((process d x now).0.last_sent_at ≡ some now)
            × ((process d x now).0.cooldown_secs ≡ d.cooldown_secs))
  unfolding process
  process_cases d x now = ground arith

  abbrev pub consed :
      Option (EngineDirective S) → W → List (EngineDirective S × W) → List (EngineDirective S × W)
  consed none now rest = rest
  consed (some y) now rest = (y, now) ∷ rest

  -- What is sent of a list of directives with their times.
  abbrev pub process_all :
      DirectiveDeduplicator W S → List (EngineDirective S × W) → List (EngineDirective S × W)
  process_all d [] = []
  process_all d ((x, now) ∷ r) =
      let (d', out) = process d x now in consed out now (process_all d' r)

  -- Each entry differs from the one before it or comes after the cooldown.
  abbrev pub Spaced :
      W → Option (List (EngineCommand S)) → Option W → List (EngineDirective S × W) → Type 0
  Spaced cooldown last at [] = Unit {0}
  Spaced cooldown last at ((x, now) ∷ r) =
      ((is_dup last x.commands ≡ false) ⊎ (cooldown_elapsed cooldown at now ≡ true))
      × Spaced cooldown (some (x.commands)) (some now) r

  pub moved :
      {c c' : W} {l l' : Option (List (EngineCommand S))} {a a' : Option W}
      (xs : List (EngineDirective S × W))
      → c ≡ c'
      → l ≡ l'
      → a ≡ a'
      → Spaced c l a xs
      → Spaced c' l' a' xs
  moved xs p q r = subst₃ (λ c l a. Spaced c l a xs) p q r

  -- Whatever directives come at whatever times, two that are sent one after the other differ in
  -- their commands, or the second comes at least the cooldown after the first.
  pub process_all-Spaced :
      (d : DirectiveDeduplicator W S) (xs : List (EngineDirective S × W))
      → Spaced d.cooldown_secs d.last_commands d.last_sent_at (process_all d xs)
  process_all-Spaced d [] = tt
  process_all-Spaced d ((x, now) ∷ r) =
      let rest = process_all-Spaced (process d x now).0 r in
      elim (process_cases d x now) [
        | inl (_, _, e) ↦ rw (ap (λ p. p.1) e) (
            moved _ (ap (λ p. p.0.cooldown_secs) e) (ap (λ p. p.0.last_commands) e)
              (ap (λ p. p.0.last_sent_at) e) rest)
        | inr (fit, out, last, at, cd) ↦ rw out (fit, moved _ cd last at rest)
      ]
