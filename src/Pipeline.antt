-- ===== src/Pipeline.antt =====
-- src/pipeline.rs: the counter of sequence numbers and the suppression of repeated directives.
-- `W` is `f64`, `S` is `f32`; the counter is a `u64` that wraps.
pub mod Dedup
use argus_manager.Prelude.{
  ℕ, ◌+◌, ◌%◌, ◌^◌, Bool, false, ◌&&◌, not, Option, none, some, List, if◌then◌else◌,
}
use argus_manager.Float.{Float, fle, nat}
use argus_manager.Contract.{EngineCommand, EngineDirective, commands_eq}

abbrev pub first_seq : ℕ
first_seq = 1

-- The number handed out, and the counter after it.
unfoldable pub next_seq_id : ℕ → ℕ × ℕ
next_seq_id counter = (counter, (counter + 1) % 2 ^ 64)

pub record DirectiveDeduplicator (W S : Type 0) : Type 0 where
  pub last_commands : Option (List (EngineCommand S))
  pub last_sent_at : Option W
  pub cooldown_secs : W

-- `last_commands.as_ref() == Some(&directive.commands)`
abbrev pub is_dup :
    {S : Type 0} ⦃g : Float S⦄ → Option (List (EngineCommand S)) → List (EngineCommand S) → Bool
is_dup none commands = false
is_dup (some last) commands = commands_eq last commands

abbrev pub cooldown_elapsed : {W : Type 0} ⦃f : Float W⦄ → W → Option W → W → Bool
cooldown_elapsed cooldown none now = false
cooldown_elapsed ⦃f⦄ cooldown (some t) now = fle cooldown (f.sub now t)

module _ {W S : Type 0} ⦃f : Float W⦄ ⦃g : Float S⦄ where
  unfoldable pub with_cooldown : W → DirectiveDeduplicator W S
  with_cooldown cooldown_secs = record {
    last_commands = none;
    last_sent_at = none;
    cooldown_secs = cooldown_secs;
  }

  unfoldable pub new : DirectiveDeduplicator W S
  unfolding with_cooldown
  new = with_cooldown (nat 60)

  unfoldable pub process :
      DirectiveDeduplicator W S
      → EngineDirective S
      → W
      → DirectiveDeduplicator W S × Option (EngineDirective S)
  process d directive now_secs =
      let suppress =
        is_dup d.last_commands directive.commands
        && not (cooldown_elapsed d.cooldown_secs d.last_sent_at now_secs) in
      if suppress then (d, none) else (
        record d { last_commands = some (directive.commands); last_sent_at = some now_secs },
        some directive,
      )
