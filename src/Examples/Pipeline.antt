-- ===== src/Examples/Pipeline.antt =====
-- The pipeline at concrete directives.
use argus_manager.Prelude.{some, List, [], ◌∷◌}
use argus_manager.Float.{nat}
use argus_manager.Float.Fixed.{Fixed, fixed_float}
use argus_manager.Contract.{EngineDirective, suspend, resume}
use argus_manager.Pipeline.{DirectiveDeduplicator}
use argus_manager.Pipeline.Dedup.{process_all, process_all-Spaced, Spaced}

-- `suspend` was sent at 5 s.
abbrev sent : DirectiveDeduplicator Fixed Fixed
sent = record {
  last_commands = some (suspend ∷ []);
  last_sent_at = some (nat 5);
  cooldown_secs = nat 60;
}

abbrev pause : EngineDirective Fixed
pause = record { seq_id = 2; commands = suspend ∷ [] }

abbrev go : EngineDirective Fixed
go = record { seq_id = 3; commands = resume ∷ [] }

abbrev feed : List (EngineDirective Fixed × Fixed)
feed = (pause, nat 6) ∷ (go, nat 7) ∷ (go, nat 8) ∷ (pause, nat 90) ∷ []

process_all-Spaced_example :
    Spaced sent.cooldown_secs sent.last_commands sent.last_sent_at (process_all sent feed)
process_all-Spaced_example = process_all-Spaced sent feed
