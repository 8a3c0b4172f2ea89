-- ===== src/Mock/Manager/Scenario.antt =====
-- `run_single_command` and `run_scenario` of src/bin/mock_manager.rs. A scenario is a list of turns:
-- an entry of the file, and what the manager meets while it plays it.
use Prim.Native.String.{String}
use argus_manager.Prelude.{
  ℕ, suc, ◌+◌, ◌%◌, ◌^◌, ◌<◌, ◌≡◌, refl, ap, Bool, true, false, Option, none, some, List, [], ◌∷◌,
  ◌++◌, map, length, arith, if◌then◌else◌,
}
use argus_manager.Contract.{EngineCommand, CommandResponse, EngineMessage, EngineDirective}
use argus_manager.Mock.Wire.{Received, idle, message, broken, Arrival, recv_message}
use argus_manager.Mock.Manager.{
  CommandParams, build_command, validate_response, Outcome, found, timed_out, failed,
  recv_response_skip_heartbeats,
}

pub record ScenarioCommand (S : Type 0) : Type 0 where
  pub delay_ms : ℕ
  pub command : String
  pub keep_ratio : Option S

-- What arrives while the entry is delayed, whether the write succeeds, and what arrives after it.
pub record ScenarioTurn (S : Type 0) : Type 0 where
  pub entry : ScenarioCommand S
  pub delayed : List Arrival
  pub write_ok : Bool
  pub answers : List Arrival

-- What is written, with each answer's verdict (none for a timeout), and whether all was played.
pub record Played (S : Type 0) : Type 0 where
  pub sent : List (EngineDirective S)
  pub verdicts : List (Option Bool)
  pub completed : Bool

module _ {S : Type 0} (decode : List ℕ → Option (EngineMessage S)) where
  abbrev left_over : Received (EngineMessage S) → List ℕ
  left_over idle = []
  left_over (message m rest) = rest
  left_over (broken rest) = rest

  -- The loop during a delay ignores errors as well.
  unfoldable pub drain_delay : List ℕ → List Arrival → List ℕ
  drain_delay stream [] = stream
  drain_delay stream (a ∷ later) =
      drain_delay (left_over (recv_message decode a.closed (stream ++ a.bytes))) later

  abbrev pub nothing_played : Played S
  nothing_played = record { sent = []; verdicts = []; completed = false }

  abbrev pub one_directive : ℕ → EngineCommand S → EngineDirective S
  one_directive seq_id c = record { seq_id = seq_id; commands = c ∷ [] }

  -- `run_single_command`: a turn whose entry comes from the command line.
  unfoldable pub run_single_command : CommandParams S → List ℕ → Bool → List Arrival → Played S
  run_single_command p stream write_ok answers = elim (build_command p) [
    | none ↦ nothing_played
    | some c ↦
        if write_ok
        then elim (recv_response_skip_heartbeats decode stream answers) [
          | found r rest ↦ record {
            sent = one_directive 1 c ∷ [];
            verdicts = some (validate_response 1 r 1) ∷ [];
            completed = true;
          }
          | timed_out rest ↦ record {
            sent = one_directive 1 c ∷ [];
            verdicts = none ∷ [];
            completed = true;
          }
          | failed ↦ record { sent = one_directive 1 c ∷ []; verdicts = []; completed = false }
        ]
        else nothing_played
  ]

  abbrev pub entry_params : ScenarioCommand S → CommandParams S
  entry_params e = record { name = e.command; keep_ratio = e.keep_ratio; every = none; on = none }

  abbrev pub after : EngineDirective S → Option Bool → Played S → Played S
  after d verdict p = record {
    sent = d ∷ p.sent;
    verdicts = verdict ∷ p.verdicts;
    completed = p.completed;
  }

  abbrev continued :
      (List ℕ → Played S) → ℕ → EngineCommand S → Outcome (CommandResponse S) → Played S
  continued next number c (found r rest) =
      after (one_directive number c) (some (validate_response number r 1)) (next rest)
  continued next number c (timed_out rest) = after (one_directive number c) none (next rest)
  continued next number c failed = record {
    sent = one_directive number c ∷ [];
    verdicts = [];
    completed = false;
  }

  abbrev sent_one :
      (List ℕ → Played S)
      → ℕ
      → Bool
      → Outcome (CommandResponse S)
      → Option (EngineCommand S)
      → Played S
  sent_one next number write_ok outcome none = nothing_played
  sent_one next number write_ok outcome (some c) =
      if write_ok then continued next number c outcome else nothing_played

  -- The loop of `run_scenario`, with the number used last. A delay of 0 reads nothing.
  unfoldable pub play : List ℕ → ℕ → List (ScenarioTurn S) → Played S
  play stream seq_id [] = record { sent = []; verdicts = []; completed = true }
  play stream seq_id (t ∷ ts) =
      let number = (seq_id + 1) % 2 ^ 64 in
      let drained = drain_delay stream t.delayed in
      sent_one (λ rest. play rest number ts) number t.write_ok
        (recv_response_skip_heartbeats decode drained t.answers)
        (build_command (entry_params t.entry))

  unfoldable pub run_scenario : List (ScenarioTurn S) → Played S
  run_scenario ts = play [] 0 ts

  abbrev pub sent_command : EngineDirective S → Option (EngineCommand S)
  sent_command d = elim d.commands [ [] ↦ none | c ∷ cs ↦ some c ]

  -- Each directive carries one command and the next number.
  abbrev pub Numbered : ℕ → List (EngineDirective S) → Type 0
  Numbered n [] = Unit {0}
  Numbered n (d ∷ ds) = (d.seq_id ≡ suc n) × (length d.commands ≡ 1) × Numbered (suc n) ds

  -- The directives carry the commands asked for, in order, from the first on; all of them if all
  -- was played.
  abbrev pub Follows : ℕ → Played S → List (Option (EngineCommand S)) → Type 0
  Follows n p cs =
      Numbered n p.sent
      × ((rest : List (Option (EngineCommand S))) × (cs ≡ map sent_command p.sent ++ rest))
      × (p.completed ≡ true → cs ≡ map sent_command p.sent)

  -- The commands that the file asks for, in the order of its entries.
  abbrev pub asked : List (ScenarioTurn S) → List (Option (EngineCommand S))
  asked ts = map (λ t. build_command (entry_params t.entry)) ts

  follows :
      (p : Played S) (n : ℕ) (c : EngineCommand S) (later : List (Option (EngineCommand S)))
      → suc n < 2 ^ 64
      → Follows (suc n) p later
      → (verdict : Option Bool)
      → Follows n (after (one_directive ((n + 1) % 2 ^ 64) c) verdict p) (some c ∷ later)
  follows p n c later b (numbered, (rest, e), all) verdict = (
    (omega arith, refl, numbered),
    (rest, ap (λ t. some c ∷ t) e),
    λ done. ap (λ t. some c ∷ t) (all done),
  )

  -- What one turn sends, if what follows it is right.
  sent_one-Numbered :
      (next : List ℕ → Played S) (n : ℕ) (write_ok : Bool) (outcome : Outcome (CommandResponse S))
      (built : Option (EngineCommand S)) (later : List (Option (EngineCommand S)))
      → suc n < 2 ^ 64
      → ((rest : List ℕ) → Follows (suc n) (next rest) later)
      → Follows n (sent_one next ((n + 1) % 2 ^ 64) write_ok outcome built) (built ∷ later)
  sent_one-Numbered next n ok outcome none later b h = (tt, (_, refl), λ e. cc)
  sent_one-Numbered next n false outcome (some c) later b h = (tt, (_, refl), λ e. cc)
  sent_one-Numbered next n true (found r rest) (some c) later b h =
      follows (next rest) n c later b (h rest) (some (validate_response ((n + 1) % 2 ^ 64) r 1))
  sent_one-Numbered next n true (timed_out rest) (some c) later b h =
      follows (next rest) n c later b (h rest) none
  sent_one-Numbered next n true failed (some c) later b h =
      ((omega arith, refl, tt), (later, refl), λ e. cc)

  play-Follows :
      (stream : List ℕ) (n : ℕ) (ts : List (ScenarioTurn S))
      → n + length ts < 2 ^ 64
      → Follows n (play stream n ts) (asked ts)
  unfolding play
  play-Follows stream n [] b = (tt, ([], refl), λ done. refl)
  play-Follows stream n (t ∷ ts) b =
      sent_one-Numbered (λ rest. play rest ((n + 1) % 2 ^ 64) ts) n t.write_ok
        (recv_response_skip_heartbeats decode (drain_delay stream t.delayed) t.answers)
        (build_command (entry_params t.entry)) (asked ts) (omega arith)
        (λ rest.
          (let e : (n + 1) % 2 ^ 64 ≡ suc n = omega arith in
            rw e (play-Follows rest (suc n) ts (omega arith))))

  -- Whatever arrives and whatever fails: the directives that a scenario sends carry the commands of
  -- its entries, in order, from the first entry on and none twice, one command each, with the
  -- numbers 1, 2, ...; and if the scenario is completed, every entry named a command and all were
  -- sent. The scenario has less than 2^64 entries.
  pub run_scenario-Follows :
      (ts : List (ScenarioTurn S)) → length ts < 2 ^ 64 → Follows 0 (run_scenario ts) (asked ts)
  unfolding run_scenario
  run_scenario-Follows ts b = play-Follows [] 0 ts (omega (arith, b))
