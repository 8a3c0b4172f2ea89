-- ===== src/Examples/Mock.antt =====
-- The mock engine and the mock manager with two-letter messages.
use argus_manager.Prelude.{
  ℕ, ◌≡◌, refl, inr, true, false, Option, none, some, List, [], ◌∷◌, ◌++◌, arith, ◌==◌,
  if◌then◌else◌,
}
use argus_manager.Prelude.Int.{◌/ℤ◌, ◌*ℤ◌, ◌-ℤ◌}
use argus_manager.Float.Fixed.{Fixed, fixed_float, Fixed-IsIeee}
use argus_manager.Contract.{
  EngineCommand, kv_compress, suspend, EngineDirective, ok, CommandResponse, EngineStatus,
  EngineMessage, heartbeat, response, ManagerMessage, directive,
}
use argus_manager.Channel.Frame.{frame}
use argus_manager.Mock.Wire.{Arrival}
use argus_manager.Mock.Engine.{MockState, new, status, apply, apply_all, Protocol, EngineTurn, turn}
use argus_manager.Mock.Engine.Occupancy.{IsOccupancy, apply_all-IsOccupancy}
use argus_manager.Mock.Manager.{found, validate_response, recv_response_skip_heartbeats}
use argus_manager.Mock.Manager.Scenario.{
  ScenarioTurn, run_scenario, asked, Follows, run_scenario-Follows,
}
use argus_manager.Mock.Exchange.{beats, exchange}

abbrev half : Fixed
half = fixed_float.lit 1 2

abbrev engine : MockState Fixed
unfolding new
engine = new half "opencl"

abbrev commands : List (EngineCommand Fixed)
commands = kv_compress half ∷ suspend ∷ []

apply_all-IsOccupancy_example : IsOccupancy half (apply_all engine commands).0.kv_occupancy
unfolding engine
apply_all-IsOccupancy_example =
    apply_all-IsOccupancy Fixed-IsIeee half engine commands (inr (refl, refl))

abbrev d : EngineDirective Fixed
d = record { seq_id = 5; commands = commands }

abbrev answered : CommandResponse Fixed
answered = record { seq_id = 5; results = ok ∷ ok ∷ [] }

abbrev sends : ManagerMessage Fixed → List ℕ
sends m = 9 ∷ []

abbrev receives : List ℕ → Option (ManagerMessage Fixed)
receives json = some (directive d)

abbrev encode : EngineMessage Fixed → List ℕ
encode (heartbeat s) = 1 ∷ []
encode (response r) = 2 ∷ []

abbrev beat : EngineStatus Fixed
unfolding status
beat = status engine

abbrev decode : List ℕ → Option (EngineMessage Fixed)
decode (b ∷ json) = if b == 1 then some (heartbeat beat) else some (response answered)
decode [] = none

abbrev start : Protocol Fixed
start = record { engine = engine; directives_received = 0; buffer = []; written = [] }

abbrev engine_turn : EngineTurn
unfolding frame
engine_turn = record {
  due = false;
  heartbeat_ok = true;
  arrival = record { bytes = frame (9 ∷ []); closed = false };
  response_ok = true;
}

abbrev quiet : Arrival
quiet = record { bytes = []; closed = false }

exchange_example :
    (r : CommandResponse Fixed) × (rest : List ℕ) × (turn encode receives start engine_turn
      ≡ some record {
        engine = (apply_all engine commands).0;
        directives_received = 1;
        buffer = [];
        written = frame (encode (response r));
      })
    × (recv_response_skip_heartbeats decode
          (beats encode decode (beat ∷ []) ++ (frame (encode (response r)) ++ []))
          (quiet ∷ quiet ∷ [])
        ≡ found r rest)
    × (validate_response 5 r 2 ≡ true)
unfolding apply_all apply engine_turn beat engine ◌/ℤ◌ ◌*ℤ◌ ◌-ℤ◌
exchange_example =
    exchange encode decode sends receives start d engine_turn refl refl refl refl
      (omega arith, refl) (beat ∷ []) [] (quiet ∷ quiet ∷ []) ((omega arith, refl), tt)
      (omega arith, refl) (omega arith)

abbrev scenario : List (ScenarioTurn Fixed)
scenario =
    record {
      entry = record { delay_ms = 0; command = "Suspend"; keep_ratio = none };
      delayed = [];
      write_ok = true;
      answers = quiet ∷ [];
    }
    ∷ record {
      entry = record { delay_ms = 5; command = "KvCompress"; keep_ratio = none };
      delayed = quiet ∷ [];
      write_ok = true;
      answers = [];
    }
    ∷ []

run_scenario-Follows_example :
    Follows decode 0 (run_scenario decode scenario) (asked decode scenario)
run_scenario-Follows_example = run_scenario-Follows decode scenario (omega arith)
