-- ===== src/Examples/Channel.antt =====
-- The channel with one-byte messages.
use argus_manager.Prelude.{ℕ, ◌≡◌, refl, true, false, Option, none, some, List, [], ◌∷◌, arith}
use argus_manager.Channel.{listening, client, would_block, Turn, wait_for_client}
use argus_manager.Channel.Frame.{spawn_reader}
use argus_manager.Channel.Frame.Stream.{stream, spawn_reader-stream}
use argus_manager.Channel.Reconnect.{Event, emit, recv, run, wait_for_client_gives_up}

-- A message is its byte.
abbrev decode : List ℕ → Option ℕ
decode (b ∷ []) = some b
decode _ = none

abbrev encode : ℕ → List ℕ
encode b = b ∷ []

abbrev waits : List Turn
waits =
    record { shutdown = false; accept = would_block; timed_out = false }
    ∷ record { shutdown = false; accept = would_block; timed_out = true }
    ∷ []

abbrev later : List (Event ℕ)
later = emit (1 ∷ []) (client true) true ∷ recv ∷ []

spawn_reader-stream_example : spawn_reader decode (stream decode encode (3 ∷ 9 ∷ [])) ≡ 3 ∷ 9 ∷ []
spawn_reader-stream_example =
    spawn_reader-stream decode encode (3 ∷ 9 ∷ []) ((omega arith, refl), ((omega arith, refl), tt))

wait_for_client_gives_up_example : run (wait_for_client {M = ℕ} listening waits).0 later ≡ listening
unfolding wait_for_client
wait_for_client_gives_up_example = wait_for_client_gives_up waits later refl
