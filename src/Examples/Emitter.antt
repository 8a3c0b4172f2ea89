-- ===== src/Examples/Emitter.antt =====
-- A client of the emitter of src/emitter/unix_socket.rs that is lost, and another one.
use argus_manager.Prelude.{ℕ, refl, true, false, none, List, [], ◌∷◌, map}
use argus_manager.Channel.{client, would_block}
use argus_manager.Emitter.{Answer, emit_all}
use argus_manager.Emitter.Sessions.{Session, IsSuffix}
use argus_manager.Emitter.UnixSocket.{UnixSocketEmitter, unix_socket_emitter}
use argus_manager.Emitter.Runs.{emit_all-IsSuffix}

abbrev emissions : List (List ℕ × Answer)
emissions =
    (1 ∷ [], record { accept = client true; write_ok = true })
    ∷ (2 ∷ [], record { accept = would_block; write_ok = false })
    ∷ (3 ∷ [], record { accept = client true; write_ok = true })
    ∷ (4 ∷ [], record { accept = would_block; write_ok = true })
    ∷ []

abbrev lone : UnixSocketEmitter
lone = record { client = none }

emit_all-IsSuffix_example :
    (b : Session) × unix_socket_emitter.Shows (emit_all lone emissions) b
    × IsSuffix (map (λ m. m.0) emissions) b
emit_all-IsSuffix_example = emit_all-IsSuffix lone emissions refl
