-- ===== src/Emitter/UnixSocket.antt =====
-- src/emitter/unix_socket.rs: the emitter that only sends. The client's stream is the list of the
-- bytes written to it.
use argus_manager.Prelude.{
  ℕ, ◌≡◌, refl, Bool, true, false, Option, none, some, List, [], ◌∷◌, ◌++◌, ap, sym, ◌∙◌,
  if◌then◌else◌, append-nil,
}
use mathlib.Core.Option.{some-injective}
use argus_manager.Channel.{Accept, Turn, would_block, failed}
use argus_manager.Channel.Frame.{frame}
use argus_manager.Emitter.{Emitter, Answer}
use argus_manager.Emitter.Sessions.{Session, Sends, dropped, lost, found, sends, bytes, bytes-snoc}

pub record UnixSocketEmitter : Type 0 where
  pub client : Option (List ℕ)

abbrev pub accept_client : Option (List ℕ) → Accept → Option (List ℕ)
accept_client (some stream) a = some stream
accept_client none (Accept.client cloned) = some []
accept_client none would_block = none
accept_client none failed = none

-- `wait_for_client`, after the turns so far; see the channel's for the meaning of a turn.
unfoldable pub wait_for_client : UnixSocketEmitter → List Turn → UnixSocketEmitter × Option Bool
wait_for_client e [] = (e, none)
wait_for_client e (t ∷ ts) =
    let rest = wait_for_client e ts in
    if t.shutdown then (e, some false) else elim t.accept [
      | Accept.client cloned ↦ (record { client = some [] }, some true)
      | would_block ↦ if t.timed_out then (e, some false) else rest
      | failed ↦ (e, some false)
    ]

-- The emitter, which has a client afterwards if the source's function returns true.
unfoldable pub try_accept_client : UnixSocketEmitter → Accept → UnixSocketEmitter
try_accept_client e a = record { client = accept_client e.client a }

-- `write_signal` or `write_manager_message`, and what the caller makes of its error.
abbrev pub write : Option (List ℕ) → List ℕ → Bool → Option (List ℕ)
write none json ok = none
write (some stream) json ok = if ok then some (stream ++ frame json) else none

unfoldable pub emit : UnixSocketEmitter → List ℕ → Answer → UnixSocketEmitter
emit e json w = record { client = write (try_accept_client e w.accept).client json w.write_ok }

abbrev pub ShowsSession : UnixSocketEmitter → Session → Type 0
ShowsSession e none = e.client ≡ none
ShowsSession e (some sent) = e.client ≡ some (bytes sent)

accepts :
    (stream : Option (List ℕ)) (a : Session) (json : List ℕ) (accept : Accept) (ok : Bool)
    → ShowsSession (record { client = stream }) a
    → (b : Session) × Sends a json b
      × ShowsSession (record { client = write (accept_client stream accept) json ok }) b
accepts none none json (Accept.client cloned) true h =
    (some (json ∷ []), found refl, ap some (sym (append-nil (frame json))))
accepts none none json (Accept.client cloned) false h = (none, dropped, refl)
accepts none none json would_block ok h = (none, dropped, refl)
accepts none none json failed ok h = (none, dropped, refl)
accepts (some stream) (some sent) json accept true h = (
  some (sent ++ (json ∷ [])),
  sends refl,
  ap some (
      ap (λ t. t ++ frame json) (some-injective stream (bytes sent) h)
      ∙ sym (bytes-snoc sent json)),
)
accepts (some stream) (some sent) json accept false h = (none, lost, refl)
accepts none (some sent) json accept ok h = cc
accepts (some stream) none json accept ok h = cc

pub refines :
    (e : UnixSocketEmitter) (a : Session) (json : List ℕ) (w : Answer)
    → ShowsSession e a
    → (b : Session) × Sends a json b × ShowsSession (emit e json w) b
unfolding emit try_accept_client
refines e a json w h = accepts e.client a json w.accept w.write_ok h

instance abbrev pub unix_socket_emitter : Emitter UnixSocketEmitter
unix_socket_emitter = record { emit = emit; Shows = ShowsSession; emit_refines = refines }
