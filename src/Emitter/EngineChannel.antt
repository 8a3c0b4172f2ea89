-- ===== src/Emitter/EngineChannel.antt =====
-- The channel of src/channel/unix_socket.rs and src/channel/tcp.rs as an emitter.
use argus_manager.Prelude.{
  ℕ, ◌≡◌, refl, sym, ap, ◌∙◌, Bool, true, false, none, some, List, [], ◌∷◌, ◌++◌, append-nil,
}
use argus_manager.Channel.{
  ConnectionState, listening, connected, disconnected, Accept, client, would_block, failed,
  emit_directive, ensure_connected, transition_to_connected,
}
use argus_manager.Channel.Frame.{frame}
use argus_manager.Emitter.{Emitter}
use argus_manager.Emitter.Sessions.{Session, Sends, dropped, lost, found, sends, bytes, bytes-snoc}

module _ {M : Type 0} where
  abbrev pub ShowsSession : ConnectionState M → Session → Type 0
  ShowsSession (connected l) (some sent) = l.writer ≡ bytes sent
  ShowsSession (connected l) none = ⊥
  ShowsSession s none = Unit {0}
  ShowsSession s (some sent) = ⊥

  pub refines :
      (s : ConnectionState M) (a : Session) (json : List ℕ) (accept : Accept) (ok : Bool)
      → ShowsSession s a
      → (b : Session) × Sends a json b × ShowsSession (emit_directive s json accept ok) b
  unfolding emit_directive ensure_connected transition_to_connected
  refines listening none json accept ok h = (none, dropped, tt)
  refines (connected l) (some sent) json accept true h = (
    some (sent ++ (json ∷ [])),
    sends refl,
    ap (λ t. t ++ frame json) h ∙ sym (bytes-snoc sent json),
  )
  refines (connected l) (some sent) json accept false h = (none, lost, tt)
  refines disconnected none json (client true) true h =
      (some (json ∷ []), found refl, sym (append-nil (frame json)))
  refines disconnected none json (client true) false h = (none, dropped, tt)
  refines disconnected none json (client false) ok h = (none, dropped, tt)
  refines disconnected none json would_block ok h = (none, dropped, tt)
  refines disconnected none json failed ok h = (none, dropped, tt)
  refines listening (some sent) json accept ok h = elim h [ ]
  refines (connected l) none json accept ok h = elim h [ ]
  refines disconnected (some sent) json accept ok h = elim h [ ]

  instance abbrev pub channel_emitter : Emitter (ConnectionState M)
  channel_emitter = record {
    emit = λ s json w. emit_directive s json w.accept w.write_ok;
    Shows = ShowsSession;
    emit_refines = λ s a json w h. refines s a json w.accept w.write_ok h;
  }
