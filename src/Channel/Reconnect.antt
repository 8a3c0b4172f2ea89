-- ===== src/Channel/Reconnect.antt =====
-- Which clients the channel of src/channel/unix_socket.rs takes, and when.
use argus_manager.Prelude.{
  ℕ, ◌≡◌, ◌≢◌, refl, ◌⊎◌, inl, inr, Bool, true, false, some, List, [], ◌∷◌, arith,
}
use argus_manager.Channel.{
  ConnectionState, listening, connected, disconnected, Accept, client, would_block, failed, Turn,
  transition_to_connected, wait_for_client, ensure_connected, emit_directive, try_recv, deliver,
  end_reader,
}
use argus_manager.Channel.Frame.{frame}

pub data Event (M : Type 0) : Type 0 where
  emit : (json : List ℕ) (accept : Accept) (ok : Bool) → Event M
  recv : Event M
  message : M → Event M
  ended : Event M

module _ {M : Type 0} where
  unfoldable pub step : ConnectionState M → Event M → ConnectionState M
  step s (emit json a ok) = emit_directive s json a ok
  step s recv = (try_recv s).0
  step s (message m) = deliver s m
  step s ended = end_reader s

  abbrev pub run : ConnectionState M → List (Event M) → ConnectionState M
  run s [] = s
  run s (e ∷ es) = run (step s e) es

  step_listening : (e : Event M) → step listening e ≡ listening
  unfolding step emit_directive ensure_connected try_recv deliver end_reader
  step_listening (emit json a ok) = refl
  step_listening recv = refl
  step_listening (message m) = refl
  step_listening ended = refl

  run_listening : (es : List (Event M)) → run listening es ≡ listening
  run_listening [] = refl
  run_listening (e ∷ es) = rw (step_listening e) (run_listening es)

  gives_up :
      (s : ConnectionState M) (ts : List Turn)
      → (wait_for_client s ts).1 ≡ some false
      → (wait_for_client s ts).0 ≡ s
  unfolding wait_for_client
  gives_up s [] h = refl
  gives_up s (t ∷ ts) h = ground (arith, gives_up s ts)

  -- A wait for the client that gives up leaves the channel as it was, and from then on, whatever
  -- clients try to connect and whatever is emitted, the channel stays without a client: nothing
  -- but the wait itself takes a client while the channel is listening.
  pub wait_for_client_gives_up :
      (ts : List Turn) (es : List (Event M))
      → (wait_for_client {M = M} listening ts).1 ≡ some false
      → run (wait_for_client listening ts).0 es ≡ listening
  wait_for_client_gives_up ts es h = rw (gives_up listening ts h) (run_listening es)

  -- After a message has been emitted to a channel that had lost its client, the channel is
  -- connected exactly when a client was waiting, its stream could be cloned and the write
  -- succeeded; and then the engine gets that message first.
  emit_directive_reconnects :
      (json : List ℕ) (a : Accept) (ok : Bool)
      → let s : ConnectionState M = emit_directive disconnected json a ok in
        ((a ≡ client true)
          × (ok ≡ true)
          × (s ≡ connected record { writer = frame json; inbox = []; reader_ended = false }))
        ⊎ (((a ≢ client true) ⊎ (ok ≡ false)) × (s ≡ disconnected))
  unfolding emit_directive ensure_connected transition_to_connected
  emit_directive_reconnects json (client true) true = inl (refl, refl, refl)
  emit_directive_reconnects json (client true) false = inr (inr refl, refl)
  emit_directive_reconnects json (client false) ok = inr (inl (λ e. cc), refl)
  emit_directive_reconnects json would_block ok = inr (inl (λ e. cc), refl)
  emit_directive_reconnects json failed ok = inr (inl (λ e. cc), refl)
