-- ===== src/Channel.antt =====
-- src/channel/unix_socket.rs; the channel of src/channel/tcp.rs is the same but for its sockets.
-- What the operating system answers is an argument of each operation: an attempt to accept a
-- client, whether the stream could be cloned, whether a write succeeded. The stream to the engine
-- is the list of the bytes written to it; the reader thread is the two operations by which it
-- fills the inbox and ends. A full inbox only delays the reader.
pub mod Frame
pub mod Inbox
pub mod Reconnect
use argus_manager.Prelude.{
  ℕ, Bool, true, false, Option, none, some, List, [], ◌∷◌, ◌++◌, ◌||◌, if◌then◌else◌,
}
use argus_manager.Channel.Frame.{frame}

pub record Link (M : Type 0) : Type 0 where
  pub writer : List ℕ
  pub inbox : List M
  pub reader_ended : Bool

pub data ConnectionState (M : Type 0) : Type 0 where
  listening : ConnectionState M
  connected : Link M → ConnectionState M
  disconnected : ConnectionState M

pub data Accept : Type 0 where
  client : (cloned : Bool) → Accept
  would_block failed : Accept

-- One turn of the loop in `wait_for_client`.
pub record Turn : Type 0 where
  pub shutdown : Bool
  pub accept : Accept
  pub timed_out : Bool

module _ {M : Type 0} where
  unfoldable pub transition_to_connected : Bool → ConnectionState M
  transition_to_connected cloned =
      if cloned
      then connected record { writer = []; inbox = []; reader_ended = false }
      else disconnected

  abbrev accepted : ConnectionState M → Accept → ConnectionState M
  accepted s (client cloned) = transition_to_connected cloned
  accepted s would_block = s
  accepted s failed = s

  -- The state, and the result once the loop has returned. The list holds the turns so far; each
  -- blocks for 100 ms unless it returns, so the timeout bounds their number.
  unfoldable pub wait_for_client : ConnectionState M → List Turn → ConnectionState M × Option Bool
  wait_for_client s [] = (s, none)
  wait_for_client s (t ∷ ts) =
      let rest = wait_for_client s ts in
      if t.shutdown then (s, some false) else elim t.accept [
        | client cloned ↦ (transition_to_connected cloned, some true)
        | would_block ↦ if t.timed_out then (s, some false) else rest
        | failed ↦ (s, some false)
      ]

  unfoldable pub ensure_connected : ConnectionState M → Accept → ConnectionState M
  ensure_connected listening a = listening
  ensure_connected (connected l) a = connected l
  ensure_connected disconnected a = accepted disconnected a

  -- `write_manager_message` or `write_signal`, and what the caller makes of its error.
  abbrev pub written : ConnectionState M → List ℕ → Bool → ConnectionState M
  written listening json ok = listening
  written disconnected json ok = disconnected
  written (connected l) json ok =
      if ok then connected record l { writer = l.writer ++ frame json } else disconnected

  -- `emit` and `emit_directive`, with the JSON of the message.
  unfoldable pub emit_directive : ConnectionState M → List ℕ → Accept → Bool → ConnectionState M
  emit_directive s json a ok = written (ensure_connected s a) json ok

  abbrev polled_inbox : Link M → List M → ConnectionState M × Option M
  polled_inbox l (m ∷ ms) = (connected record l { inbox = ms }, some m)
  polled_inbox l [] = if l.reader_ended then (disconnected, none) else (connected l, none)

  unfoldable pub try_recv : ConnectionState M → ConnectionState M × Option M
  try_recv listening = (listening, none)
  try_recv disconnected = (disconnected, none)
  try_recv (connected l) = polled_inbox l l.inbox

  abbrev pub is_connected : ConnectionState M → Bool
  is_connected (connected l) = true
  is_connected _ = false

  -- The reader thread delivers a message; it ends at an error or at the end of the stream.
  unfoldable pub deliver : ConnectionState M → M → ConnectionState M
  deliver (connected l) m =
      if l.reader_ended then connected l else connected record l { inbox = l.inbox ++ (m ∷ []) }
  deliver listening m = listening
  deliver disconnected m = disconnected

  unfoldable pub end_reader : ConnectionState M → ConnectionState M
  end_reader (connected l) = connected record l { reader_ended = true }
  end_reader listening = listening
  end_reader disconnected = disconnected
