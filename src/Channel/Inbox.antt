-- ===== src/Channel/Inbox.antt =====
-- The loop of src/main.rs that empties the inbox of src/channel/unix_socket.rs.
use argus_manager.Prelude.{
  ℕ, zero, suc, ◌≡◌, refl, Bool, true, false, Option, none, some, List, [], ◌∷◌, length,
  if◌then◌else◌,
}
use argus_manager.Channel.{Link, ConnectionState, connected, disconnected, try_recv}

module _ {M : Type 0} where
  -- `while let Some(msg) = transport.try_recv_engine_message()`: each turn takes one message out of
  -- the inbox, so one more than the inbox holds is enough fuel.
  abbrev pub continued :
      (ConnectionState M → ConnectionState M × List M)
      → ConnectionState M × Option M
      → ConnectionState M × List M
  continued next (s, none) = (s, [])
  continued next (s, some m) = let (t, ms) = next s in (t, m ∷ ms)

  unfoldable pub drain : ℕ → ConnectionState M → ConnectionState M × List M
  drain zero s = (s, [])
  drain (suc n) s = continued (drain n) (try_recv s)

  -- The loop gets all waiting messages, in order, before it notices that the reader has ended; then
  -- the channel is disconnected.
  pub drain_inbox :
      (writer : List ℕ) (inbox : List M) (ended : Bool)
      → let l : Link M = record { writer = writer; inbox = inbox; reader_ended = ended } in
        drain (suc (length inbox)) (connected l)
        ≡ (if ended then disconnected else connected record l { inbox = [] }, inbox)
  unfolding drain try_recv
  drain_inbox w [] true = refl
  drain_inbox w [] false = refl
  drain_inbox w (m ∷ ms) ended = rw (drain_inbox w ms ended) refl
