-- ===== src/Mock/Exchange.antt =====
-- The mock engine of src/bin/mock_engine.rs and the mock manager of src/bin/mock_manager.rs at the
-- two ends of one connection.
use argus_manager.Prelude.{
  ℕ, suc, ◌+◌, ◌%◌, ◌^◌, ◌<◌, ◌≡◌, refl, ap, ◌∙◌, subst, true, false, Option, some, List, [], ◌∷◌,
  ◌++◌, All, length, append_assoc, append-nil, arith,
}
use argus_manager.Float.{Float}
use argus_manager.Contract.{
  EngineStatus, EngineDirective, EngineCommand, CommandResponse, EngineMessage, heartbeat, response,
  ManagerMessage, directive,
}
use argus_manager.Channel.Frame.{frame}
use argus_manager.Mock.Wire.{Arrival, message, recv_message, recv_message-frame}
use argus_manager.Mock.Engine.{
  MockState, Protocol, EngineTurn, apply, apply_all, answer, handle_directive, turn,
}
use argus_manager.Mock.Manager.{
  found, validate_response, recv_until, recv_response_skip_heartbeats, select_response, selected,
}

-- A message that the other side can read: it is below 4 GiB, and it parses to itself.
abbrev pub IsReadable : {M : Type 0} → (M → List ℕ) → (List ℕ → Option M) → M → Type 0
IsReadable encode decode m = (length (encode m) < 2 ^ 32) × (decode (encode m) ≡ some m)

module _ {S : Type 0} ⦃f : Float S⦄ (encode : EngineMessage S → List ℕ)
    (decode : List ℕ → Option (EngineMessage S)) where
  -- The engine's heartbeats on the wire.
  abbrev pub beats : List (EngineStatus S) → List ℕ
  beats [] = []
  beats (h ∷ hs) = frame (encode (heartbeat h)) ++ beats hs

  results-length :
      (e : MockState S) (cs : List (EngineCommand S)) → length (apply_all e cs).1 ≡ length cs
  unfolding apply_all
  results-length e [] = refl
  results-length e (c ∷ cs) = ap suc (results-length (apply e c).0 cs)

  -- One read, when the message of a frame is there.
  read_one :
      (m : EngineMessage S) (rest : List ℕ) (a : Arrival) (later : List Arrival)
      → IsReadable encode decode m
      → recv_response_skip_heartbeats decode (frame (encode m) ++ rest) (a ∷ later)
        ≡ selected decode select_response
            (λ t. recv_response_skip_heartbeats decode t later)
            (rest ++ a.bytes)
            (select_response m)
  unfolding recv_until
  read_one m rest a later k =
      rw
        (
          append_assoc (frame (encode m)) rest a.bytes,
          recv_message-frame decode a.closed (encode m) (rest ++ a.bytes) m k.0 k.1,
          recv_until,
        )
        refl

  skips :
      (hs : List (EngineStatus S)) (r : CommandResponse S) (more : List ℕ) (arrivals : List Arrival)
      → All (λ h. IsReadable encode decode (heartbeat h)) hs
      → IsReadable encode decode (response r)
      → length hs < length arrivals
      → (rest : List ℕ) × (recv_response_skip_heartbeats decode
            (beats hs ++ (frame (encode (response r)) ++ more))
            arrivals
          ≡ found r rest)
  skips hs r more [] h k l = absurd (omega arith)
  skips [] r more (a ∷ later) h k l = (more ++ a.bytes, read_one (response r) more a later k)
  skips (s ∷ hs) r more (a ∷ later) h k l =
      let last = frame (encode (response r)) in
      let (rest, e) = skips hs r (more ++ a.bytes) later h.1 k (omega arith) in
      (
        rest,
        ap (λ t. recv_response_skip_heartbeats decode t (a ∷ later))
              (append_assoc (frame (encode (heartbeat s))) (beats hs) (last ++ more))
            ∙ read_one (heartbeat s) (beats hs ++ (last ++ more)) a later h.0
            ∙ ap (λ t. recv_response_skip_heartbeats decode t later)
                (append_assoc (beats hs) (last ++ more) a.bytes
                  ∙ ap (λ t. beats hs ++ t) (append_assoc last more a.bytes))
            ∙ e,
      )

  module _ (send : ManagerMessage S → List ℕ) (receive : List ℕ → Option (ManagerMessage S)) where
    -- One exchange. The mock engine that reads a directive applies its commands in order, counts
    -- it, and writes one response. Whatever heartbeats come before the response and whatever bytes
    -- after it, the mock manager skips the heartbeats and finds the response, and its check of the
    -- protocol accepts it (the number is the directive's, and there is a result for each command).
    -- The messages are below 4 GiB and parse to what they stand for; the manager reads more often
    -- than there are heartbeats; no heartbeat of the engine's own is due, and its write succeeds.
    pub exchange :
        (p : Protocol S) (d : EngineDirective S) (t : EngineTurn)
        → p.buffer ≡ []
        → t.due ≡ false
        → t.response_ok ≡ true
        → t.arrival.bytes ≡ frame (send (directive d))
        → IsReadable send receive (directive d)
        → (hs : List (EngineStatus S)) (more : List ℕ) (arrivals : List Arrival)
        → All (λ h. IsReadable encode decode (heartbeat h)) hs
        → IsReadable encode decode (answer encode receive d (apply_all p.engine d.commands).1)
        → length hs < length arrivals
        → (r : CommandResponse S) × (rest : List ℕ) × (turn encode receive p t
            ≡ some record {
              engine = (apply_all p.engine d.commands).0;
              directives_received = (p.directives_received + 1) % 2 ^ 32;
              buffer = [];
              written = p.written ++ frame (encode (response r));
            })
          × (recv_response_skip_heartbeats decode
                (beats hs ++ (frame (encode (response r)) ++ more))
                arrivals
              ≡ found r rest)
          × (validate_response d.seq_id r (length d.commands) ≡ true)
    unfolding turn handle_directive validate_response
    exchange p d t empty due ok arrived q hs more arrivals h k l =
        let r : CommandResponse S = record {
          seq_id = d.seq_id;
          results = (apply_all p.engine d.commands).1;
        } in
        let (rest, e) = skips hs r more arrivals h k l in
        let whole : recv_message receive t.arrival.closed (frame (send (directive d)))
            ≡ message (directive d) [] =
          subst (λ b. recv_message receive t.arrival.closed b ≡ message (directive d) [])
            (append-nil (frame (send (directive d))))
            (recv_message-frame receive t.arrival.closed (send (directive d)) [] (directive d) q.0
              q.1) in
        (
          r,
          rest,
          rw (empty, due, ok, arrived, whole) refl,
          e,
          let counted = results-length p.engine d.commands in ground (arith, counted),
        )
