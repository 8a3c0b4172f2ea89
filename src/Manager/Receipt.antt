-- ===== src/Manager/Receipt.antt =====
-- What a turn of the main loop of src/main.rs receives from the engine.
use argus_manager.Prelude.{
  ℕ, zero, suc, ◌≡◌, refl, sym, ap, subst, ◌∙◌, Bool, true, false, ◌||◌, List, [], ◌∷◌, ◌++◌,
  length, if◌then◌else◌, append_assoc, append-nil,
}
use argus_manager.Channel.{
  Link, ConnectionState, connected, disconnected, deliver, end_reader, try_recv,
}
use argus_manager.Channel.Inbox.{continued, drain_inbox}
use argus_manager.Manager.{ReaderStep, message, reader_end, arrive, receive_all}

module _ {M : Type 0} where
  -- What the first lists hold, that many of them.
  abbrev pub early : ℕ → List (List (ReaderStep M)) → List (ReaderStep M)
  early zero ys = []
  early (suc n) [] = []
  early (suc n) (b ∷ ys) = b ++ early n ys

  -- The messages before the reader's end, where it may have ended before.
  abbrev pub delivered : Bool → List (ReaderStep M) → List M
  delivered true later = []
  delivered false [] = []
  delivered false (message m ∷ later) = m ∷ delivered false later
  delivered false (reader_end ∷ later) = []

  abbrev pub has_end : List (ReaderStep M) → Bool
  has_end [] = false
  has_end (message m ∷ later) = has_end later
  has_end (reader_end ∷ later) = true

  abbrev link : List ℕ → List M → Bool → Link M
  link writer inbox ended = record { writer = writer; inbox = inbox; reader_ended = ended }

  arrive_ended :
      (w : List ℕ) (inbox : List M) (later : List (ReaderStep M))
      → arrive (connected (link w inbox true)) later ≡ connected (link w inbox true)
  unfolding arrive deliver end_reader
  arrive_ended w inbox [] = refl
  arrive_ended w inbox (message m ∷ later) = arrive_ended w inbox later
  arrive_ended w inbox (reader_end ∷ later) = arrive_ended w inbox later

  arrive-link :
      (w : List ℕ) (inbox : List M) (ended : Bool) (later : List (ReaderStep M))
      → arrive (connected (link w inbox ended)) later
        ≡ connected (link w (inbox ++ delivered ended later) (ended || has_end later))
  unfolding arrive deliver end_reader
  arrive-link w inbox true later =
      arrive_ended w inbox later ∙ ap (λ i. connected (link w i true)) (sym (append-nil inbox))
  arrive-link w inbox false [] = ap (λ i. connected (link w i false)) (sym (append-nil inbox))
  arrive-link w inbox false (message m ∷ later) =
      arrive-link w (inbox ++ (m ∷ [])) false later
      ∙ ap (λ i. connected (link w i (has_end later)))
          (append_assoc inbox (m ∷ []) (delivered false later))
  arrive-link w inbox false (reader_end ∷ later) =
      arrive_ended w inbox later ∙ ap (λ i. connected (link w i true)) (sym (append-nil inbox))

  delivered-append :
      (ended : Bool) (xs ys : List (ReaderStep M))
      → delivered ended (xs ++ ys) ≡ delivered ended xs ++ delivered (ended || has_end xs) ys
  delivered-append true xs ys = refl
  delivered-append false [] ys = refl
  delivered-append false (message m ∷ xs) ys = ap (◌∷◌ m) (delivered-append false xs ys)
  delivered-append false (reader_end ∷ xs) ys = refl

  has_end-append :
      (ended : Bool) (xs ys : List (ReaderStep M))
      → (ended || has_end (xs ++ ys)) ≡ ((ended || has_end xs) || has_end ys)
  has_end-append true xs ys = refl
  has_end-append false [] ys = refl
  has_end-append false (message m ∷ xs) ys = has_end-append false xs ys
  has_end-append false (reader_end ∷ xs) ys = refl

  -- Of what arrives, what happens before the calls made: one for each message, and the last.
  abbrev pub happened : List M → List (List (ReaderStep M)) → List (ReaderStep M)
  happened got batches = early (suc (length got)) batches

  abbrev pub Receives : Link M → List (List (ReaderStep M)) → ConnectionState M × List M → Type 0
  Receives l batches (s, got) =
      (got ≡ l.inbox ++ delivered l.reader_ended (happened got batches))
      × (s ≡ (
          if l.reader_ended || has_end (happened got batches)
          then disconnected
          else connected record l { inbox = []; reader_ended = false }))

  -- The same for the calls from a first one on, before which nothing more arrives.
  abbrev Continues : Link M → List (List (ReaderStep M)) → ConnectionState M × List M → Type 0
  Continues l rest (s, got) =
      (got ≡ l.inbox ++ delivered l.reader_ended (early (length got) rest))
      × (s ≡ (
          if l.reader_ended || has_end (early (length got) rest)
          then disconnected
          else connected record l { inbox = []; reader_ended = false }))

  next_call :
      (w : List ℕ) (inbox : List M) (ended : Bool) (rest : List (List (ReaderStep M)))
      → ((ms : List M)
          → Receives (link w ms ended) rest (receive_all rest (connected (link w ms ended))))
      → Continues
          (link w inbox ended)
          rest
          (continued (receive_all rest) (try_recv (connected (link w inbox ended))))
  unfolding try_recv
  next_call w [] true rest later = (refl, refl)
  next_call w [] false rest later = (refl, refl)
  next_call w (m ∷ ms) ended rest later = let (got, s) = later ms in (ap (◌∷◌ m) got, s)

  after_arrival :
      (w : List ℕ) (inbox : List M) (ended : Bool) (now : List (ReaderStep M))
      (rest : List (List (ReaderStep M))) (r : ConnectionState M × List M)
      → Continues (link w (inbox ++ delivered ended now) (ended || has_end now)) rest r
      → Receives (link w inbox ended) (now ∷ rest) r
  after_arrival w inbox ended now rest (s, got) (all, state) =
      let more = early (length got) rest in
      (
        all
            ∙ append_assoc inbox (delivered ended now) _
            ∙ ap (λ x. inbox ++ x) (sym (delivered-append ended now more)),
        state
            ∙ ap (λ b. if b then disconnected else connected (link w [] false))
                (sym (has_end-append ended now more)),
      )

  receives :
      (w : List ℕ) (inbox : List M) (ended : Bool) (batches : List (List (ReaderStep M)))
      → Receives (link w inbox ended) batches (receive_all batches (connected (link w inbox ended)))
  unfolding receive_all
  receives w inbox true [] = rw (drain_inbox w inbox true) (sym (append-nil inbox), refl)
  receives w inbox false [] = rw (drain_inbox w inbox false) (sym (append-nil inbox), refl)
  receives w inbox ended (now ∷ rest) =
      let ibx = inbox ++ delivered ended now in
      let fin = ended || has_end now in
      subst
        (λ s.
          Receives (link w inbox ended) (now ∷ rest) (continued (receive_all rest) (try_recv s)))
        (sym (arrive-link w inbox ended now))
        (after_arrival w inbox ended now rest _
          (next_call w ibx fin rest (λ ms. receives w ms fin rest)))

  -- While the manager has a client: a turn of the main loop receives all messages that waited, then
  -- those that the reader delivered before one of the calls made, each once and in the order of
  -- their arrival, and leaves none in the inbox. If the reader has ended by then, the channel is
  -- disconnected, and it is connected otherwise.
  pub receive_all-Receives :
      (l : Link M) (batches : List (List (ReaderStep M)))
      → Receives l batches (receive_all batches (connected l))
  receive_all-Receives l batches = receives l.writer l.inbox l.reader_ended batches
