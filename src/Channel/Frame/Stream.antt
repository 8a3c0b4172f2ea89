-- ===== src/Channel/Frame/Stream.antt =====
-- What src/channel/unix_socket.rs reads of frames such as it writes; `send_message` of
-- src/bin/mock_engine.rs writes the same.
use argus_manager.Prelude.{
  ℕ, zero, suc, ◌+◌, ◌^◌, ◌≤◌, ◌<◌, ◌≡◌, refl, ap, false, Option, none, some, List, [], ◌∷◌, ◌++◌,
  All, length, length-append, append_assoc, ltb, arith, if◌then◌else◌,
}
use argus_manager.Channel.Frame.{
  max_payload_size, to_be_bytes, frame, read_exact, from_be_bytes, read_engine_message, read_loop,
  spawn_reader, parsed,
}

pub be_bytes : (n : ℕ) → n < 2 ^ 32 → from_be_bytes (to_be_bytes n) ≡ n
unfolding to_be_bytes
be_bytes n h = omega arith

pub read_exact-append : (xs ys : List ℕ) → read_exact (length xs) (xs ++ ys) ≡ some (xs, ys)
unfolding read_exact
read_exact-append [] ys = refl
read_exact-append (x ∷ xs) ys = rw (read_exact-append xs ys) refl

pub header : (n : ℕ) (ys : List ℕ) → read_exact 4 (to_be_bytes n ++ ys) ≡ some (to_be_bytes n, ys)
unfolding read_exact to_be_bytes
header n ys = refl

module _ {M : Type 0} (decode : List ℕ → Option M) where
  abbrev pub outcome : List ℕ → List ℕ → Option (M × List ℕ)
  outcome json rest =
      if ltb max_payload_size (length json) then none else parsed decode (some (json, rest))

  -- A frame is read back as its payload, with what follows it left over, if the payload is at most
  -- 64 KiB and parses; a larger payload is refused, for payloads below 4 GiB.
  read_engine_message-frame :
      (json rest : List ℕ)
      → length json < 2 ^ 32
      → read_engine_message decode (frame json ++ rest) ≡ outcome json rest
  unfolding read_engine_message frame
  read_engine_message-frame json rest h =
      rw
        (
          append_assoc (to_be_bytes (length json)) json rest,
          header (length json) (json ++ rest),
          be_bytes (length json) h,
          read_exact-append json rest,
        )
        refl

  -- A payload that the reader takes: at most 64 KiB, and it parses to the message.
  abbrev pub Sends : (M → List ℕ) → M → Type 0
  Sends encode m = (length (encode m) ≤ max_payload_size) × (decode (encode m) ≡ some m)

  abbrev pub stream : (M → List ℕ) → List M → List ℕ
  stream encode [] = []
  stream encode (m ∷ ms) = frame (encode m) ++ stream encode ms

  read_one :
      (encode : M → List ℕ) (m : M) (rest : List ℕ)
      → Sends encode m
      → read_engine_message decode (frame (encode m) ++ rest) ≡ some (m, rest)
  read_one encode m rest (k, d) =
      let big : ltb max_payload_size (length (encode m)) ≡ false = ground arith in
      rw (read_engine_message-frame (encode m) rest (omega arith), big) (rw (d, parsed) refl)

  read_nothing : read_engine_message decode [] ≡ none
  unfolding read_engine_message read_exact
  read_nothing = refl

  read_loop-stream :
      (encode : M → List ℕ) (ms : List M) (fuel : ℕ)
      → All (Sends encode) ms
      → length ms < fuel
      → read_loop decode fuel (stream encode ms) ≡ ms
  unfolding read_loop
  read_loop-stream encode ms zero h k = absurd (omega arith)
  read_loop-stream encode [] (suc fuel) h k = rw read_nothing refl
  read_loop-stream encode (m ∷ ms) (suc fuel) h k =
      rw (read_one encode m (stream encode ms) h.0)
        (ap (◌∷◌ m) (read_loop-stream encode ms fuel h.1 (omega arith)))

  frame-length : (json : List ℕ) → length (frame json) ≡ 4 + length json
  unfolding frame to_be_bytes
  frame-length json = omega arith

  stream-length : (encode : M → List ℕ) (ms : List M) → length ms ≤ length (stream encode ms)
  stream-length encode [] = omega arith
  stream-length encode (m ∷ ms) = omega (
    arith,
    length-append (frame (encode m)) (stream encode ms),
    frame-length (encode m),
    stream-length encode ms,
  )

  -- The reader delivers all the messages that were framed, in order, and no other, when each is at
  -- most 64 KiB and parses to the message that it stands for.
  pub spawn_reader-stream :
      (encode : M → List ℕ) (ms : List M)
      → All (Sends encode) ms
      → spawn_reader decode (stream encode ms) ≡ ms
  unfolding spawn_reader
  spawn_reader-stream encode ms h =
      read_loop-stream encode ms (suc (length (stream encode ms))) h
        (omega (arith, stream-length encode ms))
