-- ===== src/Channel/Frame.antt =====
-- The wire format of src/channel/unix_socket.rs and src/channel/tcp.rs: four bytes of length, most
-- significant first, and the JSON. A byte is a number; `serde_json` is an argument (`encode`,
-- `decode`). A read that hits the end of the stream takes what is there and fails.
pub mod Stream
use argus_manager.Prelude.{
  ℕ, zero, suc, ◌+◌, ◌*◌, ◌/◌, ◌%◌, ◌^◌, Option, none, some, List, [], ◌∷◌, ◌++◌, length, ltb,
  if◌then◌else◌,
}

abbrev pub max_payload_size : ℕ
max_payload_size = 64 * 1024

-- `(n as u32).to_be_bytes()`
unfoldable pub to_be_bytes : ℕ → List ℕ
to_be_bytes n = n / 2 ^ 24 % 256 ∷ n / 2 ^ 16 % 256 ∷ n / 2 ^ 8 % 256 ∷ n % 256 ∷ []

-- What `write_manager_message` and `write_signal` write for a message.
unfoldable pub frame : List ℕ → List ℕ
unfolding to_be_bytes
frame json = to_be_bytes (length json) ++ json

abbrev consed : ℕ → Option (List ℕ × List ℕ) → Option (List ℕ × List ℕ)
consed b none = none
consed b (some (buf, rest)) = some (b ∷ buf, rest)

-- `read_exact` of n bytes: the buffer and what is left of the stream.
unfoldable pub read_exact : ℕ → List ℕ → Option (List ℕ × List ℕ)
read_exact zero stream = some ([], stream)
read_exact (suc n) [] = none
read_exact (suc n) (b ∷ stream) = consed b (read_exact n stream)

abbrev pub from_be_bytes : List ℕ → ℕ
from_be_bytes (a ∷ b ∷ c ∷ d ∷ []) = a * 2 ^ 24 + b * 2 ^ 16 + c * 2 ^ 8 + d
from_be_bytes _ = 0

module _ {M : Type 0} (decode : List ℕ → Option M) where
  abbrev pub parsed : Option (List ℕ × List ℕ) → Option (M × List ℕ)
  parsed none = none
  parsed (some (json, rest)) = elim (decode json) [ none ↦ none | some m ↦ some (m, rest) ]

  abbrev pub payload : Option (List ℕ × List ℕ) → Option (M × List ℕ)
  payload none = none
  payload (some (len_buf, stream)) =
      if ltb max_payload_size (from_be_bytes len_buf)
      then none
      else parsed (read_exact (from_be_bytes len_buf) stream)

  -- The message and what is left of the stream; none for the end of the stream, a length beyond
  -- the limit, or a payload that does not parse.
  unfoldable pub read_engine_message : List ℕ → Option (M × List ℕ)
  read_engine_message stream = payload (read_exact 4 stream)

  abbrev pub delivered : (List ℕ → List M) → Option (M × List ℕ) → List M
  delivered next none = []
  delivered next (some (m, rest)) = m ∷ next rest

  -- The loop of `spawn_reader`: the messages delivered before an error ends it. Each message takes
  -- at least four bytes, so the length of the stream is enough fuel.
  unfoldable pub read_loop : ℕ → List ℕ → List M
  read_loop zero stream = []
  read_loop (suc n) stream = delivered (read_loop n) (read_engine_message stream)

  unfoldable pub spawn_reader : List ℕ → List M
  spawn_reader stream = read_loop (suc (length stream)) stream
