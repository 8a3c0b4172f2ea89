-- ===== src/Mock/Wire.antt =====
-- `recv_message` of src/bin/mock_engine.rs and src/bin/mock_manager.rs, which differ in the type of
-- the message. The stream is what arrives until the read times out, or until the other side closes.
use argus_manager.Prelude.{
  ℕ, ◌^◌, ◌<◌, ◌≡◌, refl, Bool, Option, none, some, List, [], ◌++◌, length, append_assoc,
  if◌then◌else◌,
}
use argus_manager.Channel.Frame.{to_be_bytes, frame, read_exact, from_be_bytes}
use argus_manager.Channel.Frame.Stream.{be_bytes, read_exact-append, header}

-- `Ok(None)`, `Ok(Some(_))` and `Err(_)`, each with what is left of the stream.
pub data Received (M : Type 0) : Type 0 where
  idle : Received M
  message : M → (rest : List ℕ) → Received M
  broken : (rest : List ℕ) → Received M

-- What arrives from one read to the next.
pub record Arrival : Type 0 where
  pub bytes : List ℕ
  pub closed : Bool

module _ {M : Type 0} (decode : List ℕ → Option M) where
  abbrev parsed : List ℕ → Option M → Received M
  parsed rest none = broken rest
  parsed rest (some m) = message m rest

  abbrev with_payload : Option (List ℕ × List ℕ) → Received M
  with_payload none = broken []
  with_payload (some (json, rest)) = parsed rest (decode json)

  abbrev with_length : Bool → Option (List ℕ × List ℕ) → Received M
  with_length closed none = if closed then broken [] else idle
  with_length closed (some (len_buf, stream)) =
      with_payload (read_exact (from_be_bytes len_buf) stream)

  -- A read that fails has taken what was there: a part of a length prefix is lost at a timeout.
  unfoldable pub recv_message : Bool → List ℕ → Received M
  recv_message closed stream = with_length closed (read_exact 4 stream)

  pub recv_message-frame :
      (closed : Bool) (json rest : List ℕ) (m : M)
      → length json < 2 ^ 32
      → decode json ≡ some m
      → recv_message closed (frame json ++ rest) ≡ message m rest
  unfolding recv_message frame
  recv_message-frame closed json rest m h d =
      rw
        (
          append_assoc (to_be_bytes (length json)) json rest,
          header (length json) (json ++ rest),
          be_bytes (length json) h,
          read_exact-append json rest,
          d,
        )
        refl
