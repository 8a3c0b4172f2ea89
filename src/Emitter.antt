-- ===== src/Emitter.antt =====
-- src/emitter.rs: the trait `Emitter`, as an interface. What an emission meets (whether a client
-- can be accepted, whether the write succeeds) is an argument; the JSON of a message is a list of
-- bytes. An emitter's promise is stated on sessions: what its current client has been sent.
pub mod Sessions
pub mod UnixSocket
pub mod EngineChannel
pub mod Runs
use argus_manager.Prelude.{ℕ, Bool, List, [], ◌∷◌}
use argus_manager.Emitter.Sessions.{Session, Sends}
use argus_manager.Channel.{Accept}

-- The answers of the operating system to one emission.
pub record Answer : Type 0 where
  pub accept : Accept
  pub write_ok : Bool

-- `emit` stands for `emit` and `emit_directive`, which differ in the message only. `Shows` relates a
-- state to the session that it stands for.
pub record Emitter (S : Type 0) : Type 1 where
  pub emit : S → List ℕ → Answer → S
  pub Shows : S → Session → Type 0
  pub emit_refines :
      (s : S) (a : Session) (json : List ℕ) (w : Answer)
      → Shows s a
      → (b : Session) × Sends a json b × Shows (emit s json w) b

module _ {S : Type 0} ⦃e : Emitter S⦄ where
  -- `emit_initial`, or a run of directives.
  unfoldable pub emit_all : S → List (List ℕ × Answer) → S
  emit_all s [] = s
  emit_all s ((json, w) ∷ rest) = emit_all (e.emit s json w) rest
