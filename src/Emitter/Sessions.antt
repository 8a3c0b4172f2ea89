-- ===== src/Emitter/Sessions.antt =====
-- What the emitters of src/emitter and src/channel promise: messages go to the current client in
-- the order in which they are emitted, each once; a client can be lost at an emission, and a new
-- one found at an emission. The session is the list of the messages sent to the current client.
use argus_manager.Prelude.{
  ℕ, ◌≡◌, sym, ap, ◌∙◌, Option, none, some, List, [], ◌∷◌, ◌++◌, append_assoc, append-nil,
}
use argus_manager.Channel.Frame.{frame}

abbrev pub Session : Type 0
Session = Option (List (List ℕ))

-- One emission.
pub data Sends : Session → List ℕ → Session → Type 0 where
  dropped : {json : List ℕ} → Sends none json none
  lost : {sent : List (List ℕ)} {json : List ℕ} → Sends (some sent) json none
  found : {json : List ℕ} {now : List (List ℕ)} → now ≡ json ∷ [] → Sends none json (some now)
  sends :
      {sent : List (List ℕ)} {json : List ℕ} {now : List (List ℕ)}
      → now ≡ sent ++ (json ∷ [])
      → Sends (some sent) json (some now)

-- The bytes of a session.
abbrev pub bytes : List (List ℕ) → List ℕ
bytes [] = []
bytes (json ∷ rest) = frame json ++ bytes rest

pub bytes-snoc :
    (sent : List (List ℕ)) (json : List ℕ) → bytes (sent ++ (json ∷ [])) ≡ bytes sent ++ frame json
bytes-snoc [] json = append-nil (frame json)
bytes-snoc (x ∷ xs) json =
    ap (λ t. frame x ++ t) (bytes-snoc xs json)
    ∙ sym (append_assoc (frame x) (bytes xs) (frame json))

-- The messages of the current client are the last ones emitted.
abbrev pub IsSuffix : List (List ℕ) → Session → Type 0
IsSuffix emitted none = Unit {0}
IsSuffix emitted (some sent) = (before : List (List ℕ)) × (emitted ≡ before ++ sent)

pub Sends-IsSuffix :
    (emitted : List (List ℕ)) (a : Session) (json : List ℕ) (b : Session)
    → Sends a json b
    → IsSuffix emitted a
    → IsSuffix (emitted ++ (json ∷ [])) b
Sends-IsSuffix emitted _ json _ dropped h = tt
Sends-IsSuffix emitted _ json _ lost h = tt
Sends-IsSuffix emitted _ json _ (found e) h = (emitted, ap (λ t. emitted ++ t) (sym e))
Sends-IsSuffix emitted (some sent) json _ (sends e) (before, q) = (
  before,
  ap (λ t. t ++ (json ∷ [])) q
      ∙ append_assoc before sent (json ∷ [])
      ∙ ap (λ t. before ++ t) (sym e),
)
