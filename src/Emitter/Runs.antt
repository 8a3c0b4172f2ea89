-- ===== src/Emitter/Runs.antt =====
-- What the engine has been sent after any number of emissions, whatever the emitter.
use argus_manager.Prelude.{ℕ, subst, sym, none, List, [], ◌∷◌, ◌++◌, map, append_assoc, append-nil}
use argus_manager.Emitter.{Emitter, Answer, emit_all}
use argus_manager.Emitter.Sessions.{Session, IsSuffix, Sends-IsSuffix}

module _ {S : Type 0} ⦃e : Emitter S⦄ where
  emit_all-from :
      (s : S) (emitted : List (List ℕ)) (a : Session) (rest : List (List ℕ × Answer))
      → e.Shows s a
      → IsSuffix emitted a
      → (b : Session) × e.Shows (emit_all s rest) b × IsSuffix (emitted ++ map (λ m. m.0) rest) b
  unfolding emit_all
  emit_all-from s emitted a [] h q = (a, h, subst (λ t. IsSuffix t a) (sym (append-nil emitted)) q)
  emit_all-from s emitted a ((json, w) ∷ rest) h q =
      let (b, sent, shown) = e.emit_refines s a json w h in
      let (c, shown_after, q_after) =
        emit_all-from (e.emit s json w) (emitted ++ (json ∷ [])) b rest shown
          (Sends-IsSuffix emitted a json b sent q) in
      (
        c,
        shown_after,
        subst (λ t. IsSuffix t c) (append_assoc emitted (json ∷ []) (map (λ m. m.0) rest)) q_after,
      )

  -- Whatever the emitter, and whatever is accepted, lost or written on the way: the emitter's
  -- state after a run of emissions that starts without a client is one in which there is no
  -- client, or its client has been sent the last of the messages emitted, in order, each once,
  -- with none left out in between.
  pub emit_all-IsSuffix :
      (s : S) (messages : List (List ℕ × Answer))
      → e.Shows s none
      → (b : Session) × e.Shows (emit_all s messages) b × IsSuffix (map (λ m. m.0) messages) b
  emit_all-IsSuffix s messages h = emit_all-from s [] none messages h tt
