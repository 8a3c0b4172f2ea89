-- ===== src/Manager/Directives.antt =====
-- What the main loop of src/main.rs hands to the transport over a run.
use argus_manager.Prelude.{
  ℕ, ◌+◌, ◌%◌, ◌^◌, ◌≤◌, ◌<◌, ◌≡◌, refl, ap, subst, ◌⊎◌, inl, inr, true, false, Option, none, some,
  List, [], ◌∷◌, All, arith, Option-cases,
}
use argus_manager.Float.{Float, Casts, IsIeee}
use argus_manager.Contract.{EngineDirective, ManagerMessage}
use argus_manager.Pipeline.{DirectiveDeduplicator, is_dup, cooldown_elapsed}
use argus_manager.Pipeline.Dedup.{process_cases, Spaced, moved}
use argus_manager.Lua.Actions.Valid.{IsValid}
use argus_manager.LuaPolicy.{LuaVm, LuaPolicy}
use argus_manager.LuaPolicy.Directives.{process_signal_numbers, process_signal-All}
use argus_manager.Manager.{Manager, Turn, prepare, deduplicated, received, turn}

abbrev one : {A : Type 0} → Option A → ℕ
one none = 0
one (some a) = 1

module _ {W S : Type 0} where
  -- The number of signals that the turns receive.
  abbrev pub heard : List (Turn W S) → ℕ
  heard [] = 0
  heard (t ∷ ts) = one t.signal + heard ts

module _ {V T W S : Type 0} ⦃f : Float W⦄ ⦃g : Float S⦄ ⦃c : Casts W S⦄ (vm : LuaVm V T W S)
    (yield_max : ℕ) (encode : ManagerMessage S → List ℕ) where
  -- What a directive that is let through owes to the deduplicator and the counter before the turn,
  -- and what it leaves after it.
  pub record IsSound (dd : DirectiveDeduplicator W S) (counter : ℕ) (now : W) (n : Manager V W S)
      (d : EngineDirective S) : Type 0 where
    pub valid : All (IsValid yield_max) d.commands
    pub fresh :
        (is_dup dd.last_commands d.commands ≡ false)
        ⊎ (cooldown_elapsed dd.cooldown_secs dd.last_sent_at now ≡ true)
    pub number : d.seq_id ≡ counter
    pub recorded : n.dedup.last_commands ≡ some (d.commands)
    pub at : n.dedup.last_sent_at ≡ some now
    pub next : n.counter ≡ (counter + 1) % 2 ^ 64
    pub cooldown : n.dedup.cooldown_secs ≡ dd.cooldown_secs

  -- A turn that lets nothing through leaves the deduplicator alone.
  abbrev pub StepsFrom :
      DirectiveDeduplicator W S → ℕ → W → Manager V W S × Option (EngineDirective S) → Type 0
  StepsFrom dd counter now (n, none) =
      (n.dedup ≡ dd) × ((n.counter ≡ counter) ⊎ (n.counter ≡ (counter + 1) % 2 ^ 64))
  StepsFrom dd counter now (n, some d) = IsSound dd counter now n d

  abbrev pub Steps : Manager V W S → W → Manager V W S × Option (EngineDirective S) → Type 0
  Steps m now r = StepsFrom m.dedup m.counter now r

  deduplicated-Steps :
      (m : Manager V W S) (p : LuaPolicy V W S) (counter : ℕ) (t : Turn W S) (d : EngineDirective S)
      → All (IsValid yield_max) d.commands
      → d.seq_id ≡ m.counter
      → counter ≡ (m.counter + 1) % 2 ^ 64
      → Steps m t.now
          (deduplicated vm yield_max encode (record m { policy = p; counter = counter }) t (some d))
  deduplicated-Steps m p counter t d v e next = elim (process_cases m.dedup d t.now) [
    | inl (_, _, same) ↦ rw same (refl, inr next)
    | inr (fit, out, last, at, cd) ↦ rw out record {
      valid = v;
      fresh = fit;
      number = e;
      recorded = last;
      at = at;
      next = next;
      cooldown = cd;
    }
  ]

  received-Steps :
      IsIeee S
      → (m : Manager V W S) (t : Turn W S)
      → Steps m t.now (received vm yield_max encode m t t.signal)
  received-Steps L m t = elim (Option-cases t.signal) [
    | inl e ↦ rw e (refl, inl refl)
    | inr (s, e) ↦ elim (process_signal_numbers vm yield_max m.policy m.counter s) [
      | inl (out, same) ↦ rw (e, out) (refl, inl same)
      | inr (d, out, seq, _, next) ↦
          rw (e, out)
            (deduplicated-Steps m _ _ t d
              (process_signal-All vm yield_max L m.policy m.counter s d out) seq next)
    ]
  ]

  turn-Steps :
      IsIeee S → (m : Manager V W S) (t : Turn W S) → Steps m t.now (turn vm yield_max encode m t)
  unfolding turn prepare
  turn-Steps L m t = received-Steps L (prepare vm yield_max encode m t) t

  abbrev sent :
      Option (EngineDirective S) → W → List (EngineDirective S × W) → List (EngineDirective S × W)
  sent none now rest = rest
  sent (some d) now rest = (d, now) ∷ rest

  -- What the turns hand to the transport, each with its time.
  abbrev pub outputs : Manager V W S → List (Turn W S) → List (EngineDirective S × W)
  outputs m [] = []
  outputs m (t ∷ ts) = let (n, out) = turn vm yield_max encode m t in sent out t.now (outputs n ts)

  -- Numbers from a bound on, each above the one before it.
  abbrev pub Rising : ℕ → List (EngineDirective S × W) → Type 0
  Rising k [] = Unit {0}
  Rising k ((d, now) ∷ rest) = (k ≤ d.seq_id) × Rising (d.seq_id + 1) rest

  abbrev Valid : List (EngineDirective S × W) → Type 0
  Valid xs = All (λ x. All (IsValid yield_max) x.0.commands) xs

  abbrev SpacedFrom : Manager V W S → List (EngineDirective S × W) → Type 0
  SpacedFrom m xs = Spaced m.dedup.cooldown_secs m.dedup.last_commands m.dedup.last_sent_at xs

  extend :
      (m : Manager V W S) (now : W) (r : Manager V W S × Option (EngineDirective S))
      (rest : List (EngineDirective S × W))
      → Steps m now r
      → Valid rest × SpacedFrom r.0 rest
      → Valid (sent r.1 now rest) × SpacedFrom m (sent r.1 now rest)
  extend m now (n, none) rest s (v, p) = (
    v,
    moved rest (ap (λ d. d.cooldown_secs) s.0) (ap (λ d. d.last_commands) s.0)
        (ap (λ d. d.last_sent_at) s.0) p,
  )
  extend m now (n, some d) rest s (v, p) =
      ((s.valid, v), (s.fresh, moved rest s.cooldown s.recorded s.at p))

  -- Whatever the script does, whatever the monitors and the engine send, before and during each turn
  -- of the loop, whenever the connection ends and however often the script is reloaded: each directive that the main loop hands to the transport consists of valid
  -- commands, and two handed over one after the other differ in their commands or lie at least the
  -- cooldown apart.
  pub outputs-IsValid-Spaced :
      IsIeee S
      → (m : Manager V W S) (ts : List (Turn W S))
      → All (λ x. All (IsValid yield_max) x.0.commands) (outputs m ts)
        × Spaced m.dedup.cooldown_secs m.dedup.last_commands m.dedup.last_sent_at (outputs m ts)
  outputs-IsValid-Spaced L m [] = (tt, tt)
  outputs-IsValid-Spaced L m (t ∷ ts) =
      let n = (turn vm yield_max encode m t).0 in
      extend m t.now (turn vm yield_max encode m t) (outputs n ts) (turn-Steps L m t)
        (outputs-IsValid-Spaced L n ts)

  lower : (xs : List (EngineDirective S × W)) (j k : ℕ) → j ≤ k → Rising k xs → Rising j xs
  lower [] j k h r = tt
  lower ((d, now) ∷ rest) j k h r = (omega (arith, r.0), r.1)

  advances :
      (m : Manager V W S) (now : W) (r : Manager V W S × Option (EngineDirective S))
      → Steps m now r
      → m.counter + 1 < 2 ^ 64
      → (m.counter ≤ r.0.counter) × (r.0.counter ≤ m.counter + 1)
  advances m now (n, none) s h = ground (arith, s.1)
  advances m now (n, some d) s h = (omega (arith, s.next), omega (arith, s.next))

  quiet :
      (m : Manager V W S) (t : Turn W S)
      → t.signal ≡ none
      → (turn vm yield_max encode m t).0.counter ≡ m.counter
        × (turn vm yield_max encode m t).1 ≡ none
  unfolding turn prepare
  quiet m t e = rw e (refl, refl)

  extend-Rising :
      (m : Manager V W S) (now : W) (r : Manager V W S × Option (EngineDirective S))
      (rest : List (EngineDirective S × W))
      → Steps m now r
      → m.counter + 1 < 2 ^ 64
      → Rising r.0.counter rest
      → Rising m.counter (sent r.1 now rest)
  extend-Rising m now (n, none) rest s h p =
      lower rest m.counter n.counter (advances m now (n, none) s h).0 p
  extend-Rising m now (n, some d) rest s h p =
      (omega (arith, s.number), lower rest _ n.counter (omega (arith, s.number, s.next)) p)

  -- The sequence numbers of the directives handed to the transport rise strictly from the counter
  -- on, while the counter cannot come to 2^64 with the signals received.
  pub outputs-Rising :
      IsIeee S
      → (m : Manager V W S) (ts : List (Turn W S)) → m.counter + heard ts < 2 ^ 64
      → Rising m.counter (outputs m ts)
  outputs-Rising L m [] h = tt
  outputs-Rising L m (t ∷ ts) h =
      let r = turn vm yield_max encode m t in
      elim (Option-cases t.signal) [
        | inl e ↦
            let (same, out) = quiet m t e in
            rw out (
              subst (λ k. Rising k (outputs r.0 ts)) same
                (outputs-Rising L r.0 ts (omega (arith, h, same))))
        | inr (s, e) ↦
            let b : m.counter + 1 + heard ts < 2 ^ 64 = omega (arith, h, ap one e) in
            let steps = turn-Steps L m t in
            let (_, k) = advances m t.now r steps (omega (arith, b)) in
            extend-Rising m t.now r (outputs r.0 ts) steps (omega (arith, b))
              (outputs-Rising L r.0 ts (omega (arith, b, k)))
      ]
