-- ===== src/Monitor/External/Lines.antt =====
-- What the external monitor of src/monitor/external.rs makes of the texts that its clients send.
use argus_manager.Prelude.{
  ◌≡◌, refl, true, false, Option, none, some, List, [], ◌∷◌, ◌++◌, map, All,
}
use argus_manager.Text.{strip_prefix, Text, trim, lines, unix_prefix, tcp_prefix}
use argus_manager.Text.Laws.{IsInLine, unlines, lines-unlines}
use argus_manager.Monitor.External.{
  Line, client, would_block, Turn, sent, taken, run_with_reader, serve, run, new, stdin_name,
}

-- A line that comes before the shutdown.
abbrev pub line_of : Text → Line
line_of text = record { shutdown = false; text = some text; receiver = true }

-- A turn in which nobody connects, or a client that sends a text.
abbrev pub turn_of : Option (List Text) → Turn
turn_of none = record { shutdown = false; accepted = would_block }
turn_of (some ts) = record {
  shutdown = false;
  accepted = client true (map line_of (lines (unlines ts)));
}

module _ {A : Type 0} (parse : Text → Option A) where
  abbrev listed : Option A → List A → List A
  listed none signals = signals
  listed (some a) signals = a ∷ signals

  -- What the lines parse signals, those left out that do not parse.
  abbrev pub parsed : List Text → List A
  parsed [] = []
  parsed (t ∷ ts) = listed (parse (trim t)) (parsed ts)

  abbrev pub parsed_all : List (Option (List Text)) → List A
  parsed_all [] = []
  parsed_all (none ∷ cs) = parsed_all cs
  parsed_all (some ts ∷ cs) = parsed ts ++ parsed_all cs

  abbrev pub AreLines : Option (List Text) → Type 0
  AreLines none = Unit {0}
  AreLines (some ts) = All (λ t. All IsInLine t) ts

  sent-listed : (o : Option A) (rest : List A) → sent parse true o rest ≡ listed o rest
  sent-listed none rest = refl
  sent-listed (some a) rest = refl

  taken-listed :
      (text : Text) (rest : List A)
      → parse [] ≡ none
      → taken parse true text rest ≡ listed (parse text) rest
  taken-listed [] rest h = rw h refl
  taken-listed (c ∷ cs) rest h = sent-listed (parse (c ∷ cs)) rest

  run_with_reader-parsed :
      parse [] ≡ none → (ts : List Text) → run_with_reader parse (map line_of ts) ≡ parsed ts
  unfolding run_with_reader
  run_with_reader-parsed h [] = refl
  run_with_reader-parsed h (t ∷ ts) =
      rw (run_with_reader-parsed h ts) (taken-listed (trim t) (parsed ts) h)

  serve-parsed :
      parse [] ≡ none
      → (cs : List (Option (List Text))) (t : Turn) (ts : List Turn) → All AreLines cs
      → t.shutdown ≡ true
      → serve parse (map turn_of cs ++ (t ∷ ts)) ≡ (parsed_all cs, some true)
  unfolding serve
  serve-parsed h [] t ts a e = rw e refl
  serve-parsed h (none ∷ cs) t ts (l, a) e = serve-parsed h cs t ts a e
  serve-parsed h (some c ∷ cs) t ts (l, a) e =
      rw (serve-parsed h cs t ts a e, lines-unlines c l, run_with_reader-parsed h c) refl

  -- Whatever socket the external monitor listens on, if it can be bound: of the lines that the
  -- clients send, one client after another with pauses in between, until the shutdown, those that
  -- parse, white space at their ends aside, are forwarded as signals, each once and in order, the
  -- others are passed over, and the monitor then ends without an error. From stdin it forwards in
  -- the same way and ends with the input. A blank line does not parse.
  pub run-parsed :
      parse [] ≡ none
      → (path addr : Text) (ts : List Text) (cs : List (Option (List Text))) (t : Turn)
        (rest : List Turn)
      → All (λ l. All IsInLine l) ts
      → All AreLines cs
      → t.shutdown ≡ true
      → (run parse (new (unix_prefix ++ path)) [] true (map turn_of cs ++ (t ∷ rest))
          ≡ (parsed_all cs, some true))
        × (run parse (new (tcp_prefix ++ addr)) [] true (map turn_of cs ++ (t ∷ rest))
            ≡ (parsed_all cs, some true))
        × (run parse (new stdin_name) (map line_of (lines (unlines ts))) true []
            ≡ (parsed ts, some true))
  unfolding run new strip_prefix
  run-parsed h path addr ts cs t rest l a e = (
    serve-parsed h cs t rest a e,
    serve-parsed h cs t rest a e,
    rw (lines-unlines ts l, run_with_reader-parsed h ts) refl,
  )
