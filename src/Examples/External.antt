-- ===== src/Examples/External.antt =====
-- The external monitor, with numbers for signals.
use argus_manager.Prelude.{
  ◌≡◌, refl, true, Option, none, some, List, [], ◌∷◌, ◌++◌, map, arith, All,
}
use argus_manager.Text.{Text, lines, parse_u64, unix_prefix, tcp_prefix}
use argus_manager.Text.Laws.{unlines, IsInLine}
use argus_manager.Monitor.External.{Turn, would_block, run, new, stdin_name}
use argus_manager.Monitor.External.Lines.{line_of, turn_of, parsed, parsed_all, run-parsed}

-- " 12", a blank line, "x" and "7"
abbrev texts : List Text
texts = (32 ∷ 49 ∷ 50 ∷ []) ∷ [] ∷ (120 ∷ []) ∷ (55 ∷ []) ∷ []

abbrev clients : List (Option (List Text))
clients = some texts ∷ none ∷ some ((56 ∷ []) ∷ []) ∷ []

abbrev last_turn : Turn
last_turn = record { shutdown = true; accepted = would_block }

digit : IsInLine 56
digit = (ground arith, ground arith)

texts-IsInLine : All (λ l. All IsInLine l) texts
texts-IsInLine = (
  (
    (ground arith, ground arith),
    ((ground arith, ground arith), ((ground arith, ground arith), tt)),
  ),
  (tt, (((ground arith, ground arith), tt), (((ground arith, ground arith), tt), tt))),
)

run-parsed_example :
    (run parse_u64
        (new (unix_prefix ++ (47 ∷ [])))
        []
        true
        (map turn_of clients ++ (last_turn ∷ []))
      ≡ (parsed_all parse_u64 clients, some true))
    × (run parse_u64
          (new (tcp_prefix ++ (58 ∷ [])))
          []
          true
          (map turn_of clients ++ (last_turn ∷ []))
        ≡ (parsed_all parse_u64 clients, some true))
    × (run parse_u64 (new stdin_name) (map line_of (lines (unlines texts))) true []
        ≡ (parsed parse_u64 texts, some true))
unfolding parse_u64
run-parsed_example =
    run-parsed parse_u64 refl (47 ∷ []) (58 ∷ []) texts clients last_turn [] texts-IsInLine
      (texts-IsInLine, (tt, (((digit, tt), tt), tt))) refl
