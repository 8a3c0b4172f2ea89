-- ===== src/Examples/Meminfo.antt =====
-- The kernel's file on memory, at a concrete text.
use argus_manager.Prelude.{◌≡◌, refl, some, [], ◌∷◌, arith}
use argus_manager.Text.{Text, is_whitespace, strip_prefix}
use argus_manager.Text.Laws.{unlines}
use argus_manager.Monitor.Memory.Meminfo.{mem_total, mem_available, parse_meminfo}
use argus_manager.Monitor.Memory.Meminfo.Lines.{entry, parse_meminfo-entries}

-- "x"
abbrev other_line : Text
other_line = 120 ∷ []

-- "MemTotal: 20 kB", then "MemAvailable:5 kB".
abbrev small : Text
small = unlines (
    other_line
    ∷ entry mem_total (32 ∷ []) (2 ∷ 0 ∷ [])
    ∷ entry mem_available [] (5 ∷ [])
    ∷ other_line
    ∷ [])

parse_meminfo-entries_example : parse_meminfo (some small) ≡ some (20480, 5120)
unfolding is_whitespace strip_prefix
parse_meminfo-entries_example =
    parse_meminfo-entries (other_line ∷ []) [] (other_line ∷ []) (32 ∷ []) [] 2 (0 ∷ []) 5 []
      ((((λ e. omega arith), λ e. omega arith), tt), tt) tt
      ((((λ e. omega arith), λ e. omega arith), tt), tt) ((refl, refl), tt) tt
      (
        ((refl, ((λ e. omega arith), λ e. omega arith)), tt),
        (omega arith, (omega arith, tt)),
        omega arith,
      )
      (tt, (omega arith, tt), omega arith)
