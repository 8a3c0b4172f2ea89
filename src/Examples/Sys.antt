-- ===== src/Examples/Sys.antt =====
-- The helpers that the script can call.
use argus_manager.Prelude.{ℕ, ◌*◌, ◌^◌, ◌<◌, ◌≡◌, refl, some, [], ◌∷◌, ◌++◌, All, arith}
use argus_manager.Float.Fixed.{Fixed, fixed_float}
use argus_manager.Monitor.Memory.Meminfo.{mem_total, mem_available}
use argus_manager.Text.{
  Text, strip_prefix, after_key, lines_from, strip_return, parse_u64, digits_from,
}
use argus_manager.Text.Laws.{IsInLine, unlines}
use argus_manager.LuaPolicy.Sys.{
  uninitialized, frame_count, find_frame, surface_view, frame_key, read_meminfo, mem_free,
}
use argus_manager.LuaPolicy.Sys.Keys.{last_value, read_meminfo-last}
use argus_manager.LuaPolicy.Sys.Fps.{Call, IsCovered, rates, foreground_fps-IsCovered}

-- "app"
abbrev app : Text
app = 97 ∷ 112 ∷ 112 ∷ []

-- A layer whose counter has one digit, that of the given code.
abbrev layer : ℕ → Text
layer digit = surface_view ++ app ++ (10 ∷ []) ++ frame_key ++ (digit ∷ 10 ∷ [])

abbrev call : ℕ → ℕ → Call
call digit now = record { pkg = app; output = some (layer digit); now = now }

abbrev tenths : ℕ → Fixed
tenths nanos = fixed_float.lit nanos (10 ^ 9)

foreground_fps-IsCovered_example :
    IsCovered tenths 3 0
      (rates tenths uninitialized (call 51 0 ∷ call 52 (10 ^ 7) ∷ call 57 (2 * 10 ^ 8) ∷ []))
unfolding frame_count find_frame strip_prefix after_key lines_from strip_return parse_u64
    digits_from
foreground_fps-IsCovered_example =
    foreground_fps-IsCovered tenths 3 (call 51 0) (call 52 (10 ^ 7) ∷ call 57 (2 * 10 ^ 8) ∷ [])
      refl (omega arith, omega arith, (omega arith, omega arith, tt))

-- "MemFree: 7"
abbrev free_line : Text
free_line = mem_free ++ (32 ∷ 55 ∷ [])

character : (c : ℕ) → 13 < c → IsInLine c
character c h = (ground (arith, h), ground (arith, h))

free_line-IsInLine : All IsInLine free_line
free_line-IsInLine = (
  character 77 (omega arith),
  (
    character 101 (omega arith),
    (
      character 109 (omega arith),
      (
        character 70 (omega arith),
        (
          character 114 (omega arith),
          (
            character 101 (omega arith),
            (
              character 101 (omega arith),
              (
                character 58 (omega arith),
                (character 32 (omega arith), (character 55 (omega arith), tt)),
              ),
            ),
          ),
        ),
      ),
    ),
  ),
)

read_meminfo-last_example :
    let m = read_meminfo (some (unlines (free_line ∷ [] ∷ []))) in
    (m.total ≡ last_value mem_total 0 (free_line ∷ [] ∷ []))
    × (m.available ≡ last_value mem_available 0 (free_line ∷ [] ∷ []))
    × (m.free ≡ last_value mem_free 0 (free_line ∷ [] ∷ []))
read_meminfo-last_example = read_meminfo-last (free_line ∷ [] ∷ []) (free_line-IsInLine, (tt, tt))
