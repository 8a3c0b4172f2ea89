-- ===== src/Monitor/Memory/Meminfo.antt =====
-- `parse_meminfo` of src/monitor/memory.rs, with the contents of the file, or none if it cannot be
-- read.
pub mod Lines
use argus_manager.Prelude.{
  ℕ, ◌*◌, ◌%◌, ◌^◌, Option, none, some, List, [], ◌∷◌, ◌==◌, ◌&&◌, if◌then◌else◌, ◌>>=◌,
}
use argus_manager.Text.{Text, trim, strip_prefix, lines, parse_u64}

-- "MemTotal:" and "MemAvailable:"
abbrev pub mem_total : Text
mem_total = 77 ∷ 101 ∷ 109 ∷ 84 ∷ 111 ∷ 116 ∷ 97 ∷ 108 ∷ 58 ∷ []

abbrev pub mem_available : Text
mem_available = 77 ∷ 101 ∷ 109 ∷ 65 ∷ 118 ∷ 97 ∷ 105 ∷ 108 ∷ 97 ∷ 98 ∷ 108 ∷ 101 ∷ 58 ∷ []

abbrev pub drop_unit : ℕ → Text → Text
drop_unit c [] = c ∷ []
drop_unit c (d ∷ []) = if (d == 66) && (c == 107) then [] else c ∷ d ∷ []
drop_unit c (d ∷ e ∷ es) = c ∷ d ∷ e ∷ es

-- `trim_end_matches("kB")`
unfoldable pub trim_unit : Text → Text
trim_unit [] = []
trim_unit (c ∷ cs) = drop_unit c (trim_unit cs)

unfoldable pub parse_kb_value : Text → Option ℕ
parse_kb_value s = parse_u64 (trim (trim_unit (trim s)))

-- The two variables of the loop.
abbrev pub Found : Type 0
Found = Option ℕ × Option ℕ

abbrev pub found_available : Found → Option Text → Option Found
found_available (total, available) none = some (total, available)
found_available (total, available) (some val) = parse_kb_value val >>= (λ n. some (total, some n))

abbrev pub found_total : Found → Text → Option Text → Option Found
found_total f line none = found_available f (strip_prefix mem_available line)
found_total (total, available) line (some val) =
    parse_kb_value val >>= (λ n. some (some n, available))

-- One line; none if its number does not parse.
unfoldable pub read_line : Found → Text → Option Found
read_line f line = found_total f line (strip_prefix mem_total line)

abbrev pub until_both : (Found → Option Found) → Found → Option Found
until_both next (some total, some available) = some (some total, some available)
until_both next f = next f

unfoldable pub scan : Found → List Text → Option Found
scan f [] = some f
scan f (line ∷ rest) = read_line f line >>= until_both (λ g. scan g rest)

abbrev pub in_bytes : Found → Option (ℕ × ℕ)
in_bytes (some total, some available) = some (total * 1024 % 2 ^ 64, available * 1024 % 2 ^ 64)
in_bytes _ = none

unfoldable pub parse_meminfo : Option Text → Option (ℕ × ℕ)
parse_meminfo none = none
parse_meminfo (some content) = scan (none, none) (lines content) >>= in_bytes
