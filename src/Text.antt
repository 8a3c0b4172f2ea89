-- ===== src/Text.antt =====
-- What the program uses of Rust's strings: a text is the list of its code points.
pub mod Laws
pub mod Trim
use argus_manager.Prelude.{
  ℕ, ◌+◌, ◌-◌, ◌*◌, ◌^◌, Bool, true, false, ◌&&◌, ◌||◌, Option, none, some, List, [], ◌∷◌, ◌++◌,
  ◌==◌, leb, ltb, if◌then◌else◌, ◌>>=◌,
}

abbrev pub Text : Type 0
Text = List ℕ

-- `char::is_whitespace`
unfoldable pub is_whitespace : ℕ → Bool
is_whitespace c =
    (leb 9 c && leb c 13)
    || ((c == 32)
        || ((c == 133)
            || ((c == 160)
                || ((c == 5760)
                    || ((leb 8192 c && leb c 8202)
                        || ((c == 8232)
                            || ((c == 8233) || ((c == 8239) || ((c == 8287) || (c == 12288))))))))))

unfoldable pub trim_start : Text → Text
trim_start [] = []
trim_start (c ∷ cs) = let rest = trim_start cs in if is_whitespace c then rest else c ∷ cs

abbrev pub drop_space : ℕ → Text → Text
drop_space c [] = if is_whitespace c then [] else c ∷ []
drop_space c (d ∷ ds) = c ∷ d ∷ ds

unfoldable pub trim_end : Text → Text
trim_end [] = []
trim_end (c ∷ cs) = drop_space c (trim_end cs)

abbrev pub trim : Text → Text
trim s = trim_end (trim_start s)

-- Equality of texts.
abbrev pub is_same : Text → Text → Bool
is_same [] [] = true
is_same [] (d ∷ ds) = false
is_same (c ∷ cs) [] = false
is_same (c ∷ cs) (d ∷ ds) = (c == d) && is_same cs ds

unfoldable pub strip_prefix : Text → Text → Option Text
strip_prefix [] s = some s
strip_prefix (p ∷ ps) [] = none
strip_prefix (p ∷ ps) (c ∷ cs) = let rest = strip_prefix ps cs in if c == p then rest else none

-- The text after the first occurrence of the key.
unfoldable pub after_key : Text → Text → Option Text
after_key key [] = strip_prefix key []
after_key key (c ∷ cs) =
    let later = after_key key cs in
    elim (strip_prefix key (c ∷ cs)) [ some tail ↦ some tail | none ↦ later ]

-- A carriage return before the line feed belongs to the end of the line.
unfoldable pub strip_return : Text → Text
strip_return [] = []
strip_return (c ∷ []) = if c == 13 then [] else c ∷ []
strip_return (c ∷ d ∷ ds) = c ∷ strip_return (d ∷ ds)

-- `str::lines`, with what has been read of the current line.
unfoldable pub lines_from : Text → Text → List Text
lines_from line [] = elim line [ [] ↦ [] | c ∷ cs ↦ (c ∷ cs) ∷ [] ]
lines_from line (c ∷ cs) = elim (c == 10) [
  | true ↦ strip_return line ∷ lines_from [] cs
  | false ↦ lines_from (line ++ (c ∷ [])) cs
]

abbrev pub lines : Text → List Text
lines s = lines_from [] s

-- One digit of a `u64`; none if it is no digit, or on overflow.
abbrev pub add_digit : ℕ → ℕ → Option ℕ
add_digit n c =
    if (leb 48 c && leb c 57) && ltb (n * 10 + (c - 48)) (2 ^ 64)
    then some (n * 10 + (c - 48))
    else none

unfoldable pub digits_from : ℕ → Text → Option ℕ
digits_from n [] = some n
digits_from n (c ∷ cs) = add_digit n c >>= (λ m. digits_from m cs)

-- The digits of a number: at least one.
abbrev pub some_digits : Text → Option ℕ
some_digits [] = none
some_digits (c ∷ cs) = digits_from 0 (c ∷ cs)

-- `str::parse::<u64>`
unfoldable pub parse_u64 : Text → Option ℕ
parse_u64 [] = none
parse_u64 (c ∷ cs) = if c == 43 then some_digits cs else some_digits (c ∷ cs)

-- "unix:" and "tcp:", with which the names of transports begin.
abbrev pub unix_prefix : Text
unix_prefix = 117 ∷ 110 ∷ 105 ∷ 120 ∷ 58 ∷ []

abbrev pub tcp_prefix : Text
tcp_prefix = 116 ∷ 99 ∷ 112 ∷ 58 ∷ []
