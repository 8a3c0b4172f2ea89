-- ===== src/LuaPolicy/Sys/Keys.antt =====
-- `read_meminfo` of src/lua_policy.rs: its three values do not depend on each other.
use argus_manager.Prelude.{ℕ, ◌≡◌, refl, ap, ◌∙◌, Option, none, some, List, [], ◌∷◌, All}
use argus_manager.Monitor.Memory.Meminfo.{mem_total, mem_available}
use argus_manager.Text.{Text, strip_prefix}
use argus_manager.Text.Laws.{IsInLine, unlines, lines-unlines, strip_prefix_of}
use argus_manager.LuaPolicy.Sys.{
  mem_free, Meminfo, parse_meminfo_value, line_free, line_available, line_total, read_lines,
  read_meminfo,
}

-- A value, unless the text does not start with the key.
abbrev pub or_last : ℕ → Option Text → ℕ
or_last n none = n
or_last n (some rest) = parse_meminfo_value rest

-- The value in the last of the lines that start with the key, or the number where there is none.
abbrev pub last_value : Text → ℕ → List Text → ℕ
last_value key n [] = n
last_value key n (l ∷ ls) = last_value key (or_last n (strip_prefix key l)) ls

abbrev with_line : Meminfo → Text → Meminfo
with_line m l = line_total m l (strip_prefix mem_total l)

-- A line changes each value as if the other two keys were not looked for.
record IsSplit (m n : Meminfo) (l : Text) : Type 0 where
  split_total : n.total ≡ or_last m.total (strip_prefix mem_total l)
  split_available : n.available ≡ or_last m.available (strip_prefix mem_available l)
  split_free : n.free ≡ or_last m.free (strip_prefix mem_free l)

free-IsSplit :
    (m : Meminfo) (l : Text) (o : Option Text)
    → strip_prefix mem_total l ≡ none
    → strip_prefix mem_available l ≡ none
    → strip_prefix mem_free l ≡ o
    → IsSplit m (line_free m o) l
free-IsSplit m l none t a e = record {
  split_total = rw t refl;
  split_available = rw a refl;
  split_free = rw e refl;
}
free-IsSplit m l (some rest) t a e = record {
  split_total = rw t refl;
  split_available = rw a refl;
  split_free = rw e refl;
}

available-IsSplit :
    (m : Meminfo) (l : Text) (o : Option Text)
    → strip_prefix mem_total l ≡ none
    → strip_prefix mem_available l ≡ o
    → IsSplit m (line_available m l o) l
unfolding strip_prefix
available-IsSplit m l none t a = free-IsSplit m l (strip_prefix mem_free l) t a refl
available-IsSplit m l (some rest) t a =
    let starts = strip_prefix_of mem_available l rest a in
    record { split_total = rw t refl; split_available = rw a refl; split_free = rw starts refl }

total-IsSplit :
    (m : Meminfo) (l : Text) (o : Option Text)
    → strip_prefix mem_total l ≡ o
    → IsSplit m (line_total m l o) l
unfolding strip_prefix
total-IsSplit m l none t = available-IsSplit m l (strip_prefix mem_available l) t refl
total-IsSplit m l (some rest) t =
    let starts = strip_prefix_of mem_total l rest t in
    record {
      split_total = rw t refl;
      split_available = rw starts refl;
      split_free = rw starts refl;
    }

read_lines-last :
    (m : Meminfo) (ls : List Text)
    → ((read_lines m ls).total ≡ last_value mem_total m.total ls)
      × ((read_lines m ls).available ≡ last_value mem_available m.available ls)
      × ((read_lines m ls).free ≡ last_value mem_free m.free ls)
unfolding read_lines
read_lines-last m [] = (refl, refl, refl)
read_lines-last m (l ∷ ls) =
    let s = total-IsSplit m l (strip_prefix mem_total l) refl in
    let (t, a, f) = read_lines-last (with_line m l) ls in
    (
      t ∙ ap (λ n. last_value mem_total n ls) s.split_total,
      a ∙ ap (λ n. last_value mem_available n ls) s.split_available,
      f ∙ ap (λ n. last_value mem_free n ls) s.split_free,
    )

-- Of a file with the given lines, whatever they are, each of the three values is the one in the
-- last line that starts with its key, and 0 if no line does.
pub read_meminfo-last :
    (ls : List Text)
    → All (λ l. All IsInLine l) ls
    → let m = read_meminfo (some (unlines ls)) in
      (m.total ≡ last_value mem_total 0 ls)
      × (m.available ≡ last_value mem_available 0 ls)
      × (m.free ≡ last_value mem_free 0 ls)
unfolding read_meminfo
read_meminfo-last ls h =
    rw (lines-unlines ls h) (read_lines-last record { total = 0; available = 0; free = 0 } ls)
