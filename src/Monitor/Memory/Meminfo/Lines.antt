-- ===== src/Monitor/Memory/Meminfo/Lines.antt =====
-- What `parse_meminfo` of src/monitor/memory.rs reads of the kernel's file.
use argus_manager.Prelude.{
  Bool, true, ltb, ◌&&◌, All-append, ℕ, ◌*◌, ◌+◌, ◌%◌, ◌^◌, ◌<◌, ◌≡◌, refl, Option, none, some,
  List, [], ◌∷◌, ◌++◌, arith, All,
}
use argus_manager.Text.{Text, is_whitespace, trim_end, strip_prefix}
use argus_manager.Text.Laws.{
  IsInLine, unlines, number, numeral, IsDigit, strip_prefix-append, lines-unlines,
  parse_u64-numeral,
}
use argus_manager.Text.Trim.{
  IsSpace, numeral-IsVisible, trim_start-spaces, trim_start-visible, trim_end-append,
  trim_end-space,
}
use argus_manager.Monitor.Memory.Meminfo.{
  mem_total, mem_available, drop_unit, trim_unit, parse_kb_value, Found, read_line, scan,
  parse_meminfo,
}

-- " kB"
abbrev pub kb : Text
kb = 32 ∷ 107 ∷ 66 ∷ []

drop_unit-visible : (c : ℕ) (s : Text) → drop_unit c (s ++ (32 ∷ [])) ≡ c ∷ (s ++ (32 ∷ []))
drop_unit-visible c [] = refl
drop_unit-visible c (d ∷ []) = refl
drop_unit-visible c (d ∷ e ∷ es) = refl

trim_unit-kb : (s : Text) → trim_unit (s ++ kb) ≡ s ++ (32 ∷ [])
unfolding trim_unit
trim_unit-kb [] = refl
trim_unit-kb (c ∷ cs) = rw (trim_unit-kb cs) (drop_unit-visible c cs)

trim_end-kb : trim_end kb ≡ kb
unfolding trim_end is_whitespace
trim_end-kb = refl

-- A numeral after spaces and before the unit.
parse_kb_value-numeral :
    (sp : Text) (d : ℕ) (ds : List ℕ)
    → All IsSpace sp
    → All IsDigit (d ∷ ds)
    → number 0 (d ∷ ds) < 2 ^ 64
    → parse_kb_value (sp ++ (numeral (d ∷ ds) ++ kb)) ≡ some (number 0 (d ∷ ds))
unfolding parse_kb_value
parse_kb_value-numeral sp d ds h hd b =
    let visible = numeral-IsVisible (d ∷ ds) hd in
    rw
      (
        trim_start-spaces sp (numeral (d ∷ ds) ++ kb) h,
        trim_start-visible (48 + d) (numeral ds ++ kb) visible.0,
        trim_end-append (numeral (d ∷ ds)) 32 (107 ∷ 66 ∷ []) trim_end-kb,
        trim_unit-kb (numeral (d ∷ ds)),
        trim_start-visible (48 + d) (numeral ds ++ (32 ∷ [])) visible.0,
        trim_end-space (numeral (d ∷ ds)) visible,
      )
      (parse_u64-numeral d ds hd b)

-- A line that the loop passes over.
abbrev pub IsOther : Text → Type 0
IsOther l = (strip_prefix mem_total l ≡ none) × (strip_prefix mem_available l ≡ none)

read_line-IsOther : (f : Found) (l : Text) → IsOther l → read_line f l ≡ some f
unfolding read_line
read_line-IsOther f l (t, a) = rw (t, a) refl

scan-others :
    (total : Option ℕ) (ls rest : List Text)
    → All IsOther ls
    → scan (total, none) (ls ++ rest) ≡ scan (total, none) rest
unfolding scan
scan-others total [] rest h = refl
scan-others none (l ∷ ls) rest (h, hs) =
    rw (read_line-IsOther (none, none) l h) (scan-others none ls rest hs)
scan-others (some n) (l ∷ ls) rest (h, hs) =
    rw (read_line-IsOther (some n, none) l h) (scan-others (some n) ls rest hs)

-- The line of a name, and of the digits of a number of kilobytes.
abbrev pub entry : Text → Text → List ℕ → Text
entry name sp ds = name ++ (sp ++ (numeral ds ++ kb))

abbrev pub IsBlank : ℕ → Type 0
IsBlank c = IsSpace c × IsInLine c

read_total :
    (a : Option ℕ) (sp : Text) (d : ℕ) (ds : List ℕ)
    → All IsSpace sp
    → All IsDigit (d ∷ ds)
    → number 0 (d ∷ ds) < 2 ^ 64
    → read_line (none, a) (entry mem_total sp (d ∷ ds)) ≡ some (some (number 0 (d ∷ ds)), a)
unfolding read_line
read_total a sp d ds h hd b =
    rw
      (
        strip_prefix-append mem_total (sp ++ (numeral (d ∷ ds) ++ kb)),
        parse_kb_value-numeral sp d ds h hd b,
      )
      refl

available_not_total : (s : Text) → strip_prefix mem_total (mem_available ++ s) ≡ none
unfolding strip_prefix
available_not_total s = refl

read_available :
    (t : Option ℕ) (sp : Text) (d : ℕ) (ds : List ℕ)
    → All IsSpace sp
    → All IsDigit (d ∷ ds)
    → number 0 (d ∷ ds) < 2 ^ 64
    → read_line (t, none) (entry mem_available sp (d ∷ ds)) ≡ some (t, some (number 0 (d ∷ ds)))
unfolding read_line
read_available t sp d ds h hd b =
    rw
      (
        available_not_total (sp ++ (numeral (d ∷ ds) ++ kb)),
        strip_prefix-append mem_available (sp ++ (numeral (d ∷ ds) ++ kb)),
        parse_kb_value-numeral sp d ds h hd b,
      )
      refl

numeral-IsInLine : (ds : List ℕ) → All IsDigit ds → All IsInLine (numeral ds)
numeral-IsInLine [] h = tt
numeral-IsInLine (d ∷ ds) (h, hs) = (((λ e. omega arith), λ e. omega arith), numeral-IsInLine ds hs)

blank-IsInLine : (sp : Text) → All IsBlank sp → All IsInLine sp
blank-IsInLine [] h = tt
blank-IsInLine (c ∷ cs) (h, hs) = (h.1, blank-IsInLine cs hs)

blank-IsSpace : (sp : Text) → All IsBlank sp → All IsSpace sp
blank-IsSpace [] h = tt
blank-IsSpace (c ∷ cs) (h, hs) = (h.0, blank-IsSpace cs hs)

-- A test for characters that are no line breaks.
abbrev printable : Text → Bool
printable [] = true
printable (c ∷ cs) = ltb 13 c && printable cs

printable-IsInLine : (s : Text) → printable s ≡ true → All IsInLine s
printable-IsInLine [] h = tt
printable-IsInLine (c ∷ cs) h =
    let e : ltb 13 c ≡ true = ground (arith, h) in
    let es : printable cs ≡ true = ground (arith, h) in
    (((λ k. ground (arith, e, k)), λ k. ground (arith, e, k)), printable-IsInLine cs es)

entry-IsInLine :
    (name sp : Text) (ds : List ℕ)
    → printable name ≡ true
    → All IsBlank sp
    → All IsDigit ds
    → All IsInLine (entry name sp ds)
entry-IsInLine name sp ds n h hd =
    All-append IsInLine name (sp ++ (numeral ds ++ kb)) (printable-IsInLine name n) (
      All-append IsInLine sp (numeral ds ++ kb) (blank-IsInLine sp h)
        (All-append IsInLine (numeral ds) kb (numeral-IsInLine ds hd) (printable-IsInLine kb refl)))

-- A numeral of a `u64` after blanks.
abbrev pub IsEntry : Text → ℕ → List ℕ → Type 0
IsEntry sp d ds = All IsBlank sp × All IsDigit (d ∷ ds) × (number 0 (d ∷ ds) < 2 ^ 64)

-- The loop over the lines of the file.
scan-entries :
    (pre mid post : List Text) (sp sq : Text) (d : ℕ) (ds : List ℕ) (e : ℕ) (es : List ℕ)
    → All IsOther pre
    → All IsOther mid
    → IsEntry sp d ds
    → IsEntry sq e es
    → scan
        (none, none)
        (pre ++ (entry mem_total sp (d ∷ ds) ∷ (mid ++ (entry mem_available sq (e ∷ es) ∷ post))))
      ≡ some (some (number 0 (d ∷ ds)), some (number 0 (e ∷ es)))
unfolding scan
scan-entries pre mid post sp sq d ds e es p m (h, hd, b) (k, ke, c) =
    rw
      (
        scan-others none pre
            (entry mem_total sp (d ∷ ds) ∷ (mid ++ (entry mem_available sq (e ∷ es) ∷ post))) p,
        read_total none sp d ds (blank-IsSpace sp h) hd b,
        scan-others (some (number 0 (d ∷ ds))) mid (entry mem_available sq (e ∷ es) ∷ post) m,
        read_available (some (number 0 (d ∷ ds))) sq e es (blank-IsSpace sq k) ke c,
      )
      refl

abbrev pub IsLine : Text → Type 0
IsLine l = All IsInLine l

-- `parse_meminfo` reads the sizes of the kernel's file: if it has a line "MemTotal:", then later a
-- line "MemAvailable:", each with blanks, a decimal number below 2^64 and " kB", and no line that
-- begins with either name before them, then whatever the other lines say and however many there
-- are, the result is the two numbers times 1024 (modulo 2^64).
pub parse_meminfo-entries :
    (pre mid post : List Text) (sp sq : Text) (d : ℕ) (ds : List ℕ) (e : ℕ) (es : List ℕ)
    → All IsLine pre
    → All IsLine mid
    → All IsLine post
    → All IsOther pre
    → All IsOther mid
    → IsEntry sp d ds
    → IsEntry sq e es
    → parse_meminfo (
        some (
          unlines (
            pre
            ++ (entry mem_total sp (d ∷ ds) ∷ (mid ++ (entry mem_available sq (e ∷ es) ∷ post))))))
      ≡ some (number 0 (d ∷ ds) * 1024 % 2 ^ 64, number 0 (e ∷ es) * 1024 % 2 ^ 64)
unfolding parse_meminfo
parse_meminfo-entries pre mid post sp sq d ds e es hp hm hq p m h k =
    let later : List Text = entry mem_available sq (e ∷ es) ∷ post in
    let all = All-append IsLine pre (entry mem_total sp (d ∷ ds) ∷ (mid ++ later)) hp (
      entry-IsInLine mem_total sp (d ∷ ds) refl h.0 h.1,
      All-append IsLine mid later hm (entry-IsInLine mem_available sq (e ∷ es) refl k.0 k.1, hq),
    ) in
    rw
      (
        lines-unlines (pre ++ (entry mem_total sp (d ∷ ds) ∷ (mid ++ later))) all,
        scan-entries pre mid post sp sq d ds e es p m h k,
      )
      refl
