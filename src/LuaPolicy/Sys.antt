-- ===== src/LuaPolicy/Sys.antt =====
-- The `sys` helpers that src/lua_policy.rs offers to the script. What a file holds, if it can be
-- read, what the GPU provider reports, what the command `dumpsys` prints, and the time are
-- arguments; `W` is `f64`, `S` is `f32`.
pub mod Keys
pub mod Fps
use argus_manager.Prelude.{
  ℕ, zero, suc, ◌+◌, ◌-◌, ◌*◌, ◌^◌, Bool, true, false, ◌&&◌, Option, none, some, List, [], ◌∷◌,
  ◌++◌, leb, ltb, ◌==◌, length, if◌then◌else◌, ◌>>=◌,
}
use argus_manager.Prelude.Int.{ℤ, pos, negsuc}
use argus_manager.Float.{Float, flt, nat}
use argus_manager.Monitor.Memory.Meminfo.{mem_total, mem_available}
use argus_manager.Text.{
  Text, is_whitespace, trim, trim_start, strip_prefix, after_key, lines, some_digits, parse_u64,
}

-- `sys.read`
abbrev pub read : Option Text → Text
read none = []
read (some s) = trim s

-- "MemFree:"
abbrev pub mem_free : Text
mem_free = 77 ∷ 101 ∷ 109 ∷ 70 ∷ 114 ∷ 101 ∷ 101 ∷ 58 ∷ []

abbrev pub until_space : Text → Text
until_space [] = []
until_space (c ∷ cs) = let rest = until_space cs in if is_whitespace c then [] else c ∷ rest

-- `split_whitespace().next()`
abbrev pub nonempty : Text → Option Text
nonempty [] = none
nonempty (c ∷ cs) = some (c ∷ cs)

abbrev pub or_zero : Option ℕ → ℕ
or_zero none = 0
or_zero (some n) = n

unfoldable pub parse_meminfo_value : Text → ℕ
parse_meminfo_value s = or_zero (nonempty (until_space (trim_start s)) >>= parse_u64)

-- The total, what is available, and what is free.
pub record Meminfo : Type 0 where
  pub total : ℕ
  pub available : ℕ
  pub free : ℕ

abbrev pub line_free : Meminfo → Option Text → Meminfo
line_free m none = m
line_free m (some rest) = record m { free = parse_meminfo_value rest }

abbrev pub line_available : Meminfo → Text → Option Text → Meminfo
line_available m line none = line_free m (strip_prefix mem_free line)
line_available m line (some rest) = record m { available = parse_meminfo_value rest }

abbrev pub line_total : Meminfo → Text → Option Text → Meminfo
line_total m line none = line_available m line (strip_prefix mem_available line)
line_total m line (some rest) = record m { total = parse_meminfo_value rest }

unfoldable pub read_lines : Meminfo → List Text → Meminfo
read_lines m [] = m
read_lines m (line ∷ rest) = read_lines (line_total m line (strip_prefix mem_total line)) rest

unfoldable pub read_meminfo : Option Text → Meminfo
read_meminfo none = record { total = 0; available = 0; free = 0 }
read_meminfo (some content) =
    read_lines record { total = 0; available = 0; free = 0 } (lines content)

-- `str::parse::<i64>`
abbrev pub negated : ℕ → Option ℤ
negated zero = some (pos 0)
negated (suc n) = if ltb n (2 ^ 63) then some (negsuc n) else none

abbrev pub as_positive : ℕ → Option ℤ
as_positive n = if ltb n (2 ^ 63) then some (pos n) else none

unfoldable pub parse_i64 : Text → Option ℤ
parse_i64 [] = none
parse_i64 (c ∷ cs) =
    if c == 45 then some_digits cs >>= negated else parse_u64 (c ∷ cs) >>= as_positive

abbrev pub or_minus_one : Option ℤ → ℤ
or_minus_one none = negsuc 0
or_minus_one (some n) = n

-- `sys.cpu_freq`, of the file of that CPU.
unfoldable pub cpu_freq : Option Text → ℤ
cpu_freq file = or_minus_one (file >>= (λ s. parse_i64 (trim s)))

-- `v as i64` of a `u64`.
abbrev pub as_i64 : ℕ → ℤ
as_i64 n = if ltb n (2 ^ 63) then pos n else negsuc (2 ^ 64 - 1 - n)

-- `sys.gpu_freq`
unfoldable pub gpu_freq : Option ℕ → ℤ
gpu_freq reported = or_minus_one (reported >>= (λ v. some (as_i64 v)))

module _ {W : Type 0} ⦃f : Float W⦄ where
  abbrev pub or_else : W → Option W → W
  or_else d none = d
  or_else d (some v) = v

  -- `sys.thermal`, of the file of that zone; `parse_f64` is `str::parse::<f64>`.
  unfoldable pub thermal : (Text → Option W) → Option Text → W
  thermal parse_f64 file =
      or_else (f.sub (nat 0) (nat 1))
        (file >>= (λ s. parse_f64 (trim s)) >>= (λ mc. some (f.div mc (nat 1000))))

  -- `sys.gpu_busy`; `round_i64` is `v.round() as i64`.
  unfoldable pub gpu_busy : (W → ℤ) → Option W → ℤ
  gpu_busy round_i64 reported = or_minus_one (reported >>= (λ v. some (round_i64 v)))

-- "SurfaceView[" and "frame="
abbrev pub surface_view : Text
surface_view = 83 ∷ 117 ∷ 114 ∷ 102 ∷ 97 ∷ 99 ∷ 101 ∷ 86 ∷ 105 ∷ 101 ∷ 119 ∷ 91 ∷ []

abbrev pub frame_key : Text
frame_key = 102 ∷ 114 ∷ 97 ∷ 109 ∷ 101 ∷ 61 ∷ []

abbrev pub digits : Text → Text
digits [] = []
digits (c ∷ cs) = let rest = digits cs in if leb 48 c && leb c 57 then c ∷ rest else []

abbrev pub frame_in_line : Text → Option ℕ
frame_in_line line = after_key frame_key line >>= (λ rest. parse_u64 (digits rest))

-- `take(n).find_map` over lines.
abbrev pub first_frame : ℕ → List Text → Option ℕ
first_frame zero ls = none
first_frame (suc n) [] = none
first_frame (suc n) (l ∷ ls) =
    let later = first_frame n ls in elim (frame_in_line l) [ none ↦ later | some v ↦ some v ]

-- The search for the marker from each place on; `skip` characters belong to the last one found.
unfoldable pub find_frame : Text → ℕ → Text → Option ℕ
find_frame marker skip [] = none
find_frame marker (suc skip) (c ∷ cs) = find_frame marker skip cs
find_frame marker zero (c ∷ cs) =
    let past = find_frame marker (length marker - 1) cs in
    let next = find_frame marker zero cs in
    elim (strip_prefix marker (c ∷ cs)) [
      | none ↦ next
      | some rest ↦ elim (first_frame 5 (lines (c ∷ cs))) [ none ↦ past | some v ↦ some v ]
    ]

-- The counter of frames in the output of `dumpsys`, if the command runs.
unfoldable pub frame_count : Text → Option Text → Option ℕ
frame_count pkg output = output >>= find_frame (surface_view ++ pkg) 0

-- The counter and the time, in nanoseconds, from which the next rate is taken.
pub data FpsState : Type 0 where
  uninitialized : FpsState
  since : (prev_frame prev_time : ℕ) → FpsState

-- The frames and the nanoseconds of a rate.
abbrev pub Interval : Type 0
Interval = ℕ × ℕ

module _ {S : Type 0} ⦃g : Float S⦄ (as_secs_f32 : ℕ → S) where
  -- The call at a time, with the counter it reads.
  abbrev pub measured : FpsState → ℕ → ℕ → FpsState × Option Interval
  measured uninitialized cur_frame now = (since cur_frame now, none)
  measured (since prev_frame prev_time) cur_frame now =
      if flt (as_secs_f32 (now - prev_time)) (g.lit 1 10)
      then (since prev_frame prev_time, none)
      else (since cur_frame now, some (cur_frame - prev_frame, now - prev_time))

  abbrev pub rate : Option Interval → Option S
  rate none = none
  rate (some (frames, dt)) = some (g.div (g.of_nat frames) (as_secs_f32 dt))

  abbrev pub counted : FpsState → Option ℕ → ℕ → FpsState × Option Interval
  counted s none now = (s, none)
  counted s (some cur_frame) now = measured s cur_frame now

  -- `sys.foreground_fps`
  unfoldable pub foreground_fps : FpsState → Text → Option Text → ℕ → FpsState × Option S
  foreground_fps s pkg output now =
      let (next, interval) = counted s (frame_count pkg output) now in (next, rate interval)
