-- ===== src/Monitor/Gpu.antt =====
-- src/monitor/gpu_provider.rs: where the load and the frequency of the GPU come from. What the
-- files hold, what `tegrastats` prints, and `str::parse::<f64>` are arguments; a path is a string,
-- the name of a directory's entry a text, and `cur_freq_of` the path of an entry's `cur_freq`.
pub mod Percent
use Prim.Native.String.{String}
use argus_manager.Prelude.{
  ℕ, ◌^◌, Bool, true, false, ◌||◌, Option, none, some, List, [], ◌∷◌, ◌==◌, ltb, min, if◌then◌else◌,
  ◌>>=◌,
}
use argus_manager.Float.{Float, clamp, nat}
use argus_manager.Config.{GpuBackend}
use argus_manager.Text.{after_key, Text, is_whitespace, trim, strip_prefix, parse_u64}

abbrev pub sysfs_util_candidates : List String
sysfs_util_candidates =
    "/sys/class/kgsl/kgsl-3d0/devfreq/gpu_load" ∷ "/sys/class/kgsl/kgsl-3d0/gpu_busy_percentage"
    ∷ "/sys/kernel/gpu/gpu_busy_percentage"
    ∷ "/sys/devices/platform/kgsl-3d0.0/kgsl/kgsl-3d0/gpu_busy_percentage"
    ∷ "/sys/class/misc/mali0/device/utilization" ∷ []

abbrev pub sysfs_freq_candidates : List String
sysfs_freq_candidates =
    "/sys/class/kgsl/kgsl-3d0/gpuclk" ∷ "/sys/class/kgsl/kgsl-3d0/devfreq/cur_freq" ∷ []

-- Where `parse_util_pct` splits.
abbrev pub separates : ℕ → Bool
separates c = is_whitespace c || (c == 37)

-- The text up to the next separator.
abbrev pub token : Text → Text
token [] = []
token (c ∷ cs) = let rest = token cs in if separates c then [] else c ∷ rest

-- The first part that is not empty.
abbrev pub first_token : Text → Option Text
first_token [] = none
first_token (c ∷ cs) =
    let later = first_token cs in if separates c then later else some (c ∷ token cs)

unfoldable pub parse_util_pct : {W : Type 0} → (Text → Option W) → Text → Option W
parse_util_pct parse_f64 content = first_token (trim content) >>= parse_f64

-- "GR3D_FREQ "
abbrev pub gr3d_freq : Text
gr3d_freq = 71 ∷ 82 ∷ 51 ∷ 68 ∷ 95 ∷ 70 ∷ 82 ∷ 69 ∷ 81 ∷ 32 ∷ []

abbrev pub consed : ℕ → Option Text → Option Text
consed c none = none
consed c (some s) = some (c ∷ s)

-- The text before the first "%".
unfoldable pub before_percent : Text → Option Text
before_percent [] = none
before_percent (c ∷ cs) =
    let later = before_percent cs in if c == 37 then some [] else consed c later

-- `str::parse::<u32>`, which fails where a `u64` is too large for it.
abbrev pub parse_u32 : Text → Option ℕ
parse_u32 s = parse_u64 s >>= (λ n. if ltb n (2 ^ 32) then some n else none)

unfoldable pub parse_gr3d_freq : Text → Option ℕ
parse_gr3d_freq line = do
  tail ← after_key gr3d_freq line
  digits ← before_percent tail
  v ← parse_u32 (trim digits)
  some (min v 100)

pub record SysfsGpuProvider : Type 0 where
  pub util_paths : List String
  pub freq_paths : List String

abbrev pub with_defaults : SysfsGpuProvider
with_defaults = record { util_paths = sysfs_util_candidates; freq_paths = sysfs_freq_candidates }

abbrev pub with_custom_util : String → SysfsGpuProvider
with_custom_util path = record { util_paths = path ∷ []; freq_paths = sysfs_freq_candidates }

-- `reader` tells whether there is a thread that reads the lines of `tegrastats`.
pub record JetsonGpuProvider : Type 0 where
  pub freq_path : Option String
  pub util_percent : ℕ
  pub util_seen : Bool
  pub reader : Bool

abbrev pub new_with_source : Option String → JetsonGpuProvider
new_with_source freq_path = record {
  freq_path = freq_path;
  util_percent = 0;
  util_seen = false;
  reader = true;
}

abbrev pub freq_only : String → JetsonGpuProvider
freq_only freq_path = record {
  freq_path = some freq_path;
  util_percent = 0;
  util_seen = false;
  reader = false;
}

abbrev pub sampled : JetsonGpuProvider → Option ℕ → JetsonGpuProvider
sampled j none = j
sampled j (some pct) = record j { util_percent = pct; util_seen = true }

-- The reader thread, after the lines so far.
unfoldable pub read_lines : JetsonGpuProvider → List Text → JetsonGpuProvider
read_lines j [] = j
read_lines j (line ∷ rest) =
    read_lines (if j.reader then sampled j (parse_gr3d_freq line) else j) rest

-- The implementations of the trait `GpuTelemetryProvider`.
pub data Provider : Type 0 where
  null_provider : Provider
  sysfs_provider : SysfsGpuProvider → Provider
  jetson_provider : JetsonGpuProvider → Provider

-- The lines that the provider's thread reads.
abbrev pub fed : Provider → List Text → Provider
fed (jetson_provider j) ls = jetson_provider (read_lines j ls)
fed p ls = p

abbrev pub parse_freq : Option Text → Option ℕ
parse_freq content = content >>= (λ s. parse_u64 (trim s))

module _ (read : String → Option Text) where
  abbrev pub first_freq : List String → Option ℕ
  first_freq [] = none
  first_freq (path ∷ rest) =
      let later = first_freq rest in
      elim (parse_freq (read path)) [ some v ↦ some v | none ↦ later ]

  unfoldable pub freq_hz : Provider → Option ℕ
  freq_hz null_provider = none
  freq_hz (sysfs_provider p) = first_freq p.freq_paths
  freq_hz (jetson_provider j) = j.freq_path >>= (λ path. parse_freq (read path))

  module _ {W : Type 0} ⦃f : Float W⦄ (parse_f64 : Text → Option W) where
    -- The first path whose file parses.
    abbrev pub first_util : List String → Option W
    first_util [] = none
    first_util (path ∷ rest) =
        let later = first_util rest in
        elim (read path >>= parse_util_pct parse_f64) [
          | some v ↦ some (clamp v (nat 0) (nat 100))
          | none ↦ later
        ]

    unfoldable pub util_pct : Provider → Option W
    util_pct null_provider = none
    util_pct (sysfs_provider p) = first_util p.util_paths
    util_pct (jetson_provider j) =
        if j.reader then if j.util_seen then some (f.of_nat j.util_percent) else none else none

-- "gv11b" and "ga10b" in a name.
abbrev pub names_tegra : Text → Bool
names_tegra name = elim (after_key (103 ∷ 118 ∷ 49 ∷ 49 ∷ 98 ∷ []) name) [
  | some tail ↦ true
  | none ↦ elim (after_key (103 ∷ 97 ∷ 49 ∷ 48 ∷ 98 ∷ []) name) [ some tail ↦ true | none ↦ false ]
]

abbrev pub find_tegra : List Text → Option Text
find_tegra [] = none
find_tegra (name ∷ rest) =
    let later = find_tegra rest in if names_tegra name then some name else later

abbrev pub any_exists : (String → Bool) → List String → Bool
any_exists exists [] = false
any_exists exists (p ∷ rest) = exists p || any_exists exists rest

-- The entries of `class/devfreq`, none if it cannot be read; and which candidates exist.
unfoldable pub detect_backend : Option (List Text) → (String → Bool) → GpuBackend
detect_backend devfreq exists = elim (devfreq >>= find_tegra) [
  | some name ↦ GpuBackend.jetson
  | none ↦ if any_exists exists sysfs_util_candidates then GpuBackend.sysfs else GpuBackend.null
]

unfoldable pub discover_jetson_freq_path : (Text → String) → Option (List Text) → Option String
discover_jetson_freq_path cur_freq_of devfreq =
    devfreq >>= find_tegra >>= (λ name. some (cur_freq_of name))

-- A program that does not start leaves the frequency, if its path is known.
abbrev pub jetson_or_fallback : Bool → Option String → Provider
jetson_or_fallback true freq_path = jetson_provider (new_with_source freq_path)
jetson_or_fallback false (some path) = jetson_provider (freq_only path)
jetson_or_fallback false none = null_provider

module _ (cur_freq_of : Text → String) (devfreq : Option (List Text)) (exists : String → Bool)
    (starts : String → Bool) where
  abbrev pub resolved : GpuBackend → GpuBackend
  resolved GpuBackend.auto = detect_backend devfreq exists
  resolved b = b

  abbrev pub built : GpuBackend → Provider
  built GpuBackend.null = null_provider
  built GpuBackend.sysfs = sysfs_provider with_defaults
  built GpuBackend.auto = sysfs_provider with_defaults
  built (GpuBackend.custom_sysfs path) = sysfs_provider (with_custom_util path)
  built GpuBackend.jetson =
      jetson_or_fallback (starts "tegrastats") (discover_jetson_freq_path cur_freq_of devfreq)
  built (GpuBackend.jetson_explicit freq_path tegrastats_bin) =
      jetson_or_fallback (starts (elim tegrastats_bin [ some bin ↦ bin | none ↦ "tegrastats" ]))
        (some freq_path)

  -- `starts` tells whether the program starts.
  unfoldable pub build_provider : GpuBackend → Provider
  build_provider backend = built (resolved backend)
