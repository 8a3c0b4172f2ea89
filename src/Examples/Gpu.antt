-- ===== src/Examples/Gpu.antt =====
-- The load of the GPU, from a file that says too much.
use Prim.Native.String.{String}
use argus_manager.Prelude.{Option, none, some, [], ◌∷◌, false, Bool, ◌>>=◌}
use argus_manager.Float.Fixed.{Fixed, fixed_float, Fixed-IsIeee}
use argus_manager.Config.{GpuBackend}
use argus_manager.Text.{Text, parse_u64}
use argus_manager.Monitor.Gpu.{util_pct, fed, build_provider}
use argus_manager.Monitor.Gpu.Percent.{IsReading, build_provider-IsReading}

-- "250 %"
abbrev busy_file : String → Option Text
busy_file path = some (50 ∷ 53 ∷ 48 ∷ 32 ∷ 37 ∷ [])

abbrev whole_numbers : Text → Option Fixed
whole_numbers t = parse_u64 t >>= (λ n. some (fixed_float.of_nat n))

abbrev one_path : Text → String
one_path name = "/sys/class/devfreq/gv11b/cur_freq"

abbrev nothing : String → Bool
nothing path = false

build_provider-IsReading_example : IsReading (
    util_pct busy_file whole_numbers
      (fed (build_provider one_path none nothing nothing (GpuBackend.custom_sysfs "/load")) []))
build_provider-IsReading_example =
    build_provider-IsReading busy_file whole_numbers Fixed-IsIeee one_path none nothing nothing
      (GpuBackend.custom_sysfs "/load") []
