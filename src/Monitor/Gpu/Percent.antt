-- ===== src/Monitor/Gpu/Percent.antt =====
-- What the providers of src/monitor/gpu_provider.rs report as the load.
use Prim.Native.String.{String}
use argus_manager.Prelude.{
  ℕ, ◌≤◌, ◌≡◌, ◌⊎◌, inr, Bool, true, false, Option, none, some, List, [], ◌∷◌, arith, if◌then◌else◌,
  ◌>>=◌,
}
use argus_manager.Float.{Float, IsIeee, fle, clamp, nat}
use argus_manager.Config.{GpuBackend}
use argus_manager.Text.{Text, trim}
use argus_manager.Monitor.Gpu.{
  Provider, null_provider, sysfs_provider, jetson_provider, JetsonGpuProvider, parse_gr3d_freq,
  parse_util_pct, parse_u32, after_key, before_percent, gr3d_freq, sampled, read_lines, fed,
  first_util, util_pct, build_provider, built, resolved, jetson_or_fallback,
}

-- No sample is above 100.
abbrev pub IsSampled : Provider → Type 0
IsSampled (jetson_provider j) = j.util_percent ≤ 100
IsSampled p = Unit {0}

abbrev pub IsSample : Option ℕ → Type 0
IsSample none = Unit {0}
IsSample (some n) = n ≤ 100

bind-IsSample :
    {A : Type 0} (o : Option A) (k : A → Option ℕ) → ((a : A) → IsSample (k a)) → IsSample (o >>= k)
bind-IsSample none k h = tt
bind-IsSample (some a) k h = h a

parse_gr3d_freq-IsSample : (line : Text) → IsSample (parse_gr3d_freq line)
unfolding parse_gr3d_freq
parse_gr3d_freq-IsSample line = bind-IsSample (after_key gr3d_freq line) _ (λ tail.
    bind-IsSample (before_percent tail) _
      (λ digits. bind-IsSample (parse_u32 (trim digits)) _ (λ v. omega arith)))

sampled-bound :
    (reads : Bool) (j : JetsonGpuProvider) (s : Option ℕ)
    → j.util_percent ≤ 100
    → IsSample s
    → (if reads then sampled j s else j).util_percent ≤ 100
sampled-bound false j s h k = h
sampled-bound true j none h k = h
sampled-bound true j (some n) h k = k

read_lines-bound :
    (j : JetsonGpuProvider) (ls : List Text)
    → j.util_percent ≤ 100
    → (read_lines j ls).util_percent ≤ 100
unfolding read_lines
read_lines-bound j [] h = h
read_lines-bound j (l ∷ ls) h =
    read_lines-bound (if j.reader then sampled j (parse_gr3d_freq l) else j) ls
      (sampled-bound j.reader j (parse_gr3d_freq l) h (parse_gr3d_freq-IsSample l))

fed-IsSampled : (p : Provider) (ls : List Text) → IsSampled p → IsSampled (fed p ls)
fed-IsSampled null_provider ls h = tt
fed-IsSampled (sysfs_provider p) ls h = tt
fed-IsSampled (jetson_provider j) ls h = read_lines-bound j ls h

fallback-IsSampled :
    (started : Bool) (path : Option String) → IsSampled (jetson_or_fallback started path)
fallback-IsSampled true path = omega arith
fallback-IsSampled false (some path) = omega arith
fallback-IsSampled false none = tt

module _ (cur_freq_of : Text → String) (devfreq : Option (List Text)) (exists : String → Bool)
    (starts : String → Bool) where
  built-IsSampled : (b : GpuBackend) → IsSampled (built cur_freq_of devfreq exists starts b)
  built-IsSampled GpuBackend.null = tt
  built-IsSampled GpuBackend.sysfs = tt
  built-IsSampled GpuBackend.auto = tt
  built-IsSampled (GpuBackend.custom_sysfs path) = tt
  built-IsSampled GpuBackend.jetson = fallback-IsSampled (starts "tegrastats") _
  built-IsSampled (GpuBackend.jetson_explicit path bin) = fallback-IsSampled (starts _) (some path)

module _ {W : Type 0} ⦃f : Float W⦄ where
  -- No reading, a NaN, or a percentage.
  abbrev pub IsReading : Option W → Type 0
  IsReading none = Unit {0}
  IsReading (some x) = (fle x x ≡ false) ⊎ ((fle (nat 0) x ≡ true) × (fle x (nat 100) ≡ true))

  clamp-IsReading : IsIeee W → (x : W) → IsReading (some (clamp x (nat 0) (nat 100)))
  clamp-IsReading L x = ground (
    arith,
    L.lit_mono 0 100 1,
    L.lit_mono 0 0 1,
    L.lit_mono 100 100 1,
    λ (n : fle x x ≡ true). L.le_total x (nat 0) n (L.lit_mono 0 0 1 (omega arith)),
    λ (n : fle x x ≡ true). L.le_total x (nat 100) n (L.lit_mono 100 100 1 (omega arith)),
  )

  clamped-IsReading :
      IsIeee W
      → (o later : Option W) → IsReading later
      → IsReading (elim o [ some v ↦ some (clamp v (nat 0) (nat 100)) | none ↦ later ])
  clamped-IsReading L none later h = h
  clamped-IsReading L (some v) later h = clamp-IsReading L v

  sample-IsReading : IsIeee W → (n : ℕ) → n ≤ 100 → IsReading (some (f.of_nat n))
  sample-IsReading L n h =
      rw (L.of_nat_lit n) (inr (L.lit_mono 0 n 1 (omega arith), L.lit_mono n 100 1 h))

  jetson-IsReading :
      IsIeee W
      → (reads seen : Bool) (n : ℕ) → n ≤ 100
      → IsReading (if reads then if seen then some (f.of_nat n) else none else none)
  jetson-IsReading L false seen n h = tt
  jetson-IsReading L true false n h = tt
  jetson-IsReading L true true n h = sample-IsReading L n h

  module _ (read : String → Option Text) (parse_f64 : Text → Option W) where
    first_util-IsReading :
        IsIeee W → (paths : List String) → IsReading (first_util read parse_f64 paths)
    first_util-IsReading L [] = tt
    first_util-IsReading L (p ∷ ps) =
        clamped-IsReading L (read p >>= parse_util_pct parse_f64) (first_util read parse_f64 ps)
          (first_util-IsReading L ps)

    util_pct-IsReading :
        IsIeee W → (p : Provider) → IsSampled p → IsReading (util_pct read parse_f64 p)
    unfolding util_pct
    util_pct-IsReading L null_provider h = tt
    util_pct-IsReading L (sysfs_provider p) h = first_util-IsReading L p.util_paths
    util_pct-IsReading L (jetson_provider j) h =
        jetson-IsReading L j.reader j.util_seen j.util_percent h

    -- Whatever backend is configured or found, whatever the files hold and whatever lines
    -- `tegrastats` has printed: the load that the provider reports is none, a NaN, or from 0 to 100.
    pub build_provider-IsReading :
        IsIeee W
        → (cur_freq_of : Text → String) (devfreq : Option (List Text))
          (exists starts : String → Bool) (backend : GpuBackend) (printed : List Text)
        → IsReading (
            util_pct read parse_f64
              (fed (build_provider cur_freq_of devfreq exists starts backend) printed))
    unfolding build_provider
    build_provider-IsReading L cur_freq_of devfreq exists starts backend printed =
        util_pct-IsReading L _ (
          fed-IsSampled _ printed (
            built-IsSampled cur_freq_of devfreq exists starts
              (resolved cur_freq_of devfreq exists starts backend)))
