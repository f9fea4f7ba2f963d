-- ===== src/PowMon/Start/Returns.antt =====
-- The set-up of powmon on a machine that refuses no access.
use powmon.Base.{
  ℕ, ◌*◌, ◌/◌, ◌%◌, ◌^◌, ◌≡◌, ◌≢◌, refl, true, some, List, length, ℤ, is_positive, bit_and, inl,
  inr, ◌∷◌, pos,
}
use powmon.Machine.{Machine, Trace, ret, descriptor, closed, opened, rdmsr}
use powmon.Machine.Rules.{of_ret}
use powmon.Clib.{ok}
use powmon.Fpu.{Float}
use powmon.Msr.{open_msr, read_msr, close_msr}
use powmon.Msr.Addresses.{max_cores, max_packages, platform_info_addr}
use powmon.Msr.Events.{IsSafe}
use powmon.Msr.Laws.{Responsive, Runs-returns}
use powmon.PowMon.Data.{PerCoreData, PerCpuData, SysData}
use powmon.PowMon.Detect.{detect_cpu_model, physical_tag, core_tag}
use powmon.PowMon.Detect.Model.{detect_cpu_model-Detected}
use powmon.PowMon.Detect.Topology.{distinct, described}
use powmon.PowMon.Detect.Range.{FitsTables, detect_topology-returns}
use powmon.PowMon.Frequency.{
  bus_freq, bus_freq-cases, with_frequency-found, detect_nominal_frequency,
  detect_nominal_frequency-Tuned,
}
use powmon.PowMon.Start.{set_up, tune}
use powmon.PowMon.Start.Ready.{
  Started, IsMalloc, IsFound, allocated-Started, described-IsFound, positive_not_negative,
}

-- Wherever the platform register is read, it holds a ratio.
abbrev pub HasRatio : Machine → Type 0
HasRatio m =
    (t : Trace) (fd v : ℕ)
    → m.pread t fd platform_info_addr ≡ some v
    → bit_and (v % 2 ^ 64 / 2 ^ 8) 0xff ≢ 0

pub open_msr-descriptor :
    (m : Machine) (core : ℕ) (t : Trace) {fd : ℕ}
    → m.open_file t core ≡ descriptor fd
    → open_msr m core t ≡ ret fd (opened core fd ∷ t)
unfolding open_msr
open_msr-descriptor m core t e = rw (e, open_msr) refl

pub read_msr-some :
    (m : Machine) (fd which : ℕ) (t : Trace) {v : ℕ}
    → m.pread t fd which ≡ some v
    → read_msr m fd which t ≡ ret (v % 2 ^ 64) (rdmsr fd which (v % 2 ^ 64) ∷ t)
unfolding read_msr
read_msr-some m fd which t e = rw (e, read_msr) refl

-- With a model detected the nominal frequency is then found.
detect_nominal_frequency-finds :
    (m : Machine) (to_float : ℕ → Float) (s : SysData) (t : Trace)
    → Responsive m
    → HasRatio m
    → is_positive s.cpu_model ≡ true
    → (freq : Float) × (u : Trace) × (detect_nominal_frequency m to_float s t
        ≡ ret (pos 0, record s { nom_freq = freq }) u)
unfolding detect_nominal_frequency close_msr
detect_nominal_frequency-finds m to_float s t live ratio known =
    let (fd, o) = live.opens t 0 in
    let (v, r) = live.reads (opened 0 fd ∷ t) fd platform_info_addr in
    let factor = bit_and (v % 2 ^ 64 / 2 ^ 8) 0xff in
    elim (with_frequency-found to_float s factor (bus_freq s.cpu_model)
      (bus_freq-cases s.cpu_model)) [
        | inl (no_ratio, _) ↦ absurd (ratio (opened 0 fd ∷ t) fd v r no_ratio)
        | inr (_, e) ↦ (
          to_float (factor * bus_freq s.cpu_model),
          closed fd ∷ rdmsr fd platform_info_addr (v % 2 ^ 64) ∷ opened 0 fd ∷ t,
          rw
              (
                known,
                open_msr-descriptor m 0 t o,
                read_msr-some m fd platform_info_addr (opened 0 fd ∷ t) r,
                e,
              )
              refl,
        )
      ]

module _ (m : Machine) (to_float : ℕ → Float) (malloc_cpus : ℕ → List PerCpuData)
    (malloc_cores : ℕ → List PerCoreData) (law : IsMalloc malloc_cpus malloc_cores)
    (live : Responsive m) (ratio : HasRatio m) where
  tune-returns :
      (s : SysData) (t : Trace)
      → IsFound m to_float malloc_cpus malloc_cores law s
      → IsSafe t
      → (s' : SysData) × (t' : Trace) × (tune m to_float malloc_cpus malloc_cores s t ≡ ret s' t')
        × Started s.ncpu s.ncore t s' t'
  unfolding tune
  tune-returns s t found safe =
      let (freq, u, e) = detect_nominal_frequency-finds m to_float s t live ratio found.model in
      let tuned = of_ret e (detect_nominal_frequency-Tuned m to_float s t found.model safe) in
      rw e (
        Runs-returns live (
          allocated-Started m to_float malloc_cpus malloc_cores law freq s t u found tuned.fds
            tuned.safe))

  -- Let the file name a known model and fit the tables, `malloc` give what is asked for, and the die
  -- temperatures have their size. On a machine that refuses no access, and whose platform register
  -- holds a ratio, the set-up returns, with records that fit the topology of the file and a
  -- descriptor open for every core.
  pub set_up-returns :
      (model_file file : List ℕ) (s : SysData) (found : ℤ × SysData) (t : Trace)
      → detect_cpu_model (some model_file) s ≡ ok found
      → is_positive found.0 ≡ true
      → FitsTables file
      → length s.die_temp ≡ max_packages
      → length s.die_temp_en ≡ max_packages
      → IsSafe t
      → (s' : SysData) × (t' : Trace) × (set_up m to_float malloc_cpus malloc_cores
            (some model_file)
            (some file)
            s
            t
          ≡ ret s' t')
        × Started
            (distinct physical_tag 3 max_packages file)
            (distinct core_tag 3 max_cores file * distinct physical_tag 3 max_packages file)
            t
            s'
            t'
  unfolding set_up
  set_up-returns model_file file s found t known positive fits dies dies_en safe =
      rw (known, positive_not_negative found.0 positive, detect_topology-returns file found.1 fits)
        (tune-returns (described file found.1) t
          (described-IsFound m to_float malloc_cpus malloc_cores law file s found
            (detect_cpu_model-Detected model_file s found known) positive dies dies_en)
          safe)
