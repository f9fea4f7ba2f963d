-- ===== src/NodeSmp/Main/Started.antt =====
-- The records of pow_node_smp and the topology when its loop is entered.
use mathlib.Core.Path.{subst}
use powmon.Base.{
  ℕ, ◌+◌, ◌*◌, ◌/◌, ◌^◌, ◌≤◌, ◌<◌, ◌≡◌, refl, sym, ap, ◌∙◌, ◌⊎◌, inl, inr, ◌==◌, true, some, List,
  length, bit_and, Bool-cases, ==→eq, eq→==, ℤ, pos, minus_one, is_positive, arith,
}
use powmon.Machine.{Machine, Trace}
use powmon.Machine.Rules
use powmon.Machine.Rules.{Runs, returns, exits}
use powmon.Clib.{ok, >>=-eq-ok, ok-injective, lines}
use powmon.Msr.Addresses.{max_cores, max_packages, platform_info_addr}
use powmon.Msr.Events.{
  open_fds, IsSafe, Grows-refl, Grows-cons, ReadSince, ReadSince-now, ReadSince-newer,
}
use powmon.Msr.Laws.{Stopped, open_msr-bind, read_msr-bind}
use powmon.Fpu.{Float}
use powmon.PowMon.Detect.{physical_tag, core_tag, read_model}
use powmon.PowMon.Detect.Topology.{distinct, described}
use powmon.PowMon.Detect.Range.{FitsTables, detect_topology-returns}
use powmon.PowMon.Frequency.{bus_freq-cases, product-eq_zero}
use powmon.PowMon.Start
use powmon.PowMon.Start.Ready.{Ended, stopped, distinct-le, some_socket, positive_not_negative}
use powmon.NodeSmp.Data.{SysData}
use powmon.NodeSmp.Detect.{detect_cpu_model, with_model, store_model}
use powmon.NodeSmp.Detect.Agreement.{copied, detect_topology-copied}
use powmon.NodeSmp.Frequency.{with_frequency, detect_nominal_frequency}
use powmon.NodeSmp.Program.{program_msr-opens}
use powmon.NodeSmp.Sensor.Sampling.{IsReady, read_msr_data_first-Swept}
use powmon.NodeSmp.Run.{Env, allocated, first_sampling, tune, set_up}

-- `malloc` gives what it is asked for.
pub record IsMalloc (env : Env) : Type 0 where
  pub cpus_size : (n : ℕ) → length (env.malloc_cpus n) ≡ n
  pub cores_size : (n : ℕ) → length (env.malloc_cores n) ≡ n

-- The platform register was read on the way, and the data have its ratio, or it holds none.
pub record Tuned (s : SysData) (t : Trace) (r : ℤ × SysData) (t' : Trace) : Type 0 where
  pub platform : ℕ
  pub read : ReadSince platform_info_addr platform t t'
  pub found :
      ((bit_and (platform / 2 ^ 8) 0xff ≡ 0) × (r.0 ≡ minus_one))
      ⊎ ((nom_freq : Float) × (r ≡ (pos 0, record s { nom_freq = nom_freq })))
  pub fds : open_fds t' ≡ open_fds t
  pub safe : IsSafe t'

pub with_frequency-found :
    (to_float : ℕ → Float) (s : SysData) (factor bus : ℕ)
    → (bus ≡ 100000000) ⊎ (bus ≡ 133333333)
    → ((factor ≡ 0) × ((with_frequency to_float s (factor * bus)).0 ≡ minus_one))
      ⊎ ((nom_freq : Float) × (with_frequency to_float s (factor * bus)
            ≡ (pos 0, record s { nom_freq = nom_freq })))
with_frequency-found to_float s factor bus cases = elim (Bool-cases (factor == 0)) [
  | inl e ↦ inl (==→eq factor 0 e, rw (product-eq_zero factor bus cases, e) refl)
  | inr e ↦ inr (to_float (factor * bus), rw (product-eq_zero factor bus cases, e) refl)
]

pub detect_nominal_frequency-Tuned :
    (m : Machine) (to_float : ℕ → Float) (s : SysData) (t : Trace)
    → is_positive s.cpu_model ≡ true
    → IsSafe t
    → Runs (Tuned s t) (Stopped m) (detect_nominal_frequency m to_float s t)
unfolding detect_nominal_frequency
detect_nominal_frequency-Tuned m to_float s t known safe = rw known (
    open_msr-bind m 0 t _ safe λ fd p. read_msr-bind m fd _ _ _ p λ v p'. returns (record {
      platform = v;
      read =
          ReadSince-newer (ReadSince-now fd platform_info_addr v (Grows-cons _ (Grows-refl t)))
            (Grows-cons _ (Grows-refl _));
      found = with_frequency-found to_float s _ _ (bus_freq-cases s.cpu_model);
      fds = rw (eq→== fd fd refl) refl;
      safe = (tt, p');
    }))

stored-model :
    (file : List ℕ) (s : SysData) (found : ℤ × SysData)
    → detect_cpu_model (some file) s ≡ ok found
    → is_positive found.0 ≡ true
    → found.1 ≡ record s { cpu_model = found.0; dram_supp = found.1.dram_supp }
unfolding detect_cpu_model store_model
stored-model file s found e positive =
    let (z, read, rest) = >>=-eq-ok (read_model (lines file) minus_one) _ e in
    let same = ok-injective (store_model s z) found rest in
    let stored : found.1 ≡ with_model found.0 s =
      subst (λ (r : ℤ × SysData). r.1 ≡ with_model r.0 s) same refl in
    let direct : with_model found.0 s
        ≡ record s { cpu_model = found.0; dram_supp = (with_model found.0 s).dram_supp } =
      rw positive refl in
    stored
    ∙ direct
    ∙ ap (λ d. record s { cpu_model = found.0; dram_supp = d })
        (sym (ap (λ (x : SysData). x.dram_supp) stored))

-- The records fit a topology, and a descriptor was left open for every core.
pub record Started (ncpu ncore : ℕ) (t : Trace) (s : SysData) (t' : Trace) : Type 0 where
  pub ready : IsReady s
  pub ncpu_is : s.ncpu ≡ ncpu
  pub ncore_is : s.ncore ≡ ncore
  pub leaked : length (open_fds t') ≡ length (open_fds t) + ncore
  pub safe : IsSafe t'

-- what is needed of the data that the detection leaves
pub record IsFound (s : SysData) : Type 0 where
  pub model : is_positive s.cpu_model ≡ true
  pub dies : length s.die_temp ≡ max_packages
  pub dies_en : length s.die_temp_en ≡ max_packages
  pub fits : s.ncpu ≤ max_packages
  pub socket : 0 < s.ncore → 0 < s.ncpu

-- The data with the model and the counts of the file are so.
pub described-IsFound :
    (model_file file : List ℕ) (s : SysData) (found : ℤ × SysData)
    → detect_cpu_model (some model_file) s ≡ ok found
    → is_positive found.0 ≡ true
    → length s.die_temp ≡ max_packages
    → length s.die_temp_en ≡ max_packages
    → IsFound (copied found.1 (pos 0, described file Start.init_pow_mon)).1
described-IsFound model_file file s found known positive dies dies_en =
    let stored : found.1 ≡ record s { cpu_model = found.0; dram_supp = found.1.dram_supp } =
      stored-model model_file s found known positive in
    record {
      model = rw (ap (λ (x : SysData). x.cpu_model) stored) positive;
      dies = ap (λ (x : SysData). length x.die_temp) stored ∙ dies;
      dies_en = ap (λ (x : SysData). length x.die_temp_en) stored ∙ dies_en;
      fits = distinct-le physical_tag 3 max_packages file;
      socket =
          some_socket (distinct core_tag 3 max_cores file)
            (distinct physical_tag 3 max_packages file);
    }

module _ (env : Env) (law : IsMalloc env) where
  pub first_sampling-Started :
      (nom_freq : Float) (s : SysData) (t u : Trace)
      → IsFound s
      → open_fds u ≡ open_fds t
      → IsSafe u
      → Runs
          (Started s.ncpu s.ncore t)
          (Stopped env.machine)
          (first_sampling env (allocated env (record s { nom_freq = nom_freq })) u)
  unfolding first_sampling
  first_sampling-Started nom_freq s t u found same safe =
      let s' = allocated env (record s { nom_freq = nom_freq }) in
      Rules.bind (program_msr-opens env.machine s' u safe) λ _ v (_, leaked).
        Rules.mono
          (read_msr_data_first-Swept env.machine s' v
            (record {
              cpus = law.cpus_size s.ncpu;
              cores = law.cores_size s.ncore;
              dies = found.dies;
              dies_en = found.dies_en;
              fits = found.fits;
              socket = found.socket;
            })
            leaked.1)
          λ s'' w (before, tidy). record {
            ready = before.ready;
            ncpu_is = ap (λ (x : SysData). x.ncpu) before.frame;
            ncore_is = ap (λ (x : SysData). x.ncore) before.frame;
            leaked = omega (arith, leaked.0, ap length tidy.0, ap length same);
            safe = tidy.1;
          }

  tune-Started :
      (s : SysData) (t : Trace)
      → IsFound s
      → IsSafe t
      → Runs (Started s.ncpu s.ncore t) (Ended env.machine t) (tune env s t)
  unfolding tune
  tune-Started s t found safe =
      Rules.bind
        (stopped
          (detect_nominal_frequency-Tuned env.machine env.fpu.float_of_u64 s t found.model safe))
        λ r u tuned. elim tuned.found [
          | inl (no_ratio, e) ↦ rw e (exits (inr (refl, tuned.platform, tuned.read, no_ratio)))
          | inr (nom_freq, e) ↦
              rw e (stopped (first_sampling-Started nom_freq s t u found tuned.fds tuned.safe))
        ]

  -- Where the file names a known model and fits the tables, and `malloc` gives what it is asked for:
  -- the set-up ends the process only at a refused access or where the platform register holds no
  -- ratio. If it returns, the records fit the topology of the file, and a descriptor was left open
  -- for every core.
  pub set_up-Started :
      (model_file file : List ℕ) (s : SysData) (found : ℤ × SysData) (t : Trace)
      → detect_cpu_model (some model_file) s ≡ ok found
      → is_positive found.0 ≡ true
      → FitsTables file
      → length s.die_temp ≡ max_packages
      → length s.die_temp_en ≡ max_packages
      → IsSafe t
      → Runs
          (Started
            (distinct physical_tag 3 max_packages file)
            (distinct core_tag 3 max_cores file * distinct physical_tag 3 max_packages file)
            t)
          (Ended env.machine t)
          (set_up env (some model_file) (some file) s t)
  unfolding set_up
  set_up-Started model_file file s found t known positive fits dies dies_en safe =
      let host = Start.init_pow_mon in
      let tables =
        detect_topology-copied file host _ found.1 (detect_topology-returns file host fits) in
      rw (known, positive_not_negative found.0 positive, tables)
        (tune-Started (copied found.1 (pos 0, described file host)).1 t
          (described-IsFound model_file file s found known positive dies dies_en) safe)
