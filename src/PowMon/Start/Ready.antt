-- ===== src/PowMon/Start/Ready.antt =====
-- The records and the topology when the first sampling starts, and after it.
use powmon.Base.{
  ℕ, zero, suc, ◌+◌, ◌*◌, ◌≤◌, ◌<◌, ◌≡◌, refl, ap, ◌∙◌, ◌⊎◌, inl, inr, Bool, true, false, some,
  List, length, ◌/◌, ◌^◌, bit_and, Bool-cases, ℤ, pos, negsuc, is_positive, is_negative, arith,
}
use powmon.Machine.{Machine, Trace, Run}
use powmon.Machine.Rules
use powmon.Machine.Rules.{Runs, returns, exits}
use powmon.Clib.{ok, lines}
use powmon.Msr.Addresses.{max_cores, max_packages, platform_info_addr}
use powmon.Msr.Events.{open_fds, IsSafe, ReadSince}
use powmon.Msr.Laws.{Stopped}
use powmon.Fpu.{Float}
use powmon.PowMon.Data.{PerCoreData, PerCpuData, SysData}
use powmon.PowMon.Detect.{detect_cpu_model, physical_tag, core_tag}
use powmon.PowMon.Detect.Marks.{count_below, contains, numbers}
use powmon.PowMon.Detect.Topology.{described, distinct}
use powmon.PowMon.Detect.Range.{FitsTables, detect_topology-returns}
use powmon.PowMon.Detect.Model.{Detected, detect_cpu_model-Detected}
use powmon.PowMon.Frequency.{detect_nominal_frequency-Tuned}
use powmon.PowMon.Sensor.{read_msr_data, read_msr_data_first}
use powmon.PowMon.Sensor.Program.{program_msr-Leaked}
use powmon.PowMon.Sensor.Sweep.{IsReady}
use powmon.PowMon.Sensor.Sampling.{read_msr_data-Sampling}
use powmon.PowMon.Start.{init_pow_mon, allocated, first_sampling, tune, set_up}

-- How the set-up may end the process: at a refused access, or with status 1 where the platform
-- register, read on the way, holds no ratio.
abbrev pub Ended : Machine → Trace → ℕ → Trace → Type 0
Ended m t c t' =
    Stopped m c t'
    ⊎ ((c ≡ 1) × (v : ℕ) × ReadSince platform_info_addr v t t' × (bit_and (v / 2 ^ 8) 0xff ≡ 0))

pub stopped :
    {A : Type 0} {Q : A → Trace → Type 0} {m : Machine} {t : Trace} {r : Run A}
    → Runs Q (Stopped m) r
    → Runs Q (Ended m t) r
stopped (returns q) = returns q
stopped (exits e) = exits (inl e)

-- The records fit the topology, and a descriptor is left open for every core.
abbrev pub Started : ℕ → ℕ → Trace → SysData → Trace → Type 0
Started ncpu ncore t s' t' =
    IsReady ncpu ncore s' × (length (open_fds t') ≡ length (open_fds t) + ncore) × IsSafe t'

count_below-le : (n : ℕ) (p : ℕ → Bool) → count_below n p ≤ n
count_below-le zero p = omega arith
count_below-le (suc n) p = elim (Bool-cases (p n)) [
  | inl e ↦ rw e (omega (arith, count_below-le n p))
  | inr e ↦ rw e (omega (arith, count_below-le n p))
]

pub distinct-le :
    (tag : List ℕ) (words size : ℕ) (file : List ℕ) → distinct tag words size file ≤ size
distinct-le tag words size file =
    count_below-le size (λ j. contains j (numbers tag words (lines file) (pos 0)))

pub some_socket : (cores sockets : ℕ) → 0 < cores * sockets → 0 < sockets
some_socket cores zero h = absurd (omega arith)
some_socket cores (suc n) h = omega arith

first_sampling-Started :
    (m : Machine) (ncpu ncore : ℕ) (s : SysData) (t : Trace)
    → IsReady ncpu ncore s
    → IsSafe t
    → Runs (Started ncpu ncore t) (Stopped m) (first_sampling m s t)
unfolding first_sampling read_msr_data_first read_msr_data
first_sampling-Started m ncpu ncore s t ready safe =
    Rules.bind (program_msr-Leaked m s t safe) λ _ u (_, (leaked, safe')).
      Rules.mono (read_msr_data-Sampling m ncpu ncore s u ready safe')
        λ s' v p. (p.ready, omega (arith, leaked, ap length p.fds), p.safe)

-- What `malloc` gives: as many records as asked for.
pub record IsMalloc (cpus : ℕ → List PerCpuData) (cores : ℕ → List PerCoreData) : Type 0 where
  pub cpus_size : (n : ℕ) → length (cpus n) ≡ n
  pub cores_size : (n : ℕ) → length (cores n) ≡ n

-- The set-up finds the die temperatures of `init_pow_mon` at their size.
pub init_pow_mon-dies :
    (length init_pow_mon.die_temp ≡ max_packages) × (length init_pow_mon.die_temp_en ≡ max_packages)
unfolding init_pow_mon
init_pow_mon-dies = (refl, refl)

pub positive_not_negative : (z : ℤ) → is_positive z ≡ true → is_negative z ≡ false
positive_not_negative (pos n) h = refl
positive_not_negative (negsuc n) h = cc

Detected-dies :
    (s : SysData) (found : ℤ × SysData)
    → Detected s found
    → (found.1.die_temp ≡ s.die_temp) × (found.1.die_temp_en ≡ s.die_temp_en)
Detected-dies s found (inl (_, e)) = rw e (refl, refl)
Detected-dies s found (inr (_, e)) = rw e (refl, refl)

Detected-model :
    (s : SysData) (found : ℤ × SysData)
    → Detected s found
    → is_positive found.0 ≡ true
    → found.1.cpu_model ≡ found.0
Detected-model s found (inl (_, e)) h = ap (λ (x : SysData). x.cpu_model) e
Detected-model s found (inr (none_found, _)) h = cc

module _ (m : Machine) (to_float : ℕ → Float) (malloc_cpus : ℕ → List PerCpuData)
    (malloc_cores : ℕ → List PerCoreData) (law : IsMalloc malloc_cpus malloc_cores) where
  -- what is needed of the data that the detection leaves
  pub record IsFound (s : SysData) : Type 0 where
    pub model : is_positive s.cpu_model ≡ true
    pub dies : length s.die_temp ≡ max_packages
    pub dies_en : length s.die_temp_en ≡ max_packages
    pub fits : s.ncpu ≤ max_packages
    pub socket : 0 < s.ncore → 0 < s.ncpu

  pub allocated-Started :
      (nom_freq : Float) (s : SysData) (t u : Trace)
      → IsFound s
      → open_fds u ≡ open_fds t
      → IsSafe u
      → Runs (Started s.ncpu s.ncore t) (Stopped m) (
          first_sampling m
            (allocated malloc_cpus malloc_cores (record s { nom_freq = nom_freq }))
            u)
  allocated-Started nom_freq s t u found same safe =
      Rules.mono
        (first_sampling-Started m s.ncpu s.ncore _ u
          (record {
            ncpu_is = refl;
            ncore_is = refl;
            cpus = law.cpus_size s.ncpu;
            cores = law.cores_size s.ncore;
            dies = found.dies;
            dies_en = found.dies_en;
            fits = found.fits;
            socket = found.socket;
          })
          safe)
        λ s' v (ready, count, safe'). (ready, omega (arith, count, ap length same), safe')

  tune-Started :
      (s : SysData) (t : Trace)
      → IsFound s
      → IsSafe t
      → Runs (Started s.ncpu s.ncore t) (Ended m t) (tune m to_float malloc_cpus malloc_cores s t)
  unfolding tune
  tune-Started s t found safe =
      Rules.bind (stopped (detect_nominal_frequency-Tuned m to_float s t found.model safe))
        λ r u tuned. elim tuned.found [
          | inl (no_ratio, e) ↦ rw e (exits (inr (refl, tuned.platform, tuned.read, no_ratio)))
          | inr (_, e) ↦ rw e (stopped (allocated-Started _ s t u found tuned.fds tuned.safe))
        ]

  pub described-IsFound :
      (file : List ℕ) (s : SysData) (found : ℤ × SysData)
      → Detected s found
      → is_positive found.0 ≡ true
      → length s.die_temp ≡ max_packages
      → length s.die_temp_en ≡ max_packages
      → IsFound (described file found.1)
  described-IsFound file s found detected positive dies dies_en =
      let kept = Detected-dies s found detected in
      record {
        model = rw (Detected-model s found detected positive) positive;
        dies = ap length kept.0 ∙ dies;
        dies_en = ap length kept.1 ∙ dies_en;
        fits = distinct-le physical_tag 3 max_packages file;
        socket =
            some_socket (distinct core_tag 3 max_cores file)
              (distinct physical_tag 3 max_packages file);
      }

  -- Let the file name a known model when it is read for the model, and fit the tables when it is
  -- read for the topology; let `malloc` give what is asked for, and the die temperatures have their
  -- size. The set-up then ends the process only at a refused access, or with status 1 where the
  -- platform register holds no ratio. If it returns, the records fit the topology of the file, and a
  -- descriptor is left open for every core.
  pub set_up-Started :
      (model_file file : List ℕ) (s : SysData) (found : ℤ × SysData) (t : Trace)
      → detect_cpu_model (some model_file) s ≡ ok found
      → is_positive found.0 ≡ true
      → FitsTables file
      → length s.die_temp ≡ max_packages
      → length s.die_temp_en ≡ max_packages
      → IsSafe t
      → Runs
          (Started
            (distinct physical_tag 3 max_packages file)
            (distinct core_tag 3 max_cores file * distinct physical_tag 3 max_packages file)
            t)
          (Ended m t)
          (set_up m to_float malloc_cpus malloc_cores (some model_file) (some file) s t)
  unfolding set_up
  set_up-Started model_file file s found t known positive fits dies dies_en safe =
      rw (known, positive_not_negative found.0 positive, detect_topology-returns file found.1 fits)
        (tune-Started (described file found.1) t
          (described-IsFound file s found (detect_cpu_model-Detected model_file s found known)
            positive dies dies_en)
          safe)
