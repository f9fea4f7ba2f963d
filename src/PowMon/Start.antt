-- ===== src/PowMon/Start.antt =====
-- What `main` of powmon/bin/pow_mon.c does between the choice of the mode and the connection to the
-- broker: the detection, the allocation of the records, and the first sampling. The file is read
-- twice, so its two contents are two arguments; the memory that `malloc` gives holds any records.
pub mod Ready
pub mod Returns
use powmon.Base.{
  ℕ, ◌≡◌, Option, none, List, [], ◌∷◌, replicate, minus_one, pos, ℤ, is, is_negative, if◌then◌else◌,
}
use powmon.Machine.{Machine, Trace, Cmd, ret, exit, fault, pure, ◌>>=◌, ◌>>◌}
use powmon.Clib.{Outcome, ok, quit, undefined}
use powmon.Fpu.{Float}
use powmon.PowMon.Data.{PerCoreData, PerCpuData, SysData}
use powmon.PowMon.Detect.{detect_cpu_model, detect_topology}
use powmon.PowMon.Frequency.{detect_nominal_frequency}
use powmon.PowMon.Sensor.{program_msr, read_msr_data_first}

-- `memset` gets the size of one element: the first die temperature becomes 0x64646464, where the
-- others stay 0. The last value is 1.0.
unfoldable pub init_pow_mon : SysData
init_pow_mon = record {
  ncpu = 0;
  ncore = 0;
  cpu_model = minus_one;
  ht_en = 0;
  nom_freq = 0;
  dram_supp = 0;
  die_temp = 0x64646464 ∷ replicate 15 0;
  die_temp_en = replicate 16 0;
  cpu_data = [];
  core_data = [];
  logfile = [];
  tmpstr = "";
  hostid = none;
  topic = none;
  cmd_topic = none;
  broker_host = none;
  broker_port = pos 1883;
  extra_counters = 1;
  qos = pos 0;
  dt = 0x3f800000;
}

-- the outcome of a function that makes no call of the machine
abbrev pub command : {A : Type 0} → Outcome A → Cmd A
command (ok a) = pure a
command (quit c) = exit c
command undefined = fault

pub command-eq_ret :
    {A : Type 0} (o : Outcome A) {a : A} {t u : Trace}
    → command o t ≡ ret a u
    → (o ≡ ok a) × (u ≡ t)
command-eq_ret (ok a) e = (cc e, cc e)
command-eq_ret (quit c) e = absurd (cc e)
command-eq_ret undefined e = absurd (cc e)

module _ (malloc_cpus : ℕ → List PerCpuData) (malloc_cores : ℕ → List PerCoreData) where
  abbrev pub allocated : SysData → SysData
  allocated s = record s { cpu_data = malloc_cpus s.ncpu; core_data = malloc_cores s.ncore }

unfoldable pub first_sampling : Machine → SysData → Cmd SysData
first_sampling m s = do _ ← program_msr m s; read_msr_data_first m s

module _ (m : Machine) (to_float : ℕ → Float) (malloc_cpus : ℕ → List PerCpuData)
    (malloc_cores : ℕ → List PerCoreData) where
  unfoldable pub tune : SysData → Cmd SysData
  tune s = do
    (status, s') ← detect_nominal_frequency m to_float s
    if is_negative status then exit 1 else first_sampling m (allocated malloc_cpus malloc_cores s')

  unfoldable pub set_up : Option (List ℕ) → Option (List ℕ) → SysData → Cmd SysData
  unfolding tune
  set_up model_file topology_file s = do
    (model, s₁) ← command (detect_cpu_model model_file s)
    if is_negative model then exit 1 else (do
      (status, s₂) ← command (detect_topology topology_file s₁)
      if is status 0 then tune s₂ else exit 1)
