-- ===== src/NodeSmp/Run.antt =====
-- `init_pow_mon`, `samp_handler` and `main` of pow_node_smp/pow_mon.c. What the process meets besides
-- the machine is a record: the clock, /proc/meminfo, the local variables as they happen to be, and
-- the memory that `malloc` gives.
pub mod Round
pub mod Rounds
use Prim.Native.String.{String}
use powmon.Base.{
  ℕ, ◌≡◌, Bool, true, false, Option, List, [], ◌∷◌, replicate, minus_one, ℤ, is, is_negative,
  if◌then◌else◌, ◌==◌,
}
use powmon.Machine.{Machine, Trace, Cmd, ret, exit, fault, pure, ◌>>=◌, ◌>>◌}
use powmon.Fpu.{Fpu, Float}
use powmon.PowMon.Broker.{CpuLocals}
use powmon.PowMon.Start.{command}
use powmon.NodeSmp.Data.{PerCoreData, PerCpuData, SysData}
use powmon.NodeSmp.Detect.{detect_cpu_model, detect_topology}
use powmon.NodeSmp.Frequency.{detect_nominal_frequency}
use powmon.NodeSmp.Program.{program_msr}
use powmon.NodeSmp.Screen.{CpuLine, CoreLine, push_to_broker}
use powmon.NodeSmp.Sensor.{read_msr_data, read_msr_data_first}

pub record Env : Type 0 where
  pub machine : Machine
  pub fpu : Fpu
  -- `get_timestamp`, at a point of the run
  pub timestamp : Trace → String
  pub meminfo : Trace → Option (List ℕ)
  pub cpu_locals : Trace → CpuLocals
  pub malloc_cpus : ℕ → List PerCpuData
  pub malloc_cores : ℕ → List PerCoreData

-- `memset` clears the whole record, then it gets the size of one element: the first die temperature
-- becomes 0x64646464, where the others stay 0. The text of the time is empty.
unfoldable pub init_pow_mon : SysData
init_pow_mon = record {
  ncpu = 0;
  ncore = 0;
  cpu_model = minus_one;
  ht_en = 0;
  nom_freq = 0;
  dram_supp = 0;
  die_temp = 0x64646464 ∷ replicate 15 0;
  die_temp_en = replicate 16 0;
  cpu_data = [];
  core_data = [];
  tmpstr = "";
  extra_counters = 1;
  dt = 0;
}

abbrev pub stamped : String → SysData → SysData
stamped now s = record s { tmpstr = now }

module _ (env : Env) where
  unfoldable pub samp_handler : SysData → Cmd (SysData × List CpuLine × List CoreLine)
  samp_handler s t =
      (do
        s' ← read_msr_data env.machine (stamped (env.timestamp t) s)
        λ u. command (push_to_broker env.fpu (env.meminfo u) (env.cpu_locals u) s') u)
        t

  abbrev pub allocated : SysData → SysData
  allocated s = record s { cpu_data = env.malloc_cpus s.ncpu; core_data = env.malloc_cores s.ncore }

  unfoldable pub first_sampling : SysData → Cmd SysData
  first_sampling s = do _ ← program_msr env.machine s; read_msr_data_first env.machine s

  unfoldable pub tune : SysData → Cmd SysData
  unfolding first_sampling
  tune s = do
    (status, s') ← detect_nominal_frequency env.machine env.fpu.float_of_u64 s
    if is_negative status then exit 1 else first_sampling (allocated s')

  -- `main` from the detection to the loop
  unfoldable pub set_up : Option (List ℕ) → Option (List ℕ) → SysData → Cmd SysData
  unfolding tune
  set_up model_file topology_file s = do
    (model, s₁) ← command (detect_cpu_model model_file s)
    if is_negative model then exit 1 else (do
      (status, s₂) ← command (detect_topology topology_file s₁)
      if is status 0 then tune s₂ else exit 1)

-- The loop of `main`, with all that it printed, the newest round first.
pub record Loop : Type 0 where
  pub sysd : SysData
  pub trace : Trace
  pub keep_running : Bool
  -- past the test of `keepRunning`, in `my_sleep`
  pub asleep : Bool
  pub screen : List (List CpuLine × List CoreLine)

-- A step is the test of `keepRunning` that goes on to `my_sleep`, the call of `samp_handler` after it,
-- or a signal that calls `sig_handler`. The handler only clears a variable that a sampling does not
-- read, so a signal in a sampling is taken as one after it.
pub data Step (env : Env) : Loop → Loop → Type 0 where
  tests :
      (l : Loop)
      → l.asleep ≡ false
      → l.keep_running ≡ true
      → Step env l (record l { asleep = true })
  round :
      (l : Loop) (s : SysData) (cpus : List CpuLine) (cores : List CoreLine) (t : Trace)
      → l.asleep ≡ true
      → samp_handler env l.sysd l.trace ≡ ret (s, cpus, cores) t
      → Step env l
          (record l { asleep = false; sysd = s; trace = t; screen = (cpus, cores) ∷ l.screen })
  sig_handler : (l : Loop) → Step env l (record l { keep_running = false })

pub data Reach (env : Env) (l : Loop) : Loop → Type 0 where
  here : Reach env l l
  next : {k n : Loop} → Reach env l k → Step env k n → Reach env l n

-- the loop when it is entered
abbrev pub entered : SysData → Trace → Loop
entered s t = record { sysd = s; trace = t; keep_running = true; asleep = false; screen = [] }
