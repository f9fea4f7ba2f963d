-- ===== src/Tests.antt =====
-- Concrete machines, data and files, and what the theorems say of them. The machine counts up: each
-- register read gives the number of the calls made before it.
pub mod Daemon
pub mod Detection
pub mod Energy
pub mod Loops
pub mod Measure
pub mod NodeSmp
pub mod Options
pub mod Program
pub mod Entered
pub mod Sampling
pub mod SmpMain
pub mod World
use powmon.Base.{
  length-replicate, ◌*◌, ◌-◌, ltb, ℕ, refl, true, none, some, List, [], ◌∷◌, arith, length, pos,
  replicate,
}
use powmon.Machine.{Machine, descriptor}
use powmon.Msr.Laws.{Responsive}
use powmon.Clib.{bytes, lines, scan_after}
use powmon.PowMon.Data.{PerCoreData, PerCpuData, SysData}
use powmon.PowMon.Sensor.Sweep.{IsReady}
use powmon.PowMon.Detect.Range.{FitsTables}
use powmon.PowMon.Start.Ready.{IsMalloc}
use powmon.PowMon.Daemon.{System}
use powmon.Fpu.{Fpu}
use powmon.PowMon.Broker.{CpuLocals, CoreLocals}
use powmon.EnergyApp.Data

abbrev pub counting : Machine
counting = record {
  open_file = λ t core. descriptor (length t);
  pread = λ t fd which. some (length t);
  pwrite = λ t fd which value. true;
  setaffinity = λ t core. true;
  eax = length;
  edx = λ t. 0;
}

pub counting-Responsive : Responsive counting
counting-Responsive = record {
  opens = λ t core. (length t, refl);
  reads = λ t fd which. (length t, refl);
  writes = λ t fd which value. refl;
}

abbrev pub core_data : PerCoreData
core_data = record {
  tsc = 0;
  tsc_last = 0;
  temp = 0;
  instr = 7;
  clk_curr = 0;
  clk_ref = 0;
  instr_last = 0;
  clk_curr_last = 0;
  clk_ref_last = 0;
  c3_last = 0;
  c3 = 0;
  c6_last = 0;
  c6 = 0;
  aperf_last = 0;
  aperf = 0;
  mperf_last = 0;
  mperf = 0;
  tsc_diff = 0;
  instr_diff = 0;
  clk_curr_diff = 0;
  clk_ref_diff = 0;
  c3_diff = 0;
  c6_diff = 0;
  aperf_diff = 0;
  mperf_diff = 0;
  mclk_mhz = 0;
  rclk_mhz = 0;
  cpi = 0;
  ips = 0;
  core_load = 0;
}

abbrev pub cpu_data : PerCpuData
cpu_data = record {
  tsc = 0;
  erg_u = 0;
  pow_pkg_last = 0;
  pow_pkg = 5;
  temp_pkg = 0;
  pow_dram_c_last = 0;
  pow_dram_c = 0;
  uclk_last = 0;
  uclk = 0;
  c2_last = 0;
  c2 = 0;
  c3_last = 0;
  c3 = 0;
  c6_last = 0;
  c6 = 0;
  pow_pkg_diff = 0;
  pow_dram_c_diff = 0;
  uclk_diff = 0;
  c3_diff = 0;
  c6_diff = 0;
  c2_diff = 0;
  pkgpow = 0;
  drampow = 0;
  uclk_mhz = 0;
}

abbrev pub host : ℕ → ℕ → SysData
host ncpu ncore = record {
  ncpu = ncpu;
  ncore = ncore;
  cpu_model = pos 63;
  ht_en = 0;
  nom_freq = 0;
  dram_supp = 1;
  die_temp = replicate 16 0;
  die_temp_en = replicate 16 0;
  cpu_data = replicate ncpu cpu_data;
  core_data = replicate ncore core_data;
  logfile = [];
  tmpstr = "";
  hostid = none;
  topic = some (bytes "lab");
  cmd_topic = none;
  broker_host = none;
  broker_port = pos 1883;
  extra_counters = 1;
  qos = pos 0;
  dt = 0;
}

pub two_sockets-IsReady : IsReady 2 4 (host 2 4)
two_sockets-IsReady = record {
  ncpu_is = refl;
  ncore_is = refl;
  cpus = refl;
  cores = refl;
  dies = refl;
  dies_en = refl;
  fits = omega arith;
  socket = λ _. omega arith;
}

abbrev pub cpuinfo : List ℕ
cpuinfo = bytes "processor\t: 0\nmodel\t\t: 63\nphysical id\t: 0\ncore id\t\t: 0\n"

pub cpuinfo-FitsTables : FitsTables cpuinfo
unfolding lines scan_after
cpuinfo-FitsTables = record {
  processors = (omega arith, tt);
  packages = (omega arith, tt);
  cores = (omega arith, tt);
}

abbrev pub energy_data : Data.PerCpuData
energy_data = record {
  erg_u = 0;
  erg_dram = 0;
  pow_pkg_last = 0;
  pow_pkg = 0;
  pow_pkg_init = 0;
  pow_pkg_final = 0;
  pow_pkg_overflow = 0;
  temp_pkg = 0;
  pow_dram_c_last = 0;
  pow_dram_c = 0;
  pow_dram_c_init = 0;
  pow_dram_c_final = 0;
  pow_dram_c_overflow = 0;
}

-- a unit that keeps only the counts
abbrev pub whole : Fpu
whole = record {
  decimal = λ digits places. digits;
  double_of_u64 = λ n. n;
  double_of_float = λ x. x;
  float_of_double = λ x. x;
  float_of_u64 = λ n. n;
  sub = λ x y. x - y;
  less = λ x y. ltb x y;
  mul = λ x y. x * y;
  div = λ x y. x;
  div_float = λ x y. x;
  double_of_int = λ z. 0;
  float_of_int = λ z. 0;
  pow = λ x y. x;
}

abbrev pub cpu_locals : CpuLocals
cpu_locals = record { uclk_mhz = 1; drampow = 2 }

abbrev pub core_locals : CoreLocals
core_locals = record { aperf_diff = 3; mperf_diff = 4 }

pub replicate-IsMalloc : IsMalloc (λ n. replicate n cpu_data) (λ n. replicate n core_data)
replicate-IsMalloc = record {
  cpus_size = λ n. length-replicate n cpu_data;
  cores_size = λ n. length-replicate n core_data;
}

abbrev pub idle : System
idle = record { pidfile = none; comm = λ pid. none; signals = [] }
