-- ===== src/Tests/NodeSmp.antt =====
-- pow_node_smp on a machine of two sockets with four cores.
use powmon.Base.{◌≡◌, refl, some, List, [], pos, replicate, arith}
use powmon.Machine.Rules.{Runs}
use powmon.Clib.{ok, bytes, fgets}
use powmon.Msr.Laws.{Stopped}
use powmon.NodeSmp.Data.{PerCoreData, PerCpuData, SysData}
use powmon.NodeSmp.Screen.{CpuLine, CoreLine, memory_lines, chopped, push_to_broker}
use powmon.NodeSmp.Screen.Shown.{Printed, push_to_broker-Printed}
use powmon.NodeSmp.Sensor.{read_msr_data}
use powmon.NodeSmp.Sensor.Sampling.{IsReady, Swept, read_msr_data-Swept}
use powmon.NodeSmp.Run.{Env}
use powmon.NodeSmp.Run.Round.{IsReadable}
use powmon.Tests.{counting, whole, cpu_locals}

abbrev pub core : PerCoreData
core = record {
  tsc = 0;
  tsc_last = 0;
  temp = 0;
  instr = 7;
  clk_curr = 0;
  clk_ref = 0;
  instr_last = 0;
  clk_curr_last = 0;
  clk_ref_last = 0;
  aperf_last = 3;
  aperf = 0;
  mperf_last = 4;
  mperf = 0;
  tsc_diff = 0;
  instr_diff = 0;
  clk_curr_diff = 0;
  clk_ref_diff = 0;
  aperf_diff = 0;
  mperf_diff = 0;
  rclk_mhz = 0;
  cpi = 0;
  ips = 0;
  core_load = 0;
}

abbrev pub cpu : PerCpuData
cpu = record {
  tsc = 0;
  erg_u = 0;
  pow_pkg_last = 0;
  pow_pkg = 5;
  temp_pkg = 0;
  pow_dram_c_last = 0;
  pow_dram_c = 0;
  uclk_last = 0;
  uclk = 0;
  pow_pkg_diff = 0;
  pow_dram_c_diff = 0;
  uclk_diff = 0;
  pkgpow = 0;
  drampow = 0;
  uclk_mhz = 0;
}

abbrev node : SysData
node = record {
  ncpu = 2;
  ncore = 4;
  cpu_model = pos 63;
  ht_en = 0;
  nom_freq = 0;
  dram_supp = 1;
  die_temp = replicate 16 0;
  die_temp_en = replicate 16 0;
  cpu_data = replicate 2 cpu;
  core_data = replicate 4 core;
  tmpstr = "";
  extra_counters = 1;
  dt = 0;
}

node-IsReady : IsReady node
node-IsReady = record {
  cpus = refl;
  cores = refl;
  dies = refl;
  dies_en = refl;
  fits = omega arith;
  socket = λ _. omega arith;
}

abbrev pub env : Env
env = record {
  machine = counting;
  fpu = whole;
  timestamp = λ t. "1.000";
  meminfo = λ t. some (bytes "total\nfree\n");
  cpu_locals = λ t. cpu_locals;
  malloc_cpus = λ n. replicate n cpu;
  malloc_cores = λ n. replicate n core;
}

pub memory-read : memory_lines (some (bytes "total\nfree\n")) ≡ ok (bytes "total", bytes "free")
unfolding memory_lines fgets chopped
memory-read = refl

env-IsReadable : IsReadable env
env-IsReadable t = ((bytes "total", bytes "free"), memory-read)

read_msr_data-Swept_example :
    Runs (Swept node []) (Stopped counting) (read_msr_data counting node [])
read_msr_data-Swept_example = read_msr_data-Swept counting node [] node-IsReady tt

push_to_broker-Printed_example :
    (s' : SysData) × (cpus : List CpuLine) × (cores : List CoreLine) × (push_to_broker whole
        (env.meminfo [])
        cpu_locals
        node
      ≡ ok (s', cpus, cores))
    × Printed whole node s' cpus cores
push_to_broker-Printed_example =
    push_to_broker-Printed whole (env.meminfo []) (bytes "total", bytes "free") cpu_locals node
      memory-read refl refl
