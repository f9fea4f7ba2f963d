-- ===== src/Tests/Program.antt =====
-- The whole of `main` of powmon on a machine whose registers all read the same.
use powmon.Base.{◌*◌, ◌≡◌, refl, true, some, [], replicate, length}
use powmon.Machine.{Machine, Trace, descriptor, ret}
use powmon.Clib.{bytes, scan_after}
use powmon.Msr.Addresses.{max_cores, max_packages}
use powmon.PowMon.Options.{start_up}
use powmon.PowMon.Frequency.{detect_nominal_frequency}
use powmon.Msr.{open_msr, read_msr, set_cpu_affinity, write_msr, read_tsc}
use powmon.PowMon.Sensor.{
  program_msr, enable_uclk, read_msr_data_first, visit_package, read_package, read_die_temp,
  read_dram, read_residency, read_uclk, read_core,
}
use powmon.PowMon.Data.{SysData}
use powmon.PowMon.Daemon.{System, Next}
use powmon.PowMon.Daemonize.{child, daemonize}
use powmon.PowMon.Detect.{physical_tag, core_tag, detect_cpu_model, detect_topology}
use powmon.PowMon.Detect.Topology.{distinct}
use powmon.PowMon.Start.{init_pow_mon, set_up, first_sampling}
use powmon.PowMon.Run.{Env, TimedLoop, TimedReach, here, next, sig_handler, started_loop}
use powmon.PowMon.Run.Timed.{Kept}
use powmon.PowMon.Options.Names.{Up}
use powmon.PowMon.Program.{Site, NamesModel, entry, until_loop, until_loop-Kept}
use powmon.Tests.{core_data, cpu_data, cpuinfo, cpuinfo-FitsTables, replicate-IsMalloc, idle}
use powmon.Tests.Loops.{env}
use powmon.Tests.Options.{ini, args}

abbrev pub steady : Machine
steady = record {
  open_file = λ t core. descriptor 3;
  pread = λ t fd which. some 0x1800;
  pwrite = λ t fd which value. true;
  setaffinity = λ t core. true;
  eax = length;
  edx = λ t. 0;
}

abbrev pub steady_env : Env
steady_env = record env { machine = steady }

abbrev pub site : Site
site = record {
  atof = λ v. 0;
  load = λ path. some ini;
  args = args;
  hostname = bytes "n1";
  system = λ path. idle;
  fork = child;
  pid_opens = true;
  session = true;
  malloc_cpus = λ n. replicate n cpu_data;
  malloc_cores = λ n. replicate n core_data;
  model_file = cpuinfo;
  topology_file = cpuinfo;
}

pub cpuinfo-NamesModel : NamesModel cpuinfo
unfolding detect_cpu_model scan_after
cpuinfo-NamesModel s = (_, refl, refl)

site-runs : (r : SysData × Next × System) × (t : Trace) × (until_loop steady_env site [] ≡ ret r t)
unfolding until_loop start_up set_up detect_cpu_model scan_after detect_topology daemonize
    detect_nominal_frequency open_msr read_msr first_sampling program_msr set_cpu_affinity
    enable_uclk write_msr read_msr_data_first read_tsc visit_package read_package read_die_temp
    init_pow_mon read_dram read_residency read_uclk read_core
site-runs = (_, _, refl)

loop :
    (l : TimedLoop) × TimedReach steady_env
      (started_loop steady_env (entry site-runs.0.0 site-runs.1) true true)
      l
loop = (_, next here (sig_handler _))

until_loop-Kept_example :
    ((s : SysData) × Up steady_env.fpu site.atof site.load site.args site.system site.hostname
        init_pow_mon s
        (site-runs.0.1, site-runs.0.2))
    × Kept
        (distinct physical_tag 3 max_packages cpuinfo)
        (distinct core_tag 3 max_cores cpuinfo * distinct physical_tag 3 max_packages cpuinfo)
        site-runs.1
        loop.0
until_loop-Kept_example =
    until_loop-Kept steady_env site site-runs.0 site-runs.1 true true replicate-IsMalloc
      cpuinfo-NamesModel cpuinfo-FitsTables site-runs.2 loop.1
