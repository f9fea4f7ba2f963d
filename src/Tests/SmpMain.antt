-- ===== src/Tests/SmpMain.antt =====
-- The whole of pow_node_smp on a machine whose registers all read the same.
use powmon.Base.{◌*◌, ◌≡◌, refl, [], ◌∷◌, length-replicate}
use powmon.Machine.{Trace, ret}
use powmon.Clib.{bytes, scan_after}
use powmon.Msr.{open_msr, read_msr, set_cpu_affinity, write_msr, read_tsc}
use powmon.Msr.Addresses.{max_cores, max_packages}
use powmon.PowMon.Detect.{physical_tag, core_tag}
use powmon.PowMon.Detect.Topology.{distinct}
use powmon.NodeSmp.Data.{SysData}
use powmon.NodeSmp.Detect.{detect_cpu_model, detect_topology}
use powmon.NodeSmp.Frequency.{detect_nominal_frequency}
use powmon.NodeSmp.Program.{program_msr}
use powmon.NodeSmp.Sensor.{
  read_msr_data_first, read_package, read_die_temp, read_unit, read_dram, read_uclk, read_core,
  read_performance,
}
use powmon.PowMon.Sensor.{enable_uclk}
use powmon.Sweep.{every_core}
use powmon.Clib.{ok}
use powmon.NodeSmp.Main.{Site, parse, until_loop}
use powmon.NodeSmp.Main.Returns.{Rounds, until_loop-Rounds}
use powmon.Tests.Entered.{steady-Responsive, steady-HasRatio}
use powmon.NodeSmp.Main.Started.{IsMalloc}
use powmon.NodeSmp.Main.Whole.{NamesModel, Monitors, until_loop-Monitors}
use powmon.NodeSmp.Run.{
  Env, set_up, first_sampling, init_pow_mon, Loop, Reach, here, next, sig_handler, entered,
}
use powmon.NodeSmp.Run.Round.{IsReadable}
use powmon.Tests.{cpuinfo, cpuinfo-FitsTables}
use powmon.Tests.NodeSmp.{env, memory-read, core, cpu}
use powmon.Tests.Program.{steady}

abbrev steady_env : Env
steady_env = record env { machine = steady }

steady_env-IsReadable : IsReadable steady_env
steady_env-IsReadable t = ((bytes "total", bytes "free"), memory-read)

steady_env-IsMalloc : IsMalloc steady_env
steady_env-IsMalloc = record {
  cpus_size = λ n. length-replicate n cpu;
  cores_size = λ n. length-replicate n core;
}

abbrev site : Site
site = record {
  atof = λ v. 2;
  args = bytes "-s" ∷ bytes "2" ∷ [];
  model_file = cpuinfo;
  topology_file = cpuinfo;
}

cpuinfo-NamesModel : NamesModel cpuinfo
unfolding detect_cpu_model scan_after
cpuinfo-NamesModel s = (_, refl, refl)

site-runs : (s : SysData) × (t : Trace) × (until_loop steady_env site [] ≡ ret s t)
unfolding until_loop set_up init_pow_mon detect_cpu_model scan_after detect_topology
    detect_nominal_frequency open_msr read_msr program_msr set_cpu_affinity enable_uclk write_msr
    read_msr_data_first every_core read_tsc read_package read_die_temp first_sampling read_unit
    read_dram read_uclk read_core read_performance
site-runs = (_, _, refl)

loop : (l : Loop) × Reach steady_env (entered site-runs.0 site-runs.1) l
loop = (_, next here (sig_handler _))

until_loop-Monitors_example :
    Monitors
      (distinct physical_tag 3 max_packages cpuinfo)
      (distinct core_tag 3 max_cores cpuinfo * distinct physical_tag 3 max_packages cpuinfo)
      site-runs.0
      site-runs.1
      loop.0
until_loop-Monitors_example =
    until_loop-Monitors steady_env site steady_env-IsMalloc steady_env-IsReadable cpuinfo-NamesModel
      cpuinfo-FitsTables site-runs.0 site-runs.1 site-runs.2 loop.1

-- the data after the options
abbrev set : SysData
set = record init_pow_mon { dt = env.fpu.float_of_double 2 }

site-parses : parse env.fpu site.atof site.args (record init_pow_mon { dt = 0x3f800000 }) ≡ ok set
unfolding parse
site-parses = refl

until_loop-Rounds_example :
    (s : SysData) × (t : Trace) × (until_loop steady_env site [] ≡ ret s t)
    × (r : Rounds steady_env s t 3) × Monitors
        (distinct physical_tag 3 max_packages cpuinfo)
        (distinct core_tag 3 max_cores cpuinfo * distinct physical_tag 3 max_packages cpuinfo)
        s
        t
        r.loop
until_loop-Rounds_example =
    until_loop-Rounds steady_env site steady_env-IsMalloc steady_env-IsReadable cpuinfo-NamesModel
      cpuinfo-FitsTables steady-Responsive steady-HasRatio set 3 site-parses
