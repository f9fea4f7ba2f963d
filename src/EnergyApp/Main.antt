-- ===== src/EnergyApp/Main.antt =====
-- `main` and `show_result` of energy-app/pow_mon.c. The floating-point unit is a parameter, and so is
-- the program that `system` runs for a command line.
pub mod Reported
use powmon.Base.{
  ℕ, ◌||◌, ◌==◌, if◌then◌else◌, Option, some, List, [], ◌∷◌, ◌++◌, ℤ, pos, is, is_negative,
  minus_one,
}
use powmon.Machine.{Machine, Trace, Cmd, exit, pure, ◌>>=◌, ◌>>◌}
use powmon.Fpu.{Fpu, Float}
use powmon.PowMon.Start.{command}
use powmon.EnergyApp.{measure, pkg_diff, dram_diff}
use powmon.EnergyApp.Data.{PerCpuData, SysData}
use powmon.EnergyApp.Detect.{detect_cpu_model, detect_topology}
use powmon.EnergyApp.Program.{program_msr}
use powmon.EnergyApp.Report.{command_line, PackageLine, show_result}

-- The interval is 1.0; the rest is cleared.
unfoldable pub init_pow_mon : SysData
init_pow_mon = record {
  ncpu = 0;
  ncore = 0;
  cpu_model = minus_one;
  ht_en = 0;
  nom_freq = 0;
  dram_supp = 0;
  cpu_data = [];
  dt = 0x3f800000;
  tmpstr = "";
  time_us = pos 0;
  time_us_init = pos 0;
  time_us_final = pos 0;
}

-- what a process finds on its machine
pub record Node : Type 0 where
  pub machine : Machine
  pub model_file : List ℕ
  pub topology_file : List ℕ
  pub malloc_cpus : ℕ → List PerCpuData
  -- the time in microseconds, at a point of the run
  pub now : Trace → ℤ

module _ (node : Node) where
  abbrev pub allocated : SysData → SysData
  allocated s = record s { cpu_data = node.malloc_cpus s.ncpu }

module _ (fpu : Fpu) (node : Node) (system : List ℕ → Cmd (Unit {0})) where
  -- from the programming of the uncore clock to the printed lines
  unfoldable pub measured : List ℕ → SysData → Cmd (List PackageLine)
  measured line s = do
    _ ← program_msr node.machine s
    s' ← measure node.now (system line) node.machine s
    λ t. command (show_result fpu s') t

  unfoldable pub main : List (List ℕ) → Cmd (List PackageLine)
  unfolding measured
  main args = do
    line ← command (command_line args)
    (model, s₁) ← command (detect_cpu_model (some node.model_file) init_pow_mon)
    if is_negative model then exit 1 else (do
      (status, s₂) ← command (detect_topology (some node.topology_file) s₁)
      if is status 0 then measured line (allocated node s₂) else exit 1)
