-- ===== src/PowMpi.antt =====
-- powmpi/sensor_read_lib.c: the energy functions of energy-app as powmpi has them, which neither pin
-- the process to the core nor close the descriptor, and the detection. `struct sys_data` is that of
-- energy-app; its further field `initial_mpi_wtime` stands with the process in PowMpi/Process.
pub mod Detect
pub mod Final
pub mod Process
pub mod Report
pub mod World
pub mod Election
use powmon.Base.{
  ℕ, zero, suc, ◌+◌, ltb, ◌==◌, ◌&&◌, if◌then◌else◌, u32, is, Option, none, some, List, ℤ, pos,
  is_positive, minus_one,
}
use powmon.Machine.{Machine, Cmd, pure, ◌>>=◌, ◌>>◌}
use powmon.Clib.{Outcome, lines}
use powmon.Msr.{open_msr, read_msr}
use powmon.Msr.Addresses.{msr_pkg_energy_status, msr_dram_energy_status, haswell_ep}
use powmon.Leaders.{is_leader, for_leaders}
use powmon.PowMon.Sensor.{enable_uclk}
use powmon.EnergyApp.Data.{PerCpuData, SysData}
use powmon.EnergyApp.Program.{program_cores}
use powmon.EnergyApp.{init_package, read_dram, read_package}

-- what a loop does around the work on a package
abbrev pub nothing : ℕ → Cmd (Unit {0})
nothing core = pure tt

module _ (m : Machine) where
  unfoldable pub init_msr_data : SysData → Cmd SysData
  init_msr_data s = do
    cpu_data ←
        for_leaders m s.ncpu s.ncore nothing (init_package m s.dram_supp) (pure tt) s.ncore 0
          s.cpu_data
    pure (record s { cpu_data = cpu_data })

  unfoldable pub read_msr_energy : SysData → Cmd SysData
  read_msr_energy s = do
    cpu_data ←
        for_leaders m s.ncpu s.ncore nothing (read_package m s.dram_supp) (pure tt) s.ncore 0
          s.cpu_data
    pure (record s { cpu_data = cpu_data })

  -- The last value of the package counter goes to its own field, and `pow_pkg` keeps the one before.
  unfoldable pub final_pkg : ℕ → PerCpuData → Cmd PerCpuData
  final_pkg fd c = do
    value ← read_msr m fd msr_pkg_energy_status
    pure (record c {
      pow_pkg_last = c.pow_pkg;
      pow_pkg_final = u32 value;
      pow_pkg_overflow =
          if ltb (u32 value) c.pow_pkg then u32 (c.pow_pkg_overflow + 1) else c.pow_pkg_overflow;
    })

  -- In the first mode the counter is read twice. The `else` belongs to the second `if`.
  unfoldable pub final_drams : ℕ → ℕ → PerCpuData → Cmd PerCpuData
  final_drams fd dram_supp c = do
    c' ←
        if dram_supp == 1
        then (do
          d ← read_dram m fd c
          value ← read_msr m fd msr_dram_energy_status
          pure (record d { pow_dram_c_final = u32 value }))
        else pure c
    if dram_supp == 2
        then (do d ← read_dram m fd c'; pure (record d { pow_dram_c_final = d.pow_dram_c }))
        else pure (record c' { pow_dram_c = 0; pow_dram_c_final = 0 })

  unfoldable pub final_package : ℕ → ℕ → PerCpuData → Cmd PerCpuData
  unfolding final_pkg final_drams
  final_package dram_supp fd c = do c' ← final_pkg fd c; final_drams fd dram_supp c'

  unfoldable pub final_msr_energy : SysData → Cmd SysData
  final_msr_energy s = do
    cpu_data ←
        for_leaders m s.ncpu s.ncore nothing (final_package s.dram_supp) (pure tt) s.ncore 0
          s.cpu_data
    pure (record s { cpu_data = cpu_data })

  unfoldable pub program_msr : SysData → Cmd ℕ
  unfolding program_cores
  program_msr s = program_cores m nothing s.ncore (is s.cpu_model haswell_ep) s.ncore 0
