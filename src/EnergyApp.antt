-- ===== src/EnergyApp.antt =====
-- energy-app/sensor_read_lib.c, which reads the energy counters of the packages before, during and
-- after a program: `init_msr_data`, `read_msr_energy`, `final_msr_energy`;
-- and energy-app/pow_mon.c, which measures one run of a program with them.
pub mod Data
pub mod Detect
pub mod Energy
pub mod Final
pub mod Frequency
pub mod Main
pub mod Overflow
pub mod Program
pub mod Report
pub mod Totals
use powmon.Base.{ℕ, ◌+◌, ◌/◌, ◌^◌, bit_and, ltb, ◌==◌, if◌then◌else◌, u32, sub_u32, ℤ}
use powmon.Machine.{Machine, unpinned, ret, Cmd, pure, ◌>>=◌, ◌>>◌, Trace}
use powmon.Msr.{read_msr, set_cpu_affinity}
use powmon.Msr.Addresses.{msr_rapl_power_unit, msr_pkg_energy_status, msr_dram_energy_status}
use powmon.Leaders.{for_leaders}
use powmon.EnergyApp.Data.{PerCpuData, SysData}
use powmon.Base.{◌∷◌}

-- The mask built there starts from an uninitialised variable, and the result of the call is ignored.
unfoldable pub canc_cpu_affinity : ℕ → Cmd (Unit {0})
canc_cpu_affinity ncore t = ret tt (unpinned ncore ∷ t)

-- `powPkg_diff` and `powDramC_diff` of `show_result`: differences of `unsigned int`s
abbrev pub pkg_diff : PerCpuData → ℕ
pkg_diff c = sub_u32 c.pow_pkg_final c.pow_pkg_init

abbrev pub dram_diff : PerCpuData → ℕ
dram_diff c = sub_u32 c.pow_dram_c_final c.pow_dram_c_init

module _ (m : Machine) where
  abbrev pub pin : ℕ → Cmd (Unit {0})
  pin core = do _ ← set_cpu_affinity m core; pure tt

  -- a DRAM counter read for the first time; `erg_dram` is its energy unit
  unfoldable pub init_dram : ℕ → ℕ → PerCpuData → Cmd PerCpuData
  init_dram fd erg_dram c = do
    value ← read_msr m fd msr_dram_energy_status
    pure (record c {
      pow_dram_c_last = c.pow_dram_c;
      pow_dram_c = u32 value;
      pow_dram_c_init = u32 value;
      erg_dram = erg_dram;
    })

  -- the two `if`s: the `else` belongs to the second
  unfoldable pub init_drams : ℕ → ℕ → PerCpuData → Cmd PerCpuData
  unfolding init_dram
  init_drams fd dram_supp c = do
    c' ← if dram_supp == 1 then init_dram fd c.erg_u c else pure c
    if dram_supp == 2 then init_dram fd 16 c' else pure (record c' { pow_dram_c = 0 })

  unfoldable pub init_package : ℕ → ℕ → PerCpuData → Cmd PerCpuData
  unfolding init_drams
  init_package dram_supp fd c = do
    unit ← read_msr m fd msr_rapl_power_unit
    energy ← read_msr m fd msr_pkg_energy_status
    init_drams fd dram_supp (record c {
      pow_pkg_overflow = 0;
      pow_dram_c_overflow = 0;
      pow_dram_c = 0;
      erg_u = bit_and (unit / 2 ^ 8) 0x1e;
      pow_pkg_last = 0;
      pow_pkg = u32 energy;
      pow_pkg_init = u32 energy;
    })

  unfoldable pub init_msr_data : SysData → Cmd SysData
  init_msr_data s = do
    cpu_data ←
        for_leaders m s.ncpu s.ncore pin (init_package s.dram_supp) (canc_cpu_affinity s.ncore)
          s.ncore 0 s.cpu_data
    pure (record s { cpu_data = cpu_data })

  -- a DRAM counter read again: a value below the last one counts as an overflow
  unfoldable pub read_dram : ℕ → PerCpuData → Cmd PerCpuData
  read_dram fd c = do
    value ← read_msr m fd msr_dram_energy_status
    pure (record c {
      pow_dram_c_last = c.pow_dram_c;
      pow_dram_c = u32 value;
      pow_dram_c_overflow =
          if ltb (u32 value) c.pow_dram_c
          then u32 (c.pow_dram_c_overflow + 1)
          else c.pow_dram_c_overflow;
    })

  unfoldable pub read_drams : ℕ → ℕ → PerCpuData → Cmd PerCpuData
  unfolding read_dram
  read_drams fd dram_supp c = do
    c' ← if dram_supp == 1 then read_dram fd c else pure c
    if dram_supp == 2 then read_dram fd c' else pure (record c' { pow_dram_c = 0 })

  -- the package counter read again
  unfoldable pub read_pkg : ℕ → PerCpuData → Cmd PerCpuData
  read_pkg fd c = do
    value ← read_msr m fd msr_pkg_energy_status
    pure (record c {
      pow_pkg_last = c.pow_pkg;
      pow_pkg = u32 value;
      pow_pkg_overflow =
          if ltb (u32 value) c.pow_pkg then u32 (c.pow_pkg_overflow + 1) else c.pow_pkg_overflow;
    })

  unfoldable pub read_package : ℕ → ℕ → PerCpuData → Cmd PerCpuData
  unfolding read_pkg read_drams
  read_package dram_supp fd c = do c' ← read_pkg fd c; read_drams fd dram_supp c'

  unfoldable pub read_msr_energy : SysData → Cmd SysData
  read_msr_energy s = do
    cpu_data ←
        for_leaders m s.ncpu s.ncore pin (read_package s.dram_supp) (canc_cpu_affinity s.ncore)
          s.ncore 0 s.cpu_data
    pure (record s { cpu_data = cpu_data })

  -- Again the `else` belongs to the second `if`.
  unfoldable pub final_drams : ℕ → ℕ → PerCpuData → Cmd PerCpuData
  unfolding read_dram
  final_drams fd dram_supp c = do
    c' ←
        if dram_supp == 1
        then (do d ← read_dram fd c; pure (record d { pow_dram_c_final = d.pow_dram_c }))
        else pure c
    if dram_supp == 2
        then (do d ← read_dram fd c'; pure (record d { pow_dram_c_final = d.pow_dram_c }))
        else pure (record c' { pow_dram_c = 0; pow_dram_c_final = 0 })

  unfoldable pub final_package : ℕ → ℕ → PerCpuData → Cmd PerCpuData
  unfolding read_pkg final_drams
  final_package dram_supp fd c = do
    c' ← read_pkg fd c
    final_drams fd dram_supp (record c' { pow_pkg_final = c'.pow_pkg })

  unfoldable pub final_msr_energy : SysData → Cmd SysData
  final_msr_energy s = do
    cpu_data ←
        for_leaders m s.ncpu s.ncore pin (final_package s.dram_supp) (canc_cpu_affinity s.ncore)
          s.ncore 0 s.cpu_data
    pure (record s { cpu_data = cpu_data })

-- What `main` does once `sysd` is set up: `now` is the time that `get_timestamp` finds, in
-- microseconds, and `program` the run of the command line by `system`, whose status is not used.
unfoldable pub measure : (Trace → ℤ) → Cmd (Unit {0}) → Machine → SysData → Cmd SysData
measure now program m s = do
  time_us ← λ t. ret (now t) t
  s₁ ← init_msr_data m (record s { time_us_init = time_us })
  program
  time_us' ← λ t. ret (now t) t
  final_msr_energy m (record s₁ { time_us_final = time_us' })
